-- ===== src/Deque/Build/Serialized.antt =====
-- A Deque made of what was serialized holds its values, and a deque is made once.
use pecl_teds.Base.{
  ℕ, suc, ◌+◌, ◌-◌, ◌^◌, ◌≤◌, ◌≡◌, refl, sym, ap, subst, ◌∙◌, Bool, List, [], ◌∷◌, ◌++◌, Option,
  length, length-append, arith, true, false,
}
use mathlib.Core.List.{map}
use pecl_teds.Machine.{u32}
use pecl_teds.Run.{
  Run, ok, throw, fatal, asserted, fault, out_of_fuel, runtime, unexpected_value, Returns, returns,
  Returns-bind, ◌>>=◌,
}
use pecl_teds.Memory.{Block, malloc, fill, store}
use pecl_teds.Memory.Laws.{store-ok}
use pecl_teds.Memory.Copy.{Filled, fill_lem}
use pecl_teds.Util.{deque_next_pow2_capacity}
use pecl_teds.Deque.{Deque, Holds}
use pecl_teds.Util.Limit.{deque_next_pow2_capacity_lem}
use pecl_teds.Iterable.{Iterable}
use pecl_teds.Deque.Build.{unserialize_loop, unserialize, construct}
use pecl_teds.Deque.Build.FromArray.{Holds-emptied, Filled-straight}

module _ {A : Type 0} where
  length-keyed : (q : List A) → length (map {B = Bool × A} (λ x. (false, x)) q) ≡ length q
  length-keyed [] = refl
  length-keyed (x ∷ xs) = ap suc (length-keyed xs)

  -- The loop over entries without string keys is the plain one.
  unserialize_loop-fill :
      (q : List A) (b : Block A) (it : ℕ)
      → unserialize_loop b it (map (λ x. (false, x)) q)
        ≡ (fill b it q >>= λ c. ok (c, it + length q))
  unfolding unserialize_loop fill
  unserialize_loop-fill [] b it = ap (λ t. ok (b, t)) (omega arith)
  unserialize_loop-fill (x ∷ xs) b it =
      after
        (λ c.
          unserialize_loop-fill xs c (it + 1)
          ∙ ap (λ t. fill c (it + 1) xs >>= λ g. ok (g, t)) (omega arith))
        (store b it x)
    where
      after :
          ((c : Block A)
            → unserialize_loop c (it + 1) (map (λ x. (false, x)) xs)
              ≡ (fill c (it + 1) xs >>= λ g. ok (g, it + length (x ∷ xs))))
          → (r : Run (Block A))
          → (r >>= λ c. unserialize_loop c (it + 1) (map (λ x. (false, x)) xs))
            ≡ ((r >>= λ c. fill c (it + 1) xs) >>= λ c. ok (c, it + length (x ∷ xs)))
      after ih (ok c) = ih c
      after ih (throw e) = refl
      after ih fatal = refl
      after ih asserted = refl
      after ih fault = refl
      after ih out_of_fuel = refl

  fill_counted :
      (q : List A) (b : Block A)
      → length q ≤ b.alloc
      → Returns
          (λ (r : Block A × ℕ). Filled b 0 q r.0 × (r.1 ≡ length q))
          (fill b 0 q >>= λ c. ok (c, 0 + length q))
  fill_counted q b room =
      Returns-bind (fill_lem q b 0 (omega arith)) λ c f. returns (f, omega arith)

  -- __unserialize on a new deque, with at most 2 ^ 31 values whose keys are not strings, returns
  -- a consistent deque that holds the values in their order.
  pub unserialize_lem :
      (d : Deque A) (q : List A)
      → d.null ≡ true
      → d.offset ≡ 0
      → length q ≤ 2 ^ 31
      → Returns (λ e. Holds e q) (unserialize d (map (λ x. (false, x)) q))
  unfolding unserialize
  unserialize_lem d [] new front small = rw new (returns (Holds-emptied d))
  unserialize_lem d (x ∷ xs) new front small =
      let c = deque_next_pow2_capacity_lem (length (x ∷ xs)) small in
      let narrow : u32 (deque_next_pow2_capacity (length (x ∷ xs)))
          ≡ deque_next_pow2_capacity (length (x ∷ xs)) =
        omega (arith, c.bounded) in
      let keyed : length ((false, x) ∷ map (λ x. (false, x)) xs) ≡ length (x ∷ xs) =
        ap suc (length-keyed xs) in
      rw
        (
          new,
          ap deque_next_pow2_capacity keyed,
          narrow,
          unserialize_loop-fill (x ∷ xs) (malloc (deque_next_pow2_capacity (length (x ∷ xs)))) 0,
        )
        (Returns-bind
          (fill_counted (x ∷ xs) (malloc (deque_next_pow2_capacity (length (x ∷ xs))))
            (omega (arith, c.room)))
          λ (b, it) (f, count). returns (
            subst
              (λ t.
                Holds
                  (record {
                    null = false;
                    buffer = b;
                    size = u32 it;
                    mask = u32 (deque_next_pow2_capacity (length (x ∷ xs)) + 2 ^ 32 - 1);
                    offset = t;
                    iterators = d.iterators;
                  })
                  (x ∷ xs))
              (sym front)
              (Filled-straight d (x ∷ xs) _ _ false b small f (omega (arith, c.floor, c.bounded))
                (omega arith))))

  unserialize_loop-throw :
      (q : List A) (x : A) (more : List (Bool × A)) (b : Block A) (it : ℕ)
      → it + length q ≤ b.alloc
      → unserialize_loop b it (map (λ x. (false, x)) q ++ (true, x) ∷ more) ≡ throw unexpected_value
  unfolding unserialize_loop
  unserialize_loop-throw [] x more b it room = refl
  unserialize_loop-throw (y ∷ ys) x more b it room =
      rw (store-ok b it y (omega arith)) (unserialize_loop-throw ys x more _ (it + 1) (omega arith))

  -- __unserialize on a new deque, with at most 2 ^ 31 entries, throws if the first string key
  -- comes after any number of entries without one.
  pub unserialize-throw :
      (d : Deque A) (q : List A) (x : A) (more : List (Bool × A))
      → d.null ≡ true
      → length q + 1 + length more ≤ 2 ^ 31
      → unserialize d (map (λ x. (false, x)) q ++ (true, x) ∷ more) ≡ throw unexpected_value
  unfolding unserialize
  unserialize-throw d [] x more new small = rw (
    new,
    unserialize_loop-throw [] x more
        (malloc (u32 (deque_next_pow2_capacity (length ((true, x) ∷ more))))) 0 (omega arith),
  )
  unserialize-throw d (y ∷ ys) x more new small =
      let raw : List (Bool × A) = (false, y) ∷ map (λ x. (false, x)) ys ++ (true, x) ∷ more in
      let total : length raw ≡ length (y ∷ ys) + 1 + length more = omega (
        arith,
        length-append (map (λ x. (false, x)) (y ∷ ys)) ((true, x) ∷ more),
        length-keyed (y ∷ ys),
      ) in
      let c = deque_next_pow2_capacity_lem (length raw) (omega arith) in
      rw (
        new,
        unserialize_loop-throw (y ∷ ys) x more
            (malloc (u32 (deque_next_pow2_capacity (length raw)))) 0
            (omega (arith, c.room, c.bounded)),
      )

  -- On a deque that has its buffer, empty or not, __construct throws whatever it is given, and so
  -- does __unserialize.
  pub construct-throw :
      (d : Deque A) (iterable : Option (Iterable A)) (raw_data : List (Bool × A))
      → d.null ≡ false
      → (construct d iterable ≡ throw runtime) × (unserialize d raw_data ≡ throw runtime)
  unfolding construct unserialize
  construct-throw d iterable raw_data e = (rw e, rw e)
