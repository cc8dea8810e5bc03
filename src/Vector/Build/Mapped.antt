-- ===== src/Vector/Build/Mapped.antt =====
-- teds_vector.c: map and filter make the vector of the mapped and of the kept values.
use mathlib.Core.List.{map, append-nil, append_assoc}
use pecl_teds.Base.{
  ℕ, suc, ◌+◌, ◌<◌, ◌≤◌, ◌≡◌, refl, sym, ap, false, List, [], ◌∷◌, ◌++◌, length, length-append,
  get_elem?, get_elem?-append, get_elem?-end, arith, ◌==◌,
}
use pecl_teds.Run.{Run, ok, Returns, returns, Returns-bind}
use pecl_teds.Memory.{Block, malloc, update}
use pecl_teds.Memory.Laws.{store-ok}
use pecl_teds.Util.Range.{From, From-load, From-next}
use pecl_teds.Vector.{Entries, Holds}
use pecl_teds.Vector.Keys.Laws.{Holds-From}
use pecl_teds.Vector.Build.{fresh, map_loop, map_values}
use pecl_teds.Vector.Build.Filled.{Exact, Exact-new, Exact-empty}

module _ {A : Type 0} where
  -- The values written so far, from the start of the block on.
  pub record Written (q : List A) (b : Block A) : Type 0 where
    pub fits : length q ≤ b.alloc
    pub cells : (i : ℕ) → i < length q → b.cell i ≡ get_elem? q i

  pub Written-store :
      (q : List A) (b : Block A) (x : A)
      → Written q b
      → length q < b.alloc
      → Written (q ++ x ∷ []) (record b { cell = update b.cell (length q) x })
  Written-store q b x w room = record {
    fits = omega (arith, length-append q (x ∷ []));
    cells = λ i lt. ground (
      arith,
      w.cells i,
      get_elem?-append q (x ∷ []) i,
      get_elem?-end q x,
      length-append q (x ∷ []),
    );
  }

  pub length-mapped : {B : Type 0} (f : A → B) (q : List A) → length (map f q) ≡ length q
  length-mapped f [] = refl
  length-mapped f (x ∷ q) = ap suc (length-mapped f q)

  module _ (f : A → A) (callback : A → Run A) (total : (a : A) → callback a ≡ ok (f a)) where
    map_loop_lem :
        (q done : List A) (from entries : Block A)
        → From from (length done) q
        → Written done entries
        → length done + length q ≤ entries.alloc
        → Returns
            (λ b. (b.alloc ≡ entries.alloc) × Written (done ++ map f q) b)
            (map_loop callback from (length done) (length q) entries)
    unfolding map_loop
    map_loop_lem [] done from entries v w room = returns (refl, rw append-nil w)
    map_loop_lem (x ∷ q) done from entries v w room =
        let stored : Block A = record entries { cell = update entries.cell (length done) (f x) } in
        let next : length (done ++ f x ∷ []) ≡ length done + 1 = length-append done (f x ∷ []) in
        rw
          (
            From-load from (length done) x q v,
            total x,
            store-ok entries (length done) (f x) (omega arith),
            ← next,
            ← append_assoc done (f x ∷ []) (map f q),
          )
          (map_loop_lem q (done ++ f x ∷ []) from stored
            (rw next (From-next from (length done) x q v))
            (Written-store done entries (f x) w (omega arith)) (omega (arith, next)))

    -- Vector::map on a vector that holds a list, with a callback that always returns, makes a
    -- vector that holds the returned values in the order of the list, and has no capacity to
    -- spare.
    pub map_values-Exact :
        (vector : Entries A) (q : List A)
        → Holds vector q
        → Returns (Exact (map f q)) (map_values callback vector)
    unfolding map_values
    map_values-Exact vector [] h = rw h.count (returns (Exact-empty fresh))
    map_values-Exact vector (x ∷ q) h =
        let some_yet : (length (x ∷ q) == 0) ≡ false = ground arith in
        rw (h.count, some_yet)
          (Returns-bind
            (map_loop_lem (x ∷ q) [] vector.entries (malloc (length (x ∷ q)))
              (Holds-From vector (x ∷ q) h)
              (record { fits = omega arith; cells = λ i lt. absurd (omega arith) }) (omega arith))
            λ b (alloc, w). returns (
              Exact-new fresh (map f (x ∷ q)) b _ false [] (sym (length-mapped f (x ∷ q))) alloc
                w.cells))
