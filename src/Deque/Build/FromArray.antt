-- ===== src/Deque/Build/FromArray.antt =====
-- A Deque made of an array holds its values.
use native.Mathlib.Nat.{mod-eq_of_lt}
use pecl_teds.Base.{
  ℕ, ◌+◌, ◌-◌, ◌^◌, ◌<◌, ◌≤◌, ◌≡◌, refl, ap, ◌∙◌, Bool, List, [], ◌∷◌, length, get_elem?, arith,
  false,
}
use pecl_teds.Machine.{u32, IsPow2}
use pecl_teds.Run.{Returns, returns, Returns-bind}
use pecl_teds.Memory.{Block, malloc}
use pecl_teds.Memory.Copy.{Filled, fill_lem}
use pecl_teds.Util.{deque_next_pow2_capacity}
use pecl_teds.Deque.{Deque, get_capacity, Holds}
use pecl_teds.Deque.Storage.Grow.{capacity_of_mask}
use pecl_teds.Util.Limit.{deque_next_pow2_capacity_lem}
use pecl_teds.Deque.Build.{fresh, emptied, init_from_array, set_state}

module _ {A : Type 0} where
  -- A block with the values at its start, under the mask of a capacity.
  pub Holds-straight :
      (d : Deque A) (q : List A) (c m n : ℕ) (b : Block A) (null : Bool)
      → IsPow2 c
      → 2 ≤ c
      → c ≤ 2 ^ 31
      → c ≤ b.alloc
      → length q ≤ c
      → m ≡ c - 1
      → n ≡ length q
      → ((i : ℕ) → i < length q → b.cell i ≡ get_elem? q i)
      → Holds (record d { null = null; buffer = b; size = n; mask = m; offset = 0 }) q
  Holds-straight d q c m n b null p two small room fits em en cells =
      let whole : m + 1 ≡ c = omega arith in
      let cap =
        capacity_of_mask (record d { null = null; buffer = b; size = n; mask = m; offset = 0 })
          (omega arith) (omega arith) in
      record {
        valid = record {
          pow2 = rw whole p;
          bounded = omega arith;
          offset_in = omega arith;
          size_in = rw cap (omega arith);
          alloc_in = rw cap (omega arith);
        };
        count = en;
        cells = λ i lt.
            ap b.cell (mod-eq_of_lt {n = 0 + i} {m = m + 1} (omega arith) ∙ omega arith)
            ∙ cells i lt;
      }

  pub Holds-emptied : (d : Deque A) → Holds (emptied d) []
  unfolding get_capacity
  Holds-emptied d = record {
    valid = record {
      pow2 = (0, refl);
      bounded = omega arith;
      offset_in = omega arith;
      size_in = omega arith;
      alloc_in = omega arith;
    };
    count = refl;
    cells = λ i lt. absurd (omega arith);
  }

  pub Holds-fresh : Holds {A = A} fresh []
  unfolding get_capacity
  Holds-fresh = record {
    valid = record {
      pow2 = (0, refl);
      bounded = omega arith;
      offset_in = omega arith;
      size_in = omega arith;
      alloc_in = omega arith;
    };
    count = refl;
    cells = λ i lt. absurd (omega arith);
  }

  -- A block of that capacity with the values at its start.
  pub Filled-straight :
      (d : Deque A) (q : List A) (m n : ℕ) (null : Bool) (b : Block A)
      → length q ≤ 2 ^ 31
      → Filled (malloc (deque_next_pow2_capacity (length q))) 0 q b
      → m ≡ deque_next_pow2_capacity (length q) - 1
      → n ≡ length q
      → Holds (record d { null = null; buffer = b; size = n; mask = m; offset = 0 }) q
  Filled-straight d q m n null b small f em en =
      let c = deque_next_pow2_capacity_lem (length q) small in
      Holds-straight d q (deque_next_pow2_capacity (length q)) m n b null c.pow2
        (omega (arith, c.floor)) c.bounded (omega (arith, f.same_size)) c.room em en
        (λ i lt. let back : i - 0 ≡ i = omega arith in f.cells i ∙ rw back (ground arith))

  -- __construct from an array of at most 2 ^ 31 values returns a consistent deque that holds its
  -- values in their order.
  pub init_from_array_lem :
      (d : Deque A) (q : List A)
      → length q ≤ 2 ^ 31
      → Returns (λ e. Holds e q) (init_from_array d q)
  unfolding init_from_array
  init_from_array_lem d [] small = returns (Holds-emptied d)
  init_from_array_lem d (x ∷ xs) small =
      let c = deque_next_pow2_capacity_lem (length (x ∷ xs)) small in
      let narrow : u32 (deque_next_pow2_capacity (length (x ∷ xs)))
          ≡ deque_next_pow2_capacity (length (x ∷ xs)) =
        omega (arith, c.bounded) in
      rw narrow (
        Returns-bind
          (fill_lem (x ∷ xs) (malloc (deque_next_pow2_capacity (length (x ∷ xs)))) 0
            (omega (arith, c.room)))
          λ b f. returns (
            Filled-straight d (x ∷ xs) _ _ false b small f (omega (arith, c.floor, c.bounded))
              (omega arith)))

  -- __set_state with at most 2 ^ 31 values returns a consistent deque that holds them in their
  -- order.
  pub set_state_lem : (q : List A) → length q ≤ 2 ^ 31 → Returns (λ e. Holds e q) (set_state q)
  unfolding set_state
  set_state_lem [] small = returns Holds-fresh
  set_state_lem (x ∷ xs) small =
      let c = deque_next_pow2_capacity_lem (length (x ∷ xs)) small in
      Returns-bind
        (fill_lem (x ∷ xs) (malloc (deque_next_pow2_capacity (length (x ∷ xs)))) 0
          (omega (arith, c.room)))
        λ b f. returns (
          Filled-straight fresh (x ∷ xs) _ _ false b small f (omega (arith, c.floor, c.bounded))
            (omega arith))
