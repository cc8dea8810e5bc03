-- ===== src/Deque/Build/FromTraversable.antt =====
-- A Deque made of an iterator holds the values that it gave, in a buffer that grew by doubling.
use mathlib.Core.List.{append-nil, append_assoc}
use pecl_teds.Base.{
  ℕ, ◌+◌, ◌-◌, ◌*◌, ◌^◌, ◌<◌, ◌≤◌, ◌≡◌, refl, ◌∙◌, ◌⊎◌, inl, inr, List, [], ◌∷◌, ◌++◌, length,
  length-append, get_elem?, get_elem?-append, arith, leb, ltb, leb→le, leb→lt, ◌==◌, if◌then◌else◌,
  Bool, true, false, ℕ_discrete,
}
use pecl_teds.Machine.{u32, u64, IsPow2}
use pecl_teds.Run.{Returns, returns, Returns-bind, Returns-if}
use pecl_teds.Memory.{Block, no_block, malloc, realloc, update}
use pecl_teds.Memory.Laws.{store-ok}
use pecl_teds.Deque.{Deque, get_capacity, Holds}
use pecl_teds.Iterable.{values}
use pecl_teds.Deque.Build.{collect, init_from_traversable}
use pecl_teds.Deque.Add.Single.{double-IsPow2}
use pecl_teds.Deque.Build.FromArray.{Holds-straight}

module _ {A : Type 0} where
  -- The loop has copied `q` to the start of a block of a capacity that is 0 or a power of two.
  record Collected (q : List A) (b : Block A) (size capacity : ℕ) : Type 0 where
    count : size ≡ length q
    alloc : b.alloc ≡ capacity
    pow2 : (capacity ≡ 0) ⊎ (IsPow2 capacity × (4 ≤ capacity))
    fits : size ≤ capacity
    bounded : capacity ≤ 2 ^ 31
    cells : (i : ℕ) → i < length q → b.cell i ≡ get_elem? q i

  Collected-store :
      (q : List A) (b : Block A) (capacity : ℕ) (x : A)
      → b.alloc ≡ capacity
      → IsPow2 capacity
      → 4 ≤ capacity
      → length q < capacity
      → capacity ≤ 2 ^ 31
      → ((i : ℕ) → i < length q → b.cell i ≡ get_elem? q i)
      → Collected
          (q ++ x ∷ [])
          (record b { cell = update b.cell (length q) x })
          (u32 (length q + 1))
          capacity
  Collected-store q b capacity x alloc p four room small cells = record {
    count = omega (arith, length-append q (x ∷ []));
    alloc = alloc;
    pow2 = inr (p, four);
    fits = omega arith;
    bounded = small;
    cells = λ i lt. elim (ℕ_discrete i (length q)) [
      | yes e ↦
          let zeros : i - length q ≡ 0 = omega arith in
          rw (get_elem?-append q (x ∷ []) i, zeros) (ground arith)
      | no ne ↦ ground (arith, cells i, get_elem?-append q (x ∷ []) i, length-append q (x ∷ []))
    ];
  }

  grown_cells :
      (q : List A) (b : Block A) (c : ℕ)
      → b.alloc ≡ length q
      → length q ≤ c
      → ((i : ℕ) → i < length q → b.cell i ≡ get_elem? q i)
      → (i : ℕ) → i < length q
      → (realloc b c).cell i ≡ get_elem? q i
  unfolding realloc
  grown_cells q b c alloc more cells i lt = ground (arith, cells i)

  -- One value more, in the buffer or in one of twice its size.
  collect_step :
      (q : List A) (b : Block A) (size capacity : ℕ) (x : A) (xs : List A)
      {P : Block A × ℕ × ℕ → Type 0}
      → Collected q b size capacity
      → length q < 2 ^ 31
      → ((c : Block A) (n k : ℕ) → Collected (q ++ x ∷ []) c n k → Returns P (collect c n k xs))
      → Returns P (collect b size capacity (x ∷ xs))
  unfolding collect realloc
  collect_step q b size capacity x xs k small next =
      Returns-if (leb capacity size)
        (λ full. elim k.pow2 [
          | inl nil ↦
              let zeros : (capacity == 0) ≡ true = ground arith in
              let empty : length q ≡ 0 = omega (arith, k.fits, k.count) in
              rw (zeros, k.count, store-ok (malloc 4) (length q) x (omega arith))
                (next _ _ 4 (
                  Collected-store q (malloc 4) 4 x refl (2, refl) (omega arith) (omega arith)
                    (omega arith) (λ i lt. absurd (omega arith))))
          | inr (p, four) ↦
              let some_yet : (capacity == 0) ≡ false = ground arith in
              let exact : capacity ≡ length q = omega (arith, leb→le _ _ full, k.fits, k.count) in
              let (p', half) = double-IsPow2 capacity (2 ^ 31) p (31, refl) (omega arith) in
              let wide : u64 (capacity * 2) ≡ capacity * 2 = omega arith in
              rw
                (
                  some_yet,
                  wide,
                  k.count,
                  store-ok (realloc b (capacity * 2)) (length q) x (omega arith),
                )
                (next _ _ (capacity * 2) (
                  Collected-store q (realloc b (capacity * 2)) (capacity * 2) x refl p'
                    (omega arith) (omega arith) half
                    (grown_cells q b (capacity * 2) (k.alloc ∙ exact) (omega arith) k.cells)))
        ])
        (λ spare. elim k.pow2 [
          | inl nil ↦ absurd (omega (arith, leb→lt _ _ spare))
          | inr (p, four) ↦
              rw
                (
                  k.count,
                  store-ok b (length q) x (omega (arith, leb→lt _ _ spare, k.count, k.alloc)),
                )
                (next _ _ capacity (
                  Collected-store q b capacity x k.alloc p four
                    (omega (arith, leb→lt _ _ spare, k.count)) k.bounded k.cells))
        ])

  collect_lem :
      (xs q : List A) (b : Block A) (size capacity : ℕ)
      → Collected q b size capacity
      → length q + length xs ≤ 2 ^ 31
      → Returns
          (λ (r : Block A × ℕ × ℕ). Collected (q ++ xs) r.0 r.1 r.2)
          (collect b size capacity xs)
  unfolding collect
  collect_lem [] q b size capacity k small = returns (rw append-nil k)
  collect_lem (x ∷ xs) q b size capacity k small =
      collect_step q b size capacity x xs k (omega arith) λ c n k' more.
        rw (← append_assoc q (x ∷ []) xs)
          (collect_lem xs (q ++ x ∷ []) c n k' more (omega (arith, length-append q (x ∷ []))))

  Holds-none :
      (d : Deque A) (q : List A) (b : Block A) (n : ℕ) (null : Bool)
      → length q ≡ 0
      → n ≡ length q
      → Holds (record d { null = null; buffer = b; size = n; mask = 0; offset = 0 }) q
  unfolding get_capacity
  Holds-none d q b n null nil count = record {
    valid = record {
      pow2 = (0, refl);
      bounded = omega arith;
      offset_in = omega arith;
      size_in = omega arith;
      alloc_in = omega arith;
    };
    count = count;
    cells = λ i lt. absurd (omega arith);
  }

  Holds-Collected :
      (d : Deque A) (q : List A) (b : Block A) (size capacity : ℕ)
      → Collected q b size capacity
      → Holds
          (record d {
            null = capacity == 0;
            buffer = b;
            size = size;
            mask = if ltb 0 capacity then u32 (capacity + 2 ^ 64 - 1) else 0;
            offset = 0;
          })
          q
  Holds-Collected d q b size capacity k = elim k.pow2 [
    | inl nil ↦
        let none_yet : ltb 0 capacity ≡ false = ground arith in
        rw none_yet (Holds-none d q b size _ (omega (arith, k.fits, k.count)) k.count)
    | inr (p, four) ↦
        let some_yet : ltb 0 capacity ≡ true = ground arith in
        rw some_yet (
          Holds-straight d q capacity _ size b _ p (omega arith) k.bounded (omega (arith, k.alloc))
            (omega (arith, k.fits, k.count)) (omega (arith, k.bounded)) k.count k.cells)
  ]

  -- __construct from an iterator that gives at most 2 ^ 31 values returns a consistent deque that
  -- holds them in their order, whose buffer was doubled as they came.
  pub init_from_traversable_lem :
      (d : Deque A) (q : List A)
      → length q ≤ 2 ^ 31
      → Returns (λ e. Holds e q) (init_from_traversable d (values q))
  unfolding init_from_traversable
  init_from_traversable_lem d q small =
      Returns-bind
        (collect_lem q [] no_block 0 0
          (record {
            count = refl;
            alloc = refl;
            pow2 = inl refl;
            fits = omega arith;
            bounded = omega arith;
            cells = λ i lt. absurd (omega arith);
          })
          (omega arith))
        λ (b, size, capacity) k. returns (Holds-Collected d q b size capacity k)
