-- ===== src/Deque/Build/Clone.antt =====
-- A clone holds the same values, in a buffer that is too small for its mask.
use native.Mathlib.Nat.{mod-lt, mod-eq_of_lt, add-zero}
use pecl_teds.Base.{
  ℕ, zero, suc, ◌+◌, ◌-◌, ◌%◌, ◌^◌, ◌<◌, ◌≤◌, ◌≡◌, refl, ap, ◌∙◌, List, some, length, get_elem?,
  get_elem?-some, arith, leb, ◌==◌, if◌then◌else◌, false,
}
use pecl_teds.Machine.{u32, bit_and, bit_and_mask}
use pecl_teds.Run.{fault, Returns, returns, Returns-map, Returns-bind, Returns-inv, ◌>>=◌}
use pecl_teds.Memory.{Block, malloc, update}
use pecl_teds.Memory.Laws.{load-ok, store-ok, store-fault}
use pecl_teds.Util.{deque_next_pow2_capacity}
use pecl_teds.Deque.{Deque, get_capacity, Holds}
use pecl_teds.Deque.Ring.{ring_wrap}
use pecl_teds.Deque.Reads.{capacity_bounds, capacity_of_nonempty}
use pecl_teds.Deque.Add.{push_back}
use pecl_teds.Util.Limit.{deque_next_pow2_capacity_lem}
use pecl_teds.Deque.Build.{copy_loop, copy_ctor}

-- The pointer that runs over the buffer, put back to its start at the end.
pub wrapped_next :
    (o i c : ℕ)
    → o < c
    → i < c
    → (if (o + i) % c + 1 == c then 0 else (o + i) % c + 1) ≡ (o + (i + 1)) % c
wrapped_next o i c ho hi = ground (arith, ring_wrap o i c, ring_wrap o (i + 1) c)

module _ {A : Type 0} where
  -- The `n` values from place `i` of the ring on are in the cells from `at` on.
  record CopiedOut (dst : Block A) (at : ℕ) (src : Block A) (c o i n : ℕ) (g : Block A)
      : Type 0 where
    alloc : g.alloc ≡ dst.alloc
    before : (j : ℕ) → j < at → g.cell j ≡ dst.cell j
    cells : (j : ℕ) → j < n → g.cell (at + j) ≡ src.cell ((o + (i + j)) % c)

  copied_cell :
      (dst : Block A) (at : ℕ) (src : Block A) (c o i n : ℕ) (a : A) (g : Block A)
      → CopiedOut (record dst { cell = update dst.cell at a }) (at + 1) src c o (i + 1) n g
      → src.cell ((o + i) % c) ≡ some a
      → (j : ℕ) → j < suc n
      → g.cell (at + j) ≡ src.cell ((o + (i + j)) % c)
  copied_cell dst at src c o i n a g r e zero h =
      let here : g.cell at ≡ src.cell ((o + i) % c) = ground (arith, r.before at) in
      ap g.cell (add-zero at) ∙ here ∙ ap (λ t. src.cell ((o + t) % c)) (omega arith)
  copied_cell dst at src c o i n a g r e (suc j) h =
      ap g.cell (omega arith)
      ∙ r.cells j (omega arith)
      ∙ ap (λ t. src.cell ((o + t) % c)) (omega arith)

  copy_loop_lem :
      (n : ℕ) (dst : Block A) (at : ℕ) (src : Block A) (c o i p : ℕ)
      → o < c
      → c ≤ src.alloc
      → i + n ≤ c
      → at + n ≤ dst.alloc
      → (if p == c then 0 else p) ≡ (o + i) % c
      → ((j : ℕ) → j < n → (a : A) × (src.cell ((o + (i + j)) % c) ≡ some a))
      → Returns (CopiedOut dst at src c o i n) (copy_loop dst at src c p n)
  unfolding copy_loop
  copy_loop_lem zero dst at src c o i p front room fits space here full =
      returns (record { alloc = refl; before = λ j h. refl; cells = λ j h. absurd (omega arith) })
  copy_loop_lem (suc n) dst at src c o i p front room fits space here full =
      let (a, e) = full 0 (omega arith) in
      let first : (o + (i + 0)) % c ≡ (o + i) % c = ap (λ t. (o + t) % c) (add-zero i) in
      let low = mod-lt (o + i) {m = c} (omega arith) in
      rw
        (
          here,
          load-ok src ((o + i) % c) (omega (arith, low)) (rw first at e),
          store-ok dst at a (omega arith),
        )
        (Returns-map
          (copy_loop_lem n (record dst { cell = update dst.cell at a }) (at + 1) src c o (i + 1)
            ((o + i) % c + 1) front room (omega arith) (omega arith)
            (wrapped_next o i c front (omega arith))
            (λ j h.
              let (x, ex) = full (suc j) (omega arith) in
              (x, ap (λ t. src.cell ((o + t) % c)) (omega arith) ∙ ex)))
          λ g r. record {
            alloc = r.alloc;
            before = λ j h. ground (arith, r.before j);
            cells = copied_cell dst at src c o i n a g r (rw first at e);
          })

  -- What a clone is: the values in order from the start of a block of exactly `size` cells.
  pub record Cloned (q : List A) (e : Deque A) : Type 0 where
    pub count : e.size ≡ length q
    pub offset : e.offset ≡ 0
    pub alloc : e.buffer.alloc ≡ length q
    pub mask : e.mask + 1 ≡ deque_next_pow2_capacity (length q)
    pub cells : (i : ℕ) → i < length q → e.buffer.cell i ≡ get_elem? q i

  -- A clone of a deque that holds a list with at least one value has the values in their order
  -- from the start of a block of exactly their number, and the mask of the next power of two.
  pub copy_ctor_lem :
      (d : Deque A) (q : List A) → Holds d q → 0 < length q → Returns (Cloned q) (copy_ctor d)
  unfolding copy_ctor
  copy_ctor_lem d q h pos =
      let v = h.valid in
      let whole = capacity_of_nonempty v (omega (arith, h.count, v.size_in)) in
      let c =
        deque_next_pow2_capacity_lem (length q)
          (omega (arith, h.count, v.size_in, whole, v.bounded)) in
      let some_left : (d.size == 0) ≡ false = ground (arith, h.count) in
      let start : (if d.offset == d.mask + 1 then 0 else d.offset) ≡ (d.offset + 0) % (d.mask + 1) =
        ground (arith, v.offset_in, ring_wrap d.offset 0 (d.mask + 1)) in
      rw some_left (
        Returns-bind
          (copy_loop_lem d.size (malloc d.size) 0 d.buffer (d.mask + 1) d.offset 0 d.offset
            (omega (arith, v.offset_in)) (omega (arith, whole, v.alloc_in))
            (omega (arith, v.size_in)) (omega arith) start
            (λ j lt.
              let (a, e) = get_elem?-some q j (omega (arith, h.count)) in
              (
                a,
                ap (λ t. d.buffer.cell ((d.offset + t) % (d.mask + 1))) (omega arith)
                    ∙ h.cells j (omega (arith, h.count))
                    ∙ e,
              )))
          λ b r. returns (record {
            count = h.count;
            offset = refl;
            alloc = r.alloc ∙ h.count;
            mask =
                ap (λ t. u32 (u32 (deque_next_pow2_capacity t) + 2 ^ 32 - 1) + 1) h.count
                ∙ omega (arith, c.bounded, c.floor);
            cells = λ i lt.
                ap b.cell (omega arith)
                ∙ r.cells i (omega (arith, h.count))
                ∙ ap (λ t. d.buffer.cell ((d.offset + t) % (d.mask + 1))) (omega arith)
                ∙ h.cells i lt;
          }))

  Cloned-push_back :
      (max_size : ℕ) (e : Deque A) (q : List A) (x : A)
      → Cloned q e
      → 0 < length q
      → length q ≤ 2 ^ 31
      → length q < deque_next_pow2_capacity (length q)
      → push_back max_size e x ≡ fault
  unfolding push_back get_capacity
  Cloned-push_back max_size e q x k pos small spare =
      let c = deque_next_pow2_capacity_lem (length q) small in
      let last : bit_and (u32 (e.offset + e.size)) e.mask ≡ length q =
        bit_and_mask (u32 (e.offset + e.size)) e.mask (rw k.mask c.pow2)
        ∙ ap (λ t. t % (e.mask + 1)) (omega (arith, k.offset, k.count))
        ∙ mod-eq_of_lt (omega (arith, k.mask)) in
      let stored : (if e.mask == 0 then 0 else u32 (e.mask + 1)) ≡ e.mask + 1 =
        ground (arith, k.mask, c.floor, c.bounded) in
      let enough : leb (e.mask + 1) e.size ≡ false = ground (arith, k.count, k.mask) in
      rw (stored, enough, last, store-fault e.buffer (length q) x (omega (arith, k.alloc)))

  -- Appending a value to a clone of a deque that holds a list writes behind the clone's buffer,
  -- whenever the list is not empty and its length is less than the capacity that
  -- teds_deque_next_pow2_capacity gives for it.
  pub clone-push_back :
      (max_size : ℕ) (d : Deque A) (q : List A) (x : A)
      → Holds d q
      → 0 < length q
      → length q < deque_next_pow2_capacity (length q)
      → (copy_ctor d >>= λ e. push_back max_size e x) ≡ fault
  clone-push_back max_size d q x h pos spare =
      let v = h.valid in
      let whole = capacity_bounds v in
      let (e, made, k) = Returns-inv (copy_ctor_lem d q h pos) in
      rw made (Cloned-push_back max_size e q x k pos (omega (arith, h.count, v.size_in)) spare)
