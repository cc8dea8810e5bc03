-- ===== src/Deque/Reads.antt =====
-- get, offsetGet, first and last read the value that the list has there.
use pecl_teds.Base.{
  ℕ, ◌+◌, ◌-◌, ◌%◌, ◌^◌, ◌<◌, ◌≤◌, ◌≡◌, ap, ◌∙◌, List, [], ◌∷◌, none, some, arith, length,
  get_elem?, get_elem?-some, get_elem?-none, dec_lt,
}
use native.Mathlib.Nat.{mod-lt, mod-eq_of_lt}
use pecl_teds.Machine.{u32, bit_and_mask}
use pecl_teds.Run.{ok, throw, invalid_index, underflow}
use pecl_teds.Memory.Laws.{load-ok}
use pecl_teds.Deque.{
  Deque, get_capacity, entry_index, get_entry_at_offset, get_value_at_offset, first, last, IsValid,
  Holds,
}

module _ {A : Type 0} {d : Deque A} where
  pub entry_index-eq :
      (i : ℕ) → IsValid d → i < 2 ^ 31 → entry_index d i ≡ (d.offset + i) % (d.mask + 1)
  unfolding entry_index
  entry_index-eq i v h =
      let small : u32 (d.offset + i) ≡ d.offset + i = omega (arith, v.bounded, v.offset_in) in
      rw small (bit_and_mask (d.offset + i) d.mask v.pow2)

  pub capacity_bounds : IsValid d → (get_capacity d ≤ d.mask + 1) × (get_capacity d ≤ 2 ^ 31)
  unfolding get_capacity
  capacity_bounds v = ground arith

  pub capacity_of_pos : IsValid d → 0 < d.size → get_capacity d ≡ d.mask + 1
  unfolding get_capacity
  capacity_of_pos v h = ground (arith, v.size_in, v.bounded)

  pub capacity_of_nonempty : IsValid d → 0 < get_capacity d → get_capacity d ≡ d.mask + 1
  unfolding get_capacity
  capacity_of_nonempty v h = ground (arith, v.bounded)

  -- A cell of the ring lies in the buffer, where there is one.
  pub ring_in : (i : ℕ) → IsValid d → 0 < get_capacity d → i % (d.mask + 1) < d.buffer.alloc
  unfolding get_capacity
  ring_in i v h = ground (arith, v.alloc_in, v.bounded, mod-lt i {m = d.mask + 1})

  pub get_entry-ok :
      {q : List A} (i : ℕ) {a : A}
      → Holds d q
      → i < length q
      → get_elem? q i ≡ some a
      → get_entry_at_offset d i ≡ ok a
  unfolding get_entry_at_offset
  get_entry-ok i h lt e =
      let v = h.valid in
      let cap = capacity_bounds v in
      rw (entry_index-eq i v (omega (arith, h.count, v.size_in))) (
        load-ok d.buffer _ (ring_in (d.offset + i) v (omega (arith, h.count, v.size_in)))
          (h.cells i lt ∙ e))

  -- get and offsetGet on a deque that holds a list give the entry of the list at every offset
  -- inside it and throw at every other offset, a negative one read as a 64-bit pattern included.
  pub get_value_at_offset_lem :
      {q : List A} (i : ℕ)
      → Holds d q
      → get_value_at_offset d i
        ≡ (elim (get_elem? q i) [ none ↦ throw invalid_index | some a ↦ ok a ])
  unfolding get_value_at_offset
  get_value_at_offset_lem {q} i h = elim (dec_lt i (length q)) [
    | yes lt ↦
        let (a, e) = get_elem?-some q i lt in ground (arith, h.count, get_entry-ok i h lt e, e)
    | no ge ↦ ground (arith, h.count, get_elem?-none q i (omega arith))
  ]

  -- first on a deque that holds a list gives the first entry of the list, and throws on an empty
  -- one.
  pub first_lem :
      {q : List A}
      → Holds d q
      → first d ≡ (elim (get_elem? q 0) [ none ↦ throw underflow | some a ↦ ok a ])
  unfolding first
  first_lem {q = []} h = ground (arith, h.count)
  first_lem {q = x ∷ q} h =
      let v = h.valid in
      let front : (d.offset + 0) % (d.mask + 1) ≡ d.offset =
        ap (λ t. t % (d.mask + 1)) (omega arith) ∙ mod-eq_of_lt (omega (arith, v.offset_in)) in
      let inside = ring_in d.offset v (omega (arith, h.count, v.size_in)) in
      let at = mod-eq_of_lt {n = d.offset} {m = d.mask + 1} (omega (arith, v.offset_in)) in
      ground (
        arith,
        h.count,
        load-ok d.buffer d.offset {a = x} (omega (arith, inside, at))
            (rw front at (h.cells 0 (omega arith))),
      )

  -- last on a deque that holds a list gives the last entry of the list, and throws on an empty
  -- one.
  pub last_lem :
      {q : List A}
      → Holds d q
      → last d ≡ (elim (get_elem? q (length q - 1)) [ none ↦ throw underflow | some a ↦ ok a ])
  unfolding last
  last_lem {q = []} h = ground (arith, h.count)
  last_lem {q = x ∷ q} h =
      let (a, e) = get_elem?-some (x ∷ q) (length (x ∷ q) - 1) (omega arith) in
      let at : length (x ∷ q) - 1 ≡ d.size - 1 = omega (arith, h.count) in
      ground
        (arith, h.count, get_entry-ok (d.size - 1) h (omega (arith, h.count)) (rw at at e), e, at)
