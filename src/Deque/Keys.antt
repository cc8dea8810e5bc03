-- ===== src/Deque/Keys.antt =====
-- teds_deque.c: which offsets a deque has: count, isEmpty, containsKey, offsetExists and `$deque[i]`.
use pecl_teds.Base.{
  ℕ, ◌<◌, ◌^◌, ◌≡◌, ap, Bool, true, false, not, List, Option, none, some, length, get_elem?,
  get_elem?-some, get_elem?-none, arith, dec_lt, ltb, leb, ◌==◌, ◌||◌, if◌then◌else◌,
}
use pecl_teds.Run.{Run, ok, throw, invalid_index, ◌>>=◌}
use pecl_teds.Deque.{Deque, get_entry_at_offset, Holds}
use pecl_teds.Deque.Reads.{get_entry-ok, capacity_bounds}

module _ {A : Type 0} where
  -- teds_deque_count_elements and Deque::count
  unfoldable pub count_elements : Deque A → ℕ
  count_elements d = d.size

  -- Deque::isEmpty
  unfoldable pub is_empty : Deque A → Bool
  is_empty d = d.size == 0

  -- Deque::containsKey. The offset is the 64-bit pattern of a zend_long, here and below.
  unfoldable pub contains_key : Deque A → ℕ → Bool
  contains_key d offset = ltb offset d.size

  -- Deque::offsetExists, with the test for IS_NULL.
  unfoldable pub offset_exists : (A → Bool) → Deque A → ℕ → Run Bool
  offset_exists is_null d offset =
      if leb d.size offset
      then ok false
      else (get_entry_at_offset d offset >>= λ a. ok (not (is_null a)))

  -- teds_deque_read_dimension, with whether the type is BP_VAR_IS. No offset is `$deque[]`, and no
  -- result is the uninitialized zval.
  unfoldable pub read_dimension : Deque A → Option ℕ → Bool → Run (Option A)
  read_dimension d none bp_var_is = if bp_var_is then ok none else throw invalid_index
  read_dimension d (some offset) bp_var_is =
      if leb (2 ^ 63) offset || leb d.size offset
      then (if bp_var_is then ok none else throw invalid_index)
      else (get_entry_at_offset d offset >>= λ a. ok (some a))

  -- What the list says of an offset.
  abbrev pub found : {B : Type 0} → Option A → B → (A → B) → B
  found none missing at = missing
  found (some a) missing at = at a

  -- On a deque that holds a list, count and isEmpty give its length and whether that is 0, and
  -- for each offset containsKey, offsetExists and the read of `$deque[$offset]`, with and without
  -- BP_VAR_IS, answer by the entry that the list has there or by its absence, an offset of 2 ^ 63
  -- or more read as negative included.
  pub offset_exists_lem :
      (d : Deque A) (q : List A) (is_null : A → Bool) (offset : ℕ)
      → Holds d q
      → (count_elements d ≡ length q)
        × (is_empty d ≡ (length q == 0))
        × (contains_key d offset ≡ found (get_elem? q offset) false (λ a. true))
        × (offset_exists is_null d offset
            ≡ ok (found (get_elem? q offset) false (λ a. not (is_null a))))
        × (read_dimension d (some offset) false
            ≡ found (get_elem? q offset) (throw invalid_index) (λ a. ok (some a)))
        × (read_dimension d (some offset) true
            ≡ found (get_elem? q offset) (ok none) (λ a. ok (some a)))
  unfolding count_elements is_empty contains_key offset_exists read_dimension
  offset_exists_lem d q is_null offset h = elim (dec_lt offset (length q)) [
    | yes lt ↦
        let (a, e) = get_elem?-some q offset lt in
        let cap = capacity_bounds h.valid in
        let read = get_entry-ok offset h lt e in
        let small : offset < 2 ^ 63 = omega (arith, h.count, h.valid.size_in) in
        (
          h.count,
          ap (λ t. t == 0) h.count,
          ground (arith, h.count, e),
          ground (arith, h.count, e, read),
          ground (arith, h.count, e, read, small),
          ground (arith, h.count, e, read, small),
        )
    | no ge ↦
        let e = get_elem?-none q offset (omega arith) in
        (
          h.count,
          ap (λ t. t == 0) h.count,
          ground (arith, h.count, e),
          ground (arith, h.count, e),
          ground (arith, h.count, e),
          ground (arith, h.count, e),
        )
  ]
