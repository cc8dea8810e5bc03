-- ===== src/Vector/Keys/Laws.antt =====
-- teds_vector.c: what the reads of a vector say of the list that it holds.
use pecl_teds.Base.{
  ℕ, ◌-◌, ◌^◌, ◌<◌, ◌≤◌, ◌≡◌, refl, ap, ◌∙◌, Bool, true, false, not, List, [], ◌∷◌, none, some,
  length, get_elem?, get_elem?-some, get_elem?-none, arith, dec_lt, leb, ◌==◌, if◌then◌else◌,
}
use pecl_teds.Run.{ok, throw, invalid_index, underflow}
use pecl_teds.Memory.{load}
use pecl_teds.Memory.Laws.{load-ok}
use pecl_teds.Deque.Keys.{found}
use pecl_teds.Util.Range.{
  range_indexof, range_contains, index_from, From, From-start, read_values_lem, range_indexof_lem,
  range_contains_lem,
}
use pecl_teds.Vector.{Entries, Holds}
use pecl_teds.Vector.Keys.{
  get_value_at_offset, first, last, contains_key, offset_exists, read_dimension, to_array, index_of,
  contains,
}

module _ {A : Type 0} where
  pub load-Holds :
      {array : Entries A} {q : List A} {a : A} (i : ℕ)
      → Holds array q
      → i < length q
      → get_elem? q i ≡ some a
      → load array.entries i ≡ ok a
  load-Holds {array} i h lt e =
      load-ok array.entries i (omega (arith, h.count, h.size_in, h.alloc)) (h.cells i lt ∙ e)

  -- get, first and last
  pub reads-found :
      (array : Entries A) (q : List A) (offset : ℕ)
      → Holds array q
      → (get_value_at_offset array offset
          ≡ found (get_elem? q offset) (throw invalid_index) (λ a. ok a))
        × (first array ≡ found (get_elem? q 0) (throw underflow) (λ a. ok a))
        × (last array ≡ found (get_elem? q (length q - 1)) (throw underflow) (λ a. ok a))
  unfolding get_value_at_offset first last
  reads-found array q offset h = (at_offset, at_first, at_last)
    where
      at_offset :
          (if leb array.size offset then throw invalid_index else load array.entries offset)
          ≡ found (get_elem? q offset) (throw invalid_index) (λ a. ok a)
      at_offset = elim (dec_lt offset (length q)) [
        | yes lt ↦
            let (a, e) = get_elem?-some q offset lt in
            ground (arith, h.count, e, load-Holds offset h lt e)
        | no ge ↦ ground (arith, h.count, get_elem?-none q offset)
      ]

      at_first :
          (if array.size == 0 then throw underflow else load array.entries 0)
          ≡ found (get_elem? q 0) (throw underflow) (λ a. ok a)
      at_first = elim (dec_lt 0 (length q)) [
        | yes lt ↦
            let (a, e) = get_elem?-some q 0 lt in ground (arith, h.count, e, load-Holds 0 h lt e)
        | no ge ↦ ground (arith, h.count, get_elem?-none q 0)
      ]

      at_last :
          (if array.size == 0 then throw underflow else load array.entries (array.size - 1))
          ≡ found (get_elem? q (length q - 1)) (throw underflow) (λ a. ok a)
      at_last = elim (dec_lt 0 (length q)) [
        | yes lt ↦
            let (a, e) = get_elem?-some q (length q - 1) (omega arith) in
            let same : array.size - 1 ≡ length q - 1 = omega (arith, h.count) in
            rw same (ground (arith, h.count, e, load-Holds (length q - 1) h (omega arith) e))
        | no ge ↦ ground (arith, h.count, get_elem?-none q (length q - 1))
      ]

  -- On a vector that holds at most 2 ^ 31 values, for each offset containsKey, offsetExists and
  -- the read of `$vector[$offset]`, with and without BP_VAR_IS, answer by the value that the list
  -- has there or by its absence, an offset of 2 ^ 63 or more read as negative included.
  pub has_and_read :
      (array : Entries A) (q : List A) (is_null : A → Bool) (offset : ℕ)
      → Holds array q
      → length q ≤ 2 ^ 31
      → (contains_key array offset ≡ found (get_elem? q offset) false (λ a. true))
        × (offset_exists is_null array offset
            ≡ ok (found (get_elem? q offset) false (λ a. not (is_null a))))
        × (read_dimension array (some offset) false
            ≡ found (get_elem? q offset) (throw invalid_index) (λ a. ok (some a)))
        × (read_dimension array (some offset) true
            ≡ found (get_elem? q offset) (ok none) (λ a. ok (some a)))
  unfolding contains_key offset_exists read_dimension
  has_and_read array q is_null offset h small = elim (dec_lt offset (length q)) [
    | yes lt ↦
        let (a, e) = get_elem?-some q offset lt in
        let read = load-Holds offset h lt e in
        (
          ground (arith, h.count, e),
          ground (arith, h.count, e, read),
          ground (arith, h.count, e, read, small),
          ground (arith, h.count, e, read, small),
        )
    | no ge ↦
        let e = get_elem?-none q offset (omega arith) in
        (
          ground (arith, h.count, e),
          ground (arith, h.count, e),
          ground (arith, h.count, e),
          ground (arith, h.count, e),
        )
  ]

  pub Holds-From : (array : Entries A) (q : List A) → Holds array q → From array.entries 0 q
  Holds-From array q h =
      From-start array.entries q
        (λ j lt. (omega (arith, h.count, h.size_in, h.alloc), h.cells j lt))

  pub to_array-list : (array : Entries A) (q : List A) → Holds array q → to_array array ≡ ok q
  unfolding to_array
  to_array-list array [] h = rw h.count refl
  to_array-list array (x ∷ q) h =
      let all = read_values_lem array.entries (x ∷ q) 0 (Holds-From array (x ∷ q) h) in
      let some_yet : (length (x ∷ q) == 0) ≡ false = ground arith in rw (h.count, some_yet) all

  -- On a vector that holds a list, indexOf gives the offset of the first value of the list that
  -- is identical to the argument, or none, and contains, which has a loop of its own, says
  -- whether indexOf gives one.
  pub index_of-list :
      (identical : A → A → Bool) (value : A) (array : Entries A) (q : List A)
      → Holds array q
      → (index_of identical value array ≡ ok (index_from identical value 0 q))
        × (contains identical value array
            ≡ ok (elim (index_from identical value 0 q) [ none ↦ false | some _ ↦ true ]))
  unfolding index_of contains
  index_of-list identical value array q h =
      let f = Holds-From array q h in
      (
        ap (range_indexof identical value array.entries 0) h.count
            ∙ range_indexof_lem identical value array.entries q 0 f,
        ap (range_contains identical value array.entries 0) h.count
            ∙ range_contains_lem identical value array.entries q 0 f,
      )
