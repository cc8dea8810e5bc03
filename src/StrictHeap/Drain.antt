-- ===== src/StrictHeap/Drain.antt =====
-- A heap emptied by extract. The places that insert and remove_top take for the entry above another
-- are not the same, and the order gets lost.
use pecl_teds.Base.{
  ℕ, zero, suc, ◌^◌, sym, ap, one_if, ◌≤◌, ◌≡◌, refl, Bool, true, false, List, [], ◌∷◌, length,
  arith, ltb, ◌==◌,
}
use pecl_teds.Run.{
  Run, ok, throw, fatal, asserted, fault, out_of_fuel, Returns, returns, Returns-map, Returns-bind,
  ◌>>=◌,
}
use pecl_teds.Memory.{realloc, load, store, copy_cell}
use pecl_teds.Util.Limit.{Limit}
use pecl_teds.Compare.Natural.{natural}
use pecl_teds.Vector.{Entries, Holds, raise_capacity}
use pecl_teds.StrictHeap.{
  Comparison, should_be_above, sift_up, insert, upper_child, sift_down, remove_top, extract,
  add_all,
}
use pecl_teds.StrictHeap.Sift.{Rearranged, Rearranged-refl, Rearranged-trans}
use pecl_teds.StrictHeap.Extract.{extract-Extracted}
use pecl_teds.StrictHeap.AddAll.{init_from_array-Added}
use pecl_teds.StrictHeap.Build.{init_from_array}

module _ {A : Type 0} (order : Comparison A) (is_min_heap : Bool) where
  -- What extract gives, one value after the other, up to the end of the heap.
  unfoldable pub drain : ℕ → Entries A → Run (List A)
  drain zero heap = out_of_fuel
  drain (suc fuel) heap = elim (heap.size == 0) [
    | true ↦ ok []
    | false ↦ extract order is_min_heap heap >>= λ (top, rest).
        drain fuel rest >>= λ tops. ok (top ∷ tops)
  ]

  drain_lem :
      (n : ℕ) (q : List A) (heap : Entries A)
      → n ≡ length q
      → Holds heap q
      → heap.size ≤ 2 ^ 31
      → Returns (Rearranged q) (drain (suc n) heap)
  unfolding drain
  drain_lem n [] heap e h small =
      let bare : (heap.size == 0) ≡ true = ground (arith, h.count) in
      rw (drain, bare) (returns (Rearranged-refl []))
  drain_lem zero (x ∷ r) heap e h small = absurd (omega arith)
  drain_lem (suc n) (x ∷ r) heap e h small =
      let filled : (heap.size == 0) ≡ false = ground (arith, h.count) in
      rw (drain, filled)
        (Returns-bind (extract-Extracted order is_min_heap heap x r h small) λ (top, rest) k.
          Returns-bind
            (drain_lem n k.final rest (omega (arith, k.same.same_length, e)) k.holds
              (omega (arith, k.holds.count, k.same.same_length, h.count, small)))
            λ tops p. returns (record {
              same_length = omega (arith, p.same_length, k.same.same_length);
              same_tally = λ t.
                  omega
                    (arith, p.same_tally t, k.same.same_tally t, ap (λ y. one_if (t y)) k.value);
            }))

  -- A heap that is made of an array within the limit, and then emptied by extract, gives the
  -- values of the array rearranged after one step more than their number: none is lost and none
  -- comes twice.
  pub drain-init_from_array :
      (max_size : ℕ) (xs : List A)
      → Limit max_size
      → length xs ≤ max_size
      → Returns
          (Rearranged xs)
          (init_from_array order max_size is_min_heap xs >>= λ heap. drain (suc (length xs)) heap)
  drain-init_from_array max_size xs l fits =
      Returns-bind (init_from_array-Added order is_min_heap max_size l xs fits) λ heap a.
        Returns-map
          (drain_lem (length xs) a.final heap (sym a.same.same_length) a.holds
            (omega (arith, a.holds.count, a.same.same_length, fits, l.ceiling)))
          λ out r. Rearranged-trans xs a.final out a.same r

-- No value is less than the one before it.
unfoldable pub ascending : List ℕ → Bool
ascending [] = true
ascending (x ∷ []) = true
ascending (x ∷ y ∷ xs) = elim (ltb y x) [ true ↦ false | false ↦ ascending (y ∷ xs) ]

-- Whether the values of an array come out of a StrictMinHeap in their order.
abbrev in_order : List ℕ → Bool
in_order xs =
    elim (init_from_array natural 1073741824 true xs >>= λ heap.
    drain natural true (suc (length xs)) heap) [
      | ok out ↦ ascending out
      | throw e ↦ false
      | fatal ↦ false
      | asserted ↦ false
      | fault ↦ false
      | out_of_fuel ↦ false
    ]

abbrev lost_keys : List ℕ
lost_keys = 1 ∷ 2 ∷ 10 ∷ 3 ∷ 11 ∷ 12 ∷ 4 ∷ 20 ∷ 21 ∷ 22 ∷ []

lost_keys_out : in_order lost_keys ≡ false
unfolding init_from_array add_all insert raise_capacity sift_up should_be_above upper_child
    sift_down remove_top extract drain realloc load store copy_cell ascending
lost_keys_out = refl

-- It is not so that the values of each array of at most 10 numbers come out of a StrictMinHeap in
-- ascending order.
pub drain_out_of_order : ¬ ((xs : List ℕ) → length xs ≤ 10 → in_order xs ≡ true)
drain_out_of_order h = ground (arith, h lost_keys (omega arith), lost_keys_out)
