-- ===== src/StrictHeap/Extract.antt =====
-- extract and next, on every heap that holds entries.
use pecl_teds.Base.{
  ℕ, ◌+◌, ◌-◌, ◌^◌, ◌≤◌, ◌≡◌, refl, sym, ap, subst, ◌∙◌, Bool, true, false, List, [], ◌∷◌, ◌++◌,
  arith, ◌==◌,
}
use pecl_teds.Run.{ok, throw, underflow, Returns, returns, Returns-bind, Returns-step}
use pecl_teds.Memory.{Block}
use pecl_teds.Memory.Laws.{load-ok, copy_cell-ok}
use pecl_teds.Vector.{Entries, Holds}
use pecl_teds.StrictHeap.{Comparison, sift_down, remove_top, extract, next}
use pecl_teds.StrictHeap.Sift.{Rearranged-refl}
use pecl_teds.StrictHeap.Remove.{Extracted, remove_top_lem}

-- A list that is not empty, by its last entry.
end_view :
    {A : Type 0} (x : A) (xs : List A) → (init : List A) × (key : A) × (init ++ key ∷ [] ≡ x ∷ xs)
end_view x [] = ([], x, refl)
end_view x (y ∷ ys) = let (init, key, e) = end_view y ys in (x ∷ init, key, ap (λ t. x ∷ t) e)

module _ {A : Type 0} (order : Comparison A) (is_min_heap : Bool) where
  remove_top-single :
      (array : Entries A) (x : A)
      → Holds array (x ∷ [])
      → Returns
          (λ (e : Entries A). Extracted order is_min_heap x [] (x, e))
          (remove_top order is_min_heap array)
  unfolding remove_top sift_down
  remove_top-single array x h = Returns-step _ (at_once array.entries array.size h.count) (
      Returns-step _
        (copy_cell-ok array.entries 0 (array.size - 1) {a = x}
          (omega (arith, h.count, h.alloc, h.size_in)) (omega (arith, h.count, h.alloc, h.size_in))
          (ap array.entries.cell (omega (arith, h.count)) ∙ h.cells 0 (omega arith)))
        (returns (record {
          value = refl;
          final = [];
          holds = record {
            count = omega (arith, h.count);
            size_in = omega (arith, h.size_in);
            alloc = h.alloc;
            cells = λ i lt. absurd (omega arith);
          };
          same = Rearranged-refl [];
          ordered = λ o i pos lt. absurd (omega arith);
        })))
    where
      at_once :
          (entries : Block A) (n : ℕ)
          → n ≡ 1
          → sift_down order is_min_heap (n - 1 + 1) entries (n - 1) 0 ≡ ok (entries, 0)
      at_once entries n e = ap (λ t. sift_down order is_min_heap (t - 1 + 1) entries (t - 1) 0) e

  module _ (array : Entries A) (x : A) (q : List A) (h : Holds array (x ∷ q))
      (small : array.size ≤ 2 ^ 31) where
    remove_top_all :
        Returns
          (λ (e : Entries A). Extracted order is_min_heap x q (x, e))
          (remove_top order is_min_heap array)
    remove_top_all = by_end q h
      where
        by_end :
            (r : List A)
            → Holds array (x ∷ r)
            → Returns
                (λ (e : Entries A). Extracted order is_min_heap x r (x, e))
                (remove_top order is_min_heap array)
        by_end [] k = remove_top-single array x k
        by_end (y ∷ ys) k =
            let (init, key, e) = end_view y ys in
            subst
              (λ t.
                Returns (λ (g : Entries A). Extracted order is_min_heap x t (x, g))
                  (remove_top order is_min_heap array))
              e
              (remove_top_lem order is_min_heap array x key init
                (subst (λ t. Holds array (x ∷ t)) (sym e) k) small)

    -- extract on a heap whose entries are a list with a first value, at most 2 ^ 31 in number,
    -- returns that value and leaves a heap whose entries are the other values rearranged; each
    -- entry may stand below the one at half the place before its own, rounded down, if that was
    -- so before.
    pub extract-Extracted :
        Returns (Extracted order is_min_heap x q) (extract order is_min_heap array)
    unfolding extract
    extract-Extracted =
        let filled : (array.size == 0) ≡ false = ground (arith, h.count) in
        rw filled (
          Returns-step _
            (load-ok array.entries 0 {a = x} (omega (arith, h.count, h.alloc, h.size_in))
              (h.cells 0 (omega arith)))
            (Returns-bind remove_top_all λ e k. returns k))

    -- next on a heap whose entries are a list with a first value, at most 2 ^ 31 in number,
    -- leaves what extract leaves.
    pub next-Extracted :
        Returns
          (λ (e : Entries A). Extracted order is_min_heap x q (x, e))
          (next order is_min_heap array)
    unfolding next
    next-Extracted =
        let filled : (array.size == 0) ≡ false = ground (arith, h.count) in
        rw filled (
          Returns-step _
            (load-ok array.entries 0 {a = x} (omega (arith, h.count, h.alloc, h.size_in))
              (h.cells 0 (omega arith)))
            remove_top_all)

  -- extract and next throw on a heap with no entries.
  pub extract-throw :
      (array : Entries A)
      → Holds array []
      → (extract order is_min_heap array ≡ throw underflow)
        × (next order is_min_heap array ≡ throw underflow)
  unfolding extract next
  extract-throw array h =
      let bare : (array.size == 0) ≡ true = ground (arith, h.count) in (rw bare refl, rw bare refl)
