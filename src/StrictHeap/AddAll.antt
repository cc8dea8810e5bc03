-- ===== src/StrictHeap/AddAll.antt =====
-- Heaps that were only added to: they hold what was added, and the first entry may stand above all.
use pecl_teds.Base.{
  ℕ, suc, ◌+◌, ◌^◌, ◌≤◌, ◌≡◌, refl, sym, ap, subst, ◌∙◌, Bool, List, [], ◌∷◌, ◌++◌, some, length,
  get_elem?, get_elem?-some_lt, arith, tally-append, length-append,
}
use pecl_teds.Run.{Returns, returns, Returns-map, Returns-bind, ◌>>=◌}
use pecl_teds.Util.Limit.{Limit}
use pecl_teds.Vector.{Entries, Holds}
use pecl_teds.StrictHeap.{Comparison, add_all, extract}
use pecl_teds.StrictHeap.Order.{InOrder-cast, Ordered-first, Leading, not_above-Leading}
use pecl_teds.StrictHeap.Sift.{Rearranged, Rearranged-refl, Rearranged-trans}
use pecl_teds.StrictHeap.SiftUp.{half, half_earlier}
use pecl_teds.StrictHeap.Insert.{Added, insert-Added}
use pecl_teds.StrictHeap.Extract.{extract-Extracted}
use pecl_teds.StrictHeap.Build.{init_from_array}

module _ {A : Type 0} where
  Rearranged-append :
      (q r : List A) (x : A) (xs : List A)
      → Rearranged (q ++ x ∷ []) r
      → Rearranged (q ++ x ∷ xs) (r ++ xs)
  Rearranged-append q r x xs h = record {
    same_length = omega (
      arith,
      h.same_length,
      length-append q (x ∷ []),
      length-append q (x ∷ xs),
      length-append r xs,
    );
    same_tally = λ p. omega (
      arith,
      h.same_tally p,
      tally-append p q (x ∷ []),
      tally-append p q (x ∷ xs),
      tally-append p r xs,
    );
  }

  Rearranged-nil : (q : List A) → Rearranged (q ++ []) q
  Rearranged-nil q = record {
    same_length = omega (arith, length-append q []);
    same_tally = λ p. omega (arith, tally-append p q []);
  }

module _ {A : Type 0} (order : Comparison A) (is_min_heap : Bool) where
  -- One of the values, and none of them leads it by the comparison.
  pub record Least (xs : List A) (x : A) : Type 0 where
    pub among : List A
    pub same : Rearranged xs among
    pub front : get_elem? among 0 ≡ some x
    pub least : (i : ℕ) (a : A) → get_elem? among i ≡ some a → Leading order is_min_heap x a

module _ {A : Type 0} (order : Comparison A) (is_min_heap : Bool) (max_size : ℕ)
    (l : Limit max_size) where
  -- Adding values one after the other to a heap whose entries are a list, all within the limit,
  -- returns a heap whose entries are the list and the values rearranged, and keeps the order that
  -- insert walks along.
  pub add_all-Added :
      (array : Entries A) (q xs : List A)
      → Holds array q
      → length q + length xs ≤ max_size
      → Returns (Added order is_min_heap half q xs) (add_all order is_min_heap max_size array xs)
  unfolding add_all
  add_all-Added array q [] h fits =
      returns (record { final = q; holds = h; same = Rearranged-nil q; ordered = λ o. o })
  add_all-Added array q (x ∷ xs) h fits =
      Returns-bind (insert-Added order is_min_heap max_size array q x l h (omega arith)) λ grown a.
        let longer : length a.final ≡ length q + 1 =
          omega (arith, a.same.same_length, length-append q (x ∷ [])) in
        Returns-map (add_all-Added grown a.final xs a.holds (omega (arith, longer))) λ e b. record {
          final = b.final;
          holds = b.holds;
          same =
              Rearranged-trans (q ++ x ∷ xs) (a.final ++ xs) b.final
                (Rearranged-append q a.final x xs a.same) b.same;
          ordered = λ o. b.ordered (a.ordered o);
        }

  pub init_from_array-Added :
      (xs : List A)
      → length xs ≤ max_size
      → Returns (Added order is_min_heap half [] xs) (init_from_array order max_size is_min_heap xs)
  unfolding init_from_array
  init_from_array-Added [] fits = returns (record {
    final = [];
    holds = record {
      count = refl;
      size_in = omega arith;
      alloc = refl;
      cells = λ i lt. absurd (omega arith);
    };
    same = Rearranged-refl [];
    ordered = λ o. o;
  })
  init_from_array-Added (x ∷ xs) fits =
      add_all-Added _ [] (x ∷ xs)
        (record {
          count = refl;
          size_in = omega arith;
          alloc = refl;
          cells = λ i lt. absurd (omega arith);
        })
        (omega arith)

  -- For a limit as documented, making a heap of a non-empty array within the limit and extracting
  -- once returns a value that is one of the array's; for a StrictMinHeap no value of the array
  -- compares less than it, for a StrictMaxHeap none compares greater.
  pub extract-init_from_array :
      (x : A) (xs : List A)
      → length (x ∷ xs) ≤ max_size
      → Returns
          (λ (r : A × Entries A). Least order is_min_heap (x ∷ xs) (r.0))
          (init_from_array order max_size is_min_heap (x ∷ xs) >>= λ e. extract order is_min_heap e)
  extract-init_from_array x xs fits =
      Returns-bind (init_from_array-Added (x ∷ xs) fits) λ e a. by_first e a a.final refl
    where
      by_first :
          (e : Entries A) (a : Added order is_min_heap half [] (x ∷ xs) e) (q : List A)
          → a.final ≡ q
          → Returns
              (λ (r : A × Entries A). Least order is_min_heap (x ∷ xs) (r.0))
              (extract order is_min_heap e)
      by_first e a [] eq = absurd (omega (arith, a.same.same_length, ap length eq))
      by_first e a (y ∷ ys) eq =
          let front : get_elem? a.final 0 ≡ some y = ap (λ t. get_elem? t 0) eq in
          let kept = subst (λ t. Holds e t) eq a.holds in
          let bounded : e.size ≤ 2 ^ 31 =
            omega (arith, a.holds.count, a.same.same_length, fits, l.ceiling) in
          Returns-map (extract-Extracted order is_min_heap e y ys kept bounded) λ r k. record {
            among = a.final;
            same = a.same;
            front = front ∙ ap some (sym k.value);
            least = λ i b at. not_above-Leading order is_min_heap (r.0) b (
                InOrder-cast order is_min_heap (some (r.0)) (some y) (some b) (get_elem? a.final i)
                  (ap some k.value) (sym at)
                  (Ordered-first order is_min_heap half half_earlier a.final y
                    (a.ordered (λ j pos small. absurd (omega arith))) front (suc i) i (omega arith)
                    (get_elem?-some_lt a.final i b at)));
          }
