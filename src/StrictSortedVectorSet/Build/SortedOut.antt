-- ===== src/StrictSortedVectorSet/Build/SortedOut.antt =====
-- teds_strictsortedvectorset.c: teds_strictsortedvectorset_entries_sort_and_deduplicate leaves the
-- values of the array, each once and in ascending order.
use pecl_teds.Base.{
  ℕ, suc, ◌-◌, ◌≤◌, ◌≡◌, refl, sym, ap, ◌∙◌, subst, true, false, List, [], ◌∷◌, Option, none, some,
  length, arith, tally, ltb,
}
use pecl_teds.Run.{Run, ok, Returns, returns, Returns-bind, Returns-step, Returns-if, ◌>>=◌}
use pecl_teds.Memory.{Block, realloc}
use pecl_teds.Memory.Copy.{Filled, fill_lem}
use pecl_teds.Util.Range.{read_values, From-next, read_values_lem}
use pecl_teds.Compare.{Comparison}
use pecl_teds.Vector.{Entries, Holds}
use pecl_teds.Vector.Keys.Laws.{Holds-From}
use pecl_teds.Vector.Build.Mapped.{Written}
use pecl_teds.StrictSortedVectorSet.Sorted.{Ascending}
use pecl_teds.StrictSortedVectorSet.Sets.{has, same}
use pecl_teds.StrictSortedVectorSet.History.{Represents}
use pecl_teds.StrictSortedVectorSet.Build.{
  Qsort, is_sorted_loop, deduplicate_loop, sort_and_deduplicate,
}
use pecl_teds.StrictSortedVectorSet.Build.Distinct.{
  distinct_from, distinct, distinct-Ascending, distinct-has, has-tally,
}
use pecl_teds.StrictSortedVectorSet.Build.Sort.{distinct_from-nil}
use pecl_teds.StrictSortedVectorSet.Build.Deduplicate.{
  Deduplicated, untouched, compacted, deduplicate_loop_lem, is_sorted_loop_lem,
}

module _ {A : Type 0} (order : Comparison A) where
  module _ (sorting : Qsort order) where
    length-tally : (q : List A) → tally (λ a. true) q ≡ length q
    length-tally [] = refl
    length-tally (x ∷ q) = omega (arith, length-tally q)

    length-qsort : (q : List A) → length (sorting.qsort q) ≡ length q
    length-qsort q =
        sym (length-tally (sorting.qsort q)) ∙ sorting.same_values (λ a. true) q ∙ length-tally q

    qsort-has : (q : List A) (a : A) → has order (sorting.qsort q) a ≡ has order q a
    qsort-has q a =
        has-tally order (sorting.qsort q) a
        ∙ ap (ltb 0) (sorting.same_values (same order a) q)
        ∙ sym (has-tally order q a)

    Represents-distinct :
        (e : Entries A) (q sorted : List A)
        → sorted ≡ sorting.qsort q
        → Holds e (distinct order sorted)
        → Represents order e (has order q)
    Represents-distinct e q sorted from_sort h = record {
      members = distinct order sorted;
      holds = h;
      ascending = distinct-Ascending order sorted;
      complete = λ a.
          distinct-has order sorted a (rw from_sort (sorting.in_order q))
          ∙ ap (λ t. has order t a) from_sort
          ∙ qsort-has q a;
    }

    -- What is done with the result of the loop.
    abbrev finished : Entries A → Block A → Option (Block A × ℕ) → Run (Entries A)
    finished set b none = ok (record set { entries = b })
    finished set b (some (entries, new_size)) =
        ok (record set { entries = realloc entries new_size; size = new_size; capacity = new_size })

    finished-Represents :
        (set : Entries A) (q : List A) (x : A) (r : List A) (b : Block A)
        (res : Option (Block A × ℕ))
        → (x ∷ r) ≡ sorting.qsort q
        → Holds (record set { entries = b }) (x ∷ r)
        → Deduplicated order b [] x r res
        → Returns (λ e. Represents order e (has order q)) (finished set b res)
    unfolding realloc
    finished-Represents set q x r b none from_sort h (untouched d) = returns (
        Represents-distinct (record set { entries = b }) q (x ∷ r) from_sort
          (subst (λ t. Holds (record set { entries = b }) (x ∷ t)) (sym d) h))
    finished-Represents set q x r b (some (entries, new_size)) from_sort h (compacted c) = returns (
        Represents-distinct _ q (x ∷ r) from_sort record {
          count = c.new_size;
          size_in = omega arith;
          alloc = refl;
          cells = λ i lt. ground (arith, c.written.cells i lt, c.new_size, c.written.fits);
        })

    -- The sorted values are written back, and the duplicates taken out.
    sorted_out :
        (set : Entries A) (q sorted : List A) (b : Block A)
        → Holds set q
        → sorted ≡ sorting.qsort q
        → Filled set.entries 0 sorted b
        → 2 ≤ length q
        → Returns
            (λ e. Represents order e (has order q))
            (deduplicate_loop order b 1 (set.size - 1) >>= finished set b)
    sorted_out set q [] b h e f two = absurd (omega (arith, length-qsort q, ap length e))
    sorted_out set q (x ∷ r) b h e f two =
        let count : suc (length r) ≡ length q = ap length e ∙ length-qsort q in
        let left : set.size - 1 ≡ length r = omega (arith, h.count) in
        let held : Holds (record set { entries = b }) (x ∷ r) = record {
          count = h.count ∙ sym count;
          size_in = h.size_in;
          alloc = f.same_size ∙ h.alloc;
          cells = λ i lt. ground (arith, f.cells i);
        } in
        let first : Written (x ∷ []) b = record {
          fits = omega (arith, held.alloc, held.size_in, held.count);
          cells = λ i lt. ground (arith, held.cells i);
        } in
        rw left (
          Returns-bind
            (deduplicate_loop_lem order r [] x b first
              (From-next b 0 x r (Holds-From (record set { entries = b }) (x ∷ r) held)))
            λ res d. finished-Represents set q x r b res e held d)

    Represents-ascending :
        (set : Entries A) (q : List A)
        → Holds set q
        → distinct order q ≡ q
        → Represents order set (has order q)
    Represents-ascending set q h d = record {
      members = q;
      holds = h;
      ascending = subst (Ascending order) d (distinct-Ascending order q);
      complete = λ a. refl;
    }

    pub sort_and_deduplicate-Represents :
        (set : Entries A) (q : List A)
        → Holds set q
        → Returns (λ e. Represents order e (has order q)) (sort_and_deduplicate order sorting set)
    unfolding sort_and_deduplicate
    sort_and_deduplicate-Represents set [] h =
        let small : ltb set.size 2 ≡ true = ground (arith, h.count) in
        rw small (returns (Represents-ascending set [] h refl))
    sort_and_deduplicate-Represents set (x ∷ []) h =
        let small : ltb set.size 2 ≡ true = ground (arith, h.count) in
        rw small (
          returns
            (Represents-ascending set (x ∷ []) h (ap (λ t. x ∷ t) (distinct_from-nil order x))))
    sort_and_deduplicate-Represents set (x ∷ (y ∷ r)) h =
        let q = x ∷ (y ∷ r) in
        let large : ltb set.size 2 ≡ false = ground (arith, h.count) in
        let all = Holds-From set q h in
        let scan : Returns (λ sorted. sorted ≡ true → distinct_from order x (y ∷ r) ≡ y ∷ r)
            (is_sorted_loop order set.entries 1 (set.size - 1)) =
          subst
            (λ n.
              Returns (λ sorted. sorted ≡ true → distinct_from order x (y ∷ r) ≡ y ∷ r)
                (is_sorted_loop order set.entries 1 n))
            (omega (arith, h.count)) (is_sorted_loop_lem order (y ∷ r) x set.entries 0 all) in
        let read = ap (read_values set.entries 0) h.count ∙ read_values_lem set.entries q 0 all in
        rw large (
          Returns-bind scan λ sorted d.
            Returns-if sorted
              (λ yes. returns (Represents-ascending set q h (ap (λ t. x ∷ t) (d yes))))
              (λ no. Returns-step _ read (
                Returns-bind
                  (fill_lem (sorting.qsort q) set.entries 0
                    (omega (arith, length-qsort q, h.count, h.size_in, h.alloc)))
                  λ b f. sorted_out set q (sorting.qsort q) b h refl f (omega arith))))
