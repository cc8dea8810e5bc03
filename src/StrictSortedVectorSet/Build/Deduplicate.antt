-- ===== src/StrictSortedVectorSet/Build/Deduplicate.antt =====
-- teds_strictsortedvectorset.c: what the outer loop of
-- teds_strictsortedvectorset_entries_sort_and_deduplicate, and the test before it, find out.
use mathlib.Core.List.{append_assoc}
use pecl_teds.Base.{
  ℕ, ◌+◌, ◌-◌, ◌<◌, ◌≡◌, sym, ap, ◌∙◌, subst, true, List, [], ◌∷◌, ◌++◌, Option, none, some, length,
  length-append, get_elem?-append, get_elem?-end, arith, inl, inr,
}
use pecl_teds.Run.{Returns, returns, Returns-bind, Returns-map}
use pecl_teds.Memory.{Block}
use pecl_teds.Util.Range.{From, From-load, From-next}
use pecl_teds.Compare.{negative, Comparison}
use pecl_teds.Compare.Laws.{Sign-cases}
use pecl_teds.Vector.Build.Mapped.{Written}
use pecl_teds.StrictSortedVectorSet.Build.{is_sorted_loop, deduplicate_loop}
use pecl_teds.StrictSortedVectorSet.Build.Distinct.{distinct_from}
use pecl_teds.StrictSortedVectorSet.Build.Sort.{
  last_load, index_in, Compacted, compact_loop_lem, distinct_from-nil, distinct_from-down,
  distinct_from-level, distinct_from-up,
}

module _ {A : Type 0} (order : Comparison A) where
  -- What the outer loop has done, once `done` and `last` are passed.
  pub data Deduplicated (b : Block A) (done : List A) (last : A) (r : List A)
      : Option (Block A × ℕ) → Type 0 where
    untouched : distinct_from order last r ≡ r → Deduplicated b done last r none
    compacted :
        {res : Block A × ℕ}
        → Compacted order b (done ++ last ∷ distinct_from order last r) res
        → Deduplicated b done last r (some res)

  Deduplicated-next :
      (b : Block A) (done : List A) (last x : A) (r : List A) (res : Option (Block A × ℕ))
      → order.stable_compare last x ≡ negative
      → Deduplicated b (done ++ last ∷ []) x r res
      → Deduplicated b done last (x ∷ r) res
  Deduplicated-next b done last x r none down (untouched e) =
      untouched (distinct_from-down order last x r down ∙ ap (λ t. x ∷ t) e)
  Deduplicated-next b done last x r (some res) down (compacted c) = compacted (
      subst (λ t. Compacted order b t res)
        (append_assoc done (last ∷ []) (x ∷ distinct_from order x r)
          ∙ ap (λ t. done ++ last ∷ t) (sym (distinct_from-down order last x r down)))
        c)

  -- The entry behind the values is one value more.
  Written-extend :
      (q : List A) (b : Block A) (x : A)
      → Written q b
      → length q < b.alloc
      → b.cell (length q) ≡ some x
      → Written (q ++ x ∷ []) b
  Written-extend q b x w room here = record {
    fits = omega (arith, length-append q (x ∷ []));
    cells = λ i lt. ground (
      arith,
      w.cells i,
      here,
      get_elem?-append q (x ∷ []) i,
      get_elem?-end q x,
      length-append q (x ∷ []),
    );
  }

  pub deduplicate_loop_lem :
      (r done : List A) (last : A) (b : Block A)
      → Written (done ++ last ∷ []) b
      → From b (length done + 1) r
      → Returns (Deduplicated b done last r) (deduplicate_loop order b (length done + 1) (length r))
  unfolding deduplicate_loop
  deduplicate_loop_lem [] done last b w f = returns (untouched (distinct_from-nil order last))
  deduplicate_loop_lem (x ∷ r) done last b w f =
      let back : length done + 1 - 1 ≡ length done = omega arith in
      let next : length (done ++ last ∷ []) ≡ length done + 1 = length-append done (last ∷ []) in
      let rest = From-next b (length done + 1) x r f in
      let read = From-load b (length done + 1) x r f in
      let compact =
        compact_loop_lem order r done last b (length done + 1 + 1) w (omega arith) rest in
      elim (Sign-cases (order.stable_compare last x)) [
        | inl up ↦
            rw (back, last_load done last b w, read, up)
              (Returns-bind compact
                λ res c. returns (compacted (rw (distinct_from-up order last x r up) c)))
        | inr (inr level) ↦
            rw (back, last_load done last b w, read, level)
              (Returns-bind compact
                λ res c. returns (compacted (rw (distinct_from-level order last x r level) c)))
        | inr (inl down) ↦
            let kept = done ++ last ∷ [] in
            let (inside, here) = index_in b (length done + 1) x r f in
            rw (back, last_load done last b w, read, down)
              (subst
                (λ t.
                  Returns (Deduplicated b done last (x ∷ r))
                    (deduplicate_loop order b (t + 1) (length r)))
                next
                (Returns-map
                  (deduplicate_loop_lem r kept x b
                    (Written-extend kept b x w (omega (arith, next)) (ap b.cell next ∙ here))
                    (subst (λ t. From b (t + 1) r) (sym next) rest))
                  (λ res d. Deduplicated-next b done last x r res down d)))
      ]

  pub is_sorted_loop_lem :
      (r : List A) (last : A) (b : Block A) (i : ℕ)
      → From b i (last ∷ r)
      → Returns
          (λ sorted. sorted ≡ true → distinct_from order last r ≡ r)
          (is_sorted_loop order b (i + 1) (length r))
  unfolding is_sorted_loop
  is_sorted_loop_lem [] last b i f = returns (λ yes. distinct_from-nil order last)
  is_sorted_loop_lem (x ∷ r) last b i f =
      let back : i + 1 - 1 ≡ i = omega arith in
      let first = From-load b i last (x ∷ r) f in
      let rest = From-next b i last (x ∷ r) f in
      let second = From-load b (i + 1) x r rest in
      elim (Sign-cases (order.stable_compare last x)) [
        | inl up ↦ rw (back, first, second, up) (returns (λ yes. cc yes))
        | inr (inr level) ↦ rw (back, first, second, level) (returns (λ yes. cc yes))
        | inr (inl down) ↦
            rw (back, first, second, down)
              (Returns-map (is_sorted_loop_lem r x b (i + 1) rest)
                (λ sorted d yes. distinct_from-down order last x r down ∙ ap (λ t. x ∷ t) (d yes)))
      ]
