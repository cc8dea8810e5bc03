-- ===== src/StrictSortedVectorSet/Build/Sort.antt =====
-- teds_strictsortedvectorset.c: the inner loop of
-- teds_strictsortedvectorset_entries_sort_and_deduplicate leaves the distinct values at the start of
-- the block.
use mathlib.Core.List.{append_assoc}
use pecl_teds.Base.{
  ℕ, ◌+◌, ◌-◌, ◌<◌, ◌≤◌, ◌≡◌, refl, sym, ap, ◌∙◌, List, [], ◌∷◌, ◌++◌, some, length, length-append,
  get_elem?-end, arith, inl, inr, subst,
}
use pecl_teds.Run.{ok, Returns, returns, Returns-map}
use pecl_teds.Memory.{Block, load, update}
use pecl_teds.Memory.Laws.{load-ok, copy_cell-ok}
use pecl_teds.Util.Range.{From, From-load, From-next}
use pecl_teds.Compare.{negative, null, positive, Comparison}
use pecl_teds.Compare.Laws.{Sign-cases}
use pecl_teds.Vector.Build.Mapped.{Written, Written-store}
use pecl_teds.StrictSortedVectorSet.Build.{compact_loop}
use pecl_teds.StrictSortedVectorSet.Build.Distinct.{distinct_from}

module _ {A : Type 0} where
  pub last_load :
      (done : List A) (last : A) (b : Block A)
      → Written (done ++ last ∷ []) b
      → load b (length done) ≡ ok last
  last_load done last b w =
      load-ok b (length done) (omega (arith, w.fits, length-append done (last ∷ []))) (
        w.cells (length done) (omega (arith, length-append done (last ∷ [])))
        ∙ get_elem?-end done last)

  pub index_in :
      (b : Block A) (i : ℕ) (x : A) (r : List A)
      → From b i (x ∷ r)
      → (i < b.alloc) × (b.cell i ≡ some x)
  index_in b i x r f =
      let (inside, e) = f 0 (omega arith) in (omega arith, ap b.cell (omega arith) ∙ e)

  -- A write before the entries that are left.
  pub From-update :
      (b : Block A) (to i : ℕ) (x : A) (r : List A)
      → to < i
      → From b i r
      → From (record b { cell = update b.cell to x }) i r
  From-update b to i x r lt f j ltj = let (inside, e) = f j ltj in (inside, ground (arith, e))

  module _ (order : Comparison A) where
    pub distinct_from-nil : (last : A) → distinct_from order last [] ≡ []
    unfolding distinct_from
    distinct_from-nil last = refl

    pub distinct_from-down :
        (last x : A) (q : List A)
        → order.stable_compare last x ≡ negative
        → distinct_from order last (x ∷ q) ≡ x ∷ distinct_from order x q
    unfolding distinct_from
    distinct_from-down last x q down = rw (distinct_from, down) refl

    pub distinct_from-level :
        (last x : A) (q : List A)
        → order.stable_compare last x ≡ null
        → distinct_from order last (x ∷ q) ≡ distinct_from order last q
    unfolding distinct_from
    distinct_from-level last x q level = rw (distinct_from, level) refl

    pub distinct_from-up :
        (last x : A) (q : List A)
        → order.stable_compare last x ≡ positive
        → distinct_from order last (x ∷ q) ≡ distinct_from order last q
    unfolding distinct_from
    distinct_from-up last x q up = rw (distinct_from, up) refl

    -- The loop has left `q` at the start of the block.
    pub record Compacted (b : Block A) (q : List A) (res : Block A × ℕ) : Type 0 where
      pub same_size : res.0.alloc ≡ b.alloc
      pub written : Written q res.0
      pub new_size : res.1 ≡ length q

    pub compact_loop_lem :
        (r done : List A) (last : A) (b : Block A) (i : ℕ)
        → Written (done ++ last ∷ []) b
        → length done + 1 ≤ i
        → From b i r
        → Returns
            (Compacted b (done ++ last ∷ distinct_from order last r))
            (compact_loop order b (length done + 1) i (length r))
    unfolding compact_loop distinct_from
    compact_loop_lem [] done last b i w le f =
        returns
          record { same_size = refl; written = w; new_size = sym (length-append done (last ∷ [])) }
    compact_loop_lem (x ∷ r) done last b i w le f =
        let back : length done + 1 - 1 ≡ length done = omega arith in
        let next : length (done ++ last ∷ []) ≡ length done + 1 = length-append done (last ∷ []) in
        elim (Sign-cases (order.stable_compare last x)) [
          | inl up ↦
              rw
                (
                  back,
                  last_load done last b w,
                  From-load b i x r f,
                  up,
                  distinct_from-up last x r up,
                )
                (compact_loop_lem r done last b (i + 1) w (omega arith) (From-next b i x r f))
          | inr (inr level) ↦
              rw
                (
                  back,
                  last_load done last b w,
                  From-load b i x r f,
                  level,
                  distinct_from-level last x r level,
                )
                (compact_loop_lem r done last b (i + 1) w (omega arith) (From-next b i x r f))
          | inr (inl down) ↦
              let kept = done ++ last ∷ [] in
              let to = length done + 1 in
              let i_in : i < b.alloc = (index_in b i x r f).0 in
              let copied : Block A = record b { cell = update b.cell to x } in
              rw
                (
                  back,
                  last_load done last b w,
                  From-load b i x r f,
                  down,
                  distinct_from-down last x r down,
                  copy_cell-ok b to i (omega arith) i_in (index_in b i x r f).1,
                  ← append_assoc done (last ∷ []) (x ∷ distinct_from order x r),
                )
                (subst
                  (λ t.
                    Returns (Compacted b (kept ++ x ∷ distinct_from order x r))
                      (compact_loop order copied (t + 1) (i + 1) (length r)))
                  next
                  (Returns-map
                    (compact_loop_lem r kept x copied (i + 1)
                      (subst (λ t. Written (kept ++ x ∷ []) (record b { cell = update b.cell t x }))
                        next (Written-store kept b x w (omega (arith, next))))
                      (omega (arith, next))
                      (From-update b to (i + 1) x r (omega arith) (From-next b i x r f)))
                    λ res c. record {
                      same_size = c.same_size;
                      written = c.written;
                      new_size = c.new_size;
                    }))
        ]
