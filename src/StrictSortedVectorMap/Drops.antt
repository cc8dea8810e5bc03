-- ===== src/StrictSortedVectorMap/Drops.antt =====
-- Lists of pairs whose keys ascend as maps: what taking out a pair does.
use pecl_teds.Base.{
  ◌≡◌, refl, ap, ◌∙◌, false, List, [], ◌∷◌, none, arith, inl, inr, Bool-cases, if◌then◌else◌,
}
use pecl_teds.Compare.{Comparison}
use pecl_teds.Compare.Laws.{Sign-cases, compare-swap}
use pecl_teds.StrictSortedVectorSet.Sorted.{Ascending}
use pecl_teds.StrictSortedVectorSet.Sets.{
  same, is_null_sign, Ascending-head, Ascending-tail, Ahead-trans, Ahead-cons, remove_from,
  same-compare, same-left, same-right,
}
use pecl_teds.StrictSortedVectorMap.{Entry}
use pecl_teds.StrictSortedVectorMap.Search.{by_key}
use pecl_teds.StrictSortedVectorMap.Finds.{find, find-level, drop}

module _ {A : Type 0} (order : Comparison A) (key : A) where
  pub drop-find :
      (q : List (Entry A))
      → Ascending (by_key order) q
      → (a : A)
      → find order (drop order key q) a ≡ (if same order a key then none else find order q a)
  unfolding remove_from
  drop-find [] asc a = ground arith
  drop-find (x ∷ q) asc a = elim (Sign-cases (order.stable_compare key x.0)) [
    | inl up ↦
        let rest = drop-find q (Ascending-tail (by_key order) x q asc) a in
        rw (remove_from, up)
          (elim (Bool-cases (same order a x.0)) [
            | inl yes_x ↦
                let other : same order a key ≡ false =
                  same-left order a x.0 key (same-compare order a x.0 yes_x)
                  ∙ ap is_null_sign (compare-swap order key x.0 up) in
                rw (yes_x, other) refl
            | inr no_x ↦ rw no_x rest
          ])
    | inr (inl down) ↦
        rw (remove_from, down)
          (elim (Bool-cases (same order a key)) [
            | inl yes_key ↦
                let level = same-compare order a key yes_key in
                rw yes_key (
                  find-level order a (key, key) (x ∷ q) level
                    (Ahead-cons (by_key order) (key, key) x q down
                      (Ahead-trans (by_key order) (key, key) x q down
                        (Ascending-head (by_key order) x q asc))))
            | inr no_key ↦ rw no_key refl
          ])
    | inr (inr level) ↦
        rw (remove_from, level, same-right order a key x.0 level)
          (elim (Bool-cases (same order a x.0)) [
            | inl yes_x ↦ rw yes_x (
                find-level order a x q (same-compare order a x.0 yes_x)
                  (Ascending-head (by_key order) x q asc))
            | inr no_x ↦ rw no_x refl
          ])
  ]
