-- ===== src/StrictSortedVectorSet/Build/Distinct.antt =====
-- The values of a list without those that do not stand behind the last one kept.
use pecl_teds.Base.{
  ℕ, zero, suc, ◌<◌, ◌≡◌, refl, ap, ◌||◌, List, [], ◌∷◌, some, get_elem?, arith, inl, inr, tally,
  ltb,
}
use pecl_teds.Compare.{negative, null, positive, Comparison}
use pecl_teds.Compare.Laws.{Sign-cases}
use pecl_teds.StrictSortedVectorSet.Sorted.{Ascending}
use pecl_teds.StrictSortedVectorSet.Sets.{
  same, has, Ahead, Ahead-trans, Ahead-cons, Ascending-cons, same-right,
}

module _ {A : Type 0} (order : Comparison A) where
  unfoldable pub distinct_from : A → List A → List A
  distinct_from last [] = []
  distinct_from last (x ∷ q) = elim (order.stable_compare last x) [
    | negative ↦ x ∷ distinct_from x q
    | null ↦ distinct_from last q
    | positive ↦ distinct_from last q
  ]

  abbrev pub distinct : List A → List A
  distinct [] = []
  distinct (x ∷ q) = x ∷ distinct_from x q

  -- No value stands behind a greater one.
  abbrev pub Rising : List A → Type 0
  Rising q =
      (i j : ℕ) (a b : A)
      → i < j
      → get_elem? q i ≡ some a
      → get_elem? q j ≡ some b
      → ¬ (order.stable_compare a b ≡ positive)

  distinct_from-Ahead : (last : A) (q : List A) → Ahead order last (distinct_from last q)
  unfolding distinct_from
  distinct_from-Ahead last [] = λ j a get. cc get
  distinct_from-Ahead last (x ∷ q) = elim (Sign-cases (order.stable_compare last x)) [
    | inl up ↦ rw (distinct_from, up) (distinct_from-Ahead last q)
    | inr (inl down) ↦
        rw (distinct_from, down)
          (Ahead-cons order last x (distinct_from x q) down
            (Ahead-trans order last x (distinct_from x q) down (distinct_from-Ahead x q)))
    | inr (inr level) ↦ rw (distinct_from, level) (distinct_from-Ahead last q)
  ]

  distinct_from-Ascending : (last : A) (q : List A) → Ascending order (distinct_from last q)
  unfolding distinct_from
  distinct_from-Ascending last [] = λ i j a b lt at_i at_j. cc at_i
  distinct_from-Ascending last (x ∷ q) = elim (Sign-cases (order.stable_compare last x)) [
    | inl up ↦ rw (distinct_from, up) (distinct_from-Ascending last q)
    | inr (inl down) ↦
        rw (distinct_from, down)
          (Ascending-cons order x (distinct_from x q) (distinct_from-Ahead x q)
            (distinct_from-Ascending x q))
    | inr (inr level) ↦ rw (distinct_from, level) (distinct_from-Ascending last q)
  ]

  pub distinct-Ascending : (q : List A) → Ascending order (distinct q)
  distinct-Ascending [] = λ i j a b lt at_i at_j. cc at_i
  distinct-Ascending (x ∷ q) =
      Ascending-cons order x (distinct_from x q) (distinct_from-Ahead x q)
        (distinct_from-Ascending x q)

  Rising-drop : (x y : A) (q : List A) → Rising (x ∷ (y ∷ q)) → Rising (x ∷ q)
  Rising-drop x y q rising zero (suc j) a b lt at_i at_j =
      rising 0 (suc (suc j)) a b (omega arith) at_i at_j
  Rising-drop x y q rising (suc i) (suc j) a b lt at_i at_j =
      rising (suc (suc i)) (suc (suc j)) a b (omega arith) at_i at_j
  Rising-drop x y q rising i zero a b lt at_i at_j = absurd (omega arith)

  Rising-tail : (x : A) (q : List A) → Rising (x ∷ q) → Rising q
  Rising-tail x q rising i j a b lt at_i at_j = rising (suc i) (suc j) a b (omega arith) at_i at_j

  distinct_from-has :
      (last : A) (q : List A) (a : A)
      → Rising (last ∷ q)
      → has order (last ∷ distinct_from last q) a ≡ has order (last ∷ q) a
  unfolding distinct_from
  distinct_from-has last [] a rising = refl
  distinct_from-has last (x ∷ q) a rising = elim (Sign-cases (order.stable_compare last x)) [
    | inl up ↦ absurd (rising 0 1 last x (omega arith) refl refl up)
    | inr (inl down) ↦
        rw (distinct_from, down)
          (ap (λ b. same order a last || b)
            (distinct_from-has x q a (Rising-tail last (x ∷ q) rising)))
    | inr (inr level) ↦
        let rest = distinct_from-has last q a (Rising-drop last x q rising) in
        rw (distinct_from, level, ← same-right order a last x level) (ground (arith, rest))
  ]

  pub distinct-has : (q : List A) (a : A) → Rising q → has order (distinct q) a ≡ has order q a
  distinct-has [] a rising = refl
  distinct-has (x ∷ q) a rising = distinct_from-has x q a rising

  -- Which values a list has, by how often.
  pub has-tally : (q : List A) (a : A) → has order q a ≡ ltb 0 (tally (same order a) q)
  has-tally [] a = refl
  has-tally (x ∷ q) a = ground (arith, has-tally q a)
