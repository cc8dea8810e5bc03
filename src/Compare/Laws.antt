-- ===== src/Compare/Laws.antt =====
-- The strict order that a comparison gives.
use pecl_teds.Base.{◌⊎◌, inl, inr, ◌≡◌, refl, sym, ap, ◌∙◌}
use pecl_teds.Compare.{Sign, negative, null, positive, opposite, Comparison}

-- To split on the sign of a comparison and keep the equation.
pub Sign-cases : (s : Sign) → (s ≡ positive) ⊎ ((s ≡ negative) ⊎ (s ≡ null))
Sign-cases positive = inl refl
Sign-cases negative = inr (inl refl)
Sign-cases null = inr (inr refl)

module _ {A : Type 0} (order : Comparison A) where
  abbrev pub Less : A → A → Type 0
  Less a b = order.stable_compare a b ≡ negative

  pub compare-swap :
      (a b : A) {s : Sign} → order.stable_compare a b ≡ s → order.stable_compare b a ≡ opposite s
  compare-swap a b e = order.swapped a b ∙ ap opposite e

  -- A first step that is not up and a second that is down.
  pub trans-le-Less : (a b c : A) → ¬ (order.stable_compare a b ≡ positive) → Less b c → Less a c
  trans-le-Less a b c le lt = strict (order.stable_compare a c) refl
    where
      strict : (s : Sign) → order.stable_compare a c ≡ s → Less a c
      strict negative e = e
      strict null e =
          absurd
            (order.transitive c a b (λ up. cc (up, compare-swap a c e)) le (compare-swap b c lt))
      strict positive e = absurd (order.transitive a b c le (λ up. cc (up, lt)) e)

  pub trans-Less-le : (a b c : A) → Less a b → ¬ (order.stable_compare b c ≡ positive) → Less a c
  trans-Less-le a b c lt le = strict (order.stable_compare a c) refl
    where
      strict : (s : Sign) → order.stable_compare a c ≡ s → Less a c
      strict negative e = e
      strict null e =
          absurd
            (order.transitive b c a le (λ up. cc (up, compare-swap a c e)) (compare-swap a b lt))
      strict positive e = absurd (order.transitive a b c (λ up. cc (up, lt)) le e)

  pub Less-trans : (a b c : A) → Less a b → Less b c → Less a c
  Less-trans a b c ab bc = trans-Less-le a b c ab (λ up. cc (up, bc))

  -- A value stands where one of the same place stands.
  pub compare-same :
      (a b c : A)
      → order.stable_compare a b ≡ null
      → order.stable_compare a c ≡ order.stable_compare b c
  compare-same a b c same = elim (Sign-cases (order.stable_compare b c)) [
    | inl up ↦
        compare-swap c a
          (trans-Less-le c b a (compare-swap b c up) (λ e. cc (e, compare-swap a b same)))
        ∙ sym up
    | inr (inl down) ↦ trans-le-Less a b c (λ e. cc (e, same)) down ∙ sym down
    | inr (inr level) ↦ level_too level ∙ sym level
  ]
    where
      level_too : order.stable_compare b c ≡ null → order.stable_compare a c ≡ null
      level_too level = elim (Sign-cases (order.stable_compare a c)) [
        | inl up ↦ absurd (order.transitive a b c (λ e. cc (e, same)) (λ e. cc (e, level)) up)
        | inr (inl down) ↦ absurd (
            order.transitive c b a (λ e. cc (e, compare-swap b c level))
              (λ e. cc (e, compare-swap a b same)) (compare-swap a c down))
        | inr (inr same') ↦ same'
      ]
