-- ===== src/StrictSortedVectorSet/Build/InsertionSort.antt =====
-- A sort that does what the C library documents of qsort.
use pecl_teds.Base.{
  ℕ, zero, suc, ◌+◌, ◌≡◌, refl, Bool, List, [], ◌∷◌, get_elem?, some, arith, inl, inr, tally,
  one_if,
}
use pecl_teds.Compare.{negative, null, positive, Comparison}
use pecl_teds.Compare.Laws.{Sign-cases, compare-swap}
use pecl_teds.StrictSortedVectorSet.Build.{Qsort}
use pecl_teds.StrictSortedVectorSet.Build.Distinct.{Rising}

module _ {A : Type 0} (order : Comparison A) where
  unfoldable pub sink : A → List A → List A
  sink key [] = key ∷ []
  sink key (x ∷ q) = elim (order.stable_compare key x) [
    | positive ↦ x ∷ sink key q
    | negative ↦ key ∷ (x ∷ q)
    | null ↦ key ∷ (x ∷ q)
  ]

  unfoldable pub sort : List A → List A
  sort [] = []
  sort (x ∷ q) = sink x (sort q)

  sink-tally :
      (key : A) (q : List A) (p : A → Bool) → tally p (sink key q) ≡ one_if (p key) + tally p q
  unfolding sink
  sink-tally key [] p = refl
  sink-tally key (x ∷ q) p = elim (Sign-cases (order.stable_compare key x)) [
    | inl up ↦ rw (sink, up) (omega (arith, sink-tally key q p))
    | inr (inl down) ↦ rw (sink, down) refl
    | inr (inr level) ↦ rw (sink, level) refl
  ]

  pub sort-tally : (p : A → Bool) (q : List A) → tally p (sort q) ≡ tally p q
  unfolding sort
  sort-tally p [] = refl
  sort-tally p (x ∷ q) = omega (arith, sink-tally x (sort q) p, sort-tally p q)

  abbrev AtMost : A → List A → Type 0
  AtMost x q = (j : ℕ) (a : A) → get_elem? q j ≡ some a → ¬ (order.stable_compare x a ≡ positive)

  AtMost-cons :
      (x y : A) (q : List A)
      → ¬ (order.stable_compare x y ≡ positive)
      → AtMost x q
      → AtMost x (y ∷ q)
  AtMost-cons x y q le most zero a get = let e : some y ≡ some a = get in λ up. le (cc (e, up))
  AtMost-cons x y q le most (suc j) a get = most j a get

  Rising-cons : (x : A) (q : List A) → AtMost x q → Rising order q → Rising order (x ∷ q)
  Rising-cons x q most rising zero (suc j) a b lt at_i at_j =
      let e : some x ≡ some a = at_i in λ up. most j b at_j (cc (e, up))
  Rising-cons x q most rising (suc i) (suc j) a b lt at_i at_j =
      rising i j a b (omega arith) at_i at_j
  Rising-cons x q most rising i zero a b lt at_i at_j = absurd (omega arith)

  Rising-head : (x : A) (q : List A) → Rising order (x ∷ q) → AtMost x q
  Rising-head x q rising j a get = rising 0 (suc j) x a (omega arith) refl get

  Rising-rest : (x : A) (q : List A) → Rising order (x ∷ q) → Rising order q
  Rising-rest x q rising i j a b lt at_i at_j = rising (suc i) (suc j) a b (omega arith) at_i at_j

  sink-AtMost :
      (x key : A) (q : List A)
      → ¬ (order.stable_compare x key ≡ positive)
      → AtMost x q
      → AtMost x (sink key q)
  unfolding sink
  sink-AtMost x key [] le most = AtMost-cons x key [] le most
  sink-AtMost x key (y ∷ q) le most = elim (Sign-cases (order.stable_compare key y)) [
    | inl up ↦
        rw (sink, up)
          (AtMost-cons x y (sink key q) (most 0 y refl)
            (sink-AtMost x key q le (λ j. most (suc j))))
    | inr (inl down) ↦ rw (sink, down) (AtMost-cons x key (y ∷ q) le most)
    | inr (inr level) ↦ rw (sink, level) (AtMost-cons x key (y ∷ q) le most)
  ]

  AtMost-before :
      (key x : A) (q : List A)
      → ¬ (order.stable_compare key x ≡ positive)
      → Rising order (x ∷ q)
      → AtMost key (x ∷ q)
  AtMost-before key x q le rising =
      AtMost-cons key x q le
        (λ j a get. order.transitive key x a le (Rising-head x q rising j a get))

  sink-Rising : (key : A) (q : List A) → Rising order q → Rising order (sink key q)
  unfolding sink
  sink-Rising key [] rising = Rising-cons key [] (λ j a get. cc get) rising
  sink-Rising key (x ∷ q) rising = elim (Sign-cases (order.stable_compare key x)) [
    | inl up ↦
        rw (sink, up)
          (Rising-cons x (sink key q)
            (sink-AtMost x key q (λ e. cc (e, compare-swap order key x up))
              (Rising-head x q rising))
            (sink-Rising key q (Rising-rest x q rising)))
    | inr (inl down) ↦
        rw (sink, down)
          (Rising-cons key (x ∷ q) (AtMost-before key x q (λ e. cc (e, down)) rising) rising)
    | inr (inr level) ↦
        rw (sink, level)
          (Rising-cons key (x ∷ q) (AtMost-before key x q (λ e. cc (e, level)) rising) rising)
  ]

  pub sort-Rising : (q : List A) → Rising order (sort q)
  unfolding sort
  sort-Rising [] = λ i j a b lt at_i at_j. cc at_i
  sort-Rising (x ∷ q) = sink-Rising x (sort q) (sort-Rising q)

  abbrev pub insertion_sort : Qsort order
  insertion_sort = record { qsort = sort; same_values = sort-tally; in_order = sort-Rising }
