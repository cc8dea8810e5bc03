-- ===== src/StrictSortedVectorSet/Sorted.antt =====
-- Ascending lists, the place of a key in one, and what adding, removing and looking up a key do.
use pecl_teds.Base.{
  ℕ, zero, suc, ◌<◌, ◌≤◌, ◌≡◌, refl, Bool, true, false, List, [], ◌∷◌, some, length, get_elem?,
  arith, inl, inr,
}
use pecl_teds.Compare.{negative, null, positive, Comparison}
use pecl_teds.Compare.Laws.{Sign-cases, Less}

module _ {A : Type 0} (order : Comparison A) where
  -- Each value stands before every later one.
  abbrev pub Ascending : List A → Type 0
  Ascending q =
      (i j : ℕ) (a b : A) → i < j → get_elem? q i ≡ some a → get_elem? q j ≡ some b → Less order a b

  -- The place of the key, or where it is to be put, by a walk from the front.
  unfoldable pub position : A → List A → ℕ × Bool
  position key [] = (0, false)
  position key (x ∷ q) = elim (order.stable_compare key x) [
    | positive ↦ let (i, found) = position key q in (suc i, found)
    | negative ↦ (0, false)
    | null ↦ (0, true)
  ]

  -- What a search has to say of the key.
  pub record Position (q : List A) (key : A) (i : ℕ) (found : Bool) : Type 0 where
    pub below :
        (j : ℕ) (a : A) → j < i → get_elem? q j ≡ some a → order.stable_compare key a ≡ positive
    pub at :
        (a : A)
        → get_elem? q i ≡ some a
        → order.stable_compare key a ≡ elim found [ true ↦ null | false ↦ negative ]
    pub inside : i ≤ length q
    pub there : found ≡ true → i < length q

  Position-next :
      {x : A} {q : List A} {key : A} {i : ℕ} {found : Bool}
      → Position (x ∷ q) key (suc i) found
      → Position q key i found
  Position-next p = record {
    below = λ j a lt. p.below (suc j) a (omega arith);
    at = p.at;
    inside = omega (arith, p.inside);
    there = λ e. omega (arith, p.there e);
  }

  -- The place is the only one.
  pub Position-unique :
      (q : List A) (key : A) (i : ℕ) (found : Bool)
      → Position q key i found
      → position key q ≡ (i, found)
  unfolding position
  Position-unique [] key zero false p = refl
  Position-unique [] key (suc i) false p = absurd (omega (arith, p.inside))
  Position-unique [] key i true p = absurd (omega (arith, p.there refl))
  Position-unique (x ∷ q) key zero false p = rw (position, p.at x refl) refl
  Position-unique (x ∷ q) key zero true p = rw (position, p.at x refl) refl
  Position-unique (x ∷ q) key (suc i) found p =
      rw (position, p.below 0 x (omega arith) refl, Position-unique q key i found (Position-next p))
        refl

  pub position_le : (key : A) (q : List A) → (position key q).0 ≤ length q
  unfolding position
  position_le key [] = omega arith
  position_le key (x ∷ q) = elim (Sign-cases (order.stable_compare key x)) [
    | inl up ↦ rw (position, up) (omega (arith, position_le key q))
    | inr (inl down) ↦ rw (position, down) (omega arith)
    | inr (inr level) ↦ rw (position, level) (omega arith)
  ]

  pub position_lt :
      (key : A) (q : List A) → (position key q).1 ≡ true → (position key q).0 < length q
  unfolding position
  position_lt key [] there = cc there
  position_lt key (x ∷ q) there = elim (Sign-cases (order.stable_compare key x)) [
    | inl up ↦
        let there' : (position key q).1 ≡ true = rw (← there, position, up) refl in
        rw (position, up) (omega (arith, position_lt key q there'))
    | inr (inl down) ↦
        let e : (position key (x ∷ q)).1 ≡ false = rw (position, down) refl in cc (there, e)
    | inr (inr level) ↦ rw (position, level) (omega arith)
  ]
