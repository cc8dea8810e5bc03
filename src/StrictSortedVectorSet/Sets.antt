-- ===== src/StrictSortedVectorSet/Sets.antt =====
-- Ascending lists as sets: adding and removing a key, and which values are the same as one in the
-- list.
use pecl_teds.Base.{
  ℕ, zero, suc, ◌≡◌, refl, sym, ap, ◌∙◌, Bool, true, false, ◌||◌, List, [], ◌∷◌, some, get_elem?,
  arith, inl, inr,
}
use pecl_teds.Compare.{Sign, negative, null, positive, opposite, Comparison}
use pecl_teds.Compare.Laws.{Sign-cases, Less, Less-trans, compare-same}
use pecl_teds.StrictSortedVectorSet.Sorted.{Ascending, position}

abbrev pub is_null_sign : Sign → Bool
is_null_sign null = true
is_null_sign negative = false
is_null_sign positive = false

opposite-is_null : (s : Sign) → is_null_sign (opposite s) ≡ is_null_sign s
opposite-is_null negative = refl
opposite-is_null null = refl
opposite-is_null positive = refl

is_null-eq : (s : Sign) → is_null_sign s ≡ true → s ≡ null
is_null-eq null e = refl
is_null-eq negative e = cc e
is_null-eq positive e = cc e

module _ {A : Type 0} (order : Comparison A) where
  -- The key is put in its place.
  unfoldable pub insert_key : A → List A → List A
  insert_key key [] = key ∷ []
  insert_key key (x ∷ q) = elim (order.stable_compare key x) [
    | positive ↦ x ∷ insert_key key q
    | negative ↦ key ∷ (x ∷ q)
    | null ↦ x ∷ q
  ]

  unfoldable pub remove_from : A → List A → List A
  remove_from key [] = []
  remove_from key (x ∷ q) = elim (order.stable_compare key x) [
    | positive ↦ x ∷ remove_from key q
    | negative ↦ x ∷ q
    | null ↦ q
  ]

  abbrev pub same : A → A → Bool
  same a b = is_null_sign (order.stable_compare a b)

  abbrev pub has : List A → A → Bool
  has [] a = false
  has (x ∷ q) a = same a x || has q a

  -- The value stands before each of the list.
  abbrev pub Ahead : A → List A → Type 0
  Ahead x q = (j : ℕ) (a : A) → get_elem? q j ≡ some a → Less order x a

  pub Ascending-head : (x : A) (q : List A) → Ascending order (x ∷ q) → Ahead x q
  Ascending-head x q asc j a get = asc 0 (suc j) x a (omega arith) refl get

  pub Ascending-tail : (x : A) (q : List A) → Ascending order (x ∷ q) → Ascending order q
  Ascending-tail x q asc i j a b lt at_i at_j = asc (suc i) (suc j) a b (omega arith) at_i at_j

  pub Ascending-cons :
      (x : A) (q : List A) → Ahead x q → Ascending order q → Ascending order (x ∷ q)
  Ascending-cons x q ahead asc i zero a b lt at_i at_j = absurd (omega arith)
  Ascending-cons x q ahead asc zero (suc j) a b lt at_i at_j =
      let e : some x ≡ some a = at_i in cc (ahead j b at_j, e)
  Ascending-cons x q ahead asc (suc i) (suc j) a b lt at_i at_j =
      asc i j a b (omega arith) at_i at_j

  pub Ahead-trans : (k x : A) (q : List A) → Less order k x → Ahead x q → Ahead k q
  Ahead-trans k x q lt ahead j a get = Less-trans order k x a lt (ahead j a get)

  pub Ahead-cons : (k x : A) (q : List A) → Less order k x → Ahead k q → Ahead k (x ∷ q)
  Ahead-cons k x q lt ahead zero a get = let e : some x ≡ some a = get in cc (e, lt)
  Ahead-cons k x q lt ahead (suc j) a get = ahead j a get

  -- A value that stands before all of the list is none of them.
  pub has-Ahead : (a : A) (q : List A) → Ahead a q → has q a ≡ false
  has-Ahead a [] ahead = refl
  has-Ahead a (x ∷ q) ahead =
      rw (ahead 0 x refl, has-Ahead a q (λ j y get. ahead (suc j) y get)) refl

  -- A walk from the front finds the key if it is in the list.
  pub position-has :
      (key : A) (q : List A) → Ascending order q → (position order key q).1 ≡ has q key
  unfolding position
  position-has key [] asc = refl
  position-has key (x ∷ q) asc = elim (Sign-cases (order.stable_compare key x)) [
    | inl up ↦ rw (position, up) (position-has key q (Ascending-tail x q asc))
    | inr (inl down) ↦
        rw (position, down, has-Ahead key q (Ahead-trans key x q down (Ascending-head x q asc)))
          refl
    | inr (inr level) ↦ rw (position, level) refl
  ]

  pub same-compare : (a b : A) → same a b ≡ true → order.stable_compare a b ≡ null
  same-compare a b e = is_null-eq (order.stable_compare a b) e

  pub same-flip : (a b : A) → same a b ≡ same b a
  same-flip a b =
      sym (ap is_null_sign (order.swapped a b) ∙ opposite-is_null (order.stable_compare a b))

  pub same-left : (a b c : A) → order.stable_compare a b ≡ null → same a c ≡ same b c
  same-left a b c level = ap is_null_sign (compare-same order a b c level)

  pub same-right : (a b c : A) → order.stable_compare b c ≡ null → same a b ≡ same a c
  same-right a b c level = same-flip a b ∙ same-left b c a level ∙ same-flip c a

  -- A value that is the same as one that stands before the list is none of the list.
  pub has-same_Ahead :
      (a x : A) (q : List A) → order.stable_compare a x ≡ null → Ahead x q → has q a ≡ false
  has-same_Ahead a x q level ahead =
      has-Ahead a q (λ j y get. compare-same order a x y level ∙ ahead j y get)
