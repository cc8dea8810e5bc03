-- ===== src/StrictHeap/Order.antt =====
-- The order that the heaps keep: an entry is never to be above the one that stands above it.
use pecl_teds.Base.{
  ℕ, zero, suc, ◌<◌, ◌≡◌, refl, sym, ap, ◌∙◌, dec_lt, get_elem?-some, Bool-cases, inl, inr, Bool,
  true, false, Option, none, some, List, length, get_elem?, arith,
}
use pecl_teds.StrictHeap.{Comparison, positive, should_be_above}

module _ {A : Type 0} (order : Comparison A) where
  -- No heap of this kind would give `a` before `x`: by the comparison itself.
  abbrev pub Leading : Bool → A → A → Type 0
  Leading true x a = ¬ (order.stable_compare x a ≡ positive)
  Leading false x a = ¬ (order.stable_compare a x ≡ positive)

  pub not_above-Leading :
      (is_min_heap : Bool) (x a : A)
      → should_be_above order is_min_heap a x ≡ false
      → Leading is_min_heap x a
  unfolding should_be_above
  not_above-Leading true x a h = λ e. ground (arith, order.swapped x a, h, e)
  not_above-Leading false x a h = λ e. ground (arith, h, e)

module _ {A : Type 0} (order : Comparison A) (is_min_heap : Bool) where
  pub above-asym :
      (a b : A)
      → should_be_above order is_min_heap a b ≡ true
      → should_be_above order is_min_heap b a ≡ false
  unfolding should_be_above
  above-asym a b h = ground (arith, order.swapped a b, h)

  -- What is not to be above something is not to be above what that is not to be above.
  pub above_trans :
      (a b c : A)
      → should_be_above order is_min_heap b a ≡ false
      → should_be_above order is_min_heap c b ≡ false
      → should_be_above order is_min_heap c a ≡ false
  unfolding should_be_above
  above_trans a b c h k = ground (
    arith,
    order.swapped a b,
    order.swapped b c,
    order.swapped a c,
    order.transitive a b c,
    order.transitive c b a,
  )

  -- The two entries may stand in this order, the first above the second.
  abbrev pub InOrder : Option A → Option A → Type 0
  InOrder none y = Unit
  InOrder (some a) none = Unit
  InOrder (some a) (some b) = should_be_above order is_min_heap b a ≡ false

  pub InOrder-trans :
      (x : Option A) (b : A) (y : Option A) → InOrder x (some b) → InOrder (some b) y → InOrder x y
  InOrder-trans none b y h k = tt
  InOrder-trans (some a) b none h k = tt
  InOrder-trans (some a) b (some c) h k = above_trans a b c h k

  -- Each entry but the first may stand below its parent.
  abbrev pub Ordered : (ℕ → ℕ) → List A → Type 0
  Ordered parent q =
      (i : ℕ) → 0 < i → i < length q → InOrder (get_elem? q (parent i)) (get_elem? q i)

  pub InOrder-cast : (x x' y y' : Option A) → x ≡ x' → y ≡ y' → InOrder x' y' → InOrder x y
  InOrder-cast x x' y y' e f h = rw (e, f) h

  pub InOrder-refl : (a : A) → InOrder (some a) (some a)
  InOrder-refl a = elim (Bool-cases (should_be_above order is_min_heap a a)) [
    | inl above ↦ above-asym a a above
    | inr same ↦ same
  ]

  -- The first entry may stand above every other.
  pub Ordered-first :
      (parent : ℕ → ℕ)
      → ((i : ℕ) → 0 < i → parent i < i)
      → (q : List A) (x : A) → Ordered parent q
      → get_elem? q 0 ≡ some x
      → (n i : ℕ) → i < n
      → i < length q
      → InOrder (some x) (get_elem? q i)
  Ordered-first parent earlier q x o e zero i small lt = absurd (omega arith)
  Ordered-first parent earlier q x o e (suc n) i small lt = elim (dec_lt 0 i) [
    | no front ↦
        InOrder-cast (some x) (some x) (get_elem? q i) (some x) refl
          (ap (get_elem? q) (omega arith) ∙ e) (InOrder-refl x)
    | yes pos ↦
        let (v, at) = get_elem?-some q (parent i) (omega (arith, earlier i pos)) in
        InOrder-trans (some x) v (get_elem? q i)
          (InOrder-cast (some x) (some x) (some v) (get_elem? q (parent i)) refl (sym at) (
            Ordered-first parent earlier q x o e n (parent i) (omega (arith, earlier i pos))
              (omega (arith, earlier i pos))))
          (InOrder-cast (some v) (get_elem? q (parent i)) (get_elem? q i) (get_elem? q i) (sym at)
            refl (o i pos lt))
  ]
