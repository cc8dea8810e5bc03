-- ===== src/StrictHeap/Sink.antt =====
-- How a step away from the first entry keeps the order, for any parent that stands before its
-- children.
use pecl_teds.Base.{
  ℕ, ◌<◌, ◌≡◌, ◌≢◌, refl, sym, ap, ◌∙◌, Bool, Option, some, List, length, get_elem?, arith,
  ℕ_discrete, swap, length-swap, get_elem?-swap_left, get_elem?-swap_right, get_elem?-swap_else,
}
use pecl_teds.StrictHeap.{Comparison}
use pecl_teds.StrictHeap.Order.{InOrder, InOrder-cast, Ordered}

module _ {A : Type 0} (order : Comparison A) (is_min_heap : Bool) (parent : ℕ → ℕ)
    (earlier : (i : ℕ) → 0 < i → parent i < i) where
  -- The order holds but between the hole and its children, and over the hole.
  pub record OrderedAbove (s : List A) (offset : ℕ) : Type 0 where
    pub others :
        (i : ℕ)
        → 0 < i
        → i < length s
        → parent i ≢ offset
        → InOrder order is_min_heap (get_elem? s (parent i)) (get_elem? s i)
    pub over :
        0 < offset
        → (i : ℕ) → 0 < i
        → i < length s
        → parent i ≡ offset
        → InOrder order is_min_heap (get_elem? s (parent offset)) (get_elem? s i)

  -- An entry that may stand above all children of a place.
  abbrev pub Leads : List A → Option A → ℕ → Type 0
  Leads s x offset =
      (i : ℕ)
      → 0 < i
      → i < length s
      → parent i ≡ offset
      → InOrder order is_min_heap x (get_elem? s i)

  pub OrderedAbove-down :
      (s : List A) (key : A) (offset child : ℕ) (v : A)
      → OrderedAbove s offset
      → offset < length s
      → 0 < child
      → child < length s
      → parent child ≡ offset
      → get_elem? s child ≡ some v
      → Leads s (some v) offset
      → InOrder order is_min_heap (some v) (some key)
      → OrderedAbove (swap s offset child v key) child
  OrderedAbove-down s key offset child v h lt pos lt_c up at_child leads below =
      let lower : offset < child = omega (arith, earlier child pos, up) in
      let same = length-swap s offset child v key in
      let right = get_elem?-swap_right s offset child v key lt lt_c in
      let left =
        get_elem?-swap_left s offset child v key lt lt_c (λ e. absurd (omega (arith, lower, e))) in
      let other = get_elem?-swap_else s offset child v key lt lt_c in
      let cast = InOrder-cast order is_min_heap in
      let at = get_elem? (swap s offset child v key) in
      record {
        others = λ i pos_i lt_i ne. elim (ℕ_discrete i child) [
          | yes eq ↦
              cast _ _ _ _ (ap (λ t. at (parent t)) eq ∙ ap at up ∙ left) (ap at eq ∙ right) below
          | no nc ↦ elim (ℕ_discrete (parent i) offset) [
            | yes eq ↦
                cast _ _ _ _ (ap at eq ∙ left)
                  (other i (λ e. absurd (omega (arith, earlier i pos_i, eq, e))) nc)
                  (leads i pos_i (omega (arith, same)) eq)
            | no np ↦ elim (ℕ_discrete i offset) [
              | yes eq ↦
                  cast _ _ _ _ (other (parent i) np ne ∙ ap (λ t. get_elem? s (parent t)) eq)
                    (ap at eq ∙ left ∙ sym at_child)
                    (h.over (omega (arith, eq, pos_i)) child pos lt_c up)
              | no ni ↦
                  cast _ _ _ _ (other (parent i) np ne) (other i ni nc)
                    (h.others i pos_i (omega (arith, same)) np)
            ]
          ]
        ];
        over = λ pos_c i pos_i lt_i eq.
            let after : child < i = omega (arith, earlier i pos_i, eq) in
            cast _ _ _ _ (ap at up ∙ left ∙ sym at_child ∙ ap (get_elem? s) (sym eq))
              (other i (λ e. absurd (omega (arith, after, lower, e)))
                (λ e. absurd (omega (arith, after, e))))
              (h.others i pos_i (omega (arith, same)) (λ e. absurd (omega (arith, lower, eq, e))));
      }

  -- With nothing below the key that is to be above it, the order holds.
  pub OrderedAbove-done :
      (s : List A) (offset : ℕ)
      → OrderedAbove s offset
      → Leads s (get_elem? s offset) offset
      → Ordered order is_min_heap parent s
  OrderedAbove-done s offset h leads i pos lt = elim (ℕ_discrete (parent i) offset) [
    | yes eq ↦ InOrder-cast order is_min_heap _ _ _ _ (ap (get_elem? s) eq) refl (leads i pos lt eq)
    | no ne ↦ h.others i pos lt ne
  ]
