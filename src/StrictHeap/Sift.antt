-- ===== src/StrictHeap/Sift.antt =====
-- A key on its way through the entries: its place is a hole in the block, and the list says what the
-- entries would be with the key there.
use pecl_teds.Base.{
  ℕ, ◌<◌, ◌≤◌, ◌≡◌, ◌≢◌, refl, sym, ap, ◌∙◌, Bool, some, List, length, get_elem?, arith, ℕ_discrete,
  swap, tally, length-swap, get_elem?-swap, get_elem?-swap_left, get_elem?-swap_right,
  get_elem?-swap_else, tally-swap,
}
use pecl_teds.Memory.{Block, update}
use pecl_teds.StrictHeap.{Comparison}
use pecl_teds.StrictHeap.Order.{InOrder, InOrder-trans, InOrder-cast, Ordered}

module _ {A : Type 0} where
  pub record Sifting (entries : Block A) (s : List A) (key : A) (offset : ℕ) : Type 0 where
    pub room : length s ≤ entries.alloc
    pub inside : offset < length s
    pub hole : get_elem? s offset ≡ some key
    pub cells : (j : ℕ) → j < length s → j ≢ offset → entries.cell j ≡ get_elem? s j

  -- The same entries in another order.
  pub record Rearranged (s t : List A) : Type 0 where
    pub same_length : length t ≡ length s
    pub same_tally : (p : A → Bool) → tally p t ≡ tally p s

  pub Rearranged-refl : (s : List A) → Rearranged s s
  Rearranged-refl s = record { same_length = refl; same_tally = λ p. refl }

  pub Rearranged-trans : (s t u : List A) → Rearranged s t → Rearranged t u → Rearranged s u
  Rearranged-trans s t u h k = record {
    same_length = omega (arith, h.same_length, k.same_length);
    same_tally = λ p. omega (arith, h.same_tally p, k.same_tally p);
  }

  module _ (entries : Block A) (s : List A) (key : A) (offset place : ℕ) (v : A)
      (h : Sifting entries s key offset) (below : place < length s) (ne : place ≢ offset)
      (e : get_elem? s place ≡ some v) where
    -- The entry at `place` moves into the hole, and leaves its own.
    pub Sifting-swap :
        Sifting
          (record entries { cell = update entries.cell offset v })
          (swap s offset place v key)
          key
          place
    Sifting-swap =
        let same = length-swap s offset place v key in
        record {
          room = omega (arith, h.room, same);
          inside = omega (arith, same);
          hole = ground (arith, get_elem?-swap s offset place v key h.inside below place);
          cells = λ j lt other. ground (
            arith,
            get_elem?-swap s offset place v key h.inside below j,
            h.cells j (omega (arith, same)),
          );
        }

    pub Rearranged-swap : Rearranged s (swap s offset place v key)
    Rearranged-swap = record {
      same_length = length-swap s offset place v key;
      same_tally = tally-swap s offset place v key (λ eq. ne (sym eq)) h.inside h.hole e;
    }

  -- The key is stored at last.
  pub Sifting-store :
      (entries : Block A) (s : List A) (key : A) (offset : ℕ)
      → Sifting entries s key offset
      → (j : ℕ) → j < length s
      → update entries.cell offset key j ≡ get_elem? s j
  Sifting-store entries s key offset h j lt = ground (arith, h.hole, h.cells j lt)

-- How a step towards the first entry keeps the order, for a parent that stands before its children.
module _ {A : Type 0} (order : Comparison A) (is_min_heap : Bool) (parent : ℕ → ℕ)
    (earlier : (i : ℕ) → 0 < i → parent i < i) where
  -- The order holds but between the hole and its parent, and over the hole.
  pub record OrderedBut (s : List A) (offset : ℕ) : Type 0 where
    pub others :
        (i : ℕ)
        → 0 < i
        → i < length s
        → i ≢ offset
        → InOrder order is_min_heap (get_elem? s (parent i)) (get_elem? s i)
    pub over :
        0 < offset
        → (i : ℕ) → 0 < i
        → i < length s
        → parent i ≡ offset
        → InOrder order is_min_heap (get_elem? s (parent offset)) (get_elem? s i)

  pub OrderedBut-up :
      (s : List A) (key : A) (offset : ℕ) (v : A)
      → OrderedBut s offset
      → 0 < offset
      → offset < length s
      → get_elem? s offset ≡ some key
      → get_elem? s (parent offset) ≡ some v
      → InOrder order is_min_heap (some key) (some v)
      → OrderedBut (swap s offset (parent offset) v key) (parent offset)
  OrderedBut-up s key offset v h pos lt at_offset at_parent above =
      let p = parent offset in
      let up : p < offset = earlier offset pos in
      let lt_p : p < length s = omega (arith, up) in
      let same = length-swap s offset p v key in
      let right = get_elem?-swap_right s offset p v key lt lt_p in
      let left =
        get_elem?-swap_left s offset p v key lt lt_p (λ eq. absurd (omega (arith, up, eq))) in
      let other = get_elem?-swap_else s offset p v key lt lt_p in
      let cast = InOrder-cast order is_min_heap in
      let under : (i : ℕ)
          → 0 < i
          → i < length s
          → i ≢ offset
          → parent i ≡ p
          → InOrder order is_min_heap (some v) (get_elem? s i) =
        λ i pos_i lt_i ne eq.
          cast _ _ _ _ (sym at_parent ∙ ap (get_elem? s) (sym eq)) refl
            (h.others i pos_i lt_i ne) in
      record {
        others = λ i pos_i lt_i ne. elim (ℕ_discrete i offset) [
          | yes eq ↦
              cast _ _ _ _ (ap (λ t. get_elem? (swap s offset p v key) (parent t)) eq ∙ right)
                (ap (get_elem? (swap s offset p v key)) eq ∙ left) above
          | no ni ↦ elim (ℕ_discrete (parent i) p) [
            | yes eq ↦
                cast _ _ _ _ (ap (get_elem? (swap s offset p v key)) eq ∙ right) (other i ni ne) (
                  InOrder-trans order is_min_heap (some key) v (get_elem? s i) above
                    (under i pos_i (omega (arith, same)) ni eq))
            | no np ↦ elim (ℕ_discrete (parent i) offset) [
              | yes eq ↦
                  cast _ _ _ _ (ap (get_elem? (swap s offset p v key)) eq ∙ left ∙ sym at_parent)
                    (other i ni ne) (h.over pos i pos_i (omega (arith, same)) eq)
              | no nq ↦
                  cast _ _ _ _ (other (parent i) nq np) (other i ni ne)
                    (h.others i pos_i (omega (arith, same)) ni)
            ]
          ]
        ];
        over = λ pos_p i pos_i lt_i eq.
            let upper = earlier p pos_p in
            let lower = earlier i pos_i in
            let above_v =
              cast _ _ _ _ refl (sym at_parent)
                (h.others p pos_p lt_p (λ e. absurd (omega (arith, up, e)))) in
            let far =
              other (parent p) (λ e. absurd (omega (arith, up, upper, e)))
                (λ e. absurd (omega (arith, upper, e))) in
            elim (ℕ_discrete i offset) [
              | yes here ↦
                  cast _ _ _ _ far (ap (get_elem? (swap s offset p v key)) here ∙ left) above_v
              | no ni ↦ cast _ _ _ _ far (other i ni (λ e. absurd (omega (arith, lower, eq, e)))) (
                  InOrder-trans order is_min_heap (get_elem? s (parent p)) v (get_elem? s i) above_v
                    (under i pos_i (omega (arith, same)) ni eq))
            ];
      }

  -- With the key no longer to be above its parent, or at the front, the order holds.
  pub OrderedBut-done :
      (s : List A) (offset : ℕ)
      → OrderedBut s offset
      → (0 < offset → InOrder order is_min_heap (get_elem? s (parent offset)) (get_elem? s offset))
      → Ordered order is_min_heap parent s
  OrderedBut-done s offset h last i pos lt = elim (ℕ_discrete i offset) [
    | yes eq ↦
        InOrder-cast order is_min_heap _ _ _ _ (ap (λ t. get_elem? s (parent t)) eq)
          (ap (get_elem? s) eq) (last (omega (arith, eq, pos)))
    | no ne ↦ h.others i pos lt ne
  ]
