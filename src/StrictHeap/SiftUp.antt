-- ===== src/StrictHeap/SiftUp.antt =====
-- The way of a key up the heap, as insert walks it.
use pecl_teds.Base.{
  ℕ, zero, suc, ◌/◌, ◌<◌, ◌≡◌, ◌≢◌, ◌∙◌, refl, Bool, true, Bool-cases, inl, inr, List, some, length,
  get_elem?, get_elem?-some, arith, lt→ltb, le→ltb, dec_lt, swap,
}
use pecl_teds.Run.{Returns, returns, Returns-map, Returns-step}
use pecl_teds.Memory.{Block, update}
use pecl_teds.Memory.Laws.{load-ok, store-ok}
use pecl_teds.StrictHeap.{Comparison, should_be_above, sift_up}
use pecl_teds.StrictHeap.Order.{Ordered, InOrder, InOrder-cast, above-asym}
use pecl_teds.StrictHeap.Sift.{
  Sifting, Sifting-swap, Rearranged, Rearranged-refl, Rearranged-trans, Rearranged-swap, OrderedBut,
  OrderedBut-up, OrderedBut-done,
}

-- The entry above another, as insert takes it.
abbrev pub half : ℕ → ℕ
half i = i / 2

pub half_earlier : (i : ℕ) → 0 < i → half i < i
half_earlier i h = omega arith

module _ {A : Type 0} (order : Comparison A) (is_min_heap : Bool) where
  -- Where the key of `s` stops on its way up from `offset`.
  pub record Placed (room : ℕ) (s : List A) (key : A) (offset : ℕ) (r : Block A × ℕ) : Type 0 where
    pub final : List A
    pub sifting : Sifting r.0 final key r.1
    pub same : Rearranged s final
    pub alloc : r.0.alloc ≡ room
    pub ordered :
        OrderedBut order is_min_heap half half_earlier s offset
        → Ordered order is_min_heap half final

  stays :
      (entries : Block A) (s : List A) (key : A) (offset : ℕ)
      → Sifting entries s key offset
      → (0 < offset → InOrder order is_min_heap (get_elem? s (half offset)) (get_elem? s offset))
      → Placed entries.alloc s key offset (entries, offset)
  stays entries s key offset h last = record {
    final = s;
    sifting = h;
    same = Rearranged-refl s;
    alloc = refl;
    ordered = λ o. OrderedBut-done order is_min_heap half half_earlier s offset o last;
  }

  sift_up-front :
      (entries : Block A) (s : List A) (key : A) (offset fuel : ℕ)
      → Sifting entries s key offset
      → offset ≡ 0
      → Returns
          (Placed entries.alloc s key offset)
          (sift_up order is_min_heap (suc fuel) entries key offset)
  unfolding sift_up
  sift_up-front entries s key offset fuel h front =
      rw (sift_up, le→ltb 0 offset (omega arith))
        (returns (stays entries s key offset h (λ pos. absurd (omega arith))))

  module _ (entries : Block A) (s : List A) (key : A) (offset : ℕ) (v : A)
      (h : Sifting entries s key offset) (pos : 0 < offset)
      (e : get_elem? s (half offset) ≡ some v) where
    lower_half : half offset < length s
    lower_half = omega (arith, half_earlier offset pos, h.inside)

    half_apart : half offset ≢ offset
    half_apart eq = absurd (omega (arith, half_earlier offset pos, eq))

    climbs :
        should_be_above order is_min_heap key v ≡ true
        → (r : Block A × ℕ)
        → Placed entries.alloc (swap s offset (half offset) v key) key (half offset) r
        → Placed entries.alloc s key offset r
    climbs above r p = record {
      final = p.final;
      sifting = p.sifting;
      same =
          Rearranged-trans s _ p.final
            (Rearranged-swap entries s key offset (half offset) v h lower_half half_apart e) p.same;
      alloc = p.alloc;
      ordered = λ o. p.ordered (
          OrderedBut-up order is_min_heap half half_earlier s key offset v o pos h.inside h.hole e
            (above-asym order is_min_heap key v above));
    }

    sift_up_step :
        (fuel : ℕ)
        → Returns (Placed entries.alloc (swap s offset (half offset) v key) key (half offset)) (
            sift_up order is_min_heap fuel
              (record entries { cell = update entries.cell offset v })
              key
              (half offset))
        → Returns
            (Placed entries.alloc s key offset)
            (sift_up order is_min_heap (suc fuel) entries key offset)
    unfolding sift_up
    sift_up_step fuel rest =
        let loaded =
          load-ok entries (offset / 2) (omega (arith, lower_half, h.room))
            (h.cells (half offset) lower_half half_apart ∙ e) in
        rw (sift_up, lt→ltb 0 offset pos)
          (Returns-step _ loaded (elim (Bool-cases (should_be_above order is_min_heap key v)) [
            | inl above ↦ rw above (
                Returns-step _ (store-ok entries offset v (omega (arith, h.inside, h.room)))
                  (Returns-map rest (climbs above)))
            | inr below ↦ rw below (
                returns (
                  stays entries s key offset h
                    (λ p. InOrder-cast order is_min_heap _ _ _ _ e h.hole below)))
          ]))

  pub sift_up_lem :
      (fuel : ℕ) (entries : Block A) (s : List A) (key : A) (offset : ℕ)
      → Sifting entries s key offset
      → offset < fuel
      → Returns
          (Placed entries.alloc s key offset)
          (sift_up order is_min_heap fuel entries key offset)
  sift_up_lem zero entries s key offset h enough = absurd (omega arith)
  sift_up_lem (suc fuel) entries s key offset h enough = elim (dec_lt 0 offset) [
    | no front ↦ sift_up-front entries s key offset fuel h (omega arith)
    | yes pos ↦
        let (v, e) =
          get_elem?-some s (half offset) (omega (arith, half_earlier offset pos, h.inside)) in
        sift_up_step entries s key offset v h pos e fuel (
          sift_up_lem fuel _ _ key (half offset)
            (Sifting-swap entries s key offset (half offset) v h
              (lower_half entries s key offset v h pos e)
              (half_apart entries s key offset v h pos e) e)
            (omega (arith, half_earlier offset pos)))
  ]
