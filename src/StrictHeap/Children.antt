-- ===== src/StrictHeap/Children.antt =====
-- The children of a place of the heap, as remove_top takes them, and a step of its loop.
use pecl_teds.Base.{
  ℕ, ◌+◌, ◌-◌, ◌*◌, ◌/◌, ◌<◌, ◌≡◌, ◌≢◌, ◌⊎◌, ◌∙◌, refl, sym, ap, Bool, true, false, Bool-cases, inl,
  inr, List, some, length, get_elem?, get_elem?-some, arith, lt→ltb, le→ltb, ℕ_discrete, dec_lt,
  swap,
}
use pecl_teds.Run.{ok, Returns, returns, Returns-step}
use pecl_teds.Memory.{Block, load}
use pecl_teds.Memory.Laws.{load-ok}
use pecl_teds.StrictHeap.{Comparison, should_be_above, upper_child}
use pecl_teds.StrictHeap.Order.{
  Ordered, InOrder, InOrder-cast, InOrder-trans, InOrder-refl, above-asym,
}
use pecl_teds.StrictHeap.Sift.{
  Sifting, Rearranged, Rearranged-refl, Rearranged-trans, Rearranged-swap,
}
use pecl_teds.StrictHeap.Sink.{OrderedAbove, OrderedAbove-down, OrderedAbove-done, Leads}

-- The entry above another, as remove_top takes it.
abbrev pub upper : ℕ → ℕ
upper i = (i - 1) / 2

pub upper_earlier : (i : ℕ) → 0 < i → upper i < i
upper_earlier i h = omega arith

module _ {A : Type 0} (order : Comparison A) (is_min_heap : Bool) where
  -- Where the key of `s` stops on its way down from `offset`; the key's own cell is behind `s`.
  pub record Sunk (room : ℕ) (s : List A) (key : A) (offset : ℕ) (r : Block A × ℕ) : Type 0 where
    pub final : List A
    pub sifting : Sifting r.0 final key r.1
    pub same : Rearranged s final
    pub alloc : r.0.alloc ≡ room
    pub kept : r.0.cell (length s) ≡ some key
    pub ordered :
        OrderedAbove order is_min_heap upper upper_earlier s offset
        → Ordered order is_min_heap upper final

  -- The child that may stand above both.
  pub record Upper (s : List A) (offset child : ℕ) : Type 0 where
    pub after : offset < child
    pub inside : child < length s
    pub up : upper child ≡ offset
    pub leads : Leads order is_min_heap upper upper_earlier s (get_elem? s child) offset

  module _ (entries : Block A) (s : List A) (key : A) (offset : ℕ)
      (h : Sifting entries s key offset) (spare : length s < entries.alloc)
      (kept : entries.cell (length s) ≡ some key) where
    pub rests :
        Leads order is_min_heap upper upper_earlier s (get_elem? s offset) offset
        → Sunk entries.alloc s key offset (entries, offset)
    rests leads = record {
      final = s;
      sifting = h;
      same = Rearranged-refl s;
      alloc = refl;
      kept = kept;
      ordered = λ o. OrderedAbove-done order is_min_heap upper upper_earlier s offset o leads;
    }

    which_child :
        (i : ℕ) → 0 < i → upper i ≡ offset → (i ≡ offset * 2 + 1) ⊎ (i ≡ offset * 2 + 1 + 1)
    which_child i pos eq = elim (ℕ_discrete i (offset * 2 + 1)) [
      | yes left ↦ inl left
      | no other ↦ inr (omega arith)
    ]

    Upper-left :
        offset * 2 + 1 < length s
        → (offset * 2 + 1 + 1 < length s
            → InOrder order is_min_heap
                (get_elem? s (offset * 2 + 1))
                (get_elem? s (offset * 2 + 1 + 1)))
        → Upper s offset (offset * 2 + 1)
    Upper-left lt beside = record {
      after = omega arith;
      inside = lt;
      up = omega arith;
      leads = λ i pos small eq. elim (which_child i pos eq) [
        | inl left ↦
            let (a, e) = get_elem?-some s (offset * 2 + 1) lt in
            InOrder-cast order is_min_heap _ _ _ _ e (ap (get_elem? s) left ∙ e)
              (InOrder-refl order is_min_heap a)
        | inr right ↦
            InOrder-cast order is_min_heap _ _ _ _ refl (ap (get_elem? s) right)
              (beside (omega (arith, small, right)))
      ];
    }

    Upper-right :
        offset * 2 + 1 + 1 < length s
        → InOrder order is_min_heap
            (get_elem? s (offset * 2 + 1 + 1))
            (get_elem? s (offset * 2 + 1))
        → Upper s offset (offset * 2 + 1 + 1)
    Upper-right lt beside = record {
      after = omega arith;
      inside = lt;
      up = omega arith;
      leads = λ i pos small eq. elim (which_child i pos eq) [
        | inl left ↦ InOrder-cast order is_min_heap _ _ _ _ refl (ap (get_elem? s) left) beside
        | inr right ↦
            let (a, e) = get_elem?-some s (offset * 2 + 1 + 1) lt in
            InOrder-cast order is_min_heap _ _ _ _ e (ap (get_elem? s) right ∙ e)
              (InOrder-refl order is_min_heap a)
      ];
    }

    -- A child is read as the list has it.
    pub load_child :
        (child : ℕ) (a : A)
        → offset < child
        → child < length s
        → get_elem? s child ≡ some a
        → load entries child ≡ ok a
    load_child child a after lt e =
        load-ok entries child (omega (arith, spare))
          (h.cells child lt (λ eq. absurd (omega (arith, after, eq))) ∙ e)

    two_children :
        (l r : A)
        → offset * 2 + 1 < length s
        → offset * 2 + 1 + 1 < length s
        → get_elem? s (offset * 2 + 1) ≡ some l
        → get_elem? s (offset * 2 + 1 + 1) ≡ some r
        → Returns
            (Upper s offset)
            (upper_child order is_min_heap entries (length s) (offset * 2 + 1))
    unfolding upper_child
    two_children l r lt lt' el er =
        rw (upper_child, lt→ltb (offset * 2 + 1 + 1) (length s) lt')
          (Returns-step _ (load_child (offset * 2 + 1 + 1) r (omega arith) lt' er) (
            Returns-step _ (load_child (offset * 2 + 1) l (omega arith) lt el)
              (elim (Bool-cases (should_be_above order is_min_heap r l)) [
                | inl above ↦ rw above (
                    returns (
                      Upper-right lt' (
                        InOrder-cast order is_min_heap _ _ _ _ er el
                          (above-asym order is_min_heap r l above))))
                | inr below ↦ rw below (
                    returns
                      (Upper-left lt (λ more. InOrder-cast order is_min_heap _ _ _ _ el er below)))
              ])))

    pub upper_child_lem :
        offset * 2 + 1 < length s
        → Returns
            (Upper s offset)
            (upper_child order is_min_heap entries (length s) (offset * 2 + 1))
    unfolding upper_child
    upper_child_lem lt = elim (dec_lt (offset * 2 + 1 + 1) (length s)) [
      | no alone ↦
          rw (upper_child, le→ltb (offset * 2 + 1 + 1) (length s) (omega arith))
            (returns (Upper-left lt (λ more. absurd (alone (omega (arith, more))))))
      | yes both ↦
          let (l, el) = get_elem?-some s (offset * 2 + 1) lt in
          let (r, er) = get_elem?-some s (offset * 2 + 1 + 1) (omega (arith, both)) in
          two_children l r lt (omega (arith, both)) el er
    ]

    module _ (child : ℕ) (v : A) (c : Upper s offset child) (e : get_elem? s child ≡ some v) where
      pub child_apart : child ≢ offset
      child_apart eq = absurd (omega (arith, c.after, eq))

      pub sinks :
          should_be_above order is_min_heap v key ≡ true
          → (r : Block A × ℕ) → Sunk entries.alloc (swap s offset child v key) key child r
          → Sunk entries.alloc s key offset r
      sinks above r p =
          let moved = Rearranged-swap entries s key offset child v h c.inside child_apart e in
          record {
            final = p.final;
            sifting = p.sifting;
            same = Rearranged-trans s _ p.final moved p.same;
            alloc = p.alloc;
            kept = ap r.0.cell (sym moved.same_length) ∙ p.kept;
            ordered = λ o. p.ordered (
                OrderedAbove-down order is_min_heap upper upper_earlier s key offset child v o
                  h.inside (omega (arith, c.after)) c.inside c.up e
                  (λ i pos lt eq.
                    InOrder-cast order is_min_heap _ _ _ _ (sym e) refl (c.leads i pos lt eq))
                  (above-asym order is_min_heap v key above));
          }

      -- Neither child is to be above the key.
      pub halts :
          should_be_above order is_min_heap v key ≡ false
          → Leads order is_min_heap upper upper_earlier s (get_elem? s offset) offset
      halts below i pos lt eq =
          InOrder-trans order is_min_heap _ v _
            (InOrder-cast order is_min_heap _ _ _ _ h.hole refl below)
            (InOrder-cast order is_min_heap _ _ _ _ (sym e) refl (c.leads i pos lt eq))
