-- ===== src/StrictHeap/Remove.antt =====
-- remove_top takes the first entry and nothing else, and keeps the order that it walks along.
use pecl_teds.Base.{
  ℕ, zero, suc, ◌+◌, ◌-◌, ◌*◌, ◌^◌, ◌<◌, ◌≤◌, ◌≡◌, ◌∙◌, refl, sym, ap, Bool, Bool-cases, inl, inr,
  List, [], ◌∷◌, some, length, get_elem?, get_elem?-some, arith, le→leb, lt→leb, ◌++◌,
  length-append, get_elem?-append, get_elem?-end, tally-end, length-swap, dec_lt, swap,
}
use pecl_teds.Machine.{u32}
use pecl_teds.Run.{Returns, returns, Returns-map, Returns-bind, Returns-step}
use pecl_teds.Memory.{Block, update}
use pecl_teds.Memory.Laws.{load-ok, store-ok, copy_cell-ok}
use pecl_teds.Vector.{Entries, Holds}
use pecl_teds.StrictHeap.{Comparison, should_be_above, sift_down, remove_top}
use pecl_teds.StrictHeap.Order.{Ordered, InOrder-cast}
use pecl_teds.StrictHeap.Sift.{Sifting, Sifting-swap, Sifting-store, Rearranged}
use pecl_teds.StrictHeap.Sink.{OrderedAbove}
use pecl_teds.StrictHeap.Children.{
  upper, upper_earlier, Sunk, Upper, rests, load_child, upper_child_lem, child_apart, sinks, halts,
}

module _ {A : Type 0} (order : Comparison A) (is_min_heap : Bool) where
  module _ (entries : Block A) (s : List A) (key : A) (offset fuel : ℕ)
      (h : Sifting entries s key offset) (spare : length s < entries.alloc)
      (small : length s < 2 ^ 31) (kept : entries.cell (length s) ≡ some key) where
    sift_down-leaf :
        length s ≤ offset * 2 + 1
        → Returns
            (Sunk order is_min_heap entries.alloc s key offset)
            (sift_down order is_min_heap (suc fuel) entries (length s) offset)
    unfolding sift_down
    sift_down-leaf leaf =
        let next : u32 (offset * 2 + 1) ≡ offset * 2 + 1 = omega (arith, h.inside) in
        rw (sift_down, le→leb (length s) (u32 (offset * 2 + 1)) (omega (arith, next, leaf)))
          (returns (
            rests order is_min_heap entries s key offset h spare kept
              (λ i pos lt eq. absurd (omega (arith, upper_earlier i pos, eq, lt, leaf)))))

    sift_down-step :
        offset * 2 + 1 < length s
        → ((child : ℕ) (v : A)
            → Upper order is_min_heap s offset child
            → get_elem? s child ≡ some v
            → Returns (Sunk order is_min_heap entries.alloc (swap s offset child v key) key child) (
                sift_down order is_min_heap fuel
                  (record entries { cell = update entries.cell offset v })
                  (length s)
                  child))
        → Returns
            (Sunk order is_min_heap entries.alloc s key offset)
            (sift_down order is_min_heap (suc fuel) entries (length s) offset)
    unfolding sift_down
    sift_down-step inner rest =
        let next : u32 (offset * 2 + 1) ≡ offset * 2 + 1 = omega (arith, h.inside, small, inner) in
        rw (sift_down, lt→leb (length s) (u32 (offset * 2 + 1)) (omega (arith, next, inner)), next)
          (Returns-bind (upper_child_lem order is_min_heap entries s key offset h spare kept inner)
            λ child c.
              let (v, e) = get_elem?-some s child c.inside in
              Returns-step _
                (load_child order is_min_heap entries s key offset h spare kept child v c.after
                  c.inside e)
                (Returns-step _ (load-ok entries (length s) spare kept)
                  (elim (Bool-cases (should_be_above order is_min_heap v key)) [
                    | inl above ↦ rw above (
                        Returns-step _ (store-ok entries offset v (omega (arith, h.inside, spare)))
                          (Returns-map (rest child v c e) (
                            sinks order is_min_heap entries s key offset h spare kept child v c e
                              above)))
                    | inr below ↦ rw below (
                        returns (
                          rests order is_min_heap entries s key offset h spare kept (
                            halts order is_min_heap entries s key offset h spare kept child v c e
                              below)))
                  ])))

  sift_down-length :
      (entries : Block A) (s : List A) (child n fuel : ℕ) {P : Block A × ℕ → Type 0}
      → length s ≡ n
      → Returns P (sift_down order is_min_heap fuel entries (length s) child)
      → Returns P (sift_down order is_min_heap fuel entries n child)
  sift_down-length entries s child n fuel e r = rw (sym e) r

  sift_down_lem :
      (fuel : ℕ) (entries : Block A) (s : List A) (key : A) (offset : ℕ)
      → Sifting entries s key offset
      → length s < entries.alloc
      → length s < 2 ^ 31
      → entries.cell (length s) ≡ some key
      → length s < offset + fuel
      → Returns
          (Sunk order is_min_heap entries.alloc s key offset)
          (sift_down order is_min_heap fuel entries (length s) offset)
  sift_down_lem zero entries s key offset h spare small kept enough =
      absurd (omega (arith, h.inside))
  sift_down_lem (suc fuel) entries s key offset h spare small kept enough =
      elim (dec_lt (offset * 2 + 1) (length s)) [
        | no leaf ↦ sift_down-leaf entries s key offset fuel h spare small kept (omega arith)
        | yes inner ↦
            sift_down-step entries s key offset fuel h spare small kept inner λ child v c e.
              let apart =
                child_apart order is_min_heap entries s key offset h spare kept child v c e in
              let same = length-swap s offset child v key in
              let moved = Sifting-swap entries s key offset child v h c.inside apart e in
              let behind : update entries.cell offset v (length s) ≡ some key =
                ground (arith, h.inside, kept) in
              sift_down-length _ _ child _ _ same (
                sift_down_lem fuel _ _ key child moved (omega (arith, same, spare))
                  (omega (arith, same, small)) (ap (update entries.cell offset v) same ∙ behind)
                  (omega (arith, same, c.after, enough)))
      ]

  -- What extract returns and leaves: the first entry, and the others in some order.
  pub record Extracted (x : A) (q : List A) (r : A × Entries A) : Type 0 where
    pub value : r.0 ≡ x
    pub final : List A
    pub holds : Holds r.1 final
    pub same : Rearranged q final
    pub ordered : Ordered order is_min_heap upper (x ∷ q) → Ordered order is_min_heap upper final

  module _ (array : Entries A) (x key : A) (init : List A) (h : Holds array (x ∷ init ++ key ∷ []))
      (small : array.size ≤ 2 ^ 31) where
    removed_length : length (key ∷ init) ≡ array.size - 1
    removed_length = omega (arith, h.count, length-append init (key ∷ []))

    before_last :
        (j : ℕ)
        → 0 < j
        → j < length (key ∷ init)
        → get_elem? (x ∷ init ++ key ∷ []) j ≡ get_elem? (key ∷ init) j
    before_last zero pos lt = absurd (omega arith)
    before_last (suc j) pos lt = ground (arith, get_elem?-append init (key ∷ []) j)

    sinking : Sifting array.entries (key ∷ init) key 0
    sinking = record {
      room = omega (arith, removed_length, h.size_in, h.alloc);
      inside = omega arith;
      hole = refl;
      cells = λ j lt ne.
          h.cells j (omega (arith, length-append init (key ∷ []))) ∙ before_last j (omega arith) lt;
    }

    last_kept : array.entries.cell (length (key ∷ init)) ≡ some key
    last_kept =
        h.cells (suc (length init)) (omega (arith, length-append init (key ∷ [])))
        ∙ get_elem?-end init key

    replaced_Ordered :
        Ordered order is_min_heap upper (x ∷ init ++ key ∷ [])
        → OrderedAbove order is_min_heap upper upper_earlier (key ∷ init) 0
    replaced_Ordered o = record {
      others = λ i pos lt ne.
          let pos_u : 0 < upper i = omega arith in
          let lt_u : upper i < length (key ∷ init) = omega (arith, lt) in
          InOrder-cast order is_min_heap _ _ _ _ (sym (before_last (upper i) pos_u lt_u))
            (sym (before_last i pos lt))
            (o i pos (omega (arith, length-append init (key ∷ []), lt)));
      over = λ pos i pos_i lt eq. absurd (omega arith);
    }

    pub remove_top_lem :
        Returns
          (λ (e : Entries A). Extracted x (init ++ key ∷ []) (x, e))
          (remove_top order is_min_heap array)
    unfolding remove_top
    remove_top_lem =
        let sunk =
          sift_down_lem (array.size - 1 + 1) array.entries (key ∷ init) key 0 sinking
            (omega (arith, removed_length, h.count, h.size_in, h.alloc))
            (omega (arith, removed_length, h.count, small)) last_kept
            (omega (arith, removed_length)) in
        Returns-bind
          (sift_down-length array.entries (key ∷ init) 0 (array.size - 1) (array.size - 1 + 1)
            removed_length sunk)
          λ r p.
            Returns-step _
              (copy_cell-ok r.0 r.1 (array.size - 1) {a = key}
                (omega (arith, p.sifting.inside, p.sifting.room))
                (omega (arith, p.alloc, h.alloc, h.size_in, h.count))
                (ap r.0.cell (sym removed_length) ∙ p.kept))
              (returns (record {
                value = refl;
                final = p.final;
                holds = record {
                  count = omega (arith, removed_length, p.same.same_length);
                  size_in = omega (arith, h.size_in);
                  alloc = p.alloc ∙ h.alloc;
                  cells = Sifting-store r.0 p.final key r.1 p.sifting;
                };
                same = record {
                  same_length = omega (arith, p.same.same_length, length-append init (key ∷ []));
                  same_tally = λ t. omega (arith, p.same.same_tally t, tally-end t init key);
                };
                ordered = λ o. p.ordered (replaced_Ordered o);
              }))
