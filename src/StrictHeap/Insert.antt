-- ===== src/StrictHeap/Insert.antt =====
-- add puts the key among the entries, and keeps the order that insert walks along.
use pecl_teds.Base.{
  ℕ, ◌+◌, ◌<◌, ◌≡◌, ◌∙◌, ap, Bool, List, [], ◌∷◌, ◌++◌, length, length-append, get_elem?,
  get_elem?-append, get_elem?-end, arith, leb, le→ltb, leb→lt, if◌then◌else◌,
}
use pecl_teds.Machine.{u32}
use pecl_teds.Run.{ok, ◌>>=◌, Returns, returns, Returns-bind, Returns-if}
use pecl_teds.Memory.{Block, store, realloc}
use pecl_teds.Memory.Laws.{store-ok}
use pecl_teds.Util.{deque_next_pow2_capacity}
use pecl_teds.Util.Limit.{Limit, deque_next_pow2_capacity_lem, deque_capacity-le-Limit}
use pecl_teds.Vector.{Entries, Holds, raise_capacity}
use pecl_teds.StrictHeap.{Comparison, insert}
use pecl_teds.StrictHeap.Order.{Ordered, InOrder-cast}
use pecl_teds.StrictHeap.Sift.{Sifting, Sifting-store, Rearranged, OrderedBut}
use pecl_teds.StrictHeap.SiftUp.{half, half_earlier, Placed, sift_up_lem}

module _ {A : Type 0} (order : Comparison A) (is_min_heap : Bool) where
  -- What add leaves of the list of the entries: the key is among them, and nothing else is changed.
  pub record Added (parent : ℕ → ℕ) (q : List A) (xs : List A) (array : Entries A) : Type 0 where
    pub final : List A
    pub holds : Holds array final
    pub same : Rearranged (q ++ xs) final
    pub ordered : Ordered order is_min_heap parent q → Ordered order is_min_heap parent final

  -- The key at the end is not yet in order with its parent, and has no entries below it.
  append_OrderedBut :
      (q : List A) (key : A)
      → Ordered order is_min_heap half q
      → OrderedBut order is_min_heap half half_earlier (q ++ key ∷ []) (length q)
  append_OrderedBut q key o = record {
    others = λ i pos lt ne.
        let inside : i < length q = omega (arith, length-append q (key ∷ [])) in
        InOrder-cast order is_min_heap _ _ _ _
          (ground (arith, get_elem?-append q (key ∷ []) (half i), half_earlier i pos))
          (ground (arith, get_elem?-append q (key ∷ []) i)) (o i pos inside);
    over = λ pos i pos_i lt eq.
        absurd (omega (arith, length-append q (key ∷ []), half_earlier i pos_i));
  }

  starts :
      (grown : Entries A) (q : List A) (key : A)
      → Holds grown q
      → grown.size < grown.capacity
      → Sifting grown.entries (q ++ key ∷ []) key grown.size
  starts grown q key g spare =
      let longer = length-append q (key ∷ []) in
      record {
        room = omega (arith, longer, g.count, g.alloc);
        inside = omega (arith, longer, g.count);
        hole = ap (get_elem? (q ++ key ∷ [])) g.count ∙ get_elem?-end q key;
        cells = λ j lt ne.
            let inside : j < length q = omega (arith, longer, g.count) in
            ground (arith, g.cells j inside, get_elem?-append q (key ∷ []) j);
      }

  module _ (max_size : ℕ) where
    grown_lem :
        (array : Entries A) (q : List A)
        → Limit max_size
        → Holds array q
        → length q < max_size
        → Returns
            (λ e. Holds e q × (e.size < e.capacity))
            (if leb array.capacity array.size
              then raise_capacity max_size array (deque_next_pow2_capacity (array.size + 1))
              else ok array)
    unfolding raise_capacity realloc
    grown_lem array q l h small =
        Returns-if (leb array.capacity array.size)
          (λ full.
            let c =
              deque_next_pow2_capacity_lem (array.size + 1) (omega (arith, h.count, l.ceiling)) in
            let fits =
              deque_capacity-le-Limit max_size (array.size + 1) l (omega (arith, h.count)) in
            rw (le→ltb max_size (deque_next_pow2_capacity (array.size + 1)) fits) (
              returns (
                record {
                  count = h.count;
                  size_in = omega (arith, c.room);
                  alloc = ground arith;
                  cells = λ i lt. ground (arith, h.cells i lt, h.alloc, h.count, h.size_in, c.room);
                },
                omega (arith, c.room),
              )))
          (λ spare. returns (h, omega (arith, leb→lt _ _ spare)))

    placed :
        (grown : Entries A) (q : List A) (key : A)
        → length q < max_size
        → Limit max_size
        → Holds grown q
        → grown.size < grown.capacity
        → (r : Block A × ℕ)
        → Placed order is_min_heap grown.entries.alloc (q ++ key ∷ []) key grown.size r
        → Returns (Added half q (key ∷ [])) (
            store r.0 r.1 key >>= λ stored.
            ok (record grown { entries = stored; size = u32 (grown.size + 1) }))
    placed grown q key small l g spare r p =
        let longer = length-append q (key ∷ []) in
        let next : u32 (grown.size + 1) ≡ grown.size + 1 = omega (arith, g.count, l.ceiling) in
        rw (store-ok r.0 r.1 key (omega (arith, p.sifting.inside, p.sifting.room)), next)
          (returns (record {
            final = p.final;
            holds = record {
              count = omega (arith, longer, p.same.same_length, g.count);
              size_in = omega arith;
              alloc = p.alloc ∙ g.alloc;
              cells = Sifting-store r.0 p.final key r.1 p.sifting;
            };
            same = p.same;
            ordered = λ o. p.ordered (rw g.count (append_OrderedBut q key o));
          }))

    -- Adding a key to a heap whose entries are a list shorter than the limit returns a heap whose
    -- entries are the list and the key rearranged, and in which each entry may stand below the
    -- one at half its place if that was so before.
    pub insert-Added :
        (array : Entries A) (q : List A) (key : A)
        → Limit max_size
        → Holds array q
        → length q < max_size
        → Returns (Added half q (key ∷ [])) (insert order is_min_heap max_size array key)
    unfolding insert
    insert-Added array q key l h small =
        Returns-bind (grown_lem array q l h small) λ grown (g, spare).
          let start = starts grown q key g spare in
          Returns-bind
            (sift_up_lem order is_min_heap (grown.size + 1) grown.entries (q ++ key ∷ []) key
              grown.size start (omega arith))
            λ r p. placed grown q key small l g spare r p
