-- ===== src/StrictSortedVectorMap/Stored.antt =====
-- teds_strictsortedvectormap.c: what the writes do to the array of pairs.
use pecl_teds.Base.{
  ℕ, ◌+◌, ◌-◌, ◌*◌, ◌<◌, ◌≤◌, ◌≡◌, refl, ◌∙◌, List, [], ◌∷◌, some, length, get_elem?, insert_at,
  length-insert_at, get_elem?-insert_at, remove_at, set, length-set, get_elem?-set, arith, leb,
  leb→le, leb→lt, lt→leb, le→ltb, if◌then◌else◌,
}
use pecl_teds.Machine.{u32}
use pecl_teds.Run.{ok, Returns, returns, Returns-bind, Returns-map, Returns-if}
use pecl_teds.Memory.{update}
use pecl_teds.Memory.Laws.{store-ok}
use pecl_teds.Memory.Copy.{memcpy_lem}
use pecl_teds.Util.{deque_next_pow2_capacity}
use pecl_teds.Util.Limit.{Limit, deque_next_pow2_capacity_lem, deque_capacity-le-Limit}
use pecl_teds.Deque.Add.{adjust_iterators_before_insert}
use pecl_teds.Deque.Remove.{adjust_iterators_before_remove}
use pecl_teds.Vector.{Entries, Holds}
use pecl_teds.Vector.Store.Laws.{Roomy, Roomy-weaken, raise_capacity-Roomy, Holds-cells}
use pecl_teds.Vector.Keys.Laws.{load-Holds}
use pecl_teds.StrictSortedVectorSet.Stored.{remove_at-Holds}
use pecl_teds.StrictSortedVectorMap.{
  Entry, raise_capacity, insert_pair_at, replace_value_at, remove_entry,
}

module _ {A : Type 0} where
  -- Below the limit of pairs the storage grows as that of a vector does.
  raise_capacity-vector :
      (max_pairs c : ℕ) (array : Entries (Entry A))
      → c < max_pairs
      → raise_capacity max_pairs array c ≡ pecl_teds.Vector.raise_capacity c array c
  unfolding raise_capacity pecl_teds.Vector.raise_capacity
  raise_capacity-vector max_pairs c array below =
      rw (lt→leb max_pairs c below, le→ltb c c (omega arith)) refl

  module _ (half : ℕ) (l : Limit half) where
    pair_room :
        (array : Entries (Entry A)) (q : List (Entry A))
        → Holds array q
        → length q < half
        → Returns (Roomy array q (array.size + 1)) (
            if leb array.capacity array.size
            then raise_capacity
                (half * 2)
                array
                (u32 (deque_next_pow2_capacity (u32 (array.size + 1))))
            else ok array)
    pair_room array q h small =
        let c = deque_next_pow2_capacity_lem (array.size + 1) (omega (arith, h.count, l.ceiling)) in
        let fits = deque_capacity-le-Limit half (array.size + 1) l (omega (arith, h.count)) in
        let narrow : u32 (array.size + 1) ≡ array.size + 1 = omega (arith, h.count, l.ceiling) in
        let narrow' : u32 (deque_next_pow2_capacity (array.size + 1))
            ≡ deque_next_pow2_capacity (array.size + 1) =
          omega (arith, fits, l.ceiling) in
        let capacity = deque_next_pow2_capacity (array.size + 1) in
        Returns-if (leb array.capacity array.size)
          (λ full.
            rw
              (
                narrow,
                narrow',
                raise_capacity-vector (half * 2) capacity array (omega (arith, fits, l.floor)),
              )
              (Returns-map
                (raise_capacity-Roomy capacity array q capacity h
                  (omega (arith, c.room, leb→le _ _ full)) (omega arith))
                (λ e r. Roomy-weaken r c.room)))
          (λ spare.
            returns
              record { holds = h; room = omega (arith, leb→lt _ _ spare); same_iterators = refl })

    pub insert_pair_at-Holds :
        (array : Entries (Entry A)) (q : List (Entry A)) (key value : A) (i : ℕ)
        → Holds array q
        → length q < half
        → i ≤ length q
        → Returns
            (λ e.
              Holds e (insert_at i ((key, value) ∷ []) q)
              × (e.iterators ≡ adjust_iterators_before_insert (length q) i 1 array.iterators))
            (insert_pair_at (half * 2) array key value i)
    unfolding insert_pair_at
    insert_pair_at-Holds array q key value i h small inside =
        let pair : List (Entry A) = (key, value) ∷ [] in
        Returns-bind (pair_room array q h small) λ e r.
          Returns-bind
            (memcpy_lem (array.size - i) e.entries (i + 1) e.entries i
              (omega (arith, r.room, r.holds.alloc, h.count))
              (omega (arith, r.room, r.holds.alloc, h.count)))
            λ moved m.
              rw
                (store-ok moved i (key, value)
                  (omega (arith, r.room, r.holds.alloc, m.same_size, h.count)))
                (returns (
                  Holds-cells e (record moved { cell = update moved.cell i (key, value) })
                      (insert_at i pair q) _ _ (m.same_size ∙ r.holds.alloc)
                      (omega (arith, length-insert_at i pair q inside, h.count, l.ceiling))
                      (omega (arith, length-insert_at i pair q inside, h.count, r.room))
                      (λ j lt. ground (
                        arith,
                        m.cells j,
                        get_elem?-insert_at i pair q j inside,
                        length-insert_at i pair q inside,
                        r.holds.cells j,
                        r.holds.cells (j - 1),
                        h.count,
                      )),
                  rw h.count refl,
                ))

  pub replace_value_at-Holds :
      (array : Entries (Entry A)) (q : List (Entry A)) (e : Entry A) (value : A) (i : ℕ)
      → Holds array q
      → i < length q
      → get_elem? q i ≡ some e
      → Returns
          (λ r. Holds r (set q i (e.0, value)) × (r.iterators ≡ array.iterators))
          (replace_value_at array value i)
  unfolding replace_value_at
  replace_value_at-Holds array q e value i h lt at =
      rw
        (
          load-Holds i h lt at,
          store-ok array.entries i (e.0, value) (omega (arith, h.count, h.size_in, h.alloc)),
        )
        (returns (
          Holds-cells array
              (record array.entries { cell = update array.entries.cell i (e.0, value) })
              (set q i (e.0, value)) array.size array.iterators h.alloc
              (omega (arith, length-set q i (e.0, value), h.count))
              (omega (arith, length-set q i (e.0, value), h.count, h.size_in))
              (λ j ltj. ground (
                arith,
                get_elem?-set q i j (e.0, value) lt,
                length-set q i (e.0, value),
                h.cells j,
              )),
          refl,
        ))

  pub remove_entry-Holds :
      (array : Entries (Entry A)) (q : List (Entry A)) (i : ℕ)
      → Holds array q
      → i < length q
      → Returns
          (λ r.
            Holds r (remove_at i q)
            × (r.iterators ≡ adjust_iterators_before_remove (length q) i array.iterators))
          (remove_entry array i)
  unfolding remove_entry
  remove_entry-Holds array q i h lt =
      Returns-bind (remove_at-Holds array q i h lt) λ moved kept. returns (kept, rw h.count refl)
