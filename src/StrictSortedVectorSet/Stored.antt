-- ===== src/StrictSortedVectorSet/Stored.antt =====
-- teds_strictsortedvectorset.c: what add, remove and contains do to the array.
use pecl_teds.Base.{
  ℕ, zero, suc, ◌+◌, ◌-◌, ◌<◌, ◌≤◌, ◌≡◌, refl, ◌∙◌, List, [], ◌∷◌, ◌&&◌, some, length,
  get_elem?-some, insert_at, length-insert_at, get_elem?-insert_at, remove_at, length-remove_at,
  get_elem?-remove_at, arith, leb, leb→le, leb→lt, if◌then◌else◌,
}
use pecl_teds.Machine.{u32}
use pecl_teds.Run.{ok, Returns, returns, Returns-bind, Returns-map, Returns-if}
use pecl_teds.Memory.{Block, memcpy, update}
use pecl_teds.Memory.Laws.{copy_cell-ok, store-ok}
use pecl_teds.Memory.Copy.{memcpy_lem}
use pecl_teds.Util.{deque_next_pow2_capacity}
use pecl_teds.Util.Limit.{Limit, deque_next_pow2_capacity_lem, deque_capacity-le-Limit}
use pecl_teds.Deque.Add.{adjust_iterators_before_insert}
use pecl_teds.Deque.Remove.{adjust_iterators_before_remove}
use pecl_teds.Vector.{Entries, Holds, raise_capacity}
use pecl_teds.Vector.Store.Laws.{Roomy, Roomy-weaken, raise_capacity-Roomy, Holds-cells}
use pecl_teds.StrictSortedVectorSet.{move_up, insert_key_at}

module _ {A : Type 0} where
  -- The entries from `it - n` to `it - 1` stand one place higher.
  record MovedUp (b : Block A) (it n : ℕ) (c : Block A) : Type 0 where
    same_size : c.alloc ≡ b.alloc
    cells :
        (j : ℕ) → c.cell j ≡ (if leb (it - n + 1) j && leb j it then b.cell (j - 1) else b.cell j)

  move_up_lem :
      (n it : ℕ) (b : Block A)
      → n ≤ it
      → it < b.alloc
      → ((j : ℕ) → j < it → (a : A) × (b.cell j ≡ some a))
      → Returns (MovedUp b it n) (move_up b it n)
  unfolding move_up
  move_up_lem zero it b le room full =
      returns record { same_size = refl; cells = λ j. ground arith }
  move_up_lem (suc n) it b le room full =
      let (a, e) = full (it - 1) (omega arith) in
      rw (copy_cell-ok b it (it - 1) room (omega arith) e) (
        Returns-map
          (move_up_lem n (it - 1) (record b { cell = update b.cell it a }) (omega arith)
            (omega arith) (λ j lt. let (x, ex) = full j (omega arith) in (x, ground (arith, ex))))
          λ c m. record { same_size = m.same_size; cells = λ j. ground (arith, m.cells j, e) })

  module _ (max_size : ℕ) (l : Limit max_size) where
    capacity_room :
        (array : Entries A) (q : List A)
        → Holds array q
        → length q < max_size
        → Returns (Roomy array q (array.size + 1)) (
            if leb array.capacity array.size
            then raise_capacity max_size array
                (u32 (deque_next_pow2_capacity (u32 (array.size + 1))))
            else ok array)
    capacity_room array q h small =
        let c = deque_next_pow2_capacity_lem (array.size + 1) (omega (arith, h.count, l.ceiling)) in
        let fits = deque_capacity-le-Limit max_size (array.size + 1) l (omega (arith, h.count)) in
        let narrow : u32 (array.size + 1) ≡ array.size + 1 = omega (arith, h.count, l.ceiling) in
        let narrow' : u32 (deque_next_pow2_capacity (array.size + 1))
            ≡ deque_next_pow2_capacity (array.size + 1) =
          omega (arith, fits, l.ceiling) in
        Returns-if (leb array.capacity array.size)
          (λ full.
            rw (narrow, narrow')
              (Returns-map
                (raise_capacity-Roomy max_size array q (deque_next_pow2_capacity (array.size + 1)) h
                  (omega (arith, c.room, leb→le _ _ full)) fits)
                (λ e r. Roomy-weaken r c.room)))
          (λ spare.
            returns
              record { holds = h; room = omega (arith, leb→lt _ _ spare); same_iterators = refl })

    pub insert_key_at-Holds :
        (array : Entries A) (q : List A) (key : A) (i : ℕ)
        → Holds array q
        → length q < max_size
        → i ≤ length q
        → Returns
            (λ e.
              Holds e (insert_at i (key ∷ []) q)
              × (e.iterators ≡ adjust_iterators_before_insert (length q) i 1 array.iterators))
            (insert_key_at max_size array key i)
    unfolding insert_key_at
    insert_key_at-Holds array q key i h small inside =
        Returns-bind (capacity_room array q h small) λ e r.
          Returns-bind
            (move_up_lem (array.size - i) array.size e.entries (omega arith)
              (omega (arith, r.room, r.holds.alloc))
              (λ j lt.
                let (a, ea) = get_elem?-some q j (omega (arith, h.count)) in
                (a, r.holds.cells j (omega (arith, h.count)) ∙ ea)))
            λ moved m.
              rw (store-ok moved i key (omega (arith, r.room, r.holds.alloc, m.same_size, h.count)))
                (returns (
                  Holds-cells e (record moved { cell = update moved.cell i key })
                      (insert_at i (key ∷ []) q) _ _ (m.same_size ∙ r.holds.alloc)
                      (omega (arith, length-insert_at i (key ∷ []) q inside, h.count, l.ceiling))
                      (omega (arith, length-insert_at i (key ∷ []) q inside, h.count, r.room))
                      (λ j lt. ground (
                        arith,
                        m.cells j,
                        get_elem?-insert_at i (key ∷ []) q j inside,
                        length-insert_at i (key ∷ []) q inside,
                        r.holds.cells j,
                        r.holds.cells (j - 1),
                        h.count,
                      )),
                  rw h.count refl,
                ))

  pub remove_at-Holds :
      (array : Entries A) (q : List A) (i : ℕ)
      → Holds array q
      → i < length q
      → Returns
          (λ moved.
            Holds
              (record array {
                entries = moved;
                size = array.size - 1;
                iterators = adjust_iterators_before_remove array.size i array.iterators;
              })
              (remove_at i q))
          (memcpy array.entries i array.entries (i + 1) (array.size - 1 - i))
  remove_at-Holds array q i h lt =
      Returns-map
        (memcpy_lem (array.size - 1 - i) array.entries i array.entries (i + 1)
          (omega (arith, h.count, h.size_in, h.alloc)) (omega (arith, h.count, h.size_in, h.alloc)))
        λ moved m.
          Holds-cells array moved (remove_at i q) (array.size - 1) _ (m.same_size ∙ h.alloc)
            (omega (arith, h.count, length-remove_at i q lt))
            (omega (arith, h.count, h.size_in, length-remove_at i q lt))
            (λ j ltj. ground (
              arith,
              m.cells j,
              get_elem?-remove_at i q j lt,
              length-remove_at i q lt,
              h.cells j,
              h.cells (suc j),
              h.count,
            ))
