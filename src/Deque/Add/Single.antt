-- ===== src/Deque/Add/Single.antt =====
-- `$deque[] = $value`, `$deque[$i] = $value` and set.
use native.Mathlib.Nat.{pow-suc}
use pecl_teds.Base.{
  ℕ, suc, ◌+◌, ◌*◌, ◌%◌, ◌<◌, ◌≤◌, ◌≡◌, refl, ◌∙◌, List, [], ◌∷◌, ◌++◌, length, length-set, set,
  get_elem?-some, get_elem?-set, arith, leb, leb→le, leb→lt, ◌==◌, if◌then◌else◌, ℕ_discrete, true,
  false,
}
use pecl_teds.Machine.{u32, IsPow2, pow2-lt_inv, pow2-le}
use pecl_teds.Run.{
  ok, throw, invalid_index, Returns, returns, Returns-map, Returns-bind, Returns-if,
}
use pecl_teds.Memory.{load, update}
use pecl_teds.Memory.Laws.{store-ok, load-ok}
use pecl_teds.Util.{deque_min_capacity}
use pecl_teds.Deque.{Deque, get_capacity, entry_index, Holds}
use pecl_teds.Deque.Ring.{ring-update, RingFilled-nil}
use pecl_teds.Deque.Reads.{capacity_bounds, capacity_of_nonempty, entry_index-eq, ring_in}
use pecl_teds.Deque.Storage.{raise_capacity}
use pecl_teds.Deque.Storage.Grow.{raise_capacity_lem}
use pecl_teds.Deque.Add.{push_back, set_value_at_offset}
use pecl_teds.Util.Limit.{Limit}
use pecl_teds.Deque.Add.Room.{Roomy}
use pecl_teds.Deque.Add.Push.{store_round, put_first, round_append}
use pecl_teds.Deque.Add.Front.{Holds-ring, RingHolds}

pub double-IsPow2 : (c m : ℕ) → IsPow2 c → IsPow2 m → c < m → IsPow2 (c * 2) × (c * 2 ≤ m)
double-IsPow2 c m (j, e) (k, f) h =
    let below = pow2-lt_inv j k (omega arith) in
    ((suc j, omega (arith, pow-suc 2 j)), omega (arith, pow-suc 2 j, pow2-le (suc j) k below))

module _ {A : Type 0} where
  RingHolds-set :
      (d : Deque A) (q : List A) (i : ℕ) (x : A)
      → Holds d q
      → i < length q
      → RingHolds
          (update d.buffer.cell ((d.offset + i) % (d.mask + 1)) x)
          (d.mask + 1)
          d.offset
          (set q i x)
  RingHolds-set d q i x h lt j hj =
      let v = h.valid in
      ground (
        arith,
        ring-update d.buffer.cell d.offset i j (d.mask + 1) x,
        h.cells j,
        get_elem?-set q i j x,
        length-set q i x,
        capacity_bounds v,
        v.size_in,
        h.count,
        v.offset_in,
      )

  -- set on a deque that holds a list, at an offset inside it, gives a consistent deque that holds
  -- the list with the value there, and leaves the iterators.
  pub set_value_at_offset_lem :
      (d : Deque A) (q : List A) (i : ℕ) (x : A)
      → Holds d q
      → i < length q
      → Returns (λ e. Holds e (set q i x) × (e.iterators ≡ d.iterators)) (set_value_at_offset d i x)
  unfolding set_value_at_offset
  set_value_at_offset_lem d q i x h lt =
      let v = h.valid in
      let (a, e) = get_elem?-some q i lt in
      let cap = capacity_bounds v in
      let at = entry_index-eq i v (omega (arith, h.count, v.size_in)) in
      let inside = ring_in (d.offset + i) v (omega (arith, h.count, v.size_in)) in
      let old : load d.buffer (entry_index d i) ≡ ok a =
        rw at (load-ok d.buffer _ inside (h.cells i lt ∙ e)) in
      let within : leb d.size i ≡ false = ground (arith, h.count) in
      rw (within, old, at, store-ok d.buffer _ x inside)
        (returns (
          Holds-ring d (set q i x) _ d.offset d.size v refl v.offset_in
              (omega (arith, h.count, length-set q i x)) v.size_in (RingHolds-set d q i x h lt),
          refl,
        ))

  -- Past the end it throws.
  pub set_value_at_offset-throw :
      (d : Deque A) (q : List A) (i : ℕ) (x : A)
      → Holds d q
      → length q ≤ i
      → set_value_at_offset d i x ≡ throw invalid_index
  unfolding set_value_at_offset
  set_value_at_offset-throw d q i x h le = ground (arith, h.count)

  -- What push_back does about a full buffer.
  push_back_room :
      (max_size : ℕ) (d : Deque A) (q : List A)
      → Limit max_size
      → Holds d q
      → length q < max_size
      → Returns (Roomy d q (d.size + 1)) (
          if leb (get_capacity d) d.size
          then raise_capacity max_size d
              (if get_capacity d == 0 then deque_min_capacity else get_capacity d * 2)
          else ok d)
  push_back_room max_size d q l h fits =
      let v = h.valid in
      Returns-if (leb (get_capacity d) d.size)
        (λ full.
          let exact : get_capacity d ≡ d.size = omega (arith, leb→le _ _ full, v.size_in) in
          elim (ℕ_discrete (get_capacity d) 0) [
            | yes nil ↦
                let zeros : (get_capacity d == 0) ≡ true = ground arith in
                rw zeros (
                  Returns-map
                    (raise_capacity_lem d q deque_min_capacity h (2, refl) (omega arith)
                      (omega arith) max_size l.floor (omega arith))
                    λ e s. record {
                      holds = s.holds;
                      iterators = s.iterators;
                      room = omega (arith, s.capacity);
                    })
            | no ne ↦
                let some_yet : (get_capacity d == 0) ≡ false = ground arith in
                let whole = capacity_of_nonempty v (omega arith) in
                let (p, le) =
                  double-IsPow2 (get_capacity d) max_size (rw whole v.pow2) l.pow2
                    (omega (arith, h.count)) in
                rw some_yet (
                  Returns-map
                    (raise_capacity_lem d q (get_capacity d * 2) h p (omega arith)
                      (omega (arith, l.ceiling)) max_size le (omega arith))
                    λ e s. record {
                      holds = s.holds;
                      iterators = s.iterators;
                      room = omega (arith, s.capacity);
                    })
          ])
        (λ some.
          returns (record { holds = h; iterators = refl; room = omega (arith, leb→lt _ _ some) }))

  -- `$deque[] = $value` on a deque that holds a list shorter than the engine's limit gives a
  -- consistent deque that holds the list with the value at its end, and leaves the iterators.
  pub push_back_lem :
      (max_size : ℕ) (d : Deque A) (q : List A) (x : A)
      → Limit max_size
      → Holds d q
      → length q < max_size
      → Returns (λ e. Holds e (q ++ x ∷ []) × (e.iterators ≡ d.iterators)) (push_back max_size d x)
  unfolding push_back
  push_back_lem max_size d q x l h fits =
      let new_size : u32 (d.size + 1) ≡ d.size + 1 = omega (arith, h.count, l.ceiling) in
      rw new_size (
        Returns-bind (push_back_room max_size d q l h fits) λ e r.
          let v = r.holds.valid in
          let same : e.size ≡ d.size = omega (arith, r.holds.count, h.count) in
          let bounds = capacity_bounds v in
          let whole = capacity_of_nonempty v (omega (arith, r.room)) in
          let put =
            store_round e.mask e.offset v.pow2 v.bounded v.offset_in e.buffer d.size x
              (omega (arith, v.alloc_in)) (omega (arith, r.room)) in
          rw put (
            returns (
              round_append e q (x ∷ []) (d.size + 1) _ r.holds
                  (rw same (
                    put_first e.buffer e.mask e.offset d.size x [] v.offset_in
                      (omega (arith, r.room))
                      (record {
                        alloc = refl;
                        cells =
                            RingFilled-nil
                              (update e.buffer.cell ((e.offset + d.size) % (e.mask + 1)) x)
                              (e.mask + 1) e.offset (d.size + 1);
                      })))
                  (omega (arith, r.room)) (omega arith),
              r.iterators,
            )))
