-- ===== src/Deque/Add/Room.antt =====
-- The room that push, pushFront and insert make for their values.
use pecl_teds.Base.{ℕ, ◌^◌, ◌<◌, ◌≤◌, ◌≡◌, refl, List, arith, ltb, lt→ltb, ltb→lt, ltb→le}
use pecl_teds.Run.{fatal, Returns, returns, Returns-map, Returns-if}
use pecl_teds.Util.{deque_next_pow2_capacity}
use pecl_teds.Util.Limit.{Limit, deque_next_pow2_capacity_lem, deque_capacity-le-Limit}
use pecl_teds.Deque.{Deque, get_capacity, Holds}
use pecl_teds.Deque.Storage.Grow.{raise_capacity_lem, raise_capacity-fatal}
use pecl_teds.Deque.Add.{make_room}

module _ {A : Type 0} where
  pub record Roomy (d : Deque A) (q : List A) (n : ℕ) (e : Deque A) : Type 0 where
    pub holds : Holds e q
    pub iterators : e.iterators ≡ d.iterators
    pub room : n ≤ get_capacity e

  pub make_room_lem :
      (max_size : ℕ) (d : Deque A) (q : List A) (n : ℕ)
      → Limit max_size
      → Holds d q
      → n ≤ max_size
      → 0 < n
      → Returns (Roomy d q n) (make_room max_size d n)
  unfolding make_room
  make_room_lem max_size d q n l h fits pos =
      let c = deque_next_pow2_capacity_lem n (omega (arith, l.ceiling)) in
      Returns-if (ltb (get_capacity d) n)
        (λ short.
          Returns-map
            (raise_capacity_lem d q (deque_next_pow2_capacity n) h c.pow2 (omega (arith, c.floor))
              c.bounded max_size (deque_capacity-le-Limit max_size n l fits)
              (omega (arith, ltb→lt _ _ short, c.room)))
            λ e s. record {
              holds = s.holds;
              iterators = s.iterators;
              room = omega (arith, s.capacity, c.room);
            })
        (λ enough. returns (record { holds = h; iterators = refl; room = ltb→le _ _ enough }))

  -- A request for more entries than the engine's limit, at most 2 ^ 31 and more than the
  -- capacity, ends in the fatal error of the engine.
  pub make_room-fatal :
      (max_size : ℕ) (d : Deque A) (n : ℕ)
      → max_size < n
      → n ≤ 2 ^ 31
      → get_capacity d < n
      → make_room max_size d n ≡ fatal
  unfolding make_room
  make_room-fatal max_size d n over small short =
      let c = deque_next_pow2_capacity_lem n small in
      rw (lt→ltb (get_capacity d) n short)
        (raise_capacity-fatal max_size d (deque_next_pow2_capacity n) (omega (arith, c.room)))
