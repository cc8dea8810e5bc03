-- ===== src/Deque/Insert/Laws.antt =====
-- insert puts its values at an offset of the list.
use native.Mathlib.Nat.{mod-lt}
use pecl_teds.Base.{
  ℕ, ◌+◌, ◌%◌, ◌^◌, ◌<◌, ◌≤◌, ◌≡◌, refl, ◌∙◌, List, [], ◌∷◌, length, insert_at, length-insert_at,
  get_elem?-insert_at, arith, ltb, false,
}
use pecl_teds.Machine.{u32, IsPow2}
use pecl_teds.Run.{throw, invalid_index, Returns, returns, Returns-map, Returns-bind}
use pecl_teds.Memory.{Block}
use pecl_teds.Memory.Laws.{store-ok}
use pecl_teds.Deque.{Deque, Holds}
use pecl_teds.Deque.Ring.{mask_at, step_next, RingFilled-nil}
use pecl_teds.Deque.Reads.{capacity_bounds, capacity_of_nonempty}
use pecl_teds.Deque.Add.{adjust_iterators_before_insert}
use pecl_teds.Util.Limit.{Limit}
use pecl_teds.Deque.Add.Room.{make_room_lem}
use pecl_teds.Deque.Add.Push.{PutRound, put_first}
use pecl_teds.Deque.Add.Front.{RingHolds, Holds-ring, Holds-iterators}
use pecl_teds.Deque.Insert.{fill_gap, insert_values, insert}
use pecl_teds.Deque.Insert.Open.{Gapped, open_gap_lem}

module _ {A : Type 0} where
  fill_gap_lem :
      (m o : ℕ) (p : IsPow2 (m + 1)) (small : m < 2 ^ 31) (front : o ≤ m) (args : List A)
      (b : Block A) (start : ℕ)
      → m + 1 ≤ b.alloc
      → start + length args ≤ m + 1
      → Returns (PutRound b (m + 1) o start args) (fill_gap b m ((o + start) % (m + 1)) args)
  unfolding fill_gap
  fill_gap_lem m o p small front [] b start room fits =
      returns (record { alloc = refl; cells = RingFilled-nil b.cell (m + 1) o start })
  fill_gap_lem m o p small front (x ∷ args) b start room fits =
      let low = mod-lt (o + start) {m = m + 1} (omega arith) in
      rw (store-ok b ((o + start) % (m + 1)) x (omega (arith, low)), step_next m p small o start)
        (Returns-map (fill_gap_lem m o p small front args _ (start + 1) room (omega arith))
          λ g r. put_first b m o start x args front (omega arith) r)

  -- The gap filled with the values is the list with the values in it.
  insert-RingHolds :
      (e : Deque A) (q args : List A) (at : ℕ) (b g : Block A) (o : ℕ)
      → at ≤ length q
      → length q + length args ≤ e.mask + 1
      → Gapped e q at (length args) (b, o)
      → PutRound b (e.mask + 1) o at args g
      → RingHolds g.cell (e.mask + 1) o (insert_at at args q)
  insert-RingHolds e q args at b g o inside fits gap put i lt = ground (
    arith,
    put.cells i,
    gap.before i,
    gap.after i,
    get_elem?-insert_at at args q i,
    length-insert_at at args q inside,
  )

  -- Deque::insert on a deque that holds a list, at an offset inside the list or at its end, with
  -- at least one argument and a total within the engine's limit, returns a consistent deque that
  -- holds the list with the arguments put at the offset in their order, whichever side of the
  -- ring is moved; each iterator that stands at the offset or behind it, and has entries left, is
  -- moved on by their number.
  pub insert_lem :
      (max_size : ℕ) (d : Deque A) (q : List A) (at : ℕ) (x : A) (rest : List A)
      → Limit max_size
      → Holds d q
      → at ≤ length q
      → length q + length (x ∷ rest) ≤ max_size
      → Returns
          (λ e.
            Holds e (insert_at at (x ∷ rest) q)
            × (e.iterators
                ≡ adjust_iterators_before_insert (length q) at (length (x ∷ rest)) d.iterators))
          (insert max_size d at (x ∷ rest))
  unfolding insert insert_values
  insert_lem max_size d q at x rest l h inside fits =
      let args = x ∷ rest in
      let n = d.size + length args in
      let new_size : u32 n ≡ n = omega (arith, h.count, l.ceiling) in
      let within : ltb d.size at ≡ false = ground (arith, h.count) in
      rw (within, new_size)
        (Returns-bind (make_room_lem max_size d q n l h (omega (arith, h.count)) (omega arith))
          λ e r.
            let v = r.holds.valid in
            let whole = capacity_of_nonempty v (omega (arith, r.room)) in
            let bounds = capacity_bounds v in
            let same : e.size ≡ length q = r.holds.count in
            Returns-bind
              (open_gap_lem e q at (length args) r.holds inside (omega arith)
                (omega (arith, r.room, h.count)))
              λ (b, o) gap. rw (mask_at e.mask v.pow2 v.bounded (o + at)) (
                Returns-bind
                  (fill_gap_lem e.mask o v.pow2 v.bounded gap.front args b at
                    (omega (arith, v.alloc_in, gap.alloc)) (omega (arith, r.room, h.count)))
                  λ g put. returns (
                    Holds-iterators _ (
                        Holds-ring e (insert_at at args q) g o n v (put.alloc ∙ gap.alloc) gap.front
                          (omega (arith, h.count, length-insert_at at args q inside)) r.room
                          (insert-RingHolds e q args at b g o inside
                            (omega (arith, r.room, h.count)) gap put)),
                    rw (same, r.iterators),
                  )))

  -- insert on a deque that holds a list throws for an offset behind the list's end, whatever the
  -- arguments.
  pub insert-throw :
      (max_size : ℕ) (d : Deque A) (q : List A) (at : ℕ) (args : List A)
      → Holds d q
      → length q < at
      → insert max_size d at args ≡ throw invalid_index
  unfolding insert
  insert-throw max_size d q at args h past = ground (arith, h.count)
