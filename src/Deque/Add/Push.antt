-- ===== src/Deque/Add/Push.antt =====
-- push, pushFront and `[]` put their values at an end of the list.
use pecl_teds.Base.{
  ℕ, ◌+◌, ◌%◌, ◌^◌, ◌<◌, ◌≤◌, ◌≡◌, refl, sym, ◌∙◌, List, [], ◌∷◌, ◌++◌, length, length-append,
  get_elem?-append, arith, leb, true, false,
}
use mathlib.Core.List.{append-nil}
use native.Mathlib.Nat.{mod-lt}
use pecl_teds.Machine.{u32, u32-mod, bit_and, bit_and_mask, IsPow2}
use pecl_teds.Run.{ok, Returns, returns, Returns-map, Returns-bind}
use pecl_teds.Memory.{Block, store, update}
use pecl_teds.Memory.Laws.{store-ok}
use pecl_teds.Deque.{Deque, get_capacity, Holds}
use pecl_teds.Deque.Ring.{RingFilled, RingFilled-nil, RingFilled-cons}
use pecl_teds.Deque.Add.{push_loop, push}
use pecl_teds.Util.Limit.{Limit}
use pecl_teds.Deque.Add.Room.{make_room_lem}
use pecl_teds.Deque.Reads.{capacity_bounds, capacity_of_nonempty}

module _ {A : Type 0} where
  -- The block after values were put round the ring from place `start` on.
  pub record PutRound (b : Block A) (c o start : ℕ) (xs : List A) (g : Block A) : Type 0 where
    pub alloc : g.alloc ≡ b.alloc
    pub cells : RingFilled b.cell c o start xs g.cell

  pub put_first :
      (b : Block A) (m o i : ℕ) (x : A) (xs : List A)
      → o ≤ m
      → i ≤ m
      → {g : Block A}
      → PutRound (record b { cell = update b.cell ((o + i) % (m + 1)) x }) (m + 1) o (i + 1) xs g
      → PutRound b (m + 1) o i (x ∷ xs) g
  put_first b m o i x xs ho hi {g} r = record {
    alloc = r.alloc;
    cells = RingFilled-cons b.cell g.cell (m + 1) o i x xs (omega arith) (omega arith) r.cells;
  }

  module _ (m o : ℕ) (p : IsPow2 (m + 1)) (small : m < 2 ^ 31) (front : o ≤ m) where
    pub store_round :
        (b : Block A) (i : ℕ) (x : A)
        → m + 1 ≤ b.alloc
        → i ≤ m
        → store b (bit_and (u32 (o + i)) m) x
          ≡ ok (record b { cell = update b.cell ((o + i) % (m + 1)) x })
    store_round b i x room fits =
        let at : bit_and (u32 (o + i)) m ≡ (o + i) % (m + 1) =
          bit_and_mask (u32 (o + i)) m p ∙ u32-mod (o + i) (m + 1) p (omega arith) in
        rw at (
          store-ok b ((o + i) % (m + 1)) x
            (omega (arith, mod-lt (o + i) {m = m + 1} (omega arith))))

    pub push_loop_lem :
        (xs : List A) (b : Block A) (i n : ℕ) (x : A)
        → m + 1 ≤ b.alloc
        → i + length (x ∷ xs) ≤ m + 1
        → n ≡ i + length (x ∷ xs)
        → Returns (PutRound b (m + 1) o i (x ∷ xs)) (push_loop b m o i n (x ∷ xs))
    unfolding push_loop
    push_loop_lem [] b i n x room fits e =
        let last : leb n (i + 1) ≡ true = ground arith in
        rw (store_round b i x room (omega arith), last)
          (returns (
            put_first b m o i x [] front (omega arith) (record {
              alloc = refl;
              cells = RingFilled-nil (update b.cell ((o + i) % (m + 1)) x) (m + 1) o (i + 1);
            })))
    push_loop_lem (y ∷ ys) b i n x room fits e =
        let more : leb n (i + 1) ≡ false = ground arith in
        rw (store_round b i x room (omega arith), more)
          (Returns-map (push_loop_lem ys _ (i + 1) n y room (omega arith) (omega arith))
            λ g r. put_first b m o i x (y ∷ ys) front (omega arith) r)

  -- Values put round the ring behind the entries are appended to the list.
  pub round_append :
      (e : Deque A) (q xs : List A) (n : ℕ) (g : Block A)
      → Holds e q
      → PutRound e.buffer (e.mask + 1) e.offset e.size xs g
      → e.size + length xs ≤ get_capacity e
      → n ≡ e.size + length xs
      → Holds (record e { buffer = g; size = n }) (q ++ xs)
  unfolding get_capacity
  round_append e q xs n g h r fits en =
      let v = h.valid in
      record {
        valid = record {
          pow2 = v.pow2;
          bounded = v.bounded;
          offset_in = v.offset_in;
          size_in = omega (arith, fits);
          alloc_in = omega (arith, v.alloc_in, r.alloc);
        };
        count = omega (arith, h.count, length-append q xs);
        cells = λ i lt. ground (
          arith,
          r.cells i,
          h.cells i,
          h.count,
          get_elem?-append q xs i,
          length-append q xs,
          capacity_bounds v,
        );
      }

  -- Deque::push on a deque that holds a list, with any number of arguments within the engine's
  -- limit, returns a consistent deque that holds the list and then the arguments in their order,
  -- and leaves every iterator where it is.
  pub push_lem :
      (max_size : ℕ) (d : Deque A) (q args : List A)
      → Limit max_size
      → Holds d q
      → length q + length args ≤ max_size
      → Returns (λ e. Holds e (q ++ args) × (e.iterators ≡ d.iterators)) (push max_size d args)
  unfolding push
  push_lem max_size d q [] l h fits = returns (rw append-nil h, refl)
  push_lem max_size d q (x ∷ args) l h fits =
      let new_size : u32 (d.size + length (x ∷ args)) ≡ d.size + length (x ∷ args) =
        omega (arith, h.count, l.ceiling) in
      rw new_size (
        Returns-bind
          (make_room_lem max_size d q (d.size + length (x ∷ args)) l h (omega (arith, h.count))
            (omega arith))
          λ e r.
            let v = r.holds.valid in
            let same : e.size ≡ d.size = omega (arith, r.holds.count, h.count) in
            let bounds = capacity_bounds v in
            let whole = capacity_of_nonempty v (omega (arith, r.room)) in
            Returns-bind
              (push_loop_lem e.mask e.offset v.pow2 v.bounded v.offset_in args e.buffer d.size _ x
                (omega (arith, v.alloc_in)) (omega (arith, r.room)) refl)
              λ g put. returns (
                round_append e q (x ∷ args) _ g r.holds (rw (sym same) at put)
                    (omega (arith, r.room)) (omega arith),
                r.iterators,
              ))
