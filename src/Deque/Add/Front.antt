-- ===== src/Deque/Add/Front.antt =====
-- pushFront puts its values before the list, the last one first.
use mathlib.Core.List.{reverse, reverse_aux, reverse_aux-eq}
use native.Mathlib.Nat.{mod-lt, mod-eq_of_lt, add-mod_right, mod-add-mod}
use pecl_teds.Base.{
  ℕ, zero, suc, ◌+◌, ◌%◌, ◌^◌, ◌<◌, ◌≤◌, ◌≡◌, ◌≢◌, refl, ap, ◌∙◌, List, [], ◌∷◌, ◌++◌, Option,
  length, get_elem?, arith,
}
use pecl_teds.Machine.{u32, IsPow2}
use pecl_teds.Run.{Returns, returns, Returns-bind}
use pecl_teds.Memory.{Block, update}
use pecl_teds.Memory.Laws.{store-ok}
use pecl_teds.Deque.{Deque, get_capacity, IsValid, Holds}
use pecl_teds.Deque.Ring.{mask_prev, ring_inj}
use pecl_teds.Deque.Reads.{capacity_bounds, capacity_of_nonempty}
use pecl_teds.Deque.Add.{push_front_loop, push_front, adjust_iterators_before_insert}
use pecl_teds.Util.Limit.{Limit}
use pecl_teds.Deque.Add.Room.{make_room_lem}

-- The cell before `o`, and its place in a ring that begins there.
before_front : (o j m : ℕ) → ((o + m) % (m + 1) + suc j) % (m + 1) ≡ (o + j) % (m + 1)
before_front o j m =
    mod-add-mod (o + m) (m + 1) (suc j)
    ∙ ap (λ t. t % (m + 1)) (omega arith)
    ∙ add-mod_right (o + j) (m + 1)

module _ {A : Type 0} where
  abbrev pub RingHolds : (ℕ → Option A) → ℕ → ℕ → List A → Type 0
  RingHolds f c o q = (i : ℕ) → i < length q → f ((o + i) % c) ≡ get_elem? q i

  RingHolds-cons :
      (f : ℕ → Option A) (m o : ℕ) (x : A) (q : List A)
      → length q ≤ m
      → RingHolds f (m + 1) o q
      → RingHolds (update f ((o + m) % (m + 1)) x) (m + 1) ((o + m) % (m + 1)) (x ∷ q)
  RingHolds-cons f m o x q short h zero lt =
      let o' = (o + m) % (m + 1) in
      let here : (o' + 0) % (m + 1) ≡ o' =
        ap (λ t. t % (m + 1)) (omega arith)
        ∙ mod-eq_of_lt (mod-lt (o + m) {m = m + 1} (omega arith)) in
      rw here (ground arith)
  RingHolds-cons f m o x q short h (suc i) lt =
      let o' = (o + m) % (m + 1) in
      let low = mod-lt (o + m) {m = m + 1} (omega arith) in
      let here : (o' + 0) % (m + 1) ≡ o' = ap (λ t. t % (m + 1)) (omega arith) ∙ mod-eq_of_lt low in
      let apart : o' ≢ (o' + suc i) % (m + 1) = λ e.
        absurd (
          omega
            (arith, ring_inj o' 0 (suc i) (m + 1) low (omega arith) (omega arith) (here ∙ e))) in
      ground (arith, apart, before_front o i m, h i)

  push_front_loop_lem :
      (m : ℕ) (p : IsPow2 (m + 1)) (small : m < 2 ^ 31) (args : List A) (b : Block A) (o : ℕ)
      (q : List A)
      → m + 1 ≤ b.alloc
      → o ≤ m
      → length q + length args ≤ m + 1
      → RingHolds b.cell (m + 1) o q
      → Returns
          (λ (g : Block A × ℕ).
            (g.0.alloc ≡ b.alloc) × (g.1 ≤ m) × RingHolds g.0.cell (m + 1) g.1 (reverse_aux args q))
          (push_front_loop b m o args)
  unfolding push_front_loop
  push_front_loop_lem m p small [] b o q room front fits h = returns (refl, front, h)
  push_front_loop_lem m p small (x ∷ args) b o q room front fits h =
      let low = mod-lt (o + m) {m = m + 1} (omega arith) in
      let o' = (o + m) % (m + 1) in
      rw (mask_prev m p small o, store-ok b o' x (omega (arith, low)))
        (push_front_loop_lem m p small args (record b { cell = update b.cell o' x }) o' (x ∷ q) room
          (omega (arith, low)) (omega arith) (RingHolds-cons b.cell m o x q (omega arith) h))

  length-reverse_onto : (xs ys : List A) → length (reverse_aux xs ys) ≡ length xs + length ys
  length-reverse_onto [] ys = omega arith
  length-reverse_onto (x ∷ xs) ys = omega (arith, length-reverse_onto xs (x ∷ ys))

  -- The entries do not depend on the iterators.
  pub Holds-iterators :
      {d : Deque A} {q : List A} (its : List ℕ) → Holds d q → Holds (record d { iterators = its }) q
  unfolding get_capacity
  Holds-iterators its h = record {
    valid = record {
      pow2 = h.valid.pow2;
      bounded = h.valid.bounded;
      offset_in = h.valid.offset_in;
      size_in = h.valid.size_in;
      alloc_in = h.valid.alloc_in;
    };
    count = h.count;
    cells = h.cells;
  }

  -- A deque over the same mask, with a list that fits it.
  pub Holds-ring :
      (e : Deque A) (q : List A) (g : Block A) (o n : ℕ)
      → IsValid e
      → g.alloc ≡ e.buffer.alloc
      → o ≤ e.mask
      → n ≡ length q
      → n ≤ get_capacity e
      → RingHolds g.cell (e.mask + 1) o q
      → Holds (record e { buffer = g; offset = o; size = n }) q
  unfolding get_capacity
  Holds-ring e q g o n v alloc front count fits cells = record {
    valid = record {
      pow2 = v.pow2;
      bounded = v.bounded;
      offset_in = front;
      size_in = fits;
      alloc_in = omega (arith, v.alloc_in, alloc);
    };
    count = count;
    cells = cells;
  }

  -- Deque::pushFront with at least one argument, on a deque that holds a list and within the
  -- engine's limit, returns a consistent deque that holds the arguments in reverse order and then
  -- the list; the iterators are those that teds_deque_adjust_iterators_before_insert gives at
  -- offset 0.
  pub push_front_lem :
      (max_size : ℕ) (d : Deque A) (q : List A) (x : A) (args : List A)
      → Limit max_size
      → Holds d q
      → length q + length (x ∷ args) ≤ max_size
      → Returns
          (λ e.
            Holds e (reverse (x ∷ args) ++ q)
            × (e.iterators
                ≡ adjust_iterators_before_insert (length q) 0 (length (x ∷ args)) d.iterators))
          (push_front max_size d (x ∷ args))
  unfolding push_front
  push_front_lem max_size d q x args l h fits =
      let n = d.size + length (x ∷ args) in
      let its = adjust_iterators_before_insert d.size 0 (length (x ∷ args)) d.iterators in
      let new_size : u32 n ≡ n = omega (arith, h.count, l.ceiling) in
      let total = length-reverse_onto (x ∷ args) q in
      rw new_size (
        Returns-bind
          (make_room_lem max_size (record d { iterators = its }) q n l (Holds-iterators its h)
            (omega (arith, h.count)) (omega arith))
          λ e r.
            let v = r.holds.valid in
            let bounds = capacity_bounds v in
            let whole = capacity_of_nonempty v (omega (arith, r.room)) in
            Returns-bind
              (push_front_loop_lem e.mask v.pow2 v.bounded (x ∷ args) e.buffer e.offset q
                (omega (arith, v.alloc_in)) v.offset_in (omega (arith, r.room, h.count))
                r.holds.cells)
              λ (g, o) (alloc, front, cells). returns (
                rw (← reverse_aux-eq (x ∷ args) q) (
                    Holds-ring e (reverse_aux (x ∷ args) q) g o n v alloc front
                      (omega (arith, total, h.count)) r.room cells),
                rw (← h.count) r.iterators,
              ))
