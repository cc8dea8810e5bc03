-- ===== src/Vector/Store/Laws.antt =====
-- teds_vector.c: what set, push and insert leave of the list that a vector holds.
use mathlib.Core.List.{append-nil}
use pecl_teds.Base.{
  ℕ, ◌+◌, ◌-◌, ◌*◌, ◌<◌, ◌≤◌, ◌≡◌, refl, ◌∙◌, List, [], ◌∷◌, ◌++◌, length, length-append, get_elem?,
  get_elem?-append, insert_at, length-insert_at, get_elem?-insert_at, arith, ltb, leb, ltb→le,
  le→ltb, ltb→lt, if◌then◌else◌,
}
use pecl_teds.Run.{Returns, returns, Returns-bind, Returns-map, Returns-if}
use pecl_teds.Memory.{Block, realloc}
use pecl_teds.Memory.Copy.{Copied, Filled, memcpy_lem, fill_lem}
use pecl_teds.Util.Limit.{Limit}
use pecl_teds.Deque.Add.{adjust_iterators_before_insert}
use pecl_teds.Vector.{Entries, Holds, raise_capacity}
use pecl_teds.Vector.Store.{make_room, push, insert}

module _ {A : Type 0} where
  -- The vector still holds the list, and has room for `n` values.
  pub record Roomy (array : Entries A) (q : List A) (n : ℕ) (e : Entries A) : Type 0 where
    pub holds : Holds e q
    pub room : n ≤ e.capacity
    pub same_iterators : e.iterators ≡ array.iterators

  pub raise_capacity-Roomy :
      (max_size : ℕ) (array : Entries A) (q : List A) (c : ℕ)
      → Holds array q
      → array.capacity ≤ c
      → c ≤ max_size
      → Returns (Roomy array q c) (raise_capacity max_size array c)
  unfolding raise_capacity realloc
  raise_capacity-Roomy max_size array q c h more fits = rw (le→ltb max_size c fits) (
      returns record {
        holds = record {
          count = h.count;
          size_in = omega (arith, h.size_in);
          alloc = ground arith;
          cells = λ i lt. ground (arith, h.cells i lt, h.alloc, h.count, h.size_in);
        };
        room = omega arith;
        same_iterators = refl;
      })

  pub Roomy-weaken :
      {array : Entries A} {q : List A} {n m : ℕ} {e : Entries A}
      → Roomy array q n e
      → m ≤ n
      → Roomy array q m e
  Roomy-weaken r le = record {
    holds = r.holds;
    room = omega (arith, r.room);
    same_iterators = r.same_iterators;
  }

  pub make_room_lem :
      (max_size : ℕ) (array : Entries A) (q : List A) (n : ℕ)
      → Limit max_size
      → Holds array q
      → n * 2 ≤ max_size
      → Returns (Roomy array q n) (make_room max_size array n)
  unfolding make_room
  make_room_lem max_size array q n l h fits =
      let c = if leb 3 n then (n - 1) * 2 else 4 in
      Returns-if (ltb array.capacity n)
        (λ small.
          Returns-map
            (raise_capacity-Roomy max_size array q c h (ground (arith, ltb→lt _ _ small))
              (ground (arith, l.floor)))
            (λ e r. Roomy-weaken r (ground arith)))
        (λ large.
          returns
            record { holds = h; room = omega (arith, ltb→le _ _ large); same_iterators = refl })

  -- The cells of the block are the values of the list, in a vector that has room for them.
  pub Holds-cells :
      (e : Entries A) (entries : Block A) (q : List A) (n : ℕ) (iterators : List ℕ)
      → entries.alloc ≡ e.capacity
      → n ≡ length q
      → length q ≤ e.capacity
      → ((i : ℕ) → i < length q → entries.cell i ≡ get_elem? q i)
      → Holds (record e { entries = entries; size = n; iterators = iterators }) q
  Holds-cells e entries q n iterators alloc count room cells = record {
    count = count;
    size_in = omega arith;
    alloc = alloc;
    cells = cells;
  }

  -- Vector::push
  pub push-Holds :
      (max_size : ℕ) (array : Entries A) (q args : List A)
      → Limit max_size
      → Holds array q
      → (length q + length args) * 2 ≤ max_size
      → Returns
          (λ e. Holds e (q ++ args) × (e.iterators ≡ array.iterators))
          (push max_size array args)
  unfolding push
  push-Holds max_size array q [] l h fits = returns (rw append-nil (h, refl))
  push-Holds max_size array q (x ∷ args) l h fits =
      let argc = length (x ∷ args) in
      Returns-bind (make_room_lem max_size array q (array.size + argc) l h (omega (arith, h.count)))
        λ e r.
          Returns-bind
            (fill_lem (x ∷ args) e.entries array.size (omega (arith, r.room, r.holds.alloc)))
            λ filled f. returns (
              Holds-cells e filled (q ++ x ∷ args) _ e.iterators (f.same_size ∙ r.holds.alloc)
                  (omega (arith, length-append q (x ∷ args), h.count, l.ceiling))
                  (omega (arith, length-append q (x ∷ args), h.count, r.room))
                  λ i lt. ground (
                    arith,
                    f.cells i,
                    get_elem?-append q (x ∷ args) i,
                    length-append q (x ∷ args),
                    r.holds.cells i,
                    h.count,
                  ),
              r.same_iterators,
            )

  -- The entries from `at` on moved up, and `xs` written into the gap.
  pub inserted_cells :
      {e : Entries A} {q : List A} {moved filled : Block A} (at : ℕ) (xs : List A) (size : ℕ)
      → Holds e q
      → size ≡ length q
      → at ≤ length q
      → Copied e.entries (at + length xs) e.entries at (size - at) moved
      → Filled moved at xs filled
      → (i : ℕ) → i < length (insert_at at xs q)
      → filled.cell i ≡ get_elem? (insert_at at xs q) i
  inserted_cells {q = q} at xs size h count inside m f i lt = ground (
    arith,
    f.cells i,
    m.cells i,
    get_elem?-insert_at at xs q i inside,
    length-insert_at at xs q inside,
    h.cells i,
    h.cells (i - length xs),
  )

  -- For a limit as documented and a vector that holds a list, Vector::insert at an offset inside
  -- the list or at its end, with at least one argument and a total of at most half of the limit,
  -- returns a vector that holds the list with the arguments put at the offset, and leaves each
  -- iterator that stands before the offset or behind the last entry, and moves each other one on
  -- by the number of the arguments.
  pub insert-Holds :
      (max_size : ℕ) (array : Entries A) (q : List A) (at : ℕ) (x : A) (args : List A)
      → Limit max_size
      → Holds array q
      → at ≤ length q
      → (length q + length (x ∷ args)) * 2 ≤ max_size
      → Returns
          (λ e.
            Holds e (insert_at at (x ∷ args) q)
            × (e.iterators
                ≡ adjust_iterators_before_insert (length q) at (length (x ∷ args)) array.iterators))
          (insert max_size array at (x ∷ args))
  unfolding insert
  insert-Holds max_size array q at x args l h inside fits =
      let argc = length (x ∷ args) in
      rw (le→ltb array.size at (omega (arith, h.count))) (
        Returns-bind
          (make_room_lem max_size array q (array.size + argc) l h (omega (arith, h.count)))
          λ e r.
            Returns-bind
              (memcpy_lem (array.size - at) e.entries (at + argc) e.entries at
                (omega (arith, r.room, r.holds.alloc, h.count))
                (omega (arith, r.room, r.holds.alloc, h.count)))
              λ moved m.
                Returns-bind
                  (fill_lem (x ∷ args) moved at
                    (omega (arith, r.room, r.holds.alloc, h.count, m.same_size)))
                  λ filled f. returns (
                    Holds-cells e filled (insert_at at (x ∷ args) q) _ _
                        (f.same_size ∙ m.same_size ∙ r.holds.alloc)
                        (omega (arith, length-insert_at at (x ∷ args) q inside, h.count, l.ceiling))
                        (omega (arith, length-insert_at at (x ∷ args) q inside, h.count, r.room))
                        (inserted_cells at (x ∷ args) array.size r.holds h.count inside m f),
                    rw h.count refl,
                  ))
