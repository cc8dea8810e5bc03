-- ===== src/Vector/Build/Collected.antt =====
-- teds_vector.c: a Vector made of an iterator holds the values that it gave, whose block grew by
-- doubling and then shrank to them.
use mathlib.Core.List.{append-nil, append_assoc}
use pecl_teds.Base.{
  ℕ, ◌+◌, ◌/◌, ◌<◌, ◌≤◌, ◌≡◌, refl, List, [], ◌∷◌, ◌++◌, length, length-append, get_elem?, arith,
  leb, ltb, leb→le, leb→lt, ltb→le, lt→ltb, ◌==◌, if◌then◌else◌,
}
use pecl_teds.Machine.{u32}
use pecl_teds.Run.{ok, Returns, returns, Returns-bind, Returns-if, ◌>>=◌}
use pecl_teds.Memory.{Block, no_block, malloc, realloc, update}
use pecl_teds.Memory.Laws.{store-ok}
use pecl_teds.Iterable.{values}
use pecl_teds.Util.Limit.{Limit}
use pecl_teds.Vector.{Entries}
use pecl_teds.Vector.Build.{next_capacity, collect, init_from_traversable}
use pecl_teds.Vector.Build.Filled.{Exact, Exact-new}
use pecl_teds.Vector.Build.Mapped.{Written, Written-store}

next_capacity_lem :
    (max_size : ℕ)
    → Limit max_size
    → (capacity : ℕ) → capacity < max_size
    → Returns (λ c. (capacity < c) × (c ≤ max_size)) (next_capacity max_size capacity)
unfolding next_capacity
next_capacity_lem max_size l capacity lt =
    Returns-if (capacity == 0) (λ nil. returns (ground arith, l.floor))
      (λ pos.
        Returns-if (ltb (max_size / 2) capacity)
          (λ large. rw (lt→ltb capacity max_size lt) (returns (lt, omega arith)))
          (λ small. returns (ground arith, omega (arith, ltb→le _ _ small))))

module _ {A : Type 0} (max_size : ℕ) (l : Limit max_size) where
  -- The loop has written `q`, in a block of `capacity` zvals.
  record Collecting (q : List A) (b : Block A) (size capacity : ℕ) : Type 0 where
    written : Written q b
    count : size ≡ length q
    alloc : b.alloc ≡ capacity
    most : capacity ≤ max_size

  Written-raise :
      (q : List A) (b : Block A) (capacity c : ℕ)
      → Written q b
      → b.alloc ≡ capacity
      → capacity < c
      → Written q (if capacity == 0 then malloc c else realloc b c)
  unfolding realloc
  Written-raise q b capacity c w alloc le = record {
    fits = ground (arith, w.fits);
    cells = λ i lt. ground (arith, w.cells i lt, w.fits);
  }

  alloc-raise :
      (b : Block A) (capacity c : ℕ) → (if capacity == 0 then malloc c else realloc b c).alloc ≡ c
  unfolding realloc
  alloc-raise b capacity c = ground arith

  collect_room :
      (q : List A) (b : Block A) (size capacity : ℕ)
      → Collecting q b size capacity
      → size < max_size
      → Returns
          (λ (r : Block A × ℕ). Collecting q r.0 size r.1 × (size < r.1))
          (if leb capacity size
            then (next_capacity max_size capacity >>= λ raised.
                ok (if capacity == 0 then malloc raised else realloc b raised, raised))
            else ok (b, capacity))
  collect_room q b size capacity k small =
      Returns-if (leb capacity size)
        (λ full.
          Returns-bind (next_capacity_lem max_size l capacity (omega (arith, leb→le _ _ full)))
            λ c (more, fits). returns (
              record {
                written = Written-raise q b capacity c k.written k.alloc more;
                count = k.count;
                alloc = alloc-raise b capacity c;
                most = fits;
              },
              omega (arith, k.count, k.alloc, k.written.fits),
            ))
        (λ spare. returns (k, leb→lt _ _ spare))

  collect_lem :
      (xs q : List A) (b : Block A) (size capacity : ℕ)
      → Collecting q b size capacity
      → length q + length xs ≤ max_size
      → Returns
          (λ (r : Block A × ℕ × ℕ). Collecting (q ++ xs) r.0 r.1 r.2)
          (collect max_size b size capacity xs)
  unfolding collect
  collect_lem [] q b size capacity k fits = returns (rw append-nil k)
  collect_lem (x ∷ xs) q b size capacity k fits =
      Returns-bind (collect_room q b size capacity k (omega (arith, k.count)))
        λ (room, c) (k', more).
          rw
            (
              k.count,
              store-ok room (length q) x (omega (arith, k'.alloc, k.count)),
              ← append_assoc q (x ∷ []) xs,
            )
            (collect_lem xs (q ++ x ∷ []) (record room { cell = update room.cell (length q) x })
              (u32 (length q + 1)) c
              (record {
                written = Written-store q room x k'.written (omega (arith, k'.alloc, k.count));
                count = omega (arith, length-append q (x ∷ []), l.ceiling);
                alloc = k'.alloc;
                most = k'.most;
              })
              (omega (arith, length-append q (x ∷ []))))

  trimmed :
      (q : List A) (b : Block A) (size capacity : ℕ)
      → Collecting q b size capacity
      → ((if ltb size capacity then realloc b size else b).alloc ≡ size)
        × ((i : ℕ)
            → i < length q
            → (if ltb size capacity then realloc b size else b).cell i ≡ get_elem? q i)
  unfolding realloc
  trimmed q b size capacity k = (
    ground (arith, k.count, k.alloc, k.written.fits),
    λ i lt. ground (arith, k.written.cells i lt, k.count, k.written.fits),
  )

  -- For a limit as documented, a Vector made of an iterator that gives at most as many values as
  -- the limit holds them in their order, in a block of exactly their number: the doubling of the
  -- block stops at the limit and neither overflows nor ends in a fatal error.
  pub init_from_traversable-Exact :
      (vector : Entries A) (q : List A)
      → length q ≤ max_size
      → Returns (Exact q) (init_from_traversable max_size vector (values q))
  unfolding init_from_traversable
  init_from_traversable-Exact vector q fits =
      Returns-bind
        (collect_lem q [] no_block 0 0
          (record {
            written = record { fits = omega arith; cells = λ i lt. absurd (omega arith) };
            count = refl;
            alloc = refl;
            most = omega arith;
          })
          (omega arith))
        λ (b, size, capacity) k.
          let (alloc, cells) = trimmed q b size capacity k in
          returns (Exact-new vector q _ size _ _ k.count alloc cells)
