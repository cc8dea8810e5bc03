-- ===== src/StrictSortedVectorSet/Build/Gathered.antt =====
-- teds_strictsortedvectorset.c: a set that is made of an iterator has exactly the values that it gave.
use mathlib.Core.List.{append-nil, append_assoc}
use pecl_teds.Base.{
  ℕ, ◌+◌, ◌*◌, ◌^◌, ◌<◌, ◌≤◌, ◌≡◌, refl, sym, List, [], ◌∷◌, ◌++◌, length, length-append, arith,
  leb, ltb→le, leb→le, leb→lt, ◌==◌, if◌then◌else◌, Bool-cases, inl, inr, subst,
}
use pecl_teds.Machine.{u32}
use pecl_teds.Run.{Returns, returns, Returns-bind, Returns-step}
use pecl_teds.Memory.{Block, no_block, malloc, realloc, update}
use pecl_teds.Memory.Laws.{store-ok}
use pecl_teds.Iterable.{values}
use pecl_teds.Compare.{Comparison}
use pecl_teds.Vector.{Entries}
use pecl_teds.Vector.Build.Mapped.{Written, Written-store}
use pecl_teds.StrictSortedVectorSet.Sets.{has, same}
use pecl_teds.StrictSortedVectorSet.History.{Represents}
use pecl_teds.StrictSortedVectorSet.Build.{Qsort, collect, init_from_traversable}
use pecl_teds.StrictSortedVectorSet.Build.Made.{sorted_if_more}

module _ {A : Type 0} (order : Comparison A) where
  -- The loop over the iterator has written `q`.
  record Collecting (q : List A) (b : Block A) (size capacity : ℕ) : Type 0 where
    written : Written q b
    count : size ≡ length q
    alloc : b.alloc ≡ capacity
    most : capacity ≤ 4 + length q * 2

  collect_room :
      (q : List A) (b : Block A) (size capacity : ℕ)
      → Collecting q b size capacity
      → (Collecting q
          (if leb capacity size
            then (if capacity == 0
                then malloc 4
                else realloc b (if capacity == 0 then 4 else capacity * 2))
            else b)
          size
          (if leb capacity size then (if capacity == 0 then 4 else capacity * 2) else capacity))
        × (size
            < (if leb capacity size then (if capacity == 0 then 4 else capacity * 2) else capacity))
  unfolding realloc
  collect_room q b size capacity k = elim (Bool-cases (leb capacity size)) [
    | inl full ↦
        let le = leb→le _ _ full in
        rw full (
          record {
            written = record {
              fits = ground (arith, k.written.fits, k.alloc, k.count, le);
              cells =
                  λ i lt. ground (arith, k.written.cells i lt, k.written.fits, k.alloc, k.count);
            };
            count = k.count;
            alloc = ground arith;
            most = ground (arith, k.count, k.most, le);
          },
          ground (arith, k.count, k.alloc, k.written.fits),
        )
    | inr spare ↦ rw spare (k, leb→lt _ _ spare)
  ]

  Written-store_at :
      (q : List A) (b : Block A) (x : A) (i : ℕ)
      → Written q b
      → i ≡ length q
      → length q < b.alloc
      → Written (q ++ x ∷ []) (record b { cell = update b.cell i x })
  Written-store_at q b x i w same room =
      subst (λ t. Written (q ++ x ∷ []) (record b { cell = update b.cell t x })) (sym same)
        (Written-store q b x w room)

  collect_lem :
      (xs q : List A) (b : Block A) (size capacity : ℕ)
      → Collecting q b size capacity
      → Returns
          (λ (r : Block A × ℕ × ℕ). Collecting (q ++ xs) r.0 r.1 r.2)
          (collect b size capacity xs)
  unfolding collect
  collect_lem [] q b size capacity k = returns (rw append-nil k)
  collect_lem (x ∷ xs) q b size capacity k =
      let (k', more) = collect_room q b size capacity k in
      let next : length (q ++ x ∷ []) ≡ length q + 1 = length-append q (x ∷ []) in
      Returns-step _ (store-ok _ size x (omega (arith, k'.alloc, more))) (
        rw (← append_assoc q (x ∷ []) xs) (
          collect_lem xs (q ++ x ∷ []) _ (size + 1) _ (record {
            written =
                Written-store_at q _ x size k'.written k.count
                  (omega (arith, more, k.count, k'.alloc));
            count = omega (arith, k.count, next);
            alloc = k'.alloc;
            most = omega (arith, k'.most, next);
          })))

  -- With a qsort as the C library documents it, a StrictSortedVectorSet made of an iterator that
  -- gives at most 2 ^ 30 values is ascending and has exactly those values, up to equal ones.
  pub init_from_traversable-Represents :
      (sorting : Qsort order) (set : Entries A) (q : List A)
      → length q ≤ 2 ^ 30
      → Returns
          (λ e. Represents order e (has order q))
          (init_from_traversable order sorting set (values q))
  unfolding init_from_traversable
  init_from_traversable-Represents sorting set q small =
      Returns-bind
        (collect_lem q [] no_block 0 0 (record {
          written = record { fits = omega arith; cells = λ i lt. absurd (omega arith) };
          count = refl;
          alloc = refl;
          most = omega arith;
        }))
        λ (b, size, capacity) k.
          sorted_if_more order sorting
            (record set {
              null = capacity == 0;
              entries = b;
              size = u32 size;
              capacity = u32 capacity;
            })
            q _
            (record {
              count = omega (arith, k.count);
              size_in = omega (arith, k.count, k.most, k.alloc, k.written.fits);
              alloc = omega (arith, k.alloc, k.most);
              cells = k.written.cells;
            })
            (λ few. omega (arith, ltb→le _ _ few, k.count))
