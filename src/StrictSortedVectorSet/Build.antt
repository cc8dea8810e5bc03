-- ===== src/StrictSortedVectorSet/Build.antt =====
-- teds_strictsortedvectorset.c: how a set is made: __construct, __unserialize, __set_state and clone.
pub mod Distinct
pub mod Sort
pub mod Deduplicate
pub mod SortedOut
pub mod Made
pub mod Gathered
pub mod Restored
pub mod InsertionSort
use pecl_teds.Base.{
  ℕ, zero, suc, ◌+◌, ◌-◌, ◌*◌, ◌<◌, ◌≡◌, Bool, true, false, List, [], ◌∷◌, Option, none, some,
  length, get_elem?, tally, leb, ltb, ◌==◌, if◌then◌else◌,
}
use pecl_teds.Machine.{u32}
use pecl_teds.Run.{Run, ok, throw, runtime, unexpected_value, ◌>>=◌}
use pecl_teds.Memory.{Block, no_block, malloc, realloc, load, store, copy_cell, fill}
use pecl_teds.Util.{deque_next_pow2_capacity}
use pecl_teds.Util.Range.{read_values}
use pecl_teds.Iterable.{Traversal, failed, values, Iterable, array, object}
use pecl_teds.Compare.{negative, null, positive, Comparison}
use pecl_teds.Vector.{Entries, empty_list, set_empty_list}
use pecl_teds.Vector.Build.{fresh, copy_range}
use pecl_teds.StrictSortedVectorSet.{insert}

-- What the C library documents of qsort: the same values, in an order in which none stands behind a
-- greater one.
pub record Qsort {A : Type 0} (order : Comparison A) : Type 0 where
  pub qsort : List A → List A
  pub same_values : (p : A → Bool) (q : List A) → tally p (qsort q) ≡ tally p q
  pub in_order :
      (q : List A) (i j : ℕ) (a b : A)
      → i < j
      → get_elem? (qsort q) i ≡ some a
      → get_elem? (qsort q) j ≡ some b
      → ¬ (order.stable_compare a b ≡ positive)

module _ {A : Type 0} where
  -- The loop of teds_strictsortedvectorset_entries_init_from_traversable: `entries`, `size` and
  -- `capacity`, which are zend_longs. `entries` is NULL while the capacity is 0.
  unfoldable pub collect : Block A → ℕ → ℕ → List A → Run (Block A × ℕ × ℕ)
  collect entries size capacity [] = ok (entries, size, capacity)
  collect entries size capacity (x ∷ xs) =
      let raised = if capacity == 0 then 4 else capacity * 2 in
      let full = leb capacity size in
      let capacity' = if full then raised else capacity in
      let room =
        if full then (if capacity == 0 then malloc 4 else realloc entries raised) else entries in
      store room size x >>= λ stored. collect stored (size + 1) capacity' xs

module _ {A : Type 0} (order : Comparison A) where
  -- The loop of teds_strictsortedvectorset_entries_is_sorted, with `n` rounds left.
  unfoldable pub is_sorted_loop : Block A → ℕ → ℕ → Run Bool
  is_sorted_loop entries i zero = ok true
  is_sorted_loop entries i (suc n) = load entries (i - 1) >>= λ before. load entries i >>= λ here.
      elim (order.stable_compare before here) [
        | negative ↦ is_sorted_loop entries (i + 1) n
        | null ↦ ok false
        | positive ↦ ok false
      ]

  -- The inner loop of teds_strictsortedvectorset_entries_sort_and_deduplicate, with `n` rounds left:
  -- the entries, and `new_size`.
  unfoldable pub compact_loop : Block A → ℕ → ℕ → ℕ → Run (Block A × ℕ)
  compact_loop entries new_size i zero = ok (entries, new_size)
  compact_loop entries new_size i (suc n) = load entries (new_size - 1) >>= λ last.
      load entries i >>= λ here. elim (order.stable_compare last here) [
        | negative ↦
            copy_cell entries new_size i >>= λ copied. compact_loop copied (new_size + 1) (i + 1) n
        | null ↦ compact_loop entries new_size (i + 1) n
        | positive ↦ compact_loop entries new_size (i + 1) n
      ]

  -- The outer loop: it goes on up to the first duplicate, and is left with none.
  unfoldable pub deduplicate_loop : Block A → ℕ → ℕ → Run (Option (Block A × ℕ))
  deduplicate_loop entries i zero = ok none
  deduplicate_loop entries i (suc n) = load entries (i - 1) >>= λ before. load entries i >>= λ here.
      let compacted = compact_loop entries i (i + 1) n >>= λ r. ok (some r) in
      elim (order.stable_compare before here) [
        | negative ↦ deduplicate_loop entries (i + 1) n
        | null ↦ compacted
        | positive ↦ compacted
      ]

  module _ (sorting : Qsort order) where
    -- teds_strictsortedvectorset_entries_sort_and_deduplicate
    unfoldable pub sort_and_deduplicate : Entries A → Run (Entries A)
    sort_and_deduplicate set =
        let size = set.size in
        if ltb size 2
        then ok set
        else (is_sorted_loop set.entries 1 (size - 1) >>= λ is_sorted.
            if is_sorted
            then ok set
            else (read_values set.entries 0 size >>= λ unsorted.
                fill set.entries 0 (sorting.qsort unsorted) >>= λ sorted.
                deduplicate_loop sorted 1 (size - 1) >>= λ r. elim r [
                  | none ↦ ok (record set { entries = sorted })
                  | some (entries, new_size) ↦ ok (record set {
                    entries = realloc entries new_size;
                    size = new_size;
                    capacity = new_size;
                  })
                ]))

    -- teds_strictsortedvectorset_entries_init_from_array
    unfoldable pub init_from_array : Entries A → List A → Run (Entries A)
    init_from_array set [] = ok (set_empty_list set)
    init_from_array set (x ∷ xs) =
        let size = u32 (length (x ∷ xs)) in
        fill (malloc size) 0 (x ∷ xs) >>= λ entries.
        let filled = record set { null = false; entries = entries; size = size; capacity = size } in
        if ltb 1 size then sort_and_deduplicate filled else ok filled

  module _ (sorting : Qsort order) where
    -- teds_strictsortedvectorset_entries_init_from_traversable
    unfoldable pub init_from_traversable : Entries A → Traversal A → Run (Entries A)
    init_from_traversable set failed =
        ok (record set { null = true; entries = no_block; size = 0; capacity = 0 })
    init_from_traversable set (values xs) = collect no_block 0 0 xs >>= λ (entries, size, capacity).
        let filled = record set {
          null = capacity == 0;
          entries = entries;
          size = u32 size;
          capacity = u32 capacity;
        } in
        if ltb 1 size then sort_and_deduplicate sorting filled else ok filled

    -- StrictSortedVectorSet::__construct
    unfoldable pub construct : Entries A → Option (Iterable A) → Run (Entries A)
    construct set iterable =
        if set.null
        then (elim iterable [
          | none ↦ ok (set_empty_list set)
          | some (array xs) ↦ init_from_array sorting set xs
          | some (object t) ↦ init_from_traversable set t
        ])
        else throw runtime

    -- StrictSortedVectorSet::__set_state
    unfoldable pub set_state : List A → Run (Entries A)
    set_state array_ht = init_from_array sorting fresh array_ht

  module _ (max_size : ℕ) where
    -- The loop of __unserialize over the entries, each with whether its key is a string.
    unfoldable pub unserialize_loop : Entries A → List (Bool × A) → Run (Entries A)
    unserialize_loop set [] = ok set
    unserialize_loop set ((str, val) ∷ raw_data) =
        let rest = insert order max_size set val true >>= λ (grown, added).
        unserialize_loop grown raw_data in
        if str then throw unexpected_value else rest

    -- StrictSortedVectorSet::__unserialize
    unfoldable pub unserialize : Entries A → List (Bool × A) → Run (Entries A)
    unserialize set raw_data =
        if set.null
        then (elim raw_data [
          | [] ↦ ok (set_empty_list set)
          | e ∷ es ↦
              let capacity = deque_next_pow2_capacity (u32 (length (e ∷ es))) in
              unserialize_loop
                (record set {
                  null = false;
                  entries = malloc capacity;
                  size = 0;
                  capacity = u32 capacity;
                })
                (e ∷ es)
        ])
        else throw runtime

  -- teds_strictsortedvectorset_entries_copy_ctor, into a new object, with
  -- teds_strictsortedvectorset_copy_range, which has the body of teds_vector_copy_range.
  unfoldable pub copy_ctor : Entries A → Run (Entries A)
  copy_ctor from =
      if from.size == 0
      then ok empty_list
      else (copy_range (malloc from.capacity) 0 from.entries 0 from.size >>= λ entries.
          ok (record fresh {
            null = false;
            entries = entries;
            size = from.size;
            capacity = from.capacity;
          }))
