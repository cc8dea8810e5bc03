-- ===== src/StrictSortedVectorMap.antt =====
-- teds_strictsortedvectormap.c: Teds\StrictSortedVectorMap, a map in the form of an array of pairs
-- whose keys ascend. This file has the searches and the methods that read and write one key.
pub mod Search
pub mod Finds
pub mod Drops
pub mod Stored
pub mod Listed
pub mod History
pub mod Ends
pub mod Dimensions
pub mod Build
mod Tests
use pecl_teds.Base.{
  ℕ, zero, suc, ◌+◌, ◌-◌, ◌*◌, ◌/◌, Bool, true, false, not, Option, none, some, ltb, leb, ◌==◌,
  if◌then◌else◌,
}
use pecl_teds.Machine.{u32}
use pecl_teds.Run.{Run, ok, throw, fatal, out_of_fuel, invalid_index, underflow, ◌>>=◌}
use pecl_teds.Memory.{Block, malloc, realloc, load, store, memcpy}
use pecl_teds.Util.{deque_next_pow2_capacity}
use pecl_teds.Compare.{Sign, negative, null, positive, Comparison}
use pecl_teds.Deque.Add.{adjust_iterators_before_insert}
use pecl_teds.Deque.Remove.{adjust_iterators_before_remove}
use pecl_teds.Vector.{Entries}

-- teds_strictsortedvectormap_entry: a key and a value, both of them zvals.
abbrev pub Entry : Type 0 → Type 0
Entry A = A × A

module _ {A : Type 0} where
  -- teds_strictsortedvectormap_entries_raise_capacity. `max_pairs` is TEDS_MAX_ZVAL_PAIR_COUNT.
  unfoldable pub raise_capacity : ℕ → Entries (Entry A) → ℕ → Run (Entries (Entry A))
  raise_capacity max_pairs array new_capacity =
      if leb max_pairs new_capacity
      then fatal
      else ok (record array {
        null = false;
        entries =
            if array.capacity == 0 then malloc new_capacity else realloc array.entries new_capacity;
        capacity = new_capacity;
      })

  -- teds_strictsortedvectormap_entries_insert where the key is not found, at the offset of `entry`.
  -- The memmove reads from a copy of the block.
  unfoldable pub insert_pair_at : ℕ → Entries (Entry A) → A → A → ℕ → Run (Entries (Entry A))
  insert_pair_at max_pairs array key value entry =
      (if leb array.capacity array.size
        then raise_capacity max_pairs array (u32 (deque_next_pow2_capacity (u32 (array.size + 1))))
        else ok array)
      >>= λ raised.
          memcpy raised.entries (entry + 1) raised.entries entry (array.size - entry) >>= λ moved.
          store moved entry (key, value) >>= λ entries. ok (record raised {
            entries = entries;
            size = u32 (array.size + 1);
            iterators = adjust_iterators_before_insert array.size entry 1 array.iterators;
          })

  -- teds_strictsortedvectormap_entries_insert where the key is found: the value alone is replaced.
  unfoldable pub replace_value_at : Entries (Entry A) → A → ℕ → Run (Entries (Entry A))
  replace_value_at array value entry = load array.entries entry >>= λ old.
      store array.entries entry (old.0, value) >>= λ entries.
      ok (record array { entries = entries })

  -- StrictSortedVectorMap::pop, with the pair that it returns.
  unfoldable pub pop : Entries (Entry A) → Run (Entries (Entry A) × Entry A)
  pop array =
      let old_size = array.size in
      if old_size == 0
      then throw underflow
      else (load array.entries (old_size - 1) >>= λ entry. ok (
        record array {
          size = old_size - 1;
          iterators = adjust_iterators_before_remove old_size (old_size - 1) array.iterators;
        },
        entry,
      ))

  -- teds_strictsortedvectormap_remove_entry, and what its callers do before and after it.
  unfoldable pub remove_entry : Entries (Entry A) → ℕ → Run (Entries (Entry A))
  remove_entry array entry =
      memcpy array.entries entry array.entries (entry + 1) (array.size - 1 - entry) >>= λ moved.
      ok (record array {
        entries = moved;
        size = array.size - 1;
        iterators = adjust_iterators_before_remove array.size entry array.iterators;
      })

  -- StrictSortedVectorMap::popFront, with the pair that it returns.
  unfoldable pub pop_front : Entries (Entry A) → Run (Entries (Entry A) × Entry A)
  pop_front array =
      if array.size == 0
      then throw underflow
      else (load array.entries 0 >>= λ entry.
          remove_entry array 0 >>= λ removed. ok (removed, entry))

module _ {A : Type 0} (order : Comparison A) where
  -- The loop of teds_strictsortedvectormap_entries_sorted_search_for_key. The result is the offset
  -- of `entry`, and whether the key is found.
  unfoldable pub search_loop : ℕ → Block (Entry A) → A → ℕ → ℕ → Run (ℕ × Bool)
  search_loop zero entries key start end = out_of_fuel
  search_loop (suc fuel) entries key start end = elim (ltb start end) [
    | false ↦ ok (start, false)
    | true ↦
        let mid = u32 (start + (end - start) / 2) in
        load entries mid >>= λ e. elim (order.stable_compare key e.0) [
          | positive ↦ search_loop fuel entries key (u32 (mid + 1)) end
          | negative ↦ search_loop fuel entries key start mid
          | null ↦ ok (mid, true)
        ]
  ]

  -- teds_strictsortedvectormap_entries_sorted_search_for_key
  unfoldable pub sorted_search : Entries (Entry A) → A → Run (ℕ × Bool)
  sorted_search array key = search_loop (array.size + 1) array.entries key 0 array.size

  -- The loop of teds_strictsortedvectormap_entries_sorted_search_for_key_probably_largest, whose
  -- first `mid` is given. The next one is `start` and half of the way from the last one to `end`.
  unfoldable pub search_from : ℕ → Block (Entry A) → A → ℕ → ℕ → ℕ → Run (ℕ × Bool)
  search_from zero entries key start end mid = out_of_fuel
  search_from (suc fuel) entries key start end mid = load entries mid >>= λ e.
      elim (order.stable_compare key e.0) [
        | positive ↦
            let start' = u32 (mid + 1) in
            elim (leb end start') [
              | true ↦ ok (start', false)
              | false ↦ search_from fuel entries key start' end (u32 (start' + (end - mid) / 2))
            ]
        | negative ↦ elim (leb mid start) [
          | true ↦ ok (start, false)
          | false ↦ search_from fuel entries key start mid (u32 (start + (mid - mid) / 2))
        ]
        | null ↦ ok (mid, true)
      ]

  -- teds_strictsortedvectormap_entries_sorted_search_for_key_probably_largest
  unfoldable pub search_probably_last : Entries (Entry A) → A → Run (ℕ × Bool)
  search_probably_last array key =
      if ltb 0 array.size
      then search_from (array.size * 2 + 2) array.entries key 0 array.size (array.size - 1)
      else ok (0, false)

  module _ (max_pairs : ℕ) where
    -- teds_strictsortedvectormap_entries_insert, and StrictSortedVectorMap::offsetSet, where the
    -- key is not probably the largest. The result says whether the key is new.
    unfoldable pub insert_pair : Entries (Entry A) → A → A → Bool → Run (Entries (Entry A) × Bool)
    insert_pair array key value probably_largest =
        (if probably_largest then search_probably_last array key else sorted_search array key)
        >>= λ (entry, found). elim found [
          | true ↦ replace_value_at array value entry >>= λ replaced. ok (replaced, false)
          | false ↦ insert_pair_at max_pairs array key value entry >>= λ grown. ok (grown, true)
        ]

  -- teds_strictsortedvectormap_entries_remove_key and StrictSortedVectorMap::offsetUnset
  unfoldable pub remove_pair : Entries (Entry A) → A → Run (Entries (Entry A))
  remove_pair array key =
      if array.size == 0
      then ok array
      else (sorted_search array key >>= λ (entry, found). elim found [
        | false ↦ ok array
        | true ↦ load array.entries entry >>= λ old. remove_entry array entry
      ])

  -- StrictSortedVectorMap::get. No default is the missing argument, and offsetGet.
  unfoldable pub get_or : Entries (Entry A) → A → Option A → Run A
  get_or array key default =
      (if ltb 0 array.size then sorted_search array key else ok (0, false)) >>= λ (entry, found).
      elim found [
        | true ↦ load array.entries entry >>= λ e. ok e.1
        | false ↦ elim default [ some default_zv ↦ ok default_zv | none ↦ throw invalid_index ]
      ]

  -- StrictSortedVectorMap::containsKey
  unfoldable pub has_key : Entries (Entry A) → A → Run Bool
  has_key array key =
      if ltb 0 array.size
      then (sorted_search array key >>= λ (entry, found). ok found)
      else ok false

  -- StrictSortedVectorMap::offsetExists. `is_null` is the test of the type IS_NULL.
  unfoldable pub has_value_at : (A → Bool) → Entries (Entry A) → A → Run Bool
  has_value_at is_null array key =
      if ltb 0 array.size
      then (sorted_search array key >>= λ (entry, found). elim found [
        | true ↦ load array.entries entry >>= λ e. ok (not (is_null e.1))
        | false ↦ ok false
      ])
      else ok false
