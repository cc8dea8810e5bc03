-- ===== src/StrictSortedVectorSet.antt =====
-- teds_strictsortedvectorset.c: Teds\StrictSortedVectorSet, a set in the form of an ascending array
-- over the storage of teds_vector.c. This file has the searches, add, remove and contains.
pub mod Sorted
pub mod Search
pub mod Sets
pub mod Change
pub mod Stored
pub mod Listed
pub mod History
pub mod Build
mod Tests
use pecl_teds.Base.{ℕ, zero, suc, ◌+◌, ◌-◌, ◌/◌, Bool, true, false, ltb, leb, ◌==◌, if◌then◌else◌}
use pecl_teds.Machine.{u32}
use pecl_teds.Run.{Run, ok, out_of_fuel, ◌>>=◌}
use pecl_teds.Memory.{Block, load, store, memcpy, copy_cell}
use pecl_teds.Util.{deque_next_pow2_capacity}
use pecl_teds.Compare.{Sign, negative, null, positive, Comparison}
use pecl_teds.Deque.Add.{adjust_iterators_before_insert}
use pecl_teds.Deque.Remove.{adjust_iterators_before_remove}
use pecl_teds.Vector.{Entries, raise_capacity}

module _ {A : Type 0} where
  -- The loop of teds_strictsortedvectorset_entries_insert that moves the entries up, from the zval
  -- at `it` down to the one behind `entry`, `n` in number.
  unfoldable pub move_up : Block A → ℕ → ℕ → Run (Block A)
  move_up entries it zero = ok entries
  move_up entries it (suc n) = copy_cell entries it (it - 1) >>= λ moved. move_up moved (it - 1) n

  -- teds_strictsortedvectorset_entries_insert behind its search, at the offset of `entry`.
  unfoldable pub insert_key_at : ℕ → Entries A → A → ℕ → Run (Entries A)
  insert_key_at max_size array key entry =
      (if leb array.capacity array.size
        then raise_capacity max_size array (u32 (deque_next_pow2_capacity (u32 (array.size + 1))))
        else ok array)
      >>= λ raised. move_up raised.entries array.size (array.size - entry) >>= λ moved.
          store moved entry key >>= λ entries. ok (record raised {
            entries = entries;
            size = u32 (array.size + 1);
            iterators = adjust_iterators_before_insert array.size entry 1 array.iterators;
          })

module _ {A : Type 0} (order : Comparison A) where
  -- The loop of teds_strictsortedvectorset_entries_sorted_search_for_key. The result is the offset
  -- of `entry`, and whether the key is found.
  unfoldable pub search_loop : ℕ → Block A → A → ℕ → ℕ → Run (ℕ × Bool)
  search_loop zero entries key start end = out_of_fuel
  search_loop (suc fuel) entries key start end = elim (ltb start end) [
    | false ↦ ok (start, false)
    | true ↦
        let mid = u32 (start + (end - start) / 2) in
        load entries mid >>= λ e. elim (order.stable_compare key e) [
          | positive ↦ search_loop fuel entries key (u32 (mid + 1)) end
          | negative ↦ search_loop fuel entries key start mid
          | null ↦ ok (mid, true)
        ]
  ]

  -- teds_strictsortedvectorset_entries_sorted_search_for_key
  unfoldable pub sorted_search_for_key : Entries A → A → Run (ℕ × Bool)
  sorted_search_for_key array key = search_loop (array.size + 1) array.entries key 0 array.size

  -- The loop of teds_strictsortedvectorset_entries_sorted_search_for_key_probably_largest, whose
  -- first `mid` is given.
  unfoldable pub search_from : ℕ → Block A → A → ℕ → ℕ → ℕ → Run (ℕ × Bool)
  search_from zero entries key start end mid = out_of_fuel
  search_from (suc fuel) entries key start end mid = load entries mid >>= λ e.
      elim (order.stable_compare key e) [
        | positive ↦
            let start' = u32 (mid + 1) in
            elim (leb end start') [
              | true ↦ ok (start', false)
              | false ↦ search_from fuel entries key start' end (u32 (start' + (end - start') / 2))
            ]
        | negative ↦ elim (leb mid start) [
          | true ↦ ok (start, false)
          | false ↦ search_from fuel entries key start mid (u32 (start + (mid - start) / 2))
        ]
        | null ↦ ok (mid, true)
      ]

  -- teds_strictsortedvectorset_entries_sorted_search_for_key_probably_largest
  unfoldable pub search_probably_largest : Entries A → A → Run (ℕ × Bool)
  search_probably_largest array key =
      if ltb 0 array.size
      then search_from (array.size + 1) array.entries key 0 array.size (array.size - 1)
      else ok (0, false)

  module _ (max_size : ℕ) where
    -- teds_strictsortedvectorset_entries_insert, and StrictSortedVectorSet::add, where the key is
    -- not probably the largest.
    unfoldable pub insert : Entries A → A → Bool → Run (Entries A × Bool)
    insert array key probably_largest =
        (if probably_largest
          then search_probably_largest array key
          else sorted_search_for_key array key)
        >>= λ (entry, found). elim found [
          | true ↦ ok (array, false)
          | false ↦ insert_key_at max_size array key entry >>= λ grown. ok (grown, true)
        ]

  -- teds_strictsortedvectorset_entries_remove_key and StrictSortedVectorSet::remove
  unfoldable pub remove_key : Entries A → A → Run (Entries A × Bool)
  remove_key array key =
      if array.size == 0
      then ok (array, false)
      else (sorted_search_for_key array key >>= λ (entry, found). elim found [
        | false ↦ ok (array, false)
        | true ↦ load array.entries entry >>= λ old_key.
            memcpy array.entries entry array.entries (entry + 1) (array.size - 1 - entry)
            >>= λ moved. ok (
              record array {
                entries = moved;
                size = array.size - 1;
                iterators = adjust_iterators_before_remove array.size entry array.iterators;
              },
              true,
            )
      ])

  -- StrictSortedVectorSet::contains
  unfoldable pub contains : Entries A → A → Run Bool
  contains array key = sorted_search_for_key array key >>= λ (entry, found). ok found
