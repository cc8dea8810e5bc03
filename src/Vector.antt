-- ===== src/Vector.antt =====
-- teds_vector.c: the storage of Teds\Vector, which the heaps of teds_strictheap.c use as well. This
-- file has its state and how the storage grows and shrinks; the children have the operations.
pub mod Store
pub mod Remove
pub mod Keys
pub mod History
pub mod Build
mod Tests
use pecl_teds.Base.{
  ℕ, ◌-◌, ◌*◌, ◌/◌, ◌<◌, ◌≤◌, ◌≡◌, Bool, false, List, [], length, get_elem?, ltb, leb, ◌==◌, ◌&&◌,
  if◌then◌else◌,
}
use pecl_teds.Machine.{u32}
use pecl_teds.Run.{Run, ok, fatal, asserted}
use pecl_teds.Memory.{Block, malloc, realloc, realloc2, no_block}

-- teds_vector_entries. `null` says that `entries` is NULL, and `iterators` holds the field `current`
-- of each iterator on the list `active_iterators`, the first one first.
pub record Entries (A : Type 0) : Type 0 where
  pub null : Bool
  pub entries : Block A
  pub size : ℕ
  pub capacity : ℕ
  pub iterators : List ℕ

module _ {A : Type 0} where
  -- What teds_vector_entries_set_empty_list leaves of a new object.
  abbrev pub empty_list : Entries A
  empty_list = record { null = false; entries = no_block; size = 0; capacity = 0; iterators = [] }

  -- teds_vector_entries_set_empty_list
  abbrev pub set_empty_list : Entries A → Entries A
  set_empty_list array = record array { null = false; entries = no_block; size = 0; capacity = 0 }

  -- teds_vector_entries_raise_capacity. `max_size` is TEDS_MAX_ZVAL_COLLECTION_SIZE.
  unfoldable pub raise_capacity : ℕ → Entries A → ℕ → Run (Entries A)
  raise_capacity max_size array new_capacity =
      if ltb max_size new_capacity
      then fatal
      else ok (record array {
        null = false;
        entries =
            if array.capacity == 0 then malloc new_capacity else realloc array.entries new_capacity;
        capacity = new_capacity;
      })

  -- teds_vector_shrink_capacity, with its assertions on numbers: `size` says how many zvals are kept.
  unfoldable pub shrink_capacity : Entries A → ℕ → ℕ → Run (Entries A)
  shrink_capacity array size capacity =
      if leb size capacity
        && (size == array.size && (ltb 0 capacity && ltb capacity array.capacity))
      then ok (record array { capacity = capacity; entries = realloc2 array.entries capacity size })
      else asserted

  -- What pop, popFront, offsetUnset and setSize end with, once a value is gone. `old_size` is the
  -- size before, and `tested` the size that the guard reads.
  unfoldable pub shrink_if_sparse : Entries A → ℕ → ℕ → Run (Entries A)
  shrink_if_sparse array old_size tested =
      let size = old_size - 1 in
      let capacity = if ltb 2 size then u32 (size * 2) else 4 in
      if ltb tested (array.capacity / 4) && ltb capacity array.capacity
      then shrink_capacity array size capacity
      else ok array

  -- The entries are the values of the list, in a block of `capacity` zvals.
  pub record Holds (array : Entries A) (q : List A) : Type 0 where
    pub count : array.size ≡ length q
    pub size_in : array.size ≤ array.capacity
    pub alloc : array.entries.alloc ≡ array.capacity
    pub cells : (i : ℕ) → i < length q → array.entries.cell i ≡ get_elem? q i
