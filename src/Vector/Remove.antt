-- ===== src/Vector/Remove.antt =====
-- teds_vector.c: pop, popFront, offsetUnset, setSize, clear, reserve and shrinkToFit.
pub mod Laws
pub mod Size
use pecl_teds.Base.{ℕ, ◌+◌, ◌-◌, ◌^◌, replicate, ltb, leb, ◌==◌, if◌then◌else◌}
use pecl_teds.Machine.{u32}
use pecl_teds.Run.{Run, ok, throw, fatal, invalid_index, underflow, value_error, ◌>>=◌}
use pecl_teds.Memory.{no_block, realloc, load, memcpy, fill}
use pecl_teds.Deque.Remove.{adjust_iterators_before_remove}
use pecl_teds.Vector.{Entries, set_empty_list, raise_capacity, shrink_if_sparse}

module _ {A : Type 0} where
  -- Vector::pop
  unfoldable pub pop : Entries A → Run (Entries A × A)
  pop array =
      let old_size = array.size in
      if old_size == 0
      then throw underflow
      else (load array.entries (old_size - 1) >>= λ value.
          shrink_if_sparse
            (record array {
              size = old_size - 1;
              iterators = adjust_iterators_before_remove old_size (old_size - 1) array.iterators;
            })
            old_size old_size
          >>= λ shrunk. ok (shrunk, value))

  -- What popFront and offsetUnset have in common: the entry at `offset` is taken out.
  unfoldable pub remove_entry : Entries A → ℕ → Run (Entries A × A)
  remove_entry array offset =
      let old_size = array.size in
      load array.entries offset >>= λ value.
      memcpy array.entries offset array.entries (offset + 1) (old_size - offset - 1) >>= λ moved.
      shrink_if_sparse
        (record array {
          entries = moved;
          size = old_size - 1;
          iterators = adjust_iterators_before_remove old_size offset array.iterators;
        })
        old_size old_size
      >>= λ shrunk. ok (shrunk, value)

  -- Vector::popFront
  unfoldable pub pop_front : Entries A → Run (Entries A × A)
  pop_front array = if array.size == 0 then throw underflow else remove_entry array 0

  -- Vector::offsetUnset, with the value that is destroyed.
  unfoldable pub offset_unset : Entries A → ℕ → Run (Entries A × A)
  offset_unset array offset =
      if leb array.size offset then throw invalid_index else remove_entry array offset

  -- Vector::clear and teds_vector_clear
  unfoldable pub clear : Entries A → Entries A
  clear array = if ltb 0 array.capacity then set_empty_list array else array

  -- Vector::setSize, with the value that the new entries get. Of a shorter vector the guard of the
  -- shrinking reads the new size, while the capacity comes from the old one, and so does the size
  -- that teds_vector_shrink_capacity is given.
  unfoldable pub set_size : ℕ → Entries A → ℕ → A → Run (Entries A)
  set_size max_size array size default_zval =
      let old_size = array.size in
      if leb max_size size
      then (if leb (2 ^ 63) size then throw value_error else fatal)
      else if ltb old_size size
      then ((if ltb array.capacity size then raise_capacity max_size array size else ok array)
          >>= λ raised.
              fill raised.entries old_size (replicate (size - old_size) default_zval) >>= λ entries.
              ok (record raised { entries = entries; size = u32 size }))
      else if old_size - size == 0
      then ok array
      else if size == 0
      then ok (set_empty_list array)
      else shrink_if_sparse (record array { size = size }) old_size size

  -- Vector::shrinkToFit
  unfoldable pub shrink_to_fit : Entries A → Entries A
  shrink_to_fit array = if leb array.capacity array.size then array else record array {
    entries = if array.size == 0 then no_block else realloc array.entries array.size;
    capacity = array.size;
  }

  -- Vector::reserve
  unfoldable pub reserve : ℕ → Entries A → ℕ → Run (Entries A)
  reserve max_size array capacity =
      if leb capacity array.capacity
      then ok array
      else if leb (2 ^ 63) capacity
      then ok array
      else raise_capacity max_size array capacity
