-- ===== src/Vector/Keys.antt =====
-- teds_vector.c: what reads a vector without changing it: get, first, last, the reads through `[]`,
-- indexOf, contains, toArray and the iterator.
pub mod Laws
use pecl_teds.Base.{
  ℕ, zero, suc, ◌+◌, ◌-◌, ◌^◌, Bool, true, false, not, List, [], ◌∷◌, Option, none, some, ltb, leb,
  ◌==◌, ◌||◌, if◌then◌else◌,
}
use pecl_teds.Run.{Run, ok, throw, invalid_index, underflow, ◌>>=◌}
use pecl_teds.Memory.{Block, load}
use pecl_teds.Util.Range.{read_values, range_indexof, range_contains}
use pecl_teds.Vector.{Entries}

module _ {A : Type 0} where
  -- teds_vector_get_value_at_offset, for Vector::get and Vector::offsetGet, and
  -- teds_vector_read_offset_helper, for the value of an iterator. The offset is the 64-bit pattern
  -- of a zend_long, here and below.
  unfoldable pub get_value_at_offset : Entries A → ℕ → Run A
  get_value_at_offset array offset =
      if leb array.size offset then throw invalid_index else load array.entries offset

  -- Vector::first
  unfoldable pub first : Entries A → Run A
  first array = if array.size == 0 then throw underflow else load array.entries 0

  -- Vector::last
  unfoldable pub last : Entries A → Run A
  last array = if array.size == 0 then throw underflow else load array.entries (array.size - 1)

  -- Vector::containsKey, for a number.
  unfoldable pub contains_key : Entries A → ℕ → Bool
  contains_key array offset = ltb offset array.size

  -- Vector::offsetExists, with the test for IS_NULL.
  unfoldable pub offset_exists : (A → Bool) → Entries A → ℕ → Run Bool
  offset_exists is_null array offset =
      if leb array.size offset
      then ok false
      else (load array.entries offset >>= λ tmp. ok (not (is_null tmp)))

  -- teds_vector_read_dimension, with whether the type is BP_VAR_IS. No offset is `$vector[]`, and no
  -- result is the uninitialized zval.
  unfoldable pub read_dimension : Entries A → Option ℕ → Bool → Run (Option A)
  read_dimension array none bp_var_is = if bp_var_is then ok none else throw invalid_index
  read_dimension array (some offset) bp_var_is =
      if leb array.size offset || leb (2 ^ 63) offset
      then (if bp_var_is then ok none else throw invalid_index)
      else (load array.entries offset >>= λ a. ok (some a))

  -- Vector::toArray, which is also __serialize and jsonSerialize
  unfoldable pub to_array : Entries A → Run (List A)
  to_array array = if array.size == 0 then ok [] else read_values array.entries 0 array.size

  module _ (identical : A → A → Bool) (value : A) where
    -- Vector::indexOf
    unfoldable pub index_of : Entries A → Run (Option ℕ)
    index_of array = range_indexof identical value array.entries 0 array.size

    -- Vector::contains
    unfoldable pub contains : Entries A → Run Bool
    contains array = range_contains identical value array.entries 0 array.size
