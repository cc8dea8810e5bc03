-- ===== src/Vector/Store.antt =====
-- teds_vector.c: set, push, pushFront, insert and the writes through `[]`.
pub mod Laws
pub mod Single
use pecl_teds.Base.{
  ℕ, ◌+◌, ◌-◌, ◌*◌, ◌^◌, List, [], ◌∷◌, length, ltb, leb, if◌then◌else◌, ◌||◌, Option, none, some,
}
use pecl_teds.Machine.{u32}
use pecl_teds.Run.{Run, ok, throw, invalid_index, ◌>>=◌}
use pecl_teds.Memory.{Block, load, store, memcpy, fill}
use pecl_teds.Deque.Add.{adjust_iterators_before_insert}
use pecl_teds.Vector.{Entries, raise_capacity}

module _ {A : Type 0} where
  -- teds_vector_set_value_at_offset. The offset is the 64-bit pattern of a zend_long, here and below.
  unfoldable pub set_value_at_offset : Entries A → ℕ → A → Run (Entries A)
  set_value_at_offset array offset value =
      if leb array.size offset
      then throw invalid_index
      else (load array.entries offset >>= λ tmp.
          store array.entries offset value >>= λ entries. ok (record array { entries = entries }))

  -- The loop of pushFront, which stores its arguments downwards: the next one goes before `end`.
  unfoldable pub fill_down : Block A → ℕ → List A → Run (Block A)
  fill_down entries end [] = ok entries
  fill_down entries end (x ∷ args) =
      store entries (end - 1) x >>= λ filled. fill_down filled (end - 1) args

  module _ (max_size : ℕ) where
    -- teds_vector_entries_push
    unfoldable pub push_entry : Entries A → A → Run (Entries A)
    push_entry array value =
        let old_size = array.size in
        (if leb array.capacity old_size
          then raise_capacity max_size array (if ltb 2 old_size then u32 (old_size * 2) else 4)
          else ok array)
        >>= λ raised. store raised.entries old_size value >>= λ entries.
            ok (record raised { entries = entries; size = u32 (old_size + 1) })

    -- The room that push, pushFront and insert make.
    unfoldable pub make_room : Entries A → ℕ → Run (Entries A)
    make_room array new_size =
        if ltb array.capacity new_size
        then raise_capacity max_size array (if leb 3 new_size then (new_size - 1) * 2 else 4)
        else ok array

    -- Vector::push
    unfoldable pub push : Entries A → List A → Run (Entries A)
    push array [] = ok array
    push array (x ∷ args) =
        let new_size = array.size + length (x ∷ args) in
        make_room array new_size >>= λ raised.
        fill raised.entries array.size (x ∷ args) >>= λ entries.
        ok (record raised { entries = entries; size = u32 new_size })

    -- Vector::pushFront. The memmove reads from a copy of the block.
    unfoldable pub push_front : Entries A → List A → Run (Entries A)
    push_front array [] = ok array
    push_front array (x ∷ args) =
        let argc = length (x ∷ args) in
        let new_size = array.size + argc in
        make_room array new_size >>= λ raised.
        memcpy raised.entries argc raised.entries 0 array.size >>= λ moved.
        fill_down moved argc (x ∷ args) >>= λ entries. ok (record raised {
          entries = entries;
          size = u32 new_size;
          iterators = adjust_iterators_before_insert array.size 0 argc array.iterators;
        })

    -- Vector::insert
    unfoldable pub insert : Entries A → ℕ → List A → Run (Entries A)
    insert array inserted_offset [] =
        if ltb array.size inserted_offset then throw invalid_index else ok array
    insert array inserted_offset (x ∷ args) =
        let argc = length (x ∷ args) in
        let new_size = array.size + argc in
        let at = inserted_offset in
        if ltb array.size inserted_offset
        then throw invalid_index
        else (make_room array new_size >>= λ raised.
            memcpy raised.entries (at + argc) raised.entries at (array.size - at) >>= λ moved.
            fill moved at (x ∷ args) >>= λ entries. ok (record raised {
              entries = entries;
              size = u32 new_size;
              iterators = adjust_iterators_before_insert array.size at argc array.iterators;
            }))

    -- teds_vector_write_dimension, after the conversion of the offset to a zend_long. No offset is
    -- `$vector[] = $value`.
    unfoldable pub write_dimension : Entries A → Option ℕ → A → Run (Entries A)
    write_dimension array none value = push_entry array value
    write_dimension array (some offset) value =
        if leb (2 ^ 63) offset || leb array.size offset
        then throw invalid_index
        else set_value_at_offset array offset value
