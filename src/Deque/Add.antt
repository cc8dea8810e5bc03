-- ===== src/Deque/Add.antt =====
-- teds_deque.c: push, pushFront, insert, set and the writes through `[]`.
pub mod Room
pub mod Push
pub mod Front
pub mod Single
use pecl_teds.Base.{
  ℕ, zero, suc, ◌+◌, ◌-◌, ◌*◌, ◌/◌, ◌^◌, Bool, true, false, List, [], ◌∷◌, length, ltb, leb, ◌==◌,
  if◌then◌else◌, ◌&&◌, ◌||◌, Option, none, some,
}
use mathlib.Core.List.{map}
use pecl_teds.Machine.{u32, bit_and}
use pecl_teds.Run.{Run, ok, throw, fault, out_of_fuel, invalid_index, runtime, ◌>>=◌}
use pecl_teds.Memory.{Block, load, store, copy_cell}
use pecl_teds.Util.{deque_min_capacity, deque_next_pow2_capacity}
use pecl_teds.Deque.{Deque, get_capacity, entry_index}
use pecl_teds.Deque.Storage.{raise_capacity}

-- teds_deque_maybe_adjust_iterators_before_insert, on the iterators of an array of `old_size`
-- entries.
unfoldable pub adjust_iterators_before_insert : ℕ → ℕ → ℕ → List ℕ → List ℕ
adjust_iterators_before_insert old_size inserted n =
    map
      λ current. if leb inserted current && ltb current old_size then u32 (current + n) else current

module _ {A : Type 0} where
  -- The loop of Deque::push over its arguments. It ends by the count `new_size`.
  unfoldable pub push_loop : Block A → ℕ → ℕ → ℕ → ℕ → List A → Run (Block A)
  push_loop b mask offset i new_size [] = fault
  push_loop b mask offset i new_size (x ∷ args) =
      store b (bit_and (u32 (offset + i)) mask) x >>= λ c. elim (leb new_size (i + 1)) [
        | true ↦ ok c
        | false ↦ push_loop c mask offset (i + 1) new_size args
      ]

  -- The loop of Deque::pushFront. It also returns the new offset.
  unfoldable pub push_front_loop : Block A → ℕ → ℕ → List A → Run (Block A × ℕ)
  push_front_loop b mask offset [] = ok (b, offset)
  push_front_loop b mask offset (x ∷ args) =
      let offset' = bit_and (u32 (offset + 2 ^ 32 - 1)) mask in
      store b offset' x >>= λ c. push_front_loop c mask offset' args

  -- teds_deque_entries_set_value_at_offset
  unfoldable pub set_value_at_offset : Deque A → ℕ → A → Run (Deque A)
  set_value_at_offset d offset value =
      if leb d.size offset
      then throw invalid_index
      else (load d.buffer (entry_index d offset) >>= λ old.
          store d.buffer (entry_index d offset) value >>= λ b. ok (record d { buffer = b }))

  module _ (max_size : ℕ) where
    -- What push, pushFront and insert do first.
    unfoldable pub make_room : Deque A → ℕ → Run (Deque A)
    make_room d new_size =
        if ltb (get_capacity d) new_size
        then raise_capacity max_size d (deque_next_pow2_capacity new_size)
        else ok d

    -- Deque::push
    unfoldable pub push : Deque A → List A → Run (Deque A)
    push d [] = ok d
    push d (x ∷ args) =
        let new_size = u32 (d.size + length (x ∷ args)) in
        make_room d new_size >>= λ e.
        push_loop e.buffer e.mask e.offset d.size new_size (x ∷ args) >>= λ b.
        ok (record e { buffer = b; size = new_size })

    -- Deque::pushFront
    unfoldable pub push_front : Deque A → List A → Run (Deque A)
    push_front d [] = ok d
    push_front d (x ∷ args) =
        let new_size = u32 (d.size + length (x ∷ args)) in
        let adjusted = record d {
          iterators = adjust_iterators_before_insert d.size 0 (length (x ∷ args)) d.iterators;
        } in
        make_room adjusted new_size >>= λ e.
        push_front_loop e.buffer e.mask e.offset (x ∷ args) >>= λ (b, offset).
        ok (record e { buffer = b; offset = offset; size = new_size })

    -- teds_deque_entries_push_back
    unfoldable pub push_back : Deque A → A → Run (Deque A)
    push_back d x =
        let old_capacity = get_capacity d in
        (if leb old_capacity d.size
          then raise_capacity max_size d
              (if old_capacity == 0 then deque_min_capacity else old_capacity * 2)
          else ok d)
        >>= λ e. store e.buffer (bit_and (u32 (e.offset + d.size)) e.mask) x >>= λ b.
            ok (record e { buffer = b; size = u32 (d.size + 1) })

    -- teds_deque_write_dimension, after the conversion of the offset to a zend_long. No offset is
    -- `$deque[] = $value`.
    unfoldable pub write_dimension : Deque A → Option ℕ → A → Run (Deque A)
    write_dimension d none value = push_back d value
    write_dimension d (some offset) value =
        if leb d.size offset || leb (2 ^ 63) offset
        then throw runtime
        else set_value_at_offset d offset value
