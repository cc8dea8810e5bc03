-- ===== src/Deque/Remove.antt =====
-- teds_deque.c: pop, popFront, offsetUnset and clear.
pub mod Pull
pub mod Middle
pub mod Ends
use mathlib.Core.List.{map}
use pecl_teds.Base.{
  ℕ, zero, suc, ◌+◌, ◌-◌, ◌/◌, ◌^◌, true, false, List, [], ltb, leb, ◌==◌, if◌then◌else◌, ◌&&◌,
}
use pecl_teds.Machine.{u32, bit_and}
use pecl_teds.Run.{Run, ok, throw, out_of_fuel, invalid_index, underflow, ◌>>=◌}
use pecl_teds.Memory.{Block, no_block, load, copy_cell}
use pecl_teds.Deque.{Deque, get_entry_at_offset}
use pecl_teds.Deque.Storage.{try_shrink_capacity}

-- teds_deque_maybe_adjust_iterators_before_remove, on the iterators of an array of `old_size`
-- entries. The position before the first is 2 ^ 32 - 1, from which moving forward leads to 0.
unfoldable pub adjust_iterators_before_remove : ℕ → ℕ → List ℕ → List ℕ
adjust_iterators_before_remove old_size removed = map λ current.
    if leb removed current && ltb current old_size then u32 (current + 2 ^ 32 - 1) else current

module _ {A : Type 0} where
  -- "Move elements from the end of the deque backwards to replace the removed element".
  unfoldable pub pull_from_end : ℕ → Block A → ℕ → ℕ → ℕ → Run (Block A)
  pull_from_end zero b mask it_offset it_end = out_of_fuel
  pull_from_end (suc fuel) b mask it_offset it_end = elim (it_offset == it_end) [
    | true ↦ ok b
    | false ↦
        let next_offset = bit_and (u32 (it_offset + 1)) mask in
        copy_cell b it_offset next_offset >>= λ c. pull_from_end fuel c mask next_offset it_end
  ]

  -- "Move elements from the front of the Deque forwards to replace the removed element".
  unfoldable pub pull_from_front : ℕ → Block A → ℕ → ℕ → ℕ → Run (Block A)
  pull_from_front zero b mask it_offset it_end = out_of_fuel
  pull_from_front (suc fuel) b mask it_offset it_end = elim (it_offset == it_end) [
    | true ↦ ok b
    | false ↦
        let next_offset = bit_and (u32 (it_offset + 2 ^ 32 - 1)) mask in
        copy_cell b it_offset next_offset >>= λ c. pull_from_front fuel c mask next_offset it_end
  ]

  -- The removed entry overwritten: the buffer, and the offset of the front.
  unfoldable pub close_gap : Deque A → ℕ → Run (Block A × ℕ)
  close_gap d removed =
      let it_offset = bit_and (u32 (d.offset + removed)) d.mask in
      if leb (d.size / 2) removed
      then (pull_from_end (d.size + 1) d.buffer d.mask it_offset
            (bit_and (u32 (d.offset + d.size + 2 ^ 32 - 1)) d.mask)
          >>= λ b. ok (b, d.offset))
      else (pull_from_front (d.size + 1) d.buffer d.mask it_offset (bit_and d.offset d.mask)
          >>= λ b. ok (b, bit_and (u32 (d.offset + 1)) d.mask))

  -- teds_deque_entries_remove_offset
  unfoldable pub remove_offset : Deque A → ℕ → Run (Deque A)
  remove_offset d removed =
      load d.buffer (bit_and (u32 (d.offset + removed)) d.mask) >>= λ removed_val.
      close_gap d removed >>= λ (b, offset).
      try_shrink_capacity
        (record d {
          buffer = b;
          offset = offset;
          size = d.size - 1;
          iterators = adjust_iterators_before_remove d.size removed d.iterators;
        })
        (d.size - 1)

  -- Deque::offsetUnset. The offset is the 64-bit pattern of a zend_long.
  unfoldable pub offset_unset : Deque A → ℕ → Run (Deque A)
  offset_unset d offset = if leb d.size offset then throw invalid_index else remove_offset d offset

  -- Deque::pop
  unfoldable pub pop : Deque A → Run (A × Deque A)
  pop d =
      if d.size == 0
      then throw underflow
      else (get_entry_at_offset d (d.size - 1) >>= λ val.
          try_shrink_capacity
            (record d {
              size = d.size - 1;
              iterators = adjust_iterators_before_remove d.size (d.size - 1) d.iterators;
            })
            d.size
          >>= λ e. ok (val, e))

  -- Deque::popFront
  unfoldable pub pop_front : Deque A → Run (A × Deque A)
  pop_front d =
      if d.size == 0
      then throw underflow
      else (load d.buffer d.offset >>= λ val.
          try_shrink_capacity
            (record d {
              size = d.size - 1;
              offset = bit_and (u32 (d.offset + 1)) d.mask;
              iterators = adjust_iterators_before_remove d.size 0 d.iterators;
            })
            d.size
          >>= λ e. ok (val, e))

  -- Deque::clear. The memset also forgets the iterators.
  unfoldable pub clear : Deque A → Deque A
  clear d = if d.mask == 0 then d else (record {
    null = true;
    buffer = no_block;
    size = 0;
    mask = 0;
    offset = 0;
    iterators = [];
  })
