-- ===== src/Deque/Insert.antt =====
-- teds_deque.c: Deque::insert, which moves the shorter side of the buffer to open a gap.
pub mod Gap
pub mod Open
pub mod Laws
use pecl_teds.Base.{
  ℕ, zero, suc, ◌+◌, ◌-◌, ◌/◌, ◌^◌, true, false, List, [], ◌∷◌, length, ltb, leb, ◌==◌,
  if◌then◌else◌,
}
use pecl_teds.Machine.{u32, bit_and}
use pecl_teds.Run.{Run, ok, throw, fault, out_of_fuel, invalid_index, ◌>>=◌}
use pecl_teds.Memory.{Block, store, copy_cell}
use pecl_teds.Deque.{Deque}
use pecl_teds.Deque.Add.{make_room, adjust_iterators_before_insert}

module _ {A : Type 0} where
  -- "Start copying from the end of the deque forward to create a gap".
  unfoldable pub move_to_end : ℕ → Block A → ℕ → ℕ → ℕ → ℕ → Run (Block A)
  move_to_end zero b mask src_offset dst_offset src_end = out_of_fuel
  move_to_end (suc fuel) b mask src_offset dst_offset src_end = elim (src_offset == src_end) [
    | true ↦ ok b
    | false ↦
        let src' = bit_and (u32 (src_offset + 2 ^ 32 - 1)) mask in
        let dst' = bit_and (u32 (dst_offset + 2 ^ 32 - 1)) mask in
        copy_cell b dst' src' >>= λ c. move_to_end fuel c mask src' dst' src_end
  ]

  -- "Start copying from the start of the deque backward to create a gap".
  unfoldable pub move_to_front : ℕ → Block A → ℕ → ℕ → ℕ → ℕ → Run (Block A)
  move_to_front zero b mask src_offset dst_offset src_end = out_of_fuel
  move_to_front (suc fuel) b mask src_offset dst_offset src_end = elim (src_offset == src_end) [
    | true ↦ ok b
    | false ↦ copy_cell b dst_offset src_offset >>= λ c.
        move_to_front fuel c mask (bit_and (u32 (src_offset + 1)) mask)
          (bit_and (u32 (dst_offset + 1)) mask) src_end
  ]

  -- "Insert 'argc' elements in the gap that was created".
  unfoldable pub fill_gap : Block A → ℕ → ℕ → List A → Run (Block A)
  fill_gap b mask dst_offset [] = ok b
  fill_gap b mask dst_offset (x ∷ args) =
      store b dst_offset x >>= λ c. fill_gap c mask (bit_and (u32 (dst_offset + 1)) mask) args

  -- The gap for `argc` values at `inserted`: the buffer, and the offset of the front.
  unfoldable pub open_gap : Deque A → ℕ → ℕ → Run (Block A × ℕ)
  open_gap e inserted argc =
      if leb (e.size / 2) inserted
      then (let src_offset = bit_and (u32 (e.offset + e.size)) e.mask in
          move_to_end (e.size + 1) e.buffer e.mask src_offset (u32 (src_offset + argc))
            (bit_and (u32 (e.offset + inserted)) e.mask)
          >>= λ b. ok (b, e.offset))
      else (let src_offset = bit_and e.offset e.mask in
          let dst_offset = bit_and (u32 (e.offset + 2 ^ 32 - argc)) e.mask in
          move_to_front (e.size + 1) e.buffer e.mask src_offset dst_offset
            (bit_and (u32 (src_offset + inserted)) e.mask)
          >>= λ b. ok (b, dst_offset))

  module _ (max_size : ℕ) where
    -- teds_deque_entries_insert_values
    unfoldable pub insert_values : Deque A → ℕ → List A → Run (Deque A)
    insert_values d inserted args =
        let new_size = u32 (d.size + length args) in
        make_room max_size d new_size >>= λ e. open_gap e inserted (length args) >>= λ (b, offset).
        fill_gap b e.mask (bit_and (u32 (offset + inserted)) e.mask) args >>= λ c. ok (record e {
          buffer = c;
          offset = offset;
          size = new_size;
          iterators = adjust_iterators_before_insert e.size inserted (length args) e.iterators;
        })

    -- Deque::insert. The offset is the 64-bit pattern of a zend_long.
    unfoldable pub insert : Deque A → ℕ → List A → Run (Deque A)
    insert d inserted args =
        if ltb d.size inserted
        then throw invalid_index
        else (elim args [ [] ↦ ok d | x ∷ rest ↦ insert_values d inserted (x ∷ rest) ])
