-- ===== src/Deque/Storage.antt =====
-- teds_deque.c: how the circular buffer grows and shrinks.
pub mod Resize
pub mod Grow
use pecl_teds.Base.{
  ℕ, ◌+◌, ◌-◌, ◌*◌, ◌/◌, ◌^◌, ◌<◌, ◌≤◌, ◌≡◌, Bool, true, false, ltb, leb, ◌==◌, if◌then◌else◌, ◌&&◌,
}
use pecl_teds.Machine.{u32, u64}
use pecl_teds.Run.{Run, ok, fatal, ◌>>=◌}
use pecl_teds.Memory.{Block, malloc, realloc, memcpy}
use pecl_teds.Util.{deque_min_capacity}
use pecl_teds.Deque.{Deque, get_capacity}

module _ {A : Type 0} where
  -- teds_deque_move_circular_buffer_to_new_buffer_of_capacity: one or two segments go to the start
  -- of a new buffer.
  unfoldable pub move_circular_buffer : Deque A → ℕ → Run (Deque A)
  move_circular_buffer d new_capacity =
      let first_len = u32 (d.mask + 1 + 2 ^ 32 - d.offset) in
      let fresh = malloc new_capacity in
      (if leb d.size first_len
        then memcpy fresh 0 d.buffer d.offset d.size
        else (memcpy fresh 0 d.buffer d.offset first_len >>= λ b.
            memcpy b first_len d.buffer 0 (d.size - first_len)))
      >>= λ b. ok (record d { null = false; buffer = b; offset = 0 })

  -- teds_deque_entries_raise_capacity. `max_size` is TEDS_MAX_ZVAL_COLLECTION_SIZE.
  unfoldable pub raise_capacity : ℕ → Deque A → ℕ → Run (Deque A)
  raise_capacity max_size d new_capacity =
      if ltb max_size new_capacity
      then fatal
      else ((if d.mask == 0
            then ok (record d { null = false; buffer = malloc new_capacity })
            else if leb (u32 (d.offset + d.size)) (u32 (d.mask + 1))
            then ok (record d { null = false; buffer = realloc d.buffer new_capacity })
            else move_circular_buffer d new_capacity)
          >>= λ e. ok (record e { mask = u32 (new_capacity + 2 ^ 64 - 1) }))

  -- teds_deque_entries_shrink_capacity
  unfoldable pub shrink_capacity : Deque A → ℕ → Run (Deque A)
  shrink_capacity d new_capacity =
      (if ltb (u32 (d.offset + d.size)) new_capacity
        then ok (record d { null = false; buffer = realloc d.buffer new_capacity })
        else move_circular_buffer d new_capacity)
      >>= λ e. ok (record e { mask = u32 (new_capacity + 2 ^ 32 - 1) })

  -- teds_deque_entries_try_shrink_capacity
  unfoldable pub try_shrink_capacity : Deque A → ℕ → Run (Deque A)
  try_shrink_capacity d old_size =
      if leb (u32 (old_size + 2 ^ 32 - 1)) (d.mask / 4) && ltb (deque_min_capacity - 1) d.mask
      then shrink_capacity d (u32 (d.mask / 2 + 1))
      else ok d
