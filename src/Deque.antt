-- ===== src/Deque.antt =====
-- teds_deque.c: the circular buffer of Teds\Deque. This file has its state and its reads; the
-- children have the operations that change it and what each of them is proved to do.
pub mod Reads
pub mod Ring
pub mod Shift
pub mod Storage
pub mod Add
pub mod Insert
pub mod Remove
pub mod Build
pub mod Walk
pub mod Keys
pub mod Collect
mod Tests
use pecl_teds.Base.{
  ℕ, ◌+◌, ◌-◌, ◌%◌, ◌^◌, ◌<◌, ◌≤◌, ◌≡◌, Bool, List, length, get_elem?, leb, ◌==◌, if◌then◌else◌,
}
use pecl_teds.Machine.{u32, bit_and, IsPow2}
use pecl_teds.Run.{Run, throw, invalid_index, underflow}
use pecl_teds.Memory.{Block, load}

-- teds_deque_entries. `null` says that `circular_buffer` is NULL, and `iterators` holds the field
-- `current` of each iterator on the list `active_iterators`, the first one first.
pub record Deque (A : Type 0) : Type 0 where
  pub null : Bool
  pub buffer : Block A
  pub size : ℕ
  pub mask : ℕ
  pub offset : ℕ
  pub iterators : List ℕ

module _ {A : Type 0} where
  -- teds_deque_entries_get_capacity
  unfoldable pub get_capacity : Deque A → ℕ
  get_capacity d = if d.mask == 0 then 0 else u32 (d.mask + 1)

  -- The cell of the entry `i` places from the front.
  unfoldable pub entry_index : Deque A → ℕ → ℕ
  entry_index d i = bit_and (u32 (d.offset + i)) d.mask

  -- teds_deque_get_entry_at_offset
  unfoldable pub get_entry_at_offset : Deque A → ℕ → Run A
  get_entry_at_offset d i = load d.buffer (entry_index d i)

  -- teds_deque_get_value_at_offset. The offset is the 64-bit pattern of a zend_long, which the code
  -- reads as a zend_ulong.
  unfoldable pub get_value_at_offset : Deque A → ℕ → Run A
  get_value_at_offset d offset =
      if leb d.size offset then throw invalid_index else get_entry_at_offset d offset

  -- Deque::first
  unfoldable pub first : Deque A → Run A
  first d = if d.size == 0 then throw underflow else load d.buffer d.offset

  -- Deque::last
  unfoldable pub last : Deque A → Run A
  last d = if d.size == 0 then throw underflow else get_entry_at_offset d (d.size - 1)

  -- What DEBUG_ASSERT_CONSISTENT_DEQUE asserts, and that the buffer holds `capacity` zvals.
  pub record IsValid (d : Deque A) : Type 0 where
    pub pow2 : IsPow2 (d.mask + 1)
    pub bounded : d.mask < 2 ^ 31
    pub offset_in : d.offset ≤ d.mask
    pub size_in : d.size ≤ get_capacity d
    pub alloc_in : get_capacity d ≤ d.buffer.alloc

  -- The deque holds the values of the list, front first.
  pub record Holds (d : Deque A) (q : List A) : Type 0 where
    pub valid : IsValid d
    pub count : d.size ≡ length q
    pub cells :
        (i : ℕ) → i < length q → d.buffer.cell ((d.offset + i) % (d.mask + 1)) ≡ get_elem? q i
