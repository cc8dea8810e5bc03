-- ===== src/Util.antt =====
-- teds_util.h: the capacities that the collections ask for.
pub mod Clz
pub mod Capacity
pub mod Limit
pub mod Range
mod Tests
use pecl_teds.Base.{ℕ, ◌+◌, ◌-◌, ◌*◌, ◌^◌, ltb, if◌then◌else◌}
use pecl_teds.Machine.{u32, u64, bit_xor, clz}

-- teds_next_pow2_capacity, on a 64-bit build whose compiler has __builtin_clz. `0x2u` is a 32-bit
-- number, so the shift wraps at 2 ^ 32.
unfoldable pub next_pow2_capacity : ℕ → ℕ → ℕ
next_pow2_capacity n least =
    if ltb n least then least else u32 (2 * 2 ^ bit_xor (clz 64 (u64 (n + 2 ^ 64 - 1))) 63)

-- TEDS_DEQUE_MIN_CAPACITY
abbrev pub deque_min_capacity : ℕ
deque_min_capacity = 4

-- teds_deque_next_pow2_capacity
unfoldable pub deque_next_pow2_capacity : ℕ → ℕ
deque_next_pow2_capacity n = next_pow2_capacity n deque_min_capacity
