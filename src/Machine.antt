-- ===== src/Machine.antt =====
-- Machine integers of the C code: `uint32_t` and `size_t` with their wrap-around, `&` with a mask,
-- and the compiler's `__builtin_clz`.
mod Bits
mod Mask
pub use Mask.*
pub use Prim.Native.Nat.{bit_and, bit_xor}
use pecl_teds.Base.{ℕ, zero, suc, ◌+◌, ◌-◌, ◌*◌, ◌%◌, ◌^◌, Bool, true, false, leb}

-- `__builtin_clz` at width `w`: the number of zero bits above the highest one. At 0 it is `w`,
-- where the builtin is undefined.
unfoldable pub clz : ℕ → ℕ → ℕ
clz zero x = 0
clz (suc w) x = elim (leb (2 ^ w) x) [ true ↦ 0 | false ↦ suc (clz w x) ]
