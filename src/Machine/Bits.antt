-- ===== src/Machine/Bits.antt =====
-- `&` on native numbers, digit by digit.
use Prim.Native.Nat.{bit_and, min, digits, bit_and-bitwise}
use native.Mathlib.Nat.{le_refl}
use pecl_teds.Base.{ℕ, zero, suc, ◌+◌, ◌*◌, ◌/◌, ◌%◌, ◌≤◌, ◌≡◌, refl, arith}

abbrev none_left : ℕ → ℕ
none_left y = 0

-- Fuel beyond the number itself changes no digit.
digits_more :
    (n m a b : ℕ) → a ≤ n → a ≤ m → digits none_left min n a b ≡ digits none_left min m a b
digits_more zero zero a b p q = refl
digits_more (suc n) zero zero b p q = refl
digits_more (suc n) zero (suc a) b p q = absurd (omega arith)
digits_more zero (suc m) zero b p q = refl
digits_more zero (suc m) (suc a) b p q = absurd (omega arith)
digits_more (suc n) (suc m) zero b p q = refl
digits_more (suc n) (suc m) (suc a) b p q =
    rw (digits_more n m (suc a / 2) (b / 2) (omega arith) (omega arith))

-- The lowest digit of `a & b`, and the rest.
pub bit_and_lowest : (a b : ℕ) → bit_and a b ≡ bit_and (a / 2) (b / 2) * 2 + min (a % 2) (b % 2)
bit_and_lowest zero b = simp bit_and-bitwise (omega arith)
bit_and_lowest (suc a) b =
    simp bit_and-bitwise
      (omega (arith, digits_more a (suc a / 2) (suc a / 2) (b / 2) (omega arith) (le_refl _)))

zero_bit_and_fuel : (n a : ℕ) → a ≤ n → bit_and a 0 ≡ 0
zero_bit_and_fuel n zero h = refl
zero_bit_and_fuel zero (suc a) h = absurd (omega arith)
zero_bit_and_fuel (suc n) (suc a) h =
    omega (arith, bit_and_lowest (suc a) 0, zero_bit_and_fuel n (suc a / 2) (omega arith))

pub bit_and-zero : (a : ℕ) → bit_and a 0 ≡ 0
bit_and-zero a = zero_bit_and_fuel a a (le_refl a)
