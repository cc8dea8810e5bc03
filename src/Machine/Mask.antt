-- ===== src/Machine/Mask.antt =====
-- `uint32_t` and `size_t`, powers of two, and `& mask` as a remainder.
use Prim.Native.Nat.{bit_and, ◌∣◌}
use native.Mathlib.Nat.{
  pow-suc, one-le-pow, dvd_trans, dvd_refl, dvd-mul_right, mod-mod_of_dvd, mod-eq_of_lt, mod-lt,
  pow-le-pow_right, div-add-mod, mul-add-mod_self_left, add-mul-mod_self_left, mul-div_cancel',
  add-zero, add-suc,
}
use native.Mathlib.Decide.{dec_le}
use pecl_teds.Base.{
  ℕ, zero, suc, ◌+◌, ◌-◌, ◌*◌, ◌/◌, ◌%◌, ◌^◌, ◌≤◌, ◌<◌, ◌≡◌, sym, ap, ◌∙◌, subst, arith,
}
use pecl_teds.Machine.Bits.{bit_and_lowest, bit_and-zero}

-- What a `uint32_t` holds after an arithmetic operation.
abbrev pub u32 : ℕ → ℕ
u32 x = x % 2 ^ 32

-- What a `size_t` or `zend_ulong` holds, on a 64-bit build.
abbrev pub u64 : ℕ → ℕ
u64 x = x % 2 ^ 64

abbrev pub IsPow2 : ℕ → Type 0
IsPow2 c = (k : ℕ) × (c ≡ 2 ^ k)

-- The remainder by `2 * p` is that of the half by `p`, and the lowest digit.
mod-double : (p a : ℕ) → 0 < p → a % (p * 2) ≡ a / 2 % p * 2 + a % 2
mod-double p a h =
    let low = a / 2 % p * 2 + a % 2 in
    let small : low < p * 2 = omega (arith, mod-lt (a / 2) h) in
    let whole : p * 2 * (a / 2 / p) + low ≡ a = omega (arith, div-add-mod (a / 2) p) in
    sym (ap (λ t. t % (p * 2)) whole)
    ∙ mul-add-mod_self_left (p * 2) (a / 2 / p) low
    ∙ mod-eq_of_lt small

mask_digits : (k a : ℕ) → bit_and a (2 ^ k - 1) ≡ a % 2 ^ k
mask_digits zero a = rw bit_and-zero (omega arith)
mask_digits (suc k) a =
    let pos = one-le-pow k 2 (omega arith) in
    let half : (2 ^ suc k - 1) / 2 ≡ 2 ^ k - 1 = omega (arith, pow-suc 2 k) in
    let low : (2 ^ suc k - 1) % 2 ≡ 1 = omega (arith, pow-suc 2 k) in
    rw (bit_and_lowest a (2 ^ suc k - 1), half, low, mask_digits k (a / 2), pow-suc 2 k)
      (omega (arith, mod-double (2 ^ k) a pos))

-- `x & mask` is the remainder by the capacity `mask + 1`.
pub bit_and_mask : (x m : ℕ) → IsPow2 (m + 1) → bit_and x m ≡ x % (m + 1)
bit_and_mask x m (k, e) = let low : m ≡ 2 ^ k - 1 = omega arith in rw e (rw low (mask_digits k x))

pow2-dvd : (k d : ℕ) → 2 ^ k ∣ 2 ^ (k + d)
pow2-dvd k zero = rw add-zero (dvd_refl (2 ^ k))
pow2-dvd k (suc d) =
    rw (add-suc, pow-suc) (dvd_trans (2 ^ k) (pow2-dvd k d) (dvd-mul_right (2 ^ (k + d)) 2))

pub pow2-le : (j k : ℕ) → j ≤ k → 2 ^ j ≤ 2 ^ k
pow2-le j k h = pow-le-pow_right {n = 2} (omega arith) h

pub pow2-lt_inv : (j k : ℕ) → 2 ^ j < 2 ^ k → j < k
pow2-lt_inv j k h = elim (dec_le k j) [
  | yes p ↦ absurd (omega (arith, pow2-le k j p))
  | no p ↦ omega arith
]

pow2-dvd_u32 : (c : ℕ) → IsPow2 c → c ≤ 2 ^ 32 → c ∣ 2 ^ 32
pow2-dvd_u32 c (k, e) h =
    let small = pow2-lt_inv k 33 (omega arith) in
    let split : k + (32 - k) ≡ 32 = omega arith in
    rw e (subst (λ t. 2 ^ k ∣ 2 ^ t) split (pow2-dvd k (32 - k)))

-- Taking a power of two for the modulus forgets the wrap of a `uint32_t`.
pub u32-mod : (x c : ℕ) → IsPow2 c → c ≤ 2 ^ 32 → u32 x % c ≡ x % c
u32-mod x c p h = mod-mod_of_dvd c x (pow2-dvd_u32 c p h)

whole_turns : (x m t w : ℕ) → (m + 1) * t ≡ w → 0 < w → (x + w - 1) % (m + 1) ≡ (x + m) % (m + 1)
whole_turns x m zero w e h = absurd (omega arith)
whole_turns x m (suc t) w e h =
    let regroup : x + w - 1 ≡ (x + m) + (m + 1) * t = omega (arith, e) in
    rw regroup (add-mul-mod_self_left (x + m) (m + 1) t)

-- So one less is as much as the mask more.
pub pred-mod :
    (x m : ℕ) → IsPow2 (m + 1) → m < 2 ^ 32 → (x + 2 ^ 32 - 1) % (m + 1) ≡ (x + m) % (m + 1)
pred-mod x m p h =
    whole_turns x m (2 ^ 32 / (m + 1)) (2 ^ 32)
      (mul-div_cancel' (m + 1) (pow2-dvd_u32 (m + 1) p (omega arith))) (omega arith)
