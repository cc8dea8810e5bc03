-- ===== src/Util/Clz.antt =====
-- What `__builtin_clz` says of the highest bit.
use Prim.Native.Nat.{bit_xor}
use pecl_teds.Base.{
  ℕ, zero, suc, ◌+◌, ◌-◌, ◌^◌, ◌≤◌, ◌<◌, ◌≡◌, refl, Bool, true, ◌&&◌, arith, leb, ◌==◌, Bool-cases,
  inl, inr,
}
use pecl_teds.Machine.{clz}

-- The highest bit of a number other than 0 is bit `w - 1 - clz w x`.
pub clz_bounds :
    (w x : ℕ) → 0 < x → x < 2 ^ w → (k : ℕ) × (clz w x + suc k ≡ w) × (2 ^ k ≤ x) × (x < 2 ^ suc k)
unfolding clz
clz_bounds zero x h lt = absurd (omega arith)
clz_bounds (suc w) x h lt = elim (Bool-cases (leb (2 ^ w) x)) [
  | inl top ↦ (w, rw (top, clz) (omega arith), ground arith, lt)
  | inr below ↦
      let (k, e, lo, hi) = clz_bounds w x h (ground arith) in
      (k, rw (below, clz) (omega arith), lo, hi)
]

flips_below : ℕ → Bool
flips_below zero = true
flips_below (suc n) = (bit_xor n 63 == 63 - n) && flips_below n

flips_below_sound : (n x : ℕ) → flips_below n ≡ true → x < n → bit_xor x 63 ≡ 63 - x
unfolding flips_below
flips_below_sound zero x h lt = absurd (omega arith)
flips_below_sound (suc n) x h lt = ground (arith, flips_below_sound n x)

-- `^ 63` counts a bit from the other end.
pub bit_xor-63 : (x : ℕ) → x < 64 → bit_xor x 63 ≡ 63 - x
unfolding flips_below
bit_xor-63 x h = flips_below_sound 64 x refl h
