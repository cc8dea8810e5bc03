-- ===== src/Util/Capacity.antt =====
-- What teds_next_pow2_capacity promises.
use native.Mathlib.Nat.{pow-suc}
use pecl_teds.Base.{
  ℕ, suc, ◌+◌, ◌-◌, ◌*◌, ◌^◌, ◌≤◌, ◌<◌, ◌≡◌, ◌⊎◌, refl, inl, inr, arith, lt→ltb, le→ltb, dec_le,
}
use pecl_teds.Machine.{u32, u64, IsPow2, clz, bit_xor, pow2-lt_inv, pow2-le}
use pecl_teds.Util.{next_pow2_capacity}
use pecl_teds.Util.Clz.{clz_bounds, bit_xor-63}

-- The least power of two that is at least `n` and at least `least`.
pub record IsCapacityFor (n least c : ℕ) : Type 0 where
  pub pow2 : IsPow2 c
  pub room : n ≤ c
  pub floor : least ≤ c
  pub tight : (c ≡ least) ⊎ (c < 2 * n)
  pub bounded : c ≤ 2 ^ 31

-- The shift of the C expression, from the builtin's answer.
flipped :
    (n k : ℕ)
    → 2 ≤ n
    → n ≤ 2 ^ 31
    → clz 64 (n - 1) + suc k ≡ 64
    → bit_xor (clz 64 (u64 (n + 2 ^ 64 - 1))) 63 ≡ k
flipped n k h b e =
    let wrap : u64 (n + 2 ^ 64 - 1) ≡ n - 1 = omega arith in
    rw (wrap, bit_xor-63 (clz 64 (n - 1)) (omega arith)) (omega arith)

-- teds_next_pow2_capacity gives, for sizes up to 2 ^ 31 and a least capacity that is a power of
-- two from 2 to 2 ^ 31, the least power of two that is no less than either, with no overflow.
pub next_pow2_capacity_lem :
    (n least : ℕ)
    → IsPow2 least
    → 2 ≤ least
    → least ≤ 2 ^ 31
    → n ≤ 2 ^ 31
    → IsCapacityFor n least (next_pow2_capacity n least)
unfolding next_pow2_capacity
next_pow2_capacity_lem n least p two m b = elim (dec_le least n) [
  | no h ↦
      rw (lt→ltb n least (omega arith)) (record {
        pow2 = p;
        room = omega arith;
        floor = omega arith;
        tight = inl refl;
        bounded = m;
      })
  | yes h ↦
      let (k, e, lo, hi) = clz_bounds 64 (n - 1) (omega arith) (omega arith) in
      above k (flipped n k (omega arith) b e) lo hi h
]
  where
    above :
        (k : ℕ)
        → bit_xor (clz 64 (u64 (n + 2 ^ 64 - 1))) 63 ≡ k
        → 2 ^ k ≤ n - 1
        → n - 1 < 2 ^ suc k
        → least ≤ n
        → IsCapacityFor n least (next_pow2_capacity n least)
    above k e lo hi h =
        let small : k < 31 = pow2-lt_inv k 31 (omega arith) in
        let top = pow2-le (suc k) 31 small in
        let value : u32 (2 * 2 ^ k) ≡ 2 ^ suc k = omega (arith, pow-suc 2 k) in
        rw (le→ltb n least h, e, value)
          (record {
            pow2 = (suc k, refl);
            room = omega arith;
            floor = omega arith;
            tight = inr (omega (arith, pow-suc 2 k));
            bounded = top;
          })
