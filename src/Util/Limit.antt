-- ===== src/Util/Limit.antt =====
-- The capacities that the collections ask for stay within the engine's limit.
use native.Mathlib.Nat.{pow-suc}
use pecl_teds.Base.{ℕ, suc, ◌*◌, ◌^◌, ◌<◌, ◌≤◌, refl, inl, inr, arith}
use pecl_teds.Machine.{IsPow2, pow2-lt_inv, pow2-le}
use pecl_teds.Util.{deque_min_capacity, deque_next_pow2_capacity}
use pecl_teds.Util.Capacity.{IsCapacityFor, next_pow2_capacity_lem}

-- What PHP documents of HT_MAX_SIZE: a power of two, at most 0x80000000.
pub record Limit (max_size : ℕ) : Type 0 where
  pub pow2 : IsPow2 max_size
  pub floor : deque_min_capacity ≤ max_size
  pub ceiling : max_size ≤ 2 ^ 31

pub deque_next_pow2_capacity_lem :
    (n : ℕ) → n ≤ 2 ^ 31 → IsCapacityFor n deque_min_capacity (deque_next_pow2_capacity n)
unfolding deque_next_pow2_capacity
deque_next_pow2_capacity_lem n h =
    next_pow2_capacity_lem n deque_min_capacity (2, refl) (omega arith) (omega arith) h

pow2-le_of_lt_double : (c m : ℕ) → IsPow2 c → IsPow2 m → c < 2 * m → c ≤ m
pow2-le_of_lt_double c m (j, e) (k, f) h =
    let below = pow2-lt_inv j (suc k) (omega (arith, pow-suc 2 k)) in
    omega (arith, pow2-le j k (omega arith))

pub deque_capacity-le-Limit :
    (max_size n : ℕ) → Limit max_size → n ≤ max_size → deque_next_pow2_capacity n ≤ max_size
deque_capacity-le-Limit max_size n l h =
    let c = deque_next_pow2_capacity_lem n (omega (arith, l.ceiling)) in
    elim c.tight [
      | inl least ↦ omega (arith, l.floor)
      | inr tight ↦ pow2-le_of_lt_double _ max_size c.pow2 l.pow2 (omega arith)
    ]
