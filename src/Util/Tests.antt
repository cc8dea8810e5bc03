-- ===== src/Util/Tests.antt =====
-- The capacity for a size between two powers of two.
use pecl_teds.Base.{◌≡◌, refl, arith}
use pecl_teds.Machine.{clz}
use pecl_teds.Util.{next_pow2_capacity}
use pecl_teds.Util.Capacity.{IsCapacityFor, next_pow2_capacity_lem}

next_pow2_capacity_example : IsCapacityFor 37 4 (next_pow2_capacity 37 4)
next_pow2_capacity_example =
    next_pow2_capacity_lem 37 4 (2, refl) (omega arith) (omega arith) (omega arith)

next_pow2_capacity_value : next_pow2_capacity 37 4 ≡ 64
unfolding next_pow2_capacity clz
next_pow2_capacity_value = refl
