-- ===== src/Compare/Natural.antt =====
-- The order of the natural numbers as a comparison.
use Prim.Native.Nat.{compare, Ordering}
use pecl_teds.Base.{ℕ, ◌≡◌, arith}
use pecl_teds.Compare.{Sign, negative, null, positive, opposite, Comparison}

-- Numbers by their value.
abbrev pub sign_of : ℕ → ℕ → Sign
sign_of a b = elim (compare a b) [
  | Ordering.lt ↦ negative
  | Ordering.eq ↦ null
  | Ordering.gt ↦ positive
]

pub sign_of-swapped : (a b : ℕ) → sign_of b a ≡ opposite (sign_of a b)
sign_of-swapped a b = ground arith

pub sign_of-transitive :
    (a b c : ℕ)
    → ¬ (sign_of a b ≡ positive)
    → ¬ (sign_of b c ≡ positive)
    → ¬ (sign_of a c ≡ positive)
sign_of-transitive a b c h k e = ground (arith, h, k, e)

abbrev pub natural : Comparison ℕ
natural = record {
  stable_compare = sign_of;
  swapped = sign_of-swapped;
  transitive = sign_of-transitive;
}
