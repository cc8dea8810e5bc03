-- ===== src/Compare.antt =====
-- teds.c: what the collections rely on of teds_stable_compare, which compares any two values.
pub mod Laws
pub mod Natural
use pecl_teds.Base.{◌≡◌}

-- The sign of the zend_long that teds_stable_compare returns.
pub data Sign : Type 0 where
  negative null positive : Sign

abbrev pub opposite : Sign → Sign
opposite negative = positive
opposite null = null
opposite positive = negative

-- What the collections rely on: a total order, with the sign turned round when the values are swapped.
pub record Comparison (A : Type 0) : Type 0 where
  pub stable_compare : A → A → Sign
  pub swapped : (a b : A) → stable_compare b a ≡ opposite (stable_compare a b)
  pub transitive :
      (a b c : A)
      → ¬ (stable_compare a b ≡ positive)
      → ¬ (stable_compare b c ≡ positive)
      → ¬ (stable_compare a c ≡ positive)
