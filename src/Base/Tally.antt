-- ===== src/Base/Tally.antt =====
-- How many entries of a list a test holds for, and two entries put in each other's place.
use Prim.Native.Nat.{ℕ, zero, suc, ◌+◌, ◌<◌}
use mathlib.Core.Path.{◌≡◌, ◌∙◌}
use mathlib.Core.Logic.{◌≢◌}
use mathlib.Core.Bool.{Bool}
use mathlib.Core.List.{List, [], ◌∷◌, ◌++◌}
use mathlib.Core.Option.{some}
use native.Mathlib.Omega.{arith}
use pecl_teds.Base.Tests.{◌==◌, if◌then◌else◌}
use pecl_teds.Base.Lists.{length, get_elem?, set, length-set, get_elem?-set}

abbrev pub one_if : Bool → ℕ
one_if b = if b then 1 else 0

module _ {ℓ} {A : Type ℓ} where
  abbrev pub tally : (A → Bool) → List A → ℕ
  tally p [] = 0
  tally p (x ∷ xs) = one_if (p x) + tally p xs

  pub tally-set :
      (p : A → Bool) (xs : List A) (i : ℕ) (a x : A)
      → get_elem? xs i ≡ some a
      → tally p (set xs i x) + one_if (p a) ≡ tally p xs + one_if (p x)
  tally-set p [] i a x h = cc h
  tally-set p (y ∷ ys) zero a x h = ground (arith, h)
  tally-set p (y ∷ ys) (suc i) a x h = omega (arith, tally-set p ys i a x h)

  pub tally-end : (p : A → Bool) (xs : List A) (x : A) → tally p (xs ++ x ∷ []) ≡ tally p (x ∷ xs)
  tally-end p [] x = omega arith
  tally-end p (y ∷ xs) x = omega (arith, tally-end p xs x)

  pub tally-append : (p : A → Bool) (xs ys : List A) → tally p (xs ++ ys) ≡ tally p xs + tally p ys
  tally-append p [] ys = omega arith
  tally-append p (x ∷ xs) ys = omega (arith, tally-append p xs ys)

  -- The list with `v` at `i` and `key` at `j`.
  abbrev pub swap : List A → ℕ → ℕ → A → A → List A
  swap xs i j v key = set (set xs i v) j key

  module _ (xs : List A) (i j : ℕ) (v key : A) where
    pub length-swap : length (swap xs i j v key) ≡ length xs
    length-swap = length-set (set xs i v) j key ∙ length-set xs i v

    pub get_elem?-swap :
        i < length xs
        → j < length xs
        → (k : ℕ)
        → get_elem? (swap xs i j v key) k
          ≡ (if j == k then some key else if i == k then some v else get_elem? xs k)
    get_elem?-swap hi hj k = ground (
      arith,
      get_elem?-set (set xs i v) j k key (omega (arith, length-set xs i v)),
      get_elem?-set xs i k v hi,
    )

    pub tally-swap :
        i ≢ j
        → i < length xs
        → get_elem? xs i ≡ some key
        → get_elem? xs j ≡ some v
        → (p : A → Bool) → tally p (swap xs i j v key) ≡ tally p xs
    tally-swap ne hi at_i at_j p =
        let there : get_elem? (set xs i v) j ≡ some v = ground (arith, get_elem?-set xs i j v hi) in
        omega (arith, tally-set p (set xs i v) j v key there, tally-set p xs i key v at_i)

    pub get_elem?-swap_right :
        i < length xs → j < length xs → get_elem? (swap xs i j v key) j ≡ some key
    get_elem?-swap_right hi hj = ground (arith, get_elem?-swap hi hj j)

    pub get_elem?-swap_left :
        i < length xs → j < length xs → j ≢ i → get_elem? (swap xs i j v key) i ≡ some v
    get_elem?-swap_left hi hj ne = ground (arith, get_elem?-swap hi hj i)

    pub get_elem?-swap_else :
        i < length xs
        → j < length xs
        → (k : ℕ) → k ≢ i
        → k ≢ j
        → get_elem? (swap xs i j v key) k ≡ get_elem? xs k
    get_elem?-swap_else hi hj k ni nj = ground (arith, get_elem?-swap hi hj k)
