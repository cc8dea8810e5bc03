-- ===== src/Base/Splice.antt =====
-- Lists with values put in, or one taken out, in the middle.
use Prim.Native.Nat.{ℕ, zero, suc, ◌+◌, ◌-◌, ◌<◌, ◌≤◌}
use mathlib.Core.Path.{◌≡◌}
use mathlib.Core.List.{List, [], ◌∷◌, ◌++◌}
use native.Mathlib.Omega.{arith}
use native.Mathlib.Decide.{dec_lt}
use pecl_teds.Base.Tests.{ltb, if◌then◌else◌}
use pecl_teds.Base.Lists.{
  length, get_elem?, take, drop, length-append, length-take, length-drop, get_elem?-append,
  get_elem?-take, get_elem?-drop,
}

module _ {A : Type 0} where
  -- The values of `xs` stand from index `i` on, the later entries of `q` behind them.
  abbrev pub insert_at : ℕ → List A → List A → List A
  insert_at i xs q = take i q ++ (xs ++ drop i q)

  abbrev pub remove_at : ℕ → List A → List A
  remove_at i q = take i q ++ drop (suc i) q

  pub length-insert_at :
      (i : ℕ) (xs q : List A) → i ≤ length q → length (insert_at i xs q) ≡ length q + length xs
  length-insert_at i xs q h = omega (
    arith,
    length-append (take i q) (xs ++ drop i q),
    length-append xs (drop i q),
    length-take i q h,
    length-drop i q,
  )

  pub length-remove_at : (i : ℕ) (q : List A) → i < length q → length (remove_at i q) ≡ length q - 1
  length-remove_at i q h = omega (
    arith,
    length-append (take i q) (drop (suc i) q),
    length-take i q (omega arith),
    length-drop (suc i) q,
  )

  pub get_elem?-insert_at :
      (i : ℕ) (xs q : List A) (j : ℕ)
      → i ≤ length q
      → get_elem? (insert_at i xs q) j ≡ (
          if ltb j i
          then get_elem? q j
          else if ltb j (i + length xs)
          then get_elem? xs (j - i)
          else get_elem? q (j - length xs))
  get_elem?-insert_at i xs q j h = ground (
    arith,
    get_elem?-append (take i q) (xs ++ drop i q) j,
    get_elem?-append xs (drop i q) (j - length (take i q)),
    length-take i q h,
    get_elem?-take i q j,
    get_elem?-drop i q (j - length (take i q) - length xs),
  )

  pub get_elem?-remove_at :
      (i : ℕ) (q : List A) (j : ℕ)
      → i < length q
      → get_elem? (remove_at i q) j ≡ (if ltb j i then get_elem? q j else get_elem? q (suc j))
  get_elem?-remove_at i q j h = ground (
    arith,
    get_elem?-append (take i q) (drop (suc i) q) j,
    length-take i q,
    get_elem?-take i q j,
    get_elem?-drop (suc i) q (j - length (take i q)),
  )

  pub length-take_le : (n : ℕ) (q : List A) → length (take n q) ≤ length q
  length-take_le zero q = omega arith
  length-take_le (suc n) [] = omega arith
  length-take_le (suc n) (x ∷ q) = omega (arith, length-take_le n q)

  pub length-remove_at_le : (i : ℕ) (q : List A) → length (remove_at i q) ≤ length q
  length-remove_at_le i q = elim (dec_lt i (length q)) [
    | yes lt ↦ omega (arith, length-remove_at i q lt)
    | no ge ↦ omega (
      arith,
      length-append (take i q) (drop (suc i) q),
      length-drop (suc i) q,
      length-take_le i q,
    )
  ]
