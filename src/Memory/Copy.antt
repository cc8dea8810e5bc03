-- ===== src/Memory/Copy.antt =====
-- What memcpy and a run of stores leave behind.
use pecl_teds.Base.{
  ℕ, zero, suc, ◌+◌, ◌-◌, ◌≤◌, ◌≡◌, refl, List, [], ◌∷◌, ◌&&◌, arith, ltb, leb, if◌then◌else◌,
  lt→ltb, length, get_elem?, dec_le, ℕ_discrete, Option,
}
use pecl_teds.Run.{Returns, returns, Returns-map}
use pecl_teds.Memory.{Block, memcpy, fill, update}
use pecl_teds.Memory.Laws.{store-ok}

module _ {A : Type 0} where
  pub record Copied (dst : Block A) (to : ℕ) (src : Block A) (from n : ℕ) (b : Block A)
      : Type 0 where
    pub same_size : b.alloc ≡ dst.alloc
    pub cells :
        (j : ℕ)
        → b.cell j ≡ (if leb to j && ltb j (to + n) then src.cell (from + (j - to)) else dst.cell j)

  pub memcpy_lem :
      (n : ℕ) (dst : Block A) (to : ℕ) (src : Block A) (from : ℕ)
      → from + n ≤ src.alloc
      → to + n ≤ dst.alloc
      → Returns (Copied dst to src from n) (memcpy dst to src from n)
  unfolding memcpy
  memcpy_lem zero dst to src from hs hd =
      returns (record { same_size = refl; cells = λ j. ground arith })
  memcpy_lem (suc n) dst to src from hs hd =
      rw (lt→ltb from src.alloc (omega arith), lt→ltb to dst.alloc (omega arith))
        (Returns-map (memcpy_lem n _ (to + 1) src (from + 1) (omega arith) (omega arith))
          λ b c. record { same_size = c.same_size; cells = λ j. ground (arith, c.cells j) })

  pub record Filled (b : Block A) (at : ℕ) (xs : List A) (c : Block A) : Type 0 where
    pub same_size : c.alloc ≡ b.alloc
    pub cells :
        (j : ℕ)
        → c.cell j
          ≡ (if leb at j && ltb j (at + length xs) then get_elem? xs (j - at) else b.cell j)

  -- One entry more at the front.
  fill_cell :
      (x : A) (xs : List A) (b : Block A) (at j : ℕ) {v : Option A}
      → v ≡ (
          if leb (at + 1) j && ltb j (at + 1 + length xs)
          then get_elem? xs (j - (at + 1))
          else update b.cell at x j)
      → v ≡ (
          if leb at j && ltb j (at + length (x ∷ xs))
          then get_elem? (x ∷ xs) (j - at)
          else b.cell j)
  fill_cell x xs b at j e = elim (dec_le j at) [
    | yes le ↦ elim (ℕ_discrete j at) [
      | yes eq ↦ let zeros : j - at ≡ 0 = omega arith in rw zeros (ground arith)
      | no ne ↦ ground arith
    ]
    | no gt ↦ let sucs : j - at ≡ suc (j - (at + 1)) = omega arith in rw sucs (ground arith)
  ]

  pub fill_lem :
      (xs : List A) (b : Block A) (at : ℕ)
      → at + length xs ≤ b.alloc
      → Returns (Filled b at xs) (fill b at xs)
  unfolding fill
  fill_lem [] b at h = returns (record { same_size = refl; cells = λ j. ground arith })
  fill_lem (x ∷ xs) b at h = rw (store-ok b at x (omega arith)) (
      Returns-map (fill_lem xs _ (at + 1) (omega arith))
        λ c f. record { same_size = f.same_size; cells = λ j. fill_cell x xs b at j (f.cells j) })
