-- ===== src/Memory.antt =====
-- Blocks of zvals on the heap: what safe_emalloc, safe_erealloc, memcpy and ZVAL_COPY_VALUE do to
-- them. A read of a cell that was never written, and an access past the end, is a fault.
pub mod Laws
pub mod Copy
use pecl_teds.Base.{
  ℕ, zero, suc, ◌+◌, List, [], ◌∷◌, Option, none, some, ltb, ◌==◌, if◌then◌else◌, ◌&&◌,
}
use pecl_teds.Run.{Run, ok, fault, ◌>>=◌}

pub record Block (A : Type 0) : Type 0 where
  pub alloc : ℕ
  pub cell : ℕ → Option A

module _ {A : Type 0} where
  -- No memory: a NULL pointer, or `empty_entry_list`.
  abbrev pub no_block : Block A
  no_block = record { alloc = 0; cell = λ _. none }

  abbrev pub malloc : ℕ → Block A
  malloc n = record { alloc = n; cell = λ _. none }

  -- The cells below both sizes keep their values.
  unfoldable pub realloc : Block A → ℕ → Block A
  realloc b n = record {
    alloc = n;
    cell = λ i. if ltb i n && ltb i b.alloc then b.cell i else none;
  }

  -- erealloc2: the first `copied` cells keep their values.
  unfoldable pub realloc2 : Block A → ℕ → ℕ → Block A
  realloc2 b n copied = record {
    alloc = n;
    cell = λ i. if ltb i n && ltb i copied then b.cell i else none;
  }

  unfoldable pub load : Block A → ℕ → Run A
  load b i = if ltb i b.alloc then (elim (b.cell i) [ none ↦ fault | some a ↦ ok a ]) else fault

  abbrev pub update : (ℕ → Option A) → ℕ → A → ℕ → Option A
  update f i a j = if i == j then some a else f j

  unfoldable pub store : Block A → ℕ → A → Run (Block A)
  store b i a = if ltb i b.alloc then ok (record b { cell = update b.cell i a }) else fault

  -- ZVAL_COPY_VALUE(&b[to], &b[from])
  unfoldable pub copy_cell : Block A → ℕ → ℕ → Run (Block A)
  copy_cell b to from = load b from >>= store b to

  -- memcpy(dst + to, src + from, n * sizeof(zval)): whatever the cells hold.
  unfoldable pub memcpy : Block A → ℕ → Block A → ℕ → ℕ → Run (Block A)
  memcpy dst to src from zero = ok dst
  memcpy dst to src from (suc n) =
      let rest =
        memcpy (record dst { cell = λ j. if to == j then src.cell from else dst.cell j }) (to + 1)
          src (from + 1) n in
      if ltb from src.alloc && ltb to dst.alloc then rest else fault

  -- The cells from `at` on become the values of a list.
  unfoldable pub fill : Block A → ℕ → List A → Run (Block A)
  fill b at [] = ok b
  fill b at (x ∷ xs) = store b at x >>= λ c. fill c (at + 1) xs
