-- ===== src/Util/Range.antt =====
-- teds_util.h: the helpers that go through a range of zvals: the search of a value, and the copy to a
-- PHP array.
use pecl_teds.Base.{
  ℕ, zero, suc, ◌+◌, ◌<◌, ◌≡◌, refl, ap, ◌∙◌, Bool, true, false, List, [], ◌∷◌, Option, none, some,
  length, get_elem?, arith,
}
use pecl_teds.Run.{Run, ok, ◌>>=◌}
use pecl_teds.Memory.{Block, load}
use pecl_teds.Memory.Laws.{load-ok}

module _ {A : Type 0} where
  -- teds_convert_zval_list_to_refcounted_array, on the `n` zvals from index `i` on.
  unfoldable pub read_values : Block A → ℕ → ℕ → Run (List A)
  read_values entries i zero = ok []
  read_values entries i (suc n) =
      load entries i >>= λ a. read_values entries (i + 1) n >>= λ rest. ok (a ∷ rest)

  module _ (identical : A → A → Bool) (target : A) where
    -- teds_zval_range_zval_indexof, with `n` zvals left from index `i` on, and `none` for NULL.
    unfoldable pub range_indexof : Block A → ℕ → ℕ → Run (Option ℕ)
    range_indexof entries i zero = ok none
    range_indexof entries i (suc n) = load entries i >>= λ a. elim (identical a target) [
      | true ↦ ok (some i)
      | false ↦ range_indexof entries (i + 1) n
    ]

    -- teds_zval_range_contains
    unfoldable pub range_contains : Block A → ℕ → ℕ → Run Bool
    range_contains original i zero = ok false
    range_contains original i (suc n) = load original i >>= λ a. elim (identical a target) [
      | true ↦ ok true
      | false ↦ range_contains original (i + 1) n
    ]

    -- The place of the first value of the list that is identical, counted from `i`.
    unfoldable pub index_from : ℕ → List A → Option ℕ
    index_from i [] = none
    index_from i (x ∷ q) = elim (identical x target) [
      | true ↦ some i
      | false ↦ index_from (i + 1) q
    ]

  -- The cells from `i` on are the values of the list.
  abbrev pub From : Block A → ℕ → List A → Type 0
  From b i q = (j : ℕ) → j < length q → (i + j < b.alloc) × (b.cell (i + j) ≡ get_elem? q j)

  pub From-start :
      (b : Block A) (q : List A)
      → ((j : ℕ) → j < length q → (j < b.alloc) × (b.cell j ≡ get_elem? q j))
      → From b 0 q
  From-start b q h j lt = let (inside, e) = h j lt in (omega arith, ap b.cell (omega arith) ∙ e)

  pub From-load : (b : Block A) (i : ℕ) (x : A) (q : List A) → From b i (x ∷ q) → load b i ≡ ok x
  From-load b i x q f =
      let (inside, e) = f 0 (omega arith) in load-ok b i (omega arith) (ap b.cell (omega arith) ∙ e)

  pub From-next : (b : Block A) (i : ℕ) (x : A) (q : List A) → From b i (x ∷ q) → From b (i + 1) q
  From-next b i x q f j lt =
      let (inside, e) = f (suc j) (omega arith) in (omega arith, ap b.cell (omega arith) ∙ e)

  pub read_values_lem :
      (b : Block A) (q : List A) (i : ℕ) → From b i q → read_values b i (length q) ≡ ok q
  unfolding read_values
  read_values_lem b [] i f = refl
  read_values_lem b (x ∷ q) i f =
      rw (From-load b i x q f, read_values_lem b q (i + 1) (From-next b i x q f)) refl

  module _ (identical : A → A → Bool) (target : A) where
    pub range_indexof_lem :
        (b : Block A) (q : List A) (i : ℕ)
        → From b i q
        → range_indexof identical target b i (length q) ≡ ok (index_from identical target i q)
    unfolding range_indexof index_from
    range_indexof_lem b [] i f = refl
    range_indexof_lem b (x ∷ q) i f =
        let rest = range_indexof_lem b q (i + 1) (From-next b i x q f) in
        rw (From-load b i x q f) (ground (arith, rest))

    pub range_contains_lem :
        (b : Block A) (q : List A) (i : ℕ)
        → From b i q
        → range_contains identical target b i (length q)
          ≡ ok (elim (index_from identical target i q) [ none ↦ false | some _ ↦ true ])
    unfolding range_contains index_from
    range_contains_lem b [] i f = refl
    range_contains_lem b (x ∷ q) i f =
        let rest = range_contains_lem b q (i + 1) (From-next b i x q f) in
        rw (From-load b i x q f) (ground (arith, rest))
