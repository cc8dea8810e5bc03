-- ===== src/StrictSortedVectorMap/Dimensions.antt =====
-- teds_strictsortedvectormap.c: `$map[$key]` with its reads, writes and tests, and the walk of
-- contains over the values.
use pecl_teds.Base.{
  ℕ, zero, suc, ◌+◌, ◌*◌, ◌^◌, ◌<◌, ◌≡◌, refl, ap, Bool, true, false, ◌||◌, List, [], ◌∷◌, Option,
  none, some, length, ltb, arith, Bool-cases, inl, inr, if◌then◌else◌,
}
use pecl_teds.Run.{Run, ok, throw, runtime, invalid_index, Returns, returns, Returns-bind, ◌>>=◌}
use pecl_teds.Memory.{Block, load}
use pecl_teds.Util.Limit.{Limit}
use pecl_teds.Util.Range.{From, From-load, From-next}
use pecl_teds.Compare.{Comparison}
use pecl_teds.Deque.Keys.{found}
use pecl_teds.Vector.{Entries, Holds}
use pecl_teds.Vector.Keys.Laws.{load-Holds, Holds-From}
use pecl_teds.StrictSortedVectorSet.Sorted.{Ascending, position_lt}
use pecl_teds.StrictSortedVectorMap.{Entry, sorted_search, insert_pair}
use pecl_teds.StrictSortedVectorMap.Search.{by_key, place, searches-place}
use pecl_teds.StrictSortedVectorMap.Finds.{find, put, find-there, find-missing}
use pecl_teds.StrictSortedVectorMap.Listed.{insert_pair-list}

module _ {A : Type 0} (identical : A → A → Bool) (value : A) where
  -- The loop of teds_strictsortedvectormap_find_value, with `n` rounds left: the offset, if any.
  unfoldable pub find_value_loop : Block (Entry A) → ℕ → ℕ → Run (Option ℕ)
  find_value_loop entries i zero = ok none
  find_value_loop entries i (suc n) = load entries i >>= λ e.
      let rest = find_value_loop entries (i + 1) n in
      if identical value e.1 then ok (some i) else rest

  -- StrictSortedVectorMap::contains
  unfoldable pub contains_value : Entries (Entry A) → Run Bool
  contains_value array = find_value_loop array.entries 0 array.size >>= λ entry. elim entry [
    | none ↦ ok false
    | some i ↦ ok true
  ]

  -- One of the pairs has the value.
  abbrev pub any_value : List (Entry A) → Bool
  any_value [] = false
  any_value (x ∷ q) = identical value x.1 || any_value q

  find_value_loop-any :
      (q : List (Entry A)) (entries : Block (Entry A)) (i : ℕ)
      → From entries i q
      → Returns
          (λ entry. found entry false (λ j. true) ≡ any_value q)
          (find_value_loop entries i (length q))
  unfolding find_value_loop
  find_value_loop-any [] entries i f = returns refl
  find_value_loop-any (x ∷ q) entries i f =
      rw (From-load entries i x q f) (elim (Bool-cases (identical value x.1)) [
        | inl yes_x ↦ rw yes_x (returns refl)
        | inr no_x ↦ rw no_x (find_value_loop-any q entries (i + 1) (From-next entries i x q f))
      ])

  contains_value-any :
      (array : Entries (Entry A)) (q : List (Entry A))
      → Holds array q
      → contains_value array ≡ ok (any_value q)
  unfolding contains_value
  contains_value-any array q h =
      rw h.count (answered (find_value_loop-any q array.entries 0 (Holds-From array q h)))
    where
      answered :
          {call : Run (Option ℕ)}
          → Returns (λ entry. found entry false (λ j. true) ≡ any_value q) call
          → (call >>= λ entry. elim entry [ none ↦ ok false | some i ↦ ok true ]) ≡ ok (any_value q)
      answered (returns {value = none} e) = ap ok e
      answered (returns {value = some i} e) = ap ok e

module _ {A : Type 0} (order : Comparison A) where
  -- teds_strictsortedvectormap_write_dimension. No offset is `$map[] = $value`.
  unfoldable pub write_dimension : ℕ → Entries (Entry A) → Option A → A → Run (Entries (Entry A))
  write_dimension max_pairs array none value = throw runtime
  write_dimension max_pairs array (some offset) value =
      insert_pair order max_pairs array offset value false >>= λ (after, new). ok after

  -- teds_strictsortedvectormap_read_dimension. `uninitialized` is the zval of the engine, and
  -- `quiet` says that the type is BP_VAR_IS.
  unfoldable pub read_dimension : A → Bool → Entries (Entry A) → Option A → Run A
  read_dimension uninitialized quiet array none =
      if quiet then ok uninitialized else throw invalid_index
  read_dimension uninitialized quiet array (some offset) =
      (if ltb 0 array.size then sorted_search order array offset else ok (0, false))
      >>= λ (entry, there). elim there [
        | true ↦ load array.entries entry >>= λ e. ok e.1
        | false ↦ if quiet then ok uninitialized else throw invalid_index
      ]

  -- teds_strictsortedvectormap_has_dimension. `counts` is teds_has_dimension_helper, the test of
  -- isset or of empty.
  unfoldable pub has_dimension : (A → Bool) → Entries (Entry A) → A → Run Bool
  has_dimension counts array offset =
      if ltb 0 array.size
      then (sorted_search order array offset >>= λ (entry, there). elim there [
        | true ↦ load array.entries entry >>= λ e. ok (counts e.1)
        | false ↦ ok false
      ])
      else ok false

  -- On an array whose keys ascend and that holds fewer than 2 ^ 31 pairs, the read of `$map[$key]`,
  -- with and without BP_VAR_IS, isset and empty answer by the value that the list of the pairs has
  -- under the key or by its absence, and contains says whether one of the values is identical to
  -- the argument.
  pub dimensions-find :
      (array : Entries (Entry A)) (q : List (Entry A)) (key : A) (h : Holds array q)
      → Ascending (by_key order) q
      → length q < 2 ^ 31
      → (uninitialized : A) (quiet : Bool) (counts : A → Bool) (identical : A → A → Bool)
      → (read_dimension uninitialized quiet array (some key)
          ≡ found
              (find order q key)
              (if quiet then ok uninitialized else throw invalid_index)
              (λ value. ok value))
        × (has_dimension counts array key ≡ ok (found (find order q key) false counts))
        × (contains_value identical key array ≡ ok (any_value identical key q))
  unfolding read_dimension has_dimension
  dimensions-find array q key h asc small uninitialized quiet counts identical =
      let search = (searches-place order key q asc array h small).0 in
      let any = contains_value-any identical key array q h in
      elim (Bool-cases (place order key q).1) [
        | inl there ↦
            let (e, at, value) = find-there order key q there in
            let lt = position_lt (by_key order) (key, key) q there in
            let some_yet : ltb 0 array.size ≡ true = ground (arith, h.count) in
            let read = load-Holds _ h lt at in
            rw (some_yet, search, there, read, value) (refl, refl, any)
        | inr missing ↦
            let value = find-missing order key q asc missing in
            elim (Bool-cases (ltb 0 array.size)) [
              | inl some_yet ↦ rw (some_yet, search, missing, value) (refl, refl, any)
              | inr none_yet ↦ rw (none_yet, value) (refl, refl, any)
            ]
      ]

  -- `$map[$key] = $value` is offsetSet, and `$map[] = $value` throws.
  pub write_dimension-put :
      (half : ℕ) (l : Limit half) (array : Entries (Entry A)) (q : List (Entry A)) (value : A)
      (h : Holds array q)
      → Ascending (by_key order) q
      → length q < half
      → (key : A)
      → (write_dimension (half * 2) array none value ≡ throw runtime)
        × Returns
            (λ e. Holds e (put order key value q))
            (write_dimension (half * 2) array (some key) value)
  unfolding write_dimension
  write_dimension-put half l array q value h asc fits key = (
    refl,
    Returns-bind
        (insert_pair-list order array q key h asc (omega (arith, l.ceiling)) half l value false
          fits)
        λ got (kept, answered). returns kept,
  )
