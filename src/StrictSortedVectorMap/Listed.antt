-- ===== src/StrictSortedVectorMap/Listed.antt =====
-- teds_strictsortedvectormap.c: the reads and the writes of one key on an array of pairs whose keys
-- ascend, by the list of the pairs.
use pecl_teds.Base.{
  ℕ, ◌*◌, ◌^◌, ◌<◌, ◌≡◌, refl, Bool, true, false, not, List, Option, none, some, length, arith, ltb,
  ◌==◌, Bool-cases, inl, inr, if◌then◌else◌,
}
use pecl_teds.Run.{
  ok, throw, invalid_index, Returns, returns, Returns-bind, Returns-map, Returns-if,
}
use pecl_teds.Util.Limit.{Limit}
use pecl_teds.Compare.{Comparison}
use pecl_teds.Vector.{Entries, Holds}
use pecl_teds.Vector.Keys.Laws.{load-Holds}
use pecl_teds.Deque.Keys.{found}
use pecl_teds.StrictSortedVectorSet.Sorted.{Ascending, position_le, position_lt}
use pecl_teds.StrictSortedVectorSet.Change.{remove_at-position, remove_from-missing}
use pecl_teds.StrictSortedVectorMap.{
  Entry, sorted_search, search_probably_last, insert_pair, remove_pair, get_or, has_key,
  has_value_at,
}
use pecl_teds.StrictSortedVectorMap.Search.{by_key, place, searches-place}
use pecl_teds.StrictSortedVectorMap.Finds.{
  find, put, drop, find-there, find-missing, set-place, insert_at-place,
}
use pecl_teds.StrictSortedVectorMap.Stored.{
  insert_pair_at-Holds, replace_value_at-Holds, remove_entry-Holds,
}

module _ {A : Type 0} (order : Comparison A) where
  module _ (array : Entries (Entry A)) (q : List (Entry A)) (key : A) (h : Holds array q)
      (asc : Ascending (by_key order) q) (small : length q < 2 ^ 31) where
    -- get, offsetGet, containsKey and offsetExists
    pub reads-find :
        (default : Option A) (is_null : A → Bool)
        → (get_or order array key default
            ≡ found
                (find order q key)
                (elim default [ some default_zv ↦ ok default_zv | none ↦ throw invalid_index ])
                (λ value. ok value))
          × (has_key order array key ≡ ok (found (find order q key) false (λ value. true)))
          × (has_value_at order is_null array key
              ≡ ok (found (find order q key) false (λ value. not (is_null value))))
    unfolding get_or has_key has_value_at
    reads-find default is_null =
        let search = (searches-place order key q asc array h small).0 in
        elim (Bool-cases (place order key q).1) [
          | inl there ↦
              let (e, at, value) = find-there order key q there in
              let lt = position_lt (by_key order) (key, key) q there in
              let some_yet : ltb 0 array.size ≡ true = ground (arith, h.count) in
              let read = load-Holds _ h lt at in
              rw (some_yet, search, there, read, value) (refl, refl, refl)
          | inr missing ↦
              let value = find-missing order key q asc missing in
              elim (Bool-cases (ltb 0 array.size)) [
                | inl some_yet ↦ rw (some_yet, search, missing, value) (refl, refl, refl)
                | inr none_yet ↦ rw (none_yet, value) (refl, refl, refl)
              ]
        ]

    pub remove_pair-list : Returns (λ r. Holds r (drop order key q)) (remove_pair order array key)
    unfolding remove_pair
    remove_pair-list =
        let search = (searches-place order key q asc array h small).0 in
        elim (Bool-cases (place order key q).1) [
          | inl there ↦
              let (e, at, value) = find-there order key q there in
              let lt = position_lt (by_key order) (key, key) q there in
              let some_yet : (array.size == 0) ≡ false = ground (arith, h.count) in
              rw
                (
                  some_yet,
                  search,
                  there,
                  load-Holds _ h lt at,
                  ← remove_at-position (by_key order) (key, key) q there,
                )
                (Returns-map (remove_entry-Holds array q _ h lt) λ r (kept, its). kept)
          | inr missing ↦
              rw (search, missing, remove_from-missing (by_key order) (key, key) q missing)
                (Returns-if (array.size == 0) (λ nil. returns h) (λ pos. returns h))
        ]

    -- Either search leads to the same.
    either_way :
        (probably_largest : Bool)
        → (if probably_largest
            then search_probably_last order array key
            else sorted_search order array key)
          ≡ ok (place order key q)
    either_way true = (searches-place order key q asc array h small).1
    either_way false = (searches-place order key q asc array h small).0

    module _ (half : ℕ) (l : Limit half) where
      pub insert_pair-list :
          (value : A) (probably_largest : Bool)
          → length q < half
          → Returns
              (λ (r : Entries (Entry A) × Bool).
                Holds r.0 (put order key value q)
                × (r.1 ≡ found (find order q key) true (λ old. false)))
              (insert_pair order (half * 2) array key value probably_largest)
      unfolding insert_pair
      insert_pair-list value probably_largest fits =
          rw (either_way probably_largest) (elim (Bool-cases (place order key q).1) [
            | inl there ↦
                let (e, at, old) = find-there order key q there in
                let lt = position_lt (by_key order) (key, key) q there in
                rw (there, old, ← set-place order key value q e there at)
                  (Returns-bind (replace_value_at-Holds array q e value _ h lt at)
                    λ r (kept, its). returns (kept, refl))
            | inr missing ↦
                rw
                  (
                    missing,
                    find-missing order key q asc missing,
                    ← insert_at-place order key value q missing,
                  )
                  (Returns-bind
                    (insert_pair_at-Holds half l array q key value _ h fits
                      (position_le (by_key order) (key, key) q))
                    λ r (kept, its). returns (kept, refl))
          ])
