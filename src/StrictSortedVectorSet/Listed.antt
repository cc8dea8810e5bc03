-- ===== src/StrictSortedVectorSet/Listed.antt =====
-- teds_strictsortedvectorset.c: add, remove and contains on an ascending array, by the list of its
-- values.
use pecl_teds.Base.{
  ℕ, ◌^◌, ◌<◌, ◌≡◌, refl, Bool, true, false, List, not, length, get_elem?-some, arith, Bool-cases,
  inl, inr, ◌==◌, if◌then◌else◌,
}
use pecl_teds.Run.{ok, Returns, returns, Returns-bind, Returns-if}
use pecl_teds.Util.Limit.{Limit}
use pecl_teds.Compare.{Comparison}
use pecl_teds.Vector.{Entries, Holds}
use pecl_teds.Vector.Keys.Laws.{load-Holds}
use pecl_teds.StrictSortedVectorSet.{
  sorted_search_for_key, search_probably_largest, insert, remove_key, contains,
}
use pecl_teds.StrictSortedVectorSet.Sorted.{Ascending, position, position_le, position_lt}
use pecl_teds.StrictSortedVectorSet.Search.{searches-position}
use pecl_teds.StrictSortedVectorSet.Sets.{insert_key, remove_from, has, position-has}
use pecl_teds.StrictSortedVectorSet.Change.{
  insert_at-position, insert_key-found, remove_at-position, remove_from-missing,
}
use pecl_teds.StrictSortedVectorSet.Stored.{remove_at-Holds, insert_key_at-Holds}

module _ {A : Type 0} (order : Comparison A) where
  pub contains-has :
      (array : Entries A) (q : List A) (key : A)
      → Holds array q
      → Ascending order q
      → length q < 2 ^ 32
      → contains order array key ≡ ok (has order q key)
  unfolding contains
  contains-has array q key h asc small =
      rw ((searches-position order key q asc array h small).0, position-has order key q asc) refl

  pub remove_key-list :
      (array : Entries A) (q : List A) (key : A)
      → Holds array q
      → Ascending order q
      → length q < 2 ^ 32
      → Returns
          (λ (r : Entries A × Bool). Holds r.0 (remove_from order key q) × (r.1 ≡ has order q key))
          (remove_key order array key)
  unfolding remove_key
  remove_key-list array q key h asc small =
      let search = (searches-position order key q asc array h small).0 in
      let found = position-has order key q asc in
      let r = position order key q in
      elim (Bool-cases r.1) [
        | inl there ↦
            let lt = position_lt order key q there in
            let (a, e) = get_elem?-some q r.0 lt in
            let some_yet : (array.size == 0) ≡ false = ground (arith, h.count) in
            rw (some_yet, search, there, load-Holds r.0 h lt e, ← found)
              (rw (← remove_at-position order key q there, there)
                (Returns-bind (remove_at-Holds array q r.0 h lt)
                  λ moved kept. returns (kept, refl)))
        | inr missing ↦
            rw (search, remove_from-missing order key q missing, ← found, missing)
              (Returns-if (array.size == 0) (λ nil. returns (h, refl)) (λ pos. returns (h, refl)))
      ]

  module _ (max_size : ℕ) (l : Limit max_size) where
    -- Either search leads to the same.
    pub insert-list :
        (array : Entries A) (q : List A) (key : A) (probably_largest : Bool)
        → Holds array q
        → Ascending order q
        → length q < max_size
        → Returns
            (λ (r : Entries A × Bool).
              Holds r.0 (insert_key order key q) × (r.1 ≡ not (has order q key)))
            (insert order max_size array key probably_largest)
    unfolding insert
    insert-list array q key probably_largest h asc small =
        let search = searches-position order key q asc array h (omega (arith, l.ceiling)) in
        let found = position-has order key q asc in
        rw (either_way array q key probably_largest search, ← found)
          (elim (Bool-cases (position order key q).1) [
            | inl there ↦ rw (there, insert_key-found order key q there) (returns (h, refl))
            | inr missing ↦
                rw (missing, ← insert_at-position order key q missing)
                  (Returns-bind
                    (insert_key_at-Holds max_size l array q key (position order key q).0 h small
                      (position_le order key q))
                    λ e (kept, its). returns (kept, refl))
          ])
      where
        either_way :
            (array : Entries A) (q : List A) (key : A) (probably_largest : Bool)
            → (sorted_search_for_key order array key ≡ ok (position order key q))
              × (search_probably_largest order array key ≡ ok (position order key q))
            → (if probably_largest
                then search_probably_largest order array key
                else sorted_search_for_key order array key)
              ≡ ok (position order key q)
        either_way array q key true (sorted, largest) = largest
        either_way array q key false (sorted, largest) = sorted
