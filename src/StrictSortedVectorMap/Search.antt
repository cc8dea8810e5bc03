-- ===== src/StrictSortedVectorMap/Search.antt =====
-- teds_strictsortedvectormap.c: both searches find the place of the key.
use pecl_teds.Base.{
  ℕ, zero, suc, ◌+◌, ◌-◌, ◌*◌, ◌/◌, ◌^◌, ◌<◌, ◌≤◌, ◌≡◌, ap, ◌∙◌, Bool, List, length, get_elem?-some,
  arith, ltb, leb, ltb→lt, ltb→le, leb→le, leb→lt, Bool-cases, inl, inr, dec_lt, ◌==◌,
  if◌then◌else◌,
}
use pecl_teds.Machine.{u32}
use pecl_teds.Run.{ok}
use pecl_teds.Compare.{Comparison}
use pecl_teds.Compare.Laws.{Sign-cases}
use pecl_teds.Vector.{Entries, Holds}
use pecl_teds.Vector.Keys.Laws.{load-Holds}
use pecl_teds.StrictSortedVectorSet.Sorted.{Ascending, position}
use pecl_teds.StrictSortedVectorSet.Search.{
  Between, Between-all, Between-up, Between-down, at_missing, at_found,
}
use pecl_teds.StrictSortedVectorMap.{
  Entry, search_loop, sorted_search, search_from, search_probably_last,
}

module _ {A : Type 0} (order : Comparison A) where
  -- Pairs by their keys, as teds_strictsortedvectormap_entry_compare does.
  abbrev pub by_key : Comparison (Entry A)
  by_key = record {
    stable_compare = λ x y. order.stable_compare x.0 y.0;
    swapped = λ x y. order.swapped x.0 y.0;
    transitive = λ x y z. order.transitive x.0 y.0 z.0;
  }

  -- The place of the key among the pairs, by a walk from the front.
  abbrev pub place : A → List (Entry A) → ℕ × Bool
  place key q = position by_key (key, key) q

  module _ (key : A) (q : List (Entry A)) (asc : Ascending by_key q) (array : Entries (Entry A))
      (h : Holds array q) (small : length q < 2 ^ 31) where
    search_loop_lem :
        (fuel start end : ℕ)
        → Between by_key (key, key) q start end
        → end - start < fuel
        → search_loop order fuel array.entries key start end ≡ ok (place key q)
    unfolding search_loop
    search_loop_lem zero start end b enough = absurd (omega arith)
    search_loop_lem (suc fuel) start end b enough = elim (Bool-cases (ltb start end)) [
      | inr none_left ↦
          rw (search_loop, none_left)
            (at_missing by_key (key, key) q asc array h (omega arith) start end b
              (ltb→le _ _ none_left))
      | inl some_left ↦
          let lt = ltb→lt _ _ some_left in
          let mid = start + (end - start) / 2 in
          let (e, at) = get_elem?-some q mid (omega (arith, b.inside)) in
          let narrow : u32 mid ≡ mid = omega (arith, b.inside) in
          let narrow' : u32 (u32 mid + 1) ≡ mid + 1 = omega (arith, b.inside) in
          let read = load-Holds mid h (omega (arith, b.inside)) at in
          elim (Sign-cases (order.stable_compare key e.0)) [
            | inl up ↦
                rw (search_loop, some_left, narrow, read, up)
                  (ap (λ t. search_loop order fuel array.entries key t end) narrow'
                    ∙ search_loop_lem fuel (mid + 1) end
                        (Between-up by_key (key, key) q asc start end mid e b (omega arith) at up)
                        (omega arith))
            | inr (inl down) ↦
                rw (search_loop, some_left, narrow, read, down)
                  (ap (λ t. search_loop order fuel array.entries key start t) narrow
                    ∙ search_loop_lem fuel start mid
                        (Between-down by_key (key, key) q asc start end mid e b (omega arith)
                          (omega arith) at down)
                        (omega arith))
            | inr (inr same) ↦
                rw (search_loop, some_left, narrow, read, same, narrow)
                  (at_found by_key (key, key) q asc array h (omega arith) mid e at same)
          ]
    ]

    -- The entry at `mid` may be the one at `end`, which is known to stand behind the key: then the
    -- step halves nothing, and the next one reads the entry at `start`.
    search_from_lem :
        (fuel start end mid : ℕ)
        → Between by_key (key, key) q start end
        → start ≤ mid
        → mid ≤ end
        → mid < length q
        → (mid + 1 < end → end < length q)
        → start < end
        → (end - start) * 2 + (if mid == end then 1 else 0) < fuel
        → search_from order fuel array.entries key start end mid ≡ ok (place key q)
    unfolding search_from
    search_from_lem zero start end mid b le le' lt wide left enough = absurd (omega arith)
    search_from_lem (suc fuel) start end mid b le le' lt wide left enough =
        let (e, at) = get_elem?-some q mid lt in
        let narrow : u32 (mid + 1) ≡ mid + 1 = omega arith in
        let read = load-Holds mid h lt at in
        elim (Sign-cases (order.stable_compare key e.0)) [
          | inl up ↦
              let before : mid < end = elim (dec_lt mid end) [
                | yes yes_lt ↦ yes_lt
                | no ge ↦ cc (up, b.above mid e (omega arith) at)
              ] in
              let b' = Between-up by_key (key, key) q asc start end mid e b before at up in
              let next = mid + 1 + (end - mid) / 2 in
              elim (Bool-cases (leb end (mid + 1))) [
                | inl done ↦
                    rw (read, up, narrow, done, narrow)
                      (at_missing by_key (key, key) q asc array h (omega arith) (mid + 1) end b'
                        (leb→le _ _ done))
                | inr more ↦
                    let far : mid + 1 < end = leb→lt _ _ more in
                    let last = wide far in
                    let narrow' : u32 next ≡ next = omega arith in
                    rw (read, up, narrow, more)
                      (ap
                          (λ t.
                            search_from order fuel array.entries key t end
                              (u32 (t + (end - mid) / 2)))
                          narrow
                        ∙ ap (λ t. search_from order fuel array.entries key (mid + 1) end t) narrow'
                        ∙ search_from_lem fuel (mid + 1) end next b' (omega arith) (omega arith)
                            (omega arith) (λ w. last) far (ground arith))
              ]
          | inr (inl down) ↦
              let b' = Between-down by_key (key, key) q asc start end mid e b le le' at down in
              elim (Bool-cases (leb mid start)) [
                | inl done ↦
                    rw (read, down, done)
                      (at_missing by_key (key, key) q asc array h (omega arith) start mid b'
                        (leb→le _ _ done))
                | inr more ↦
                    let far : start < mid = leb→lt _ _ more in
                    let next : u32 (start + (mid - mid) / 2) ≡ start = omega arith in
                    rw (read, down, more)
                      (ap (λ t. search_from order fuel array.entries key start mid t) next
                        ∙ search_from_lem fuel start mid start b' (omega arith) (omega arith)
                            (omega arith) (λ w. lt) far (ground arith))
              ]
          | inr (inr same) ↦
              rw (read, same) (at_found by_key (key, key) q asc array h (omega arith) mid e at same)
        ]

    -- On an array of fewer than 2 ^ 31 pairs whose keys ascend, both searches, the binary one and
    -- the one that begins at the last pair and whose steps need not halve what is left, end
    -- within their fuel and find what a walk from the front finds: the place of the pair whose
    -- key compares as equal, or the place where the pair is to be put.
    pub searches-place :
        (sorted_search order array key ≡ ok (place key q))
        × (search_probably_last order array key ≡ ok (place key q))
    unfolding sorted_search search_probably_last
    searches-place = (
      rw h.count (
          search_loop_lem (length q + 1) 0 (length q) (Between-all by_key (key, key) q)
            (omega arith)),
      elim (Bool-cases (ltb 0 array.size)) [
        | inl some_yet ↦
            let pos : 0 < length q = omega (arith, ltb→lt _ _ some_yet, h.count) in
            rw (some_yet, h.count)
              (search_from_lem (length q * 2 + 2) 0 (length q) (length q - 1)
                (Between-all by_key (key, key) q) (omega arith) (omega arith) (omega arith)
                (λ w. absurd (omega arith)) pos (ground arith))
        | inr none_yet ↦ rw none_yet (
            at_missing by_key (key, key) q asc array h (omega arith) 0 (length q)
              (Between-all by_key (key, key) q) (omega (arith, ltb→le _ _ none_yet, h.count)))
      ],
    )
