-- ===== src/StrictSortedVectorMap/Finds.antt =====
-- Lists of pairs whose keys ascend as maps: what a key has, and what replacing and adding
-- a pair do to it.
use pecl_teds.Base.{
  suc, ◌+◌, ◌≤◌, ◌≡◌, refl, sym, ap, ◌∙◌, true, false, List, [], ◌∷◌, Option, none, some, length,
  get_elem?, set, insert_at, arith, inl, inr, Bool-cases, if◌then◌else◌,
}
use pecl_teds.Compare.{positive, negative, null, Comparison}
use pecl_teds.Compare.Laws.{Sign-cases, Less, compare-swap, compare-same}
use pecl_teds.StrictSortedVectorSet.Sorted.{Ascending, position}
use pecl_teds.StrictSortedVectorSet.Sets.{
  same, is_null_sign, Ahead, Ascending-head, Ascending-tail, Ascending-cons, Ahead-trans,
  Ahead-cons, remove_from, same-compare, same-left, same-right,
}
use pecl_teds.StrictSortedVectorMap.{Entry}
use pecl_teds.StrictSortedVectorMap.Search.{by_key, place}

module _ {A : Type 0} (order : Comparison A) where
  -- The value of the first pair with the key.
  abbrev pub find : List (Entry A) → A → Option A
  find [] a = none
  find (x ∷ q) a = if same order a x.0 then some x.1 else find q a

  -- The pair is put in its place, or the value of the key replaced.
  unfoldable pub put : A → A → List (Entry A) → List (Entry A)
  put key value [] = (key, value) ∷ []
  put key value (x ∷ q) = elim (order.stable_compare key x.0) [
    | positive ↦ x ∷ put key value q
    | negative ↦ (key, value) ∷ (x ∷ q)
    | null ↦ (x.0, value) ∷ q
  ]

  -- The pair with the key is taken out.
  abbrev pub drop : A → List (Entry A) → List (Entry A)
  drop key q = remove_from (by_key order) (key, key) q

  -- A key that compares as one that stands before the list is none of the list.
  pub find-level :
      (a : A) (x : Entry A) (q : List (Entry A))
      → order.stable_compare a x.0 ≡ null
      → Ahead (by_key order) x q
      → find q a ≡ none
  find-level a x [] level ahead = refl
  find-level a x (y ∷ q) level ahead =
      rw (compare-same order a x.0 y.0 level, ahead 0 y refl)
        (find-level a x q level (λ j z get. ahead (suc j) z get))

  module _ (key : A) where
    pub find-there :
        (q : List (Entry A))
        → (place order key q).1 ≡ true
        → (e : Entry A) × (get_elem? q (place order key q).0 ≡ some e) × (find q key ≡ some e.1)
    unfolding position
    find-there [] there = cc there
    find-there (x ∷ q) there = elim (Sign-cases (order.stable_compare key x.0)) [
      | inl up ↦
          let there' : (place order key q).1 ≡ true = rw (← there, position, up) refl in
          rw (position, up) (find-there q there')
      | inr (inl down) ↦
          let e : (place order key (x ∷ q)).1 ≡ false = rw (position, down) refl in cc (there, e)
      | inr (inr level) ↦ rw (position, level) (x, refl, refl)
    ]

    pub find-Ahead :
        (value : A) (q : List (Entry A)) → Ahead (by_key order) (key, value) q → find q key ≡ none
    find-Ahead value [] ahead = refl
    find-Ahead value (x ∷ q) ahead =
        rw (ahead 0 x refl) (find-Ahead value q (λ j y get. ahead (suc j) y get))

    pub find-missing :
        (q : List (Entry A))
        → Ascending (by_key order) q
        → (place order key q).1 ≡ false
        → find q key ≡ none
    unfolding position
    find-missing [] asc missing = refl
    find-missing (x ∷ q) asc missing = elim (Sign-cases (order.stable_compare key x.0)) [
      | inl up ↦
          let missing' : (place order key q).1 ≡ false = rw (← missing, position, up) refl in
          rw up (find-missing q (Ascending-tail (by_key order) x q asc) missing')
      | inr (inl down) ↦ rw down (
          find-Ahead key q (
            Ahead-trans (by_key order) (key, key) x q down (Ascending-head (by_key order) x q asc)))
      | inr (inr level) ↦
          let e : (place order key (x ∷ q)).1 ≡ true = rw (position, level) refl in cc (missing, e)
    ]

    module _ (value : A) where
      pub set-place :
          (q : List (Entry A)) (e : Entry A)
          → (place order key q).1 ≡ true
          → get_elem? q (place order key q).0 ≡ some e
          → set q (place order key q).0 (e.0, value) ≡ put key value q
      unfolding position put
      set-place [] e there at = cc there
      set-place (x ∷ q) e there at = elim (Sign-cases (order.stable_compare key x.0)) [
        | inl up ↦
            let there' : (place order key q).1 ≡ true = rw (← there, position, up) refl in
            let at' : get_elem? q (place order key q).0 ≡ some e = rw (← at, position, up) refl in
            rw (position, put, up) (ap (λ t. x ∷ t) (set-place q e there' at'))
        | inr (inl down) ↦
            let e : (place order key (x ∷ q)).1 ≡ false = rw (position, down) refl in cc (there, e)
        | inr (inr level) ↦
            let here : some x ≡ some e = rw (← at, position, level) refl in
            let eq : x ≡ e = cc here in
            rw (position, put, level) (ap (λ (t : Entry A). (t.0, value) ∷ q) (sym eq))
      ]

      pub insert_at-place :
          (q : List (Entry A))
          → (place order key q).1 ≡ false
          → insert_at (place order key q).0 ((key, value) ∷ []) q ≡ put key value q
      unfolding position put
      insert_at-place [] missing = refl
      insert_at-place (x ∷ q) missing = elim (Sign-cases (order.stable_compare key x.0)) [
        | inl up ↦
            let missing' : (place order key q).1 ≡ false = rw (← missing, position, up) refl in
            rw (position, put, up) (ap (λ t. x ∷ t) (insert_at-place q missing'))
        | inr (inl down) ↦ rw (position, put, down) refl
        | inr (inr level) ↦
            let e : (place order key (x ∷ q)).1 ≡ true = rw (position, level) refl in
            cc (missing, e)
      ]

      Ahead-put :
          (x : Entry A) (q : List (Entry A))
          → Less order x.0 key
          → Ahead (by_key order) x q
          → Ahead (by_key order) x (put key value q)
      unfolding put
      Ahead-put x [] lt ahead = Ahead-cons (by_key order) x (key, value) [] lt ahead
      Ahead-put x (y ∷ q) lt ahead = elim (Sign-cases (order.stable_compare key y.0)) [
        | inl up ↦
            rw (put, up)
              (Ahead-cons (by_key order) x y (put key value q) (ahead 0 y refl)
                (Ahead-put x q lt (λ j. ahead (suc j))))
        | inr (inl down) ↦
            rw (put, down) (Ahead-cons (by_key order) x (key, value) (y ∷ q) lt ahead)
        | inr (inr level) ↦
            rw (put, level)
              (Ahead-cons (by_key order) x (y.0, value) q (ahead 0 y refl) (λ j. ahead (suc j)))
      ]

      pub put-Ascending :
          (q : List (Entry A))
          → Ascending (by_key order) q
          → Ascending (by_key order) (put key value q)
      unfolding put
      put-Ascending [] asc =
          Ascending-cons (by_key order) (key, value) [] (λ j a get. cc get)
            (λ i j a b lt at_i at_j. cc at_i)
      put-Ascending (x ∷ q) asc = elim (Sign-cases (order.stable_compare key x.0)) [
        | inl up ↦
            rw (put, up)
              (Ascending-cons (by_key order) x (put key value q)
                (Ahead-put x q (compare-swap order key x.0 up)
                  (Ascending-head (by_key order) x q asc))
                (put-Ascending q (Ascending-tail (by_key order) x q asc)))
        | inr (inl down) ↦
            rw (put, down)
              (Ascending-cons (by_key order) (key, value) (x ∷ q)
                (Ahead-cons (by_key order) (key, value) x q down
                  (Ahead-trans (by_key order) (key, value) x q down
                    (Ascending-head (by_key order) x q asc)))
                asc)
        | inr (inr level) ↦
            rw (put, level)
              (Ascending-cons (by_key order) (x.0, value) q (Ascending-head (by_key order) x q asc)
                (Ascending-tail (by_key order) x q asc))
      ]

      pub put-find :
          (q : List (Entry A)) (a : A)
          → find (put key value q) a ≡ (if same order a key then some value else find q a)
      unfolding put
      put-find [] a = refl
      put-find (x ∷ q) a = elim (Sign-cases (order.stable_compare key x.0)) [
        | inl up ↦
            rw (put, up)
              (elim (Bool-cases (same order a x.0)) [
                | inl yes_x ↦
                    let other : same order a key ≡ false =
                      same-left order a x.0 key (same-compare order a x.0 yes_x)
                      ∙ ap is_null_sign (compare-swap order key x.0 up) in
                    rw (yes_x, other) refl
                | inr no_x ↦ rw no_x (put-find q a)
              ])
        | inr (inl down) ↦ rw (put, down) refl
        | inr (inr level) ↦ rw (put, level, same-right order a key x.0 level) (ground arith)
      ]

      pub length-put_le : (q : List (Entry A)) → length (put key value q) ≤ length q + 1
      unfolding put
      length-put_le [] = omega arith
      length-put_le (x ∷ q) = elim (Sign-cases (order.stable_compare key x.0)) [
        | inl up ↦ rw (put, up) (omega (arith, length-put_le q))
        | inr (inl down) ↦ rw (put, down) (omega arith)
        | inr (inr level) ↦ rw (put, level) (omega arith)
      ]
