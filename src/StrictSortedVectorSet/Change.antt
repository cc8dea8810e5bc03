-- ===== src/StrictSortedVectorSet/Change.antt =====
-- What adding and removing a key do to an ascending list as a set.
use pecl_teds.Base.{
  suc, ◌≡◌, refl, ap, ◌∙◌, true, false, not, ◌&&◌, ◌||◌, List, [], ◌∷◌, insert_at, remove_at, arith,
  inl, inr, Bool-cases,
}
use pecl_teds.Compare.{Comparison}
use pecl_teds.Compare.Laws.{Sign-cases, Less, compare-swap}
use pecl_teds.StrictSortedVectorSet.Sorted.{Ascending, position}
use pecl_teds.StrictSortedVectorSet.Sets.{
  insert_key, remove_from, same, has, is_null_sign, Ahead, Ascending-head, Ascending-tail,
  Ascending-cons, Ahead-trans, Ahead-cons, same-compare, same-left, same-right, has-same_Ahead,
}

module _ {A : Type 0} (order : Comparison A) (key : A) where
  -- The list changes at the place that the walk finds.
  pub insert_at-position :
      (q : List A)
      → (position order key q).1 ≡ false
      → insert_at (position order key q).0 (key ∷ []) q ≡ insert_key order key q
  unfolding position insert_key
  insert_at-position [] missing = refl
  insert_at-position (x ∷ q) missing = elim (Sign-cases (order.stable_compare key x)) [
    | inl up ↦
        let missing' : (position order key q).1 ≡ false = rw (← missing, position, up) refl in
        rw (position, insert_key, up) (ap (λ t. x ∷ t) (insert_at-position q missing'))
    | inr (inl down) ↦ rw (position, insert_key, down) refl
    | inr (inr level) ↦
        let e : (position order key (x ∷ q)).1 ≡ true = rw (position, level) refl in cc (missing, e)
  ]

  pub insert_key-found : (q : List A) → (position order key q).1 ≡ true → insert_key order key q ≡ q
  unfolding position insert_key
  insert_key-found [] there = cc there
  insert_key-found (x ∷ q) there = elim (Sign-cases (order.stable_compare key x)) [
    | inl up ↦
        let there' : (position order key q).1 ≡ true = rw (← there, position, up) refl in
        rw (insert_key, up) (ap (λ t. x ∷ t) (insert_key-found q there'))
    | inr (inl down) ↦
        let e : (position order key (x ∷ q)).1 ≡ false = rw (position, down) refl in cc (there, e)
    | inr (inr level) ↦ rw (insert_key, level) refl
  ]

  pub remove_at-position :
      (q : List A)
      → (position order key q).1 ≡ true
      → remove_at (position order key q).0 q ≡ remove_from order key q
  unfolding position remove_from
  remove_at-position [] there = cc there
  remove_at-position (x ∷ q) there = elim (Sign-cases (order.stable_compare key x)) [
    | inl up ↦
        let there' : (position order key q).1 ≡ true = rw (← there, position, up) refl in
        rw (position, remove_from, up) (ap (λ t. x ∷ t) (remove_at-position q there'))
    | inr (inl down) ↦
        let e : (position order key (x ∷ q)).1 ≡ false = rw (position, down) refl in cc (there, e)
    | inr (inr level) ↦ rw (position, remove_from, level) refl
  ]

  pub remove_from-missing :
      (q : List A) → (position order key q).1 ≡ false → remove_from order key q ≡ q
  unfolding position remove_from
  remove_from-missing [] missing = refl
  remove_from-missing (x ∷ q) missing = elim (Sign-cases (order.stable_compare key x)) [
    | inl up ↦
        let missing' : (position order key q).1 ≡ false = rw (← missing, position, up) refl in
        rw (remove_from, up) (ap (λ t. x ∷ t) (remove_from-missing q missing'))
    | inr (inl down) ↦ rw (remove_from, down) refl
    | inr (inr level) ↦
        let e : (position order key (x ∷ q)).1 ≡ true = rw (position, level) refl in cc (missing, e)
  ]

  Ahead-insert_key :
      (x : A) (q : List A)
      → Less order x key
      → Ahead order x q
      → Ahead order x (insert_key order key q)
  unfolding insert_key
  Ahead-insert_key x [] lt ahead = Ahead-cons order x key [] lt ahead
  Ahead-insert_key x (y ∷ q) lt ahead = elim (Sign-cases (order.stable_compare key y)) [
    | inl up ↦
        rw (insert_key, up)
          (Ahead-cons order x y (insert_key order key q) (ahead 0 y refl)
            (Ahead-insert_key x q lt (λ j. ahead (suc j))))
    | inr (inl down) ↦ rw (insert_key, down) (Ahead-cons order x key (y ∷ q) lt ahead)
    | inr (inr level) ↦ rw (insert_key, level) ahead
  ]

  Ahead-remove_from :
      (x : A) (q : List A) → Ahead order x q → Ahead order x (remove_from order key q)
  unfolding remove_from
  Ahead-remove_from x [] ahead = ahead
  Ahead-remove_from x (y ∷ q) ahead = elim (Sign-cases (order.stable_compare key y)) [
    | inl up ↦
        rw (remove_from, up)
          (Ahead-cons order x y (remove_from order key q) (ahead 0 y refl)
            (Ahead-remove_from x q (λ j. ahead (suc j))))
    | inr (inl down) ↦ rw (remove_from, down) ahead
    | inr (inr level) ↦ rw (remove_from, level) (λ j. ahead (suc j))
  ]

  pub insert_key-Ascending :
      (q : List A) → Ascending order q → Ascending order (insert_key order key q)
  unfolding insert_key
  insert_key-Ascending [] asc =
      Ascending-cons order key [] (λ j a get. cc get) (λ i j a b lt at_i at_j. cc at_i)
  insert_key-Ascending (x ∷ q) asc = elim (Sign-cases (order.stable_compare key x)) [
    | inl up ↦
        rw (insert_key, up)
          (Ascending-cons order x (insert_key order key q)
            (Ahead-insert_key x q (compare-swap order key x up) (Ascending-head order x q asc))
            (insert_key-Ascending q (Ascending-tail order x q asc)))
    | inr (inl down) ↦
        rw (insert_key, down)
          (Ascending-cons order key (x ∷ q)
            (Ahead-cons order key x q down
              (Ahead-trans order key x q down (Ascending-head order x q asc)))
            asc)
    | inr (inr level) ↦ rw (insert_key, level) asc
  ]

  pub remove_from-Ascending :
      (q : List A) → Ascending order q → Ascending order (remove_from order key q)
  unfolding remove_from
  remove_from-Ascending [] asc = asc
  remove_from-Ascending (x ∷ q) asc = elim (Sign-cases (order.stable_compare key x)) [
    | inl up ↦
        rw (remove_from, up)
          (Ascending-cons order x (remove_from order key q)
            (Ahead-remove_from x q (Ascending-head order x q asc))
            (remove_from-Ascending q (Ascending-tail order x q asc)))
    | inr (inl down) ↦ rw (remove_from, down) asc
    | inr (inr level) ↦ rw (remove_from, level) (Ascending-tail order x q asc)
  ]

  pub insert_key-has :
      (q : List A) (a : A)
      → has order (insert_key order key q) a ≡ same order a key || has order q a
  unfolding insert_key
  insert_key-has [] a = refl
  insert_key-has (x ∷ q) a = elim (Sign-cases (order.stable_compare key x)) [
    | inl up ↦ rw (insert_key, up) (ground (arith, insert_key-has q a))
    | inr (inl down) ↦ rw (insert_key, down) refl
    | inr (inr level) ↦ rw (insert_key, level, same-right order a key x level) (ground arith)
  ]

  pub remove_from-has :
      (q : List A)
      → Ascending order q
      → (a : A) → has order (remove_from order key q) a ≡ has order q a && not (same order a key)
  unfolding remove_from
  remove_from-has [] asc a = refl
  remove_from-has (x ∷ q) asc a = elim (Sign-cases (order.stable_compare key x)) [
    | inl up ↦
        let rest = remove_from-has q (Ascending-tail order x q asc) a in
        rw (remove_from, up)
          (elim (Bool-cases (same order a x)) [
            | inl yes_x ↦
                let other : same order a key ≡ false =
                  same-left order a x key (same-compare order a x yes_x)
                  ∙ ap is_null_sign (compare-swap order key x up) in
                rw (yes_x, other) refl
            | inr no_x ↦ rw (no_x, rest) refl
          ])
    | inr (inl down) ↦
        rw (remove_from, down)
          (elim (Bool-cases (same order a key)) [
            | inl yes_key ↦
                let level = same-compare order a key yes_key in
                let all = has-same_Ahead order a key (x ∷ q) level (
                  Ahead-cons order key x q down
                    (Ahead-trans order key x q down (Ascending-head order x q asc))) in
                rw (yes_key, all) refl
            | inr no_key ↦ rw no_key (ground arith)
          ])
    | inr (inr level) ↦
        rw (remove_from, level, same-right order a key x level)
          (elim (Bool-cases (same order a x)) [
            | inl yes_x ↦
                rw
                  (
                    yes_x,
                    has-same_Ahead order a x q (same-compare order a x yes_x)
                        (Ascending-head order x q asc),
                  )
                  refl
            | inr no_x ↦ rw no_x (ground arith)
          ])
  ]
