-- ===== src/StrictSortedVectorSet/Search.antt =====
-- teds_strictsortedvectorset.c: both binary searches find the place of the key.
use pecl_teds.Base.{
  ℕ, zero, suc, ◌+◌, ◌-◌, ◌/◌, ◌^◌, ◌<◌, ◌≤◌, ◌≡◌, refl, sym, ap, ◌∙◌, Bool, true, false, List,
  some, length, get_elem?, get_elem?-some, get_elem?-some_lt, arith, ltb, leb, ltb→lt, ltb→le,
  leb→le, leb→lt, Bool-cases, inl, inr, dec_lt,
}
use pecl_teds.Machine.{u32}
use pecl_teds.Run.{Run, ok}
use pecl_teds.Compare.{negative, null, positive, Comparison}
use pecl_teds.Compare.Laws.{Sign-cases, trans-Less-le, Less-trans, compare-swap}
use pecl_teds.Vector.{Entries, Holds}
use pecl_teds.Vector.Keys.Laws.{load-Holds}
use pecl_teds.StrictSortedVectorSet.{
  search_loop, sorted_search_for_key, search_from, search_probably_largest,
}
use pecl_teds.StrictSortedVectorSet.Sorted.{Ascending, position, Position, Position-unique}

module _ {A : Type 0} (order : Comparison A) (key : A) where
  -- The key stands behind each entry before `start`, and before each entry from `end` on.
  pub record Between (q : List A) (start end : ℕ) : Type 0 where
    pub below :
        (j : ℕ) (a : A) → j < start → get_elem? q j ≡ some a → order.stable_compare key a ≡ positive
    pub above :
        (j : ℕ) (a : A) → end ≤ j → get_elem? q j ≡ some a → order.stable_compare key a ≡ negative
    pub ordered : start ≤ end
    pub inside : end ≤ length q

  pub Between-all : (q : List A) → Between q 0 (length q)
  Between-all q = record {
    below = λ j a lt. absurd (omega arith);
    above = λ j a le e. absurd (omega (arith, get_elem?-some_lt q j a e));
    ordered = omega arith;
    inside = omega arith;
  }

  module _ (q : List A) (asc : Ascending order q) where
    pub Between-up :
        (start end mid : ℕ) (e : A)
        → Between q start end
        → mid < end
        → get_elem? q mid ≡ some e
        → order.stable_compare key e ≡ positive
        → Between q (mid + 1) end
    Between-up start end mid e b lt at up = record {
      below = λ j a ltj get. elim (dec_lt j mid) [
        | yes before ↦ compare-swap order a key (
            trans-Less-le order a e key (asc j mid a e before get at)
              (λ down. cc (down, compare-swap order key e up)))
        | no here ↦
            let same : j ≡ mid = omega arith in
            let eq : some a ≡ some e = sym get ∙ ap (get_elem? q) same ∙ at in cc (eq, up)
      ];
      above = b.above;
      ordered = omega arith;
      inside = b.inside;
    }

    pub Between-down :
        (start end mid : ℕ) (e : A)
        → Between q start end
        → start ≤ mid
        → mid ≤ end
        → get_elem? q mid ≡ some e
        → order.stable_compare key e ≡ negative
        → Between q start mid
    Between-down start end mid e b le lt at down = record {
      below = b.below;
      above = λ j a lej get. elim (dec_lt mid j) [
        | yes after ↦ Less-trans order key e a down (asc mid j e a after at get)
        | no here ↦
            let same : j ≡ mid = omega arith in
            let eq : some a ≡ some e = sym get ∙ ap (get_elem? q) same ∙ at in cc (eq, down)
      ];
      ordered = le;
      inside = omega (arith, b.inside);
    }

    -- Nothing is left between.
    pub Position-missing :
        (start end : ℕ) → Between q start end → end ≤ start → Position order q key start false
    Position-missing start end b le = record {
      below = b.below;
      at = λ a get. b.above start a le get;
      inside = omega (arith, b.ordered, b.inside);
      there = λ e. cc e;
    }

    pub Position-found :
        (mid : ℕ) (e : A)
        → get_elem? q mid ≡ some e
        → order.stable_compare key e ≡ null
        → Position order q key mid true
    Position-found mid e at same = record {
      below = λ j a lt get. compare-swap order a key (
          trans-Less-le order a e key (asc j mid a e lt get at)
            (λ up. cc (up, compare-swap order key e same)));
      at = λ a get. cc (sym get ∙ at, same);
      inside = omega (arith, get_elem?-some_lt q mid e at);
      there = λ yes. get_elem?-some_lt q mid e at;
    }

    module _ (array : Entries A) (h : Holds array q) (small : length q < 2 ^ 32) where
      pub at_missing :
          (start end : ℕ)
          → Between q start end
          → end ≤ start
          → Path (Run (ℕ × Bool)) (ok (start, false)) (ok (position order key q))
      at_missing start end b le =
          rw (Position-unique order q key start false (Position-missing start end b le)) refl

      pub at_found :
          (mid : ℕ) (e : A)
          → get_elem? q mid ≡ some e
          → order.stable_compare key e ≡ null
          → Path (Run (ℕ × Bool)) (ok (mid, true)) (ok (position order key q))
      at_found mid e at same =
          rw (Position-unique order q key mid true (Position-found mid e at same)) refl

      search_loop_lem :
          (fuel start end : ℕ)
          → Between q start end
          → end - start < fuel
          → search_loop order fuel array.entries key start end ≡ ok (position order key q)
      unfolding search_loop
      search_loop_lem zero start end b enough = absurd (omega arith)
      search_loop_lem (suc fuel) start end b enough = elim (Bool-cases (ltb start end)) [
        | inr none_left ↦
            rw (search_loop, none_left) (at_missing start end b (ltb→le _ _ none_left))
        | inl some_left ↦
            let lt = ltb→lt _ _ some_left in
            let mid = start + (end - start) / 2 in
            let (e, at) = get_elem?-some q mid (omega (arith, b.inside)) in
            let narrow : u32 mid ≡ mid = omega (arith, b.inside) in
            let narrow' : u32 (u32 mid + 1) ≡ mid + 1 = omega (arith, b.inside) in
            let read = load-Holds mid h (omega (arith, b.inside)) at in
            elim (Sign-cases (order.stable_compare key e)) [
              | inl up ↦
                  rw (search_loop, some_left, narrow, read, up)
                    (ap (λ t. search_loop order fuel array.entries key t end) narrow'
                      ∙ search_loop_lem fuel (mid + 1) end
                          (Between-up start end mid e b (omega arith) at up) (omega arith))
              | inr (inl down) ↦
                  rw (search_loop, some_left, narrow, read, down)
                    (ap (λ t. search_loop order fuel array.entries key start t) narrow
                      ∙ search_loop_lem fuel start mid
                          (Between-down start end mid e b (omega arith) (omega arith) at down)
                          (omega arith))
              | inr (inr same) ↦
                  rw (search_loop, some_left, narrow, read, same, narrow) (at_found mid e at same)
            ]
      ]

      search_from_lem :
          (fuel start end mid : ℕ)
          → Between q start end
          → start ≤ mid
          → mid < end
          → end - start < fuel
          → search_from order fuel array.entries key start end mid ≡ ok (position order key q)
      unfolding search_from
      search_from_lem zero start end mid b le lt enough = absurd (omega arith)
      search_from_lem (suc fuel) start end mid b le lt enough =
          let (e, at) = get_elem?-some q mid (omega (arith, b.inside)) in
          let narrow : u32 (mid + 1) ≡ mid + 1 = omega (arith, b.inside) in
          let read = load-Holds mid h (omega (arith, b.inside)) at in
          elim (Sign-cases (order.stable_compare key e)) [
            | inl up ↦
                let b' = Between-up start end mid e b lt at up in
                let next = mid + 1 + (end - (mid + 1)) / 2 in
                let narrow' : u32 next ≡ next = omega (arith, b.inside) in
                elim (Bool-cases (leb end (mid + 1))) [
                  | inl done ↦
                      rw (read, up, narrow, done, narrow)
                        (at_missing (mid + 1) end b' (leb→le _ _ done))
                  | inr more ↦
                      rw (read, up, narrow, more)
                        (ap
                            (λ t.
                              search_from order fuel array.entries key t end
                                (u32 (t + (end - t) / 2)))
                            narrow
                          ∙ ap (λ t. search_from order fuel array.entries key (mid + 1) end t)
                              narrow'
                          ∙ search_from_lem fuel (mid + 1) end next b' (omega arith)
                              (omega (arith, leb→lt _ _ more)) (omega arith))
                ]
            | inr (inl down) ↦
                let b' = Between-down start end mid e b le (omega arith) at down in
                let next = start + (mid - start) / 2 in
                let narrow' : u32 next ≡ next = omega (arith, b.inside) in
                elim (Bool-cases (leb mid start)) [
                  | inl done ↦ rw (read, down, done) (at_missing start mid b' (leb→le _ _ done))
                  | inr more ↦
                      rw (read, down, more)
                        (ap (λ t. search_from order fuel array.entries key start mid t) narrow'
                          ∙ search_from_lem fuel start mid next b' (omega arith)
                              (omega (arith, leb→lt _ _ more)) (omega arith))
                ]
            | inr (inr same) ↦ rw (read, same) (at_found mid e at same)
          ]

      -- On an ascending array of fewer than 2 ^ 32 values, both binary searches, the one that
      -- begins in the middle and the one that begins at the last value, end within their fuel and
      -- find what a walk from the front finds: the place of the value that compares as equal to
      -- the key, or the place where the key is to be put.
      pub searches-position :
          (sorted_search_for_key order array key ≡ ok (position order key q))
          × (search_probably_largest order array key ≡ ok (position order key q))
      unfolding sorted_search_for_key search_probably_largest
      searches-position = (
        rw h.count (search_loop_lem (length q + 1) 0 (length q) (Between-all q) (omega arith)),
        elim (Bool-cases (ltb 0 array.size)) [
          | inl some_yet ↦
              rw (some_yet, h.count)
                (search_from_lem (length q + 1) 0 (length q) (length q - 1) (Between-all q)
                  (omega arith) (omega (arith, ltb→lt _ _ some_yet, h.count)) (omega arith))
          | inr none_yet ↦ rw none_yet (
              at_missing 0 (length q) (Between-all q) (omega (arith, ltb→le _ _ none_yet, h.count)))
        ],
      )
