-- ===== src/StrictSortedVectorMap/Build/Saved.antt =====
-- teds_strictsortedvectormap.c: what a map writes out, what __unserialize and fromPairs read back,
-- and what a clone has.
use mathlib.Core.List.{map}
use pecl_teds.Base.{
  ℕ, ◌+◌, ◌*◌, ◌/◌, ◌%◌, ◌<◌, ◌≤◌, ◌≡◌, refl, ◌∙◌, Bool, true, false, List, [], ◌∷◌, Option, none,
  some, length, arith, ◌==◌,
}
use pecl_teds.Machine.{u32}
use pecl_teds.Run.{ok, Returns, returns, Returns-bind, Returns-map}
use pecl_teds.Util.Limit.{Limit}
use pecl_teds.Util.Range.{read_values_lem}
use pecl_teds.Compare.{Comparison}
use pecl_teds.Deque.Keys.{found}
use pecl_teds.Vector.{Entries, Holds}
use pecl_teds.Vector.Keys.Laws.{Holds-From}
use pecl_teds.Vector.Build.{fresh}
use pecl_teds.Vector.Build.Filled.{listed, length-listed}
use pecl_teds.StrictSortedVectorMap.{Entry}
use pecl_teds.StrictSortedVectorMap.History.{Represents}
use pecl_teds.StrictSortedVectorMap.Finds.{find}
use pecl_teds.StrictSortedVectorMap.Build.{
  flat, serialize, to_pairs, keys, all_values, unserialize_loop, unserialize, copy_ctor,
}
use pecl_teds.StrictSortedVectorMap.Build.Puts.{
  with_pair, put_all, put_all-find, Represents-cast, Within, Within-none, insert_pair-Within,
}
use pecl_teds.StrictSortedVectorSet.Build.Restored.{copy_ctor-Holds}
use pecl_teds.StrictSortedVectorMap.Search.{by_key}

module _ {A : Type 0} where
  -- On an array that holds a list of pairs, toPairs gives the pairs, keys their keys, values their
  -- values, and __serialize each key and its value in turn.
  pub writes-list :
      (array : Entries (Entry A)) (q : List (Entry A))
      → Holds array q
      → (to_pairs array ≡ ok q)
        × (keys array ≡ ok (map (λ e. e.0) q))
        × (all_values array ≡ ok (map (λ e. e.1) q))
        × (serialize array ≡ ok (flat q))
  unfolding to_pairs keys all_values serialize
  writes-list array [] h = rw h.count (refl, refl, refl, refl)
  writes-list array (x ∷ q) h =
      let all = read_values_lem array.entries (x ∷ q) 0 (Holds-From array (x ∷ q) h) in
      let some_yet : (length (x ∷ q) == 0) ≡ false = ground arith in
      rw (h.count, some_yet, all) (refl, refl, refl, refl)

  length-flat : (q : List (Entry A)) → length (flat q) ≡ length q * 2
  length-flat [] = refl
  length-flat (x ∷ q) = omega (arith, length-flat q)

module _ {A : Type 0} (order : Comparison A) (is_null : A → Bool) where
  module _ (half : ℕ) (l : Limit half) where
    unserialize_loop-Within :
        (q : List (Entry A)) (into : Entries (Entry A)) (m : A → Option A) (n i : ℕ)
        (key : Option A)
        → Within order is_null n into m
        → n + length q ≤ half
        → i % 2 ≡ 0
        → Returns
            (λ e. Within order is_null (n + length q) e (put_all order q m))
            (unserialize_loop order (half * 2) into i key (listed (flat q)))
    unfolding unserialize_loop
    unserialize_loop-Within [] into m n i key w fits even =
        returns (record { represents = w.represents; most = omega (arith, w.most) })
    unserialize_loop-Within (x ∷ q) into m n i key w fits even =
        let at_key : (i % 2 == 1) ≡ false = ground arith in
        let odd : u32 (i + 1) % 2 ≡ 1 = omega arith in
        let at_value : (u32 (i + 1) % 2 == 1) ≡ true = ground arith in
        let even' : u32 (u32 (i + 1) + 1) % 2 ≡ 0 = omega arith in
        rw (at_key, at_value)
          (Returns-bind
            (insert_pair-Within order is_null half l into m n x.0 x.1 true w (omega arith))
            λ (grown, new) w'.
              Returns-map
                (unserialize_loop-Within q grown (with_pair order x.0 x.1 m) (n + 1)
                  (u32 (u32 (i + 1) + 1)) (some x.0) w' (omega arith) even')
                λ e k. record { represents = k.represents; most = omega (arith, k.most) })

    -- __unserialize of keys and values in turn.
    pub unserialize-Represents :
        (q : List (Entry A))
        → length q < half
        → Returns
            (λ e. Represents order is_null e (put_all order q (λ a. none)))
            (unserialize order (half * 2) fresh (listed (flat q)))
    unfolding unserialize
    unserialize-Represents [] fits = returns (Within-none order is_null _ refl refl).represents
    unserialize-Represents (x ∷ q) fits =
        let n = length (x ∷ q) in
        let total : length (listed (flat (x ∷ q))) ≡ n * 2 =
          length-listed (flat (x ∷ q)) ∙ length-flat (x ∷ q) in
        let narrow : u32 (n * 2) ≡ n * 2 = omega (arith, l.ceiling) in
        let even : (n * 2 % 2 == 0) ≡ true = ground arith in
        let some_yet : (n * 2 == 0) ≡ false = ground arith in
        let halves : n * 2 / 2 ≡ n = omega arith in
        rw (total, narrow, even, some_yet, halves)
          (Returns-map
            (unserialize_loop-Within (x ∷ q) _ (λ a. none) 0 0 none
              (Within-none order is_null _ refl refl) (omega arith) refl)
            λ e w. w.represents)

    -- For a limit of pairs that is twice a limit as documented, and an array whose keys ascend
    -- and that has fewer pairs than half of the limit, what __serialize gives, under keys that
    -- are no strings, is taken back by __unserialize on a new object, which makes an array whose
    -- keys ascend, with the same map.
    pub serialize-unserialize :
        (array : Entries (Entry A)) (m : A → Option A) (r : Represents order is_null array m)
        → length r.pairs < half
        → Returns
            (λ saved.
              Returns
                (λ e. Represents order is_null e m)
                (unserialize order (half * 2) fresh (listed saved)))
            (serialize array)
    serialize-unserialize array m r fits = rw (writes-list array r.pairs r.holds).3 (
        returns (
          Returns-map (unserialize-Represents r.pairs fits) λ e kept.
            Represents-cast order is_null kept (λ a.
              put_all-find order r.pairs (λ b. none) r.ascending a
              ∙ found-self (find order r.pairs a)
              ∙ r.complete a)))
      where
        found-self : (v : Option A) → found v none some ≡ v
        found-self none = refl
        found-self (some a) = refl

  -- A clone of an array whose keys ascend has the same map.
  pub copy_ctor-Represents :
      (from : Entries (Entry A)) (m : A → Option A)
      → Represents order is_null from m
      → Returns (λ e. Represents order is_null e m × (e.capacity ≤ from.capacity)) (copy_ctor from)
  unfolding copy_ctor pecl_teds.StrictSortedVectorSet.Build.copy_ctor
  copy_ctor-Represents from m r =
      Returns-map (copy_ctor-Holds (by_key order) from r.pairs r.holds) λ e (kept, within). (
        record { pairs = r.pairs; holds = kept; ascending = r.ascending; complete = r.complete },
        within,
      )
