-- ===== src/StrictSortedVectorMap/Build/Made.antt =====
-- teds_strictsortedvectormap.c: what a map that is made of an iterator or of pairs has.
use pecl_teds.Base.{
  ℕ, ◌+◌, ◌*◌, ◌≤◌, ◌≡◌, refl, Bool, false, List, [], ◌∷◌, Option, none, some, length, arith, leb,
  lt→leb,
}
use pecl_teds.Machine.{u32}
use pecl_teds.Run.{
  Run, throw, unexpected_value, Returns, returns, Returns-bind, Returns-map, Returns-inv,
}
use pecl_teds.Memory.{malloc}
use pecl_teds.Util.{deque_next_pow2_capacity}
use pecl_teds.Util.Limit.{Limit, deque_capacity-le-Limit}
use pecl_teds.Iterable.{values, array, object}
use pecl_teds.Compare.{Comparison}
use pecl_teds.Vector.{Entries}
use pecl_teds.Vector.Build.{fresh}
use pecl_teds.StrictSortedVectorMap.{Entry}
use pecl_teds.StrictSortedVectorMap.History.{Represents}
use pecl_teds.StrictSortedVectorMap.Build.{
  Raw, non_array, no_key, no_value, pair, collect_pairs, init_from_iterator, insert_from_pair,
  insert_pairs, init_from_array_pairs, init_from_iterator_pairs, from_pairs, set_state,
}
use pecl_teds.StrictSortedVectorMap.Build.Puts.{
  with_pair, put_all, Within-none, Within, insert_pair-Within,
}

module _ {A : Type 0} where
  -- The pairs that are given, if they are all pairs.
  abbrev pub read_pair : Raw A → Option (Entry A)
  read_pair non_array = none
  read_pair no_key = none
  read_pair no_value = none
  read_pair (pair key value) = some (key, value)

  abbrev pub read_pairs : List (Raw A) → Option (List (Entry A))
  read_pairs [] = some []
  read_pairs (r ∷ rest) = elim (read_pair r) [
    | none ↦ none
    | some x ↦ elim (read_pairs rest) [ none ↦ none | some q ↦ some (x ∷ q) ]
  ]

  -- What is wanted of a call that is given pairs, or something else.
  pub data Ends {B : Type 0} (Good : List (Entry A) → B → Type 0)
      : Option (List (Entry A)) → Run B → Type 0 where
    all_pairs :
        {q : List (Entry A)} {call : Run B} → Returns (Good q) call → Ends Good (some q) call
    no_pair : Ends Good none (throw unexpected_value)

module _ {A : Type 0} (order : Comparison A) (is_null : A → Bool) where
  abbrev pub AllPut : (A → Option A) → List (Entry A) → Entries (Entry A) → Type 0
  AllPut m q e = Represents order is_null e (put_all order q m)

module _ {A : Type 0} (order : Comparison A) (is_null : A → Bool) (half : ℕ) (l : Limit half) where
  collect_pairs-Within :
      (q : List (Entry A)) (into : Entries (Entry A)) (m : A → Option A) (n : ℕ)
      → Within order is_null n into m
      → n + length q ≤ half
      → Returns
          (λ e. Within order is_null (n + length q) e (put_all order q m))
          (collect_pairs order (half * 2) into q)
  unfolding collect_pairs
  collect_pairs-Within [] into m n w fits =
      returns (record { represents = w.represents; most = omega (arith, w.most) })
  collect_pairs-Within (x ∷ q) into m n w fits =
      Returns-bind (insert_pair-Within order is_null half l into m n x.0 x.1 false w (omega arith))
        λ (grown, new) w'.
          Returns-map
            (collect_pairs-Within q grown (with_pair order x.0 x.1 m) (n + 1) w' (omega arith))
            λ e k. record { represents = k.represents; most = omega (arith, k.most) }

  -- For a limit of pairs that is twice a limit as documented, a StrictSortedVectorMap made of an
  -- iterator that gives at most half of the limit of keys and values is an array whose keys
  -- ascend, with the map of the pairs, in which a later value of a key takes the place of an
  -- earlier one.
  pub init_from_iterator-Represents :
      (into : Entries (Entry A)) (q : List (Entry A))
      → length q ≤ half
      → Returns
          (λ e. Represents order is_null e (put_all order q (λ a. none)))
          (init_from_iterator order (half * 2) into (values q))
  unfolding init_from_iterator
  init_from_iterator-Represents into q fits =
      Returns-map
        (collect_pairs-Within q _ (λ a. none) 0 (Within-none order is_null _ refl refl)
          (omega arith))
        λ e w. w.represents

  insert_pairs-Ends :
      (raw : List (Raw A)) (into : Entries (Entry A)) (m : A → Option A) (n : ℕ)
      → Within order is_null n into m
      → n + length raw ≤ half
      → Ends (AllPut order is_null m) (read_pairs raw) (insert_pairs order (half * 2) into raw)
  unfolding insert_pairs insert_from_pair
  insert_pairs-Ends [] into m n w fits = all_pairs (returns w.represents)
  insert_pairs-Ends (non_array ∷ rest) into m n w fits = no_pair
  insert_pairs-Ends (no_key ∷ rest) into m n w fits = no_pair
  insert_pairs-Ends (no_value ∷ rest) into m n w fits = no_pair
  insert_pairs-Ends (pair key value ∷ rest) into m n w fits =
      let ((grown, new), called, w') =
        Returns-inv
          (insert_pair-Within order is_null half l into m n key value false w (omega arith)) in
      let tail =
        insert_pairs-Ends rest grown (with_pair order key value m) (n + 1) w' (omega arith) in
      rw called (Ends-cons m (key, value) (read_pairs rest) _ tail)
    where
      Ends-cons :
          (m : A → Option A) (x : Entry A) (read : Option (List (Entry A)))
          (call : Run (Entries (Entry A)))
          → Ends (AllPut order is_null (with_pair order x.0 x.1 m)) read call
          → Ends (AllPut order is_null m) (elim read [ none ↦ none | some q ↦ some (x ∷ q) ]) call
      Ends-cons m x (some q) call (all_pairs good) = all_pairs good
      Ends-cons m x none _ no_pair = no_pair

  -- For a limit of pairs that is twice a limit as documented, fromPairs on an array or an
  -- iterator and __set_state, with at most half of the limit of zvals, throw an
  -- UnexpectedValueException if one of the zvals is no array with a key and a value, and
  -- otherwise make an array whose keys ascend, with the map of the pairs, in which a later value
  -- of a key takes the place of an earlier one.
  pub from_pairs-Ends :
      (raw : List (Raw A))
      → length raw ≤ half
      → Ends
          (AllPut order is_null (λ a. none))
          (read_pairs raw)
          (from_pairs order (half * 2) (array raw))
        × Ends
            (AllPut order is_null (λ a. none))
            (read_pairs raw)
            (from_pairs order (half * 2) (object (values raw)))
        × Ends (AllPut order is_null (λ a. none)) (read_pairs raw) (set_state order (half * 2) raw)
  unfolding from_pairs init_from_array_pairs init_from_iterator_pairs set_state insert_pairs
  from_pairs-Ends [] fits = (
    all_pairs (returns ((Within-none order is_null _ refl refl).represents)),
    all_pairs (returns ((Within-none order is_null _ refl refl).represents)),
    all_pairs (returns ((Within-none order is_null _ refl refl).represents)),
  )
  from_pairs-Ends (r ∷ rest) fits =
      let raw : List (Raw A) = r ∷ rest in
      let c = deque_capacity-le-Limit half (length raw) l fits in
      let narrow : u32 (length raw) ≡ length raw = omega (arith, l.ceiling) in
      let capacity = deque_next_pow2_capacity (length raw) in
      let narrow' : u32 capacity ≡ capacity = omega (arith, c, l.ceiling) in
      let below : leb (half * 2) capacity ≡ false =
        lt→leb (half * 2) capacity (omega (arith, c, l.floor)) in
      (
        rw (narrow, narrow', below)
            (insert_pairs-Ends raw
              (record fresh {
                null = false;
                entries = malloc capacity;
                size = 0;
                capacity = capacity;
              })
              (λ a. none) 0 (Within-none order is_null _ refl refl) (omega arith)),
        insert_pairs-Ends raw _ (λ a. none) 0 (Within-none order is_null _ refl refl) (omega arith),
        rw (narrow, narrow', below)
            (insert_pairs-Ends raw
              (record fresh {
                null = false;
                entries = malloc capacity;
                size = 0;
                capacity = capacity;
              })
              (λ a. none) 0 (Within-none order is_null _ refl refl) (omega arith)),
      )
