-- ===== src/StrictSortedVectorMap/Ends.antt =====
-- teds_strictsortedvectormap.c: pop, popFront, first, last, firstKey and lastKey, which take the
-- pairs of the least and of the greatest key.
use pecl_teds.Base.{◌-◌, ◌≡◌, refl, Bool, [], Option, none, some, ◌==◌, if◌then◌else◌}
use pecl_teds.Run.{Run, ok, throw, underflow, ◌>>=◌}
use pecl_teds.Memory.{load}
use pecl_teds.Compare.{Sign, Comparison}
use pecl_teds.Vector.{Entries, Holds}
use pecl_teds.StrictSortedVectorSet.Sets.{same}
use pecl_teds.StrictSortedVectorMap.{Entry, pop, pop_front}
use pecl_teds.StrictSortedVectorMap.History.{Represents}

module _ {A : Type 0} where
  -- StrictSortedVectorMap::first
  unfoldable pub first : Entries (Entry A) → Run A
  first array = if array.size == 0 then throw underflow else (load array.entries 0 >>= λ e. ok e.1)

  -- StrictSortedVectorMap::firstKey
  unfoldable pub first_key : Entries (Entry A) → Run A
  first_key array =
      if array.size == 0 then throw underflow else (load array.entries 0 >>= λ e. ok e.0)

  -- StrictSortedVectorMap::last
  unfoldable pub last : Entries (Entry A) → Run A
  last array =
      if array.size == 0
      then throw underflow
      else (load array.entries (array.size - 1) >>= λ e. ok e.1)

  -- StrictSortedVectorMap::lastKey
  unfoldable pub last_key : Entries (Entry A) → Run A
  last_key array =
      if array.size == 0
      then throw underflow
      else (load array.entries (array.size - 1) >>= λ e. ok e.0)

  -- On an empty map each of the six throws an UnderflowException.
  pub ends-throw :
      (array : Entries (Entry A))
      → Holds array []
      → (pop array ≡ throw underflow)
        × (pop_front array ≡ throw underflow)
        × (first array ≡ throw underflow)
        × (first_key array ≡ throw underflow)
        × (last array ≡ throw underflow)
        × (last_key array ≡ throw underflow)
  unfolding pop pop_front first first_key last last_key
  ends-throw array h = rw h.count (refl, refl, refl, refl, refl, refl)

module _ {A : Type 0} (order : Comparison A) (is_null : A → Bool) where
  -- The map with one key less.
  abbrev pub without : A → (A → Option A) → A → Option A
  without key m a = if same order a key then none else m a

  -- The pair of the map is taken out, and no key of the map compares with its key as `beyond`.
  pub record Taken (m : A → Option A) (beyond : Sign) (array : Entries (Entry A)) (e : Entry A)
      : Type 0 where
    pub after : Represents order is_null array (without e.0 m)
    pub had : m e.0 ≡ some e.1
    pub extreme : (a v : A) → m a ≡ some v → ¬ (order.stable_compare a e.0 ≡ beyond)
