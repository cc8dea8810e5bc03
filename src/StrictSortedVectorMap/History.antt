-- ===== src/StrictSortedVectorMap/History.antt =====
-- teds_strictsortedvectormap.c: calls of the methods one after the other, each with its answer, and
-- the same calls on a map that has no order and no representation.
use pecl_teds.Base.{
  ℕ, ◌+◌, ◌≤◌, ◌≡◌, Bool, true, false, not, List, [], ◌∷◌, Option, none, some, length,
  if◌then◌else◌,
}
use pecl_teds.Run.{
  Run, ok, throw, fatal, asserted, fault, out_of_fuel, Exception, invalid_index, ◌>>=◌,
}
use pecl_teds.Util.Limit.{Limit}
use pecl_teds.Compare.{Comparison}
use pecl_teds.Deque.Keys.{found}
use pecl_teds.Vector.{Entries, Holds}
use pecl_teds.StrictSortedVectorSet.Sorted.{Ascending}
use pecl_teds.StrictSortedVectorSet.Sets.{same}
use pecl_teds.StrictSortedVectorMap.{Entry, insert_pair, remove_pair, get_or, has_key, has_value_at}
use pecl_teds.StrictSortedVectorMap.Search.{by_key}
use pecl_teds.StrictSortedVectorMap.Finds.{find}

-- The methods of StrictSortedVectorMap, with their arguments. offsetGet is get with no default.
pub data Call (A : Type 0) : Type 0 where
  call_offset_set : A → A → Call A
  call_offset_unset : A → Call A
  call_get : A → Option A → Call A
  call_contains_key call_offset_exists : A → Call A

-- What a call answers: nothing, a value, a truth value, or the exception that it throws.
pub data Answer (A : Type 0) : Type 0 where
  nothing : Answer A
  value_of : A → Answer A
  truth : Bool → Answer A
  thrown : Exception → Answer A

module _ {A : Type 0} where
  -- The caller catches what is thrown.
  unfoldable pub caught : Run A → Run (Answer A)
  caught (ok value) = ok (value_of value)
  caught (throw e) = ok (thrown e)
  caught fatal = fatal
  caught asserted = asserted
  caught fault = fault
  caught out_of_fuel = out_of_fuel

module _ {A : Type 0} (order : Comparison A) (is_null : A → Bool) where
  unfoldable pub call : ℕ → Entries (Entry A) → Call A → Run (Entries (Entry A) × Answer A)
  call max_pairs array (call_offset_set key value) =
      insert_pair order max_pairs array key value false >>= λ (after, new). ok (after, nothing)
  call max_pairs array (call_offset_unset key) =
      remove_pair order array key >>= λ after. ok (after, nothing)
  call max_pairs array (call_get key default) =
      caught (get_or order array key default) >>= λ answer. ok (array, answer)
  call max_pairs array (call_contains_key key) =
      has_key order array key >>= λ answer. ok (array, truth answer)
  call max_pairs array (call_offset_exists key) =
      has_value_at order is_null array key >>= λ answer. ok (array, truth answer)

  unfoldable pub calls :
      ℕ → Entries (Entry A) → List (Call A) → Run (Entries (Entry A) × List (Answer A))
  calls max_pairs array [] = ok (array, [])
  calls max_pairs array (c ∷ cs) = call max_pairs array c >>= λ (after, answer).
      calls max_pairs after cs >>= λ (final, rest). ok (final, answer ∷ rest)

  -- A map says of each key which value it has, if any. Keys that compare as equal are the same.
  abbrev pub on_map : (A → Option A) → Call A → (A → Option A) × Answer A
  on_map m (call_offset_set key value) =
      (λ a. if same order a key then some value else m a, nothing)
  on_map m (call_offset_unset key) = (λ a. if same order a key then none else m a, nothing)
  on_map m (call_get key none) = (m, found (m key) (thrown invalid_index) value_of)
  on_map m (call_get key (some default)) = (m, found (m key) (value_of default) value_of)
  on_map m (call_contains_key key) = (m, truth (found (m key) false (λ value. true)))
  on_map m (call_offset_exists key) =
      (m, truth (found (m key) false (λ value. not (is_null value))))

  abbrev pub all_on_map : (A → Option A) → List (Call A) → (A → Option A) × List (Answer A)
  all_on_map m [] = (m, [])
  all_on_map m (c ∷ cs) =
      let (after, answer) = on_map m c in
      let (final, rest) = all_on_map after cs in (final, answer ∷ rest)

  -- The keys of the array ascend, and its pairs are those of the map.
  pub record Represents (array : Entries (Entry A)) (m : A → Option A) : Type 0 where
    pub pairs : List (Entry A)
    pub holds : Holds array pairs
    pub ascending : Ascending (by_key order) pairs
    pub complete : (a : A) → find order pairs a ≡ m a

  -- What a call returns is what it does on the map, and it adds at most one pair.
  record Matches (n : ℕ) (want : (A → Option A) × Answer A) (got : Entries (Entry A) × Answer A)
      : Type 0 where
    after : Represents got.0 want.0
    answer : got.1 ≡ want.1
    size : length after.pairs ≤ n + 1
