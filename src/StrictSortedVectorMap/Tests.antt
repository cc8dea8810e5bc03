-- ===== src/StrictSortedVectorMap/Tests.antt =====
-- The theorems on the map, applied to one of three pairs of numbers.
use pecl_teds.Base.{
  ℕ, zero, suc, ◌*◌, ◌≡◌, refl, Bool, false, List, [], ◌∷◌, Option, some, none, get_elem?, arith,
  ◌==◌,
}
use pecl_teds.Run.{ok, Returns}
use pecl_teds.Util.Limit.{Limit}
use pecl_teds.Iterable.{values, array, object}
use pecl_teds.Compare.Natural.{natural}
use pecl_teds.Vector.{Entries, Holds}
use pecl_teds.Vector.Build.{fresh}
use pecl_teds.Vector.Build.Filled.{listed}
use pecl_teds.StrictSortedVectorSet.Sorted.{Ascending}
use pecl_teds.StrictSortedVectorMap.{Entry, sorted_search, search_probably_last}
use pecl_teds.StrictSortedVectorMap.Search.{by_key, place, searches-place}
use pecl_teds.StrictSortedVectorMap.Finds.{find}
use pecl_teds.StrictSortedVectorMap.History.{
  Call, call_offset_set, call_offset_unset, call_get, call_contains_key, call_offset_exists,
  Represents,
}
use pecl_teds.StrictSortedVectorMap.Build.{
  Raw, no_key, pair, init_from_iterator, from_pairs, set_state, serialize, unserialize,
}
use pecl_teds.StrictSortedVectorMap.Build.Puts.{put_all}
use pecl_teds.StrictSortedVectorMap.Build.Made.{
  Ends, AllPut, read_pairs, init_from_iterator-Represents, from_pairs-Ends,
}
use pecl_teds.StrictSortedVectorMap.Build.Saved.{serialize-unserialize}

-- TEDS_MAX_ZVAL_PAIR_COUNT on a 64-bit build is twice this.
abbrev half_limit : ℕ
half_limit = 268435456

half_limit-Limit : Limit half_limit
half_limit-Limit = record { pow2 = (28, refl); floor = omega arith; ceiling = omega arith }

abbrev is_zero : ℕ → Bool
is_zero n = n == 0

abbrev three_pairs : List (Entry ℕ)
three_pairs = (10, 1) ∷ (20, 0) ∷ (30, 3) ∷ []

abbrev three_entries : Entries (Entry ℕ)
three_entries = record {
  null = false;
  entries = record { alloc = 4; cell = get_elem? three_pairs };
  size = 3;
  capacity = 4;
  iterators = [];
}

three_entries-Holds : Holds three_entries three_pairs
three_entries-Holds = record {
  count = refl;
  size_in = omega arith;
  alloc = refl;
  cells = λ i lt. refl;
}

three_pairs-Ascending : Ascending (by_key natural) three_pairs
three_pairs-Ascending zero (suc zero) a b lt at_i at_j =
    let e : some (10, 1) ≡ some a = at_i in let f : some (20, 0) ≡ some b = at_j in cc (e, f)
three_pairs-Ascending zero (suc (suc zero)) a b lt at_i at_j =
    let e : some (10, 1) ≡ some a = at_i in let f : some (30, 3) ≡ some b = at_j in cc (e, f)
three_pairs-Ascending (suc zero) (suc (suc zero)) a b lt at_i at_j =
    let e : some (20, 0) ≡ some a = at_i in let f : some (30, 3) ≡ some b = at_j in cc (e, f)
three_pairs-Ascending i zero a b lt at_i at_j = absurd (omega arith)
three_pairs-Ascending (suc i) (suc zero) a b lt at_i at_j = absurd (omega arith)
three_pairs-Ascending (suc (suc i)) (suc (suc zero)) a b lt at_i at_j = absurd (omega arith)
three_pairs-Ascending i (suc (suc (suc j))) a b lt at_i at_j = cc at_j

abbrev three_map : ℕ → Option ℕ
three_map = find natural three_pairs

abbrev three_mapped : Represents natural is_zero three_entries three_map
three_mapped = record {
  pairs = three_pairs;
  holds = three_entries-Holds;
  ascending = three_pairs-Ascending;
  complete = λ a. refl;
}

searches-place_example :
    (sorted_search natural three_entries 20 ≡ ok (place natural 20 three_pairs))
    × (search_probably_last natural three_entries 20 ≡ ok (place natural 20 three_pairs))
searches-place_example =
    searches-place natural 20 three_pairs three_pairs-Ascending three_entries three_entries-Holds
      (omega arith)

abbrev map_script : List (Call ℕ)
map_script =
    call_offset_set 25 5
    ∷ call_offset_set 10 7
    ∷ call_offset_unset 20
    ∷ call_get 20 none
    ∷ call_get 10 (some 9)
    ∷ call_contains_key 25
    ∷ call_offset_exists 30
    ∷ []

abbrev repeated_pairs : List (Entry ℕ)
repeated_pairs = (3, 1) ∷ (1, 2) ∷ (3, 4) ∷ []

init_from_iterator_map_example :
    Returns
      (λ e. Represents natural is_zero e (put_all natural repeated_pairs (λ a. none)))
      (init_from_iterator natural (half_limit * 2) fresh (values repeated_pairs))
init_from_iterator_map_example =
    init_from_iterator-Represents natural is_zero half_limit half_limit-Limit fresh repeated_pairs
      (omega arith)

abbrev raw_pairs : List (Raw ℕ)
raw_pairs = pair 3 1 ∷ pair 1 2 ∷ no_key ∷ []

from_pairs-Ends_example :
    Ends
      (AllPut natural is_zero (λ a. none))
      (read_pairs raw_pairs)
      (from_pairs natural (half_limit * 2) (array raw_pairs))
    × Ends
        (AllPut natural is_zero (λ a. none))
        (read_pairs raw_pairs)
        (from_pairs natural (half_limit * 2) (object (values raw_pairs)))
    × Ends
        (AllPut natural is_zero (λ a. none))
        (read_pairs raw_pairs)
        (set_state natural (half_limit * 2) raw_pairs)
from_pairs-Ends_example =
    from_pairs-Ends natural is_zero half_limit half_limit-Limit raw_pairs (omega arith)

serialize-unserialize_example :
    Returns
      (λ saved.
        Returns
          (λ e. Represents natural is_zero e three_map)
          (unserialize natural (half_limit * 2) fresh (listed saved)))
      (serialize three_entries)
serialize-unserialize_example =
    serialize-unserialize natural is_zero half_limit half_limit-Limit three_entries three_map
      three_mapped (omega arith)
