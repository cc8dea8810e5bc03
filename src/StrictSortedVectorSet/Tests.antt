-- ===== src/StrictSortedVectorSet/Tests.antt =====
-- The theorems on the set, applied to one of three numbers.
use pecl_teds.Base.{
  ℕ, zero, suc, ◌<◌, ◌≡◌, refl, Bool, false, List, [], ◌∷◌, some, none, get_elem?, arith, ◌==◌,
  if◌then◌else◌,
}
use pecl_teds.Run.{ok, Returns}
use pecl_teds.Util.Limit.{Limit}
use pecl_teds.Iterable.{values}
use pecl_teds.Compare.Natural.{natural}
use pecl_teds.Vector.{Entries, Holds}
use pecl_teds.Vector.Build.{fresh}
use pecl_teds.Vector.Build.Filled.{listed}
use pecl_teds.StrictSortedVectorSet.{sorted_search_for_key, search_probably_largest}
use pecl_teds.StrictSortedVectorSet.Sorted.{Ascending, position}
use pecl_teds.StrictSortedVectorSet.Search.{searches-position}
use pecl_teds.StrictSortedVectorSet.Sets.{has}
use pecl_teds.StrictSortedVectorSet.History.{
  Call, call_add, call_remove, call_contains, calls, all_on_set, Represents, calls-on_set,
}
use pecl_teds.StrictSortedVectorSet.Build.{init_from_array, init_from_traversable, unserialize}
use pecl_teds.StrictSortedVectorSet.Build.InsertionSort.{insertion_sort}
use pecl_teds.StrictSortedVectorSet.Build.Made.{init_from_array-Represents}
use pecl_teds.StrictSortedVectorSet.Build.Gathered.{init_from_traversable-Represents}
use pecl_teds.StrictSortedVectorSet.Build.Restored.{unserialize-Represents}

abbrev limit : ℕ
limit = 1073741824

limit-Limit : Limit limit
limit-Limit = record { pow2 = (30, refl); floor = omega arith; ceiling = omega arith }

abbrev three : Entries ℕ
three = record {
  null = false;
  entries = record {
    alloc = 4;
    cell = λ i.
        if i == 0 then some 10 else if i == 1 then some 20 else if i == 2 then some 30 else none;
  };
  size = 3;
  capacity = 4;
  iterators = [];
}

abbrev three_values : List ℕ
three_values = 10 ∷ 20 ∷ 30 ∷ []

three_cells : (i : ℕ) → i < 3 → three.entries.cell i ≡ get_elem? three_values i
three_cells zero h = refl
three_cells (suc zero) h = refl
three_cells (suc (suc zero)) h = refl
three_cells (suc (suc (suc i))) h = absurd (omega arith)

three-Holds : Holds three three_values
three-Holds = record { count = refl; size_in = omega arith; alloc = refl; cells = three_cells }

three-Ascending : Ascending natural three_values
three-Ascending zero (suc zero) a b lt at_i at_j = ground (arith, at_i, at_j)
three-Ascending zero (suc (suc zero)) a b lt at_i at_j = ground (arith, at_i, at_j)
three-Ascending (suc zero) (suc (suc zero)) a b lt at_i at_j = ground (arith, at_i, at_j)
three-Ascending i zero a b lt at_i at_j = absurd (omega arith)
three-Ascending (suc i) (suc zero) a b lt at_i at_j = absurd (omega arith)
three-Ascending (suc (suc i)) (suc (suc zero)) a b lt at_i at_j = absurd (omega arith)
three-Ascending i (suc (suc (suc j))) a b lt at_i at_j = cc at_j

abbrev three_set : ℕ → Bool
three_set = has natural three_values

abbrev three_represented : Represents natural three three_set
three_represented = record {
  members = three_values;
  holds = three-Holds;
  ascending = three-Ascending;
  complete = λ a. refl;
}

searches-position_example :
    (sorted_search_for_key natural three 20 ≡ ok (position natural 20 three_values))
    × (search_probably_largest natural three 20 ≡ ok (position natural 20 three_values))
searches-position_example =
    searches-position natural 20 three_values three-Ascending three three-Holds (omega arith)

abbrev script : List (Call ℕ)
script =
    call_add 25
    ∷ call_add 10
    ∷ call_remove 20
    ∷ call_contains 20
    ∷ call_contains 25
    ∷ call_remove 7
    ∷ []

calls-on_set_example :
    Returns
      (λ (got : Entries ℕ × List Bool).
        Represents natural got.0 (all_on_set natural three_set script).0
        × (got.1 ≡ (all_on_set natural three_set script).1))
      (calls natural limit three script)
calls-on_set_example =
    calls-on_set natural limit limit-Limit three three_set script three_represented (omega arith)

abbrev mixed : List ℕ
mixed = 3 ∷ 1 ∷ 3 ∷ 2 ∷ 1 ∷ []

init_from_array_set_example :
    Returns
      (λ e. Represents natural e (has natural mixed))
      (init_from_array natural (insertion_sort natural) fresh mixed)
init_from_array_set_example =
    init_from_array-Represents natural (insertion_sort natural) fresh mixed (omega arith)

init_from_traversable_set_example :
    Returns
      (λ e. Represents natural e (has natural mixed))
      (init_from_traversable natural (insertion_sort natural) fresh (values mixed))
init_from_traversable_set_example =
    init_from_traversable-Represents natural (insertion_sort natural) fresh mixed (omega arith)

unserialize_set_example :
    Returns
      (λ e. Represents natural e (has natural mixed))
      (unserialize natural limit fresh (listed mixed))
unserialize_set_example =
    unserialize-Represents natural limit limit-Limit fresh mixed refl refl (omega arith)
