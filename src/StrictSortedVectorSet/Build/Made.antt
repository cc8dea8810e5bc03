-- ===== src/StrictSortedVectorSet/Build/Made.antt =====
-- teds_strictsortedvectorset.c: a set that is made of an array has exactly its values.
use pecl_teds.Base.{
  ◌^◌, ◌<◌, ◌≤◌, ◌≡◌, refl, Bool, true, false, List, [], ◌∷◌, length, get_elem?-some_lt, arith,
  ltb→le, if◌then◌else◌,
}
use pecl_teds.Machine.{u32}
use pecl_teds.Run.{ok, Returns, returns, Returns-bind}
use pecl_teds.Compare.{Comparison}
use pecl_teds.Vector.{Entries, Holds, set_empty_list}
use pecl_teds.Vector.Build.Filled.{fill_new}
use pecl_teds.StrictSortedVectorSet.Sets.{has}
use pecl_teds.StrictSortedVectorSet.History.{Represents}
use pecl_teds.StrictSortedVectorSet.Build.{Qsort, sort_and_deduplicate, init_from_array}
use pecl_teds.StrictSortedVectorSet.Build.SortedOut.{sort_and_deduplicate-Represents}

module _ {A : Type 0} (order : Comparison A) where
  pub Represents-empty : (set : Entries A) → Holds set [] → Represents order set (has order [])
  Represents-empty set h = record {
    members = [];
    holds = h;
    ascending = λ i j a b lt at_i at_j. cc at_i;
    complete = λ a. refl;
  }

  pub Holds-none :
      (set : Entries A) → set.size ≡ 0 → set.entries.alloc ≡ set.capacity → Holds set []
  Holds-none set nil alloc = record {
    count = nil;
    size_in = omega arith;
    alloc = alloc;
    cells = λ i lt. absurd (omega arith);
  }

  module _ (sorting : Qsort order) where
    -- One value alone is sorted.
    pub sorted_if_more :
        (set : Entries A) (q : List A) (more : Bool)
        → Holds set q
        → (more ≡ false → length q ≤ 1)
        → Returns
            (λ e. Represents order e (has order q))
            (if more then sort_and_deduplicate order sorting set else ok set)
    sorted_if_more set q true h few = sort_and_deduplicate-Represents order sorting set q h
    sorted_if_more set q false h few = returns (alone q h (few refl))
      where
        alone : (q : List A) → Holds set q → length q ≤ 1 → Represents order set (has order q)
        alone [] h few = Represents-empty set h
        alone (x ∷ []) h few = record {
          members = x ∷ [];
          holds = h;
          ascending =
              λ i j a b lt at_i at_j. absurd (omega (arith, get_elem?-some_lt (x ∷ []) j b at_j));
          complete = λ a. refl;
        }
        alone (x ∷ (y ∷ q)) h few = absurd (omega arith)

    -- With a qsort as the C library documents it, a StrictSortedVectorSet made of an array of
    -- fewer than 2 ^ 32 values is ascending, has no two values that compare as equal, and has
    -- exactly the values of the array, up to equal ones, whether the array is sorted already, has
    -- duplicates or has none.
    pub init_from_array-Represents :
        (set : Entries A) (q : List A)
        → length q < 2 ^ 32
        → Returns (λ e. Represents order e (has order q)) (init_from_array order sorting set q)
    unfolding init_from_array
    init_from_array-Represents set [] small =
        returns (Represents-empty (set_empty_list set) (Holds-none (set_empty_list set) refl refl))
    init_from_array-Represents set (x ∷ q) small =
        Returns-bind (fill_new (x ∷ q) small) λ b (alloc, cells).
          sorted_if_more
            (record set {
              null = false;
              entries = b;
              size = u32 (length (x ∷ q));
              capacity = u32 (length (x ∷ q));
            })
            (x ∷ q) _
            (record { count = omega arith; size_in = omega arith; alloc = alloc; cells = cells })
            (λ few. omega (arith, ltb→le _ _ few))
