-- ===== src/Vector/Tests.antt =====
-- The theorems on the vector, applied to one of three numbers with room for a fourth.
use mathlib.Core.List.{map}
use pecl_teds.Base.{
  ℕ, zero, suc, ◌+◌, ◌<◌, ◌≡◌, refl, Bool, true, false, not, ◌&&◌, List, [], ◌∷◌, none, some,
  get_elem?, insert_at, arith, ltb, ◌==◌, if◌then◌else◌,
}
use pecl_teds.Run.{Run, asserted, Returns, ok, throw, runtime}
use pecl_teds.Util.Limit.{Limit}
use pecl_teds.Util.Range.{index_from}
use pecl_teds.Iterable.{values}
use pecl_teds.Deque.Add.{adjust_iterators_before_insert}
use pecl_teds.Vector.{Entries, Holds}
use pecl_teds.Vector.Store.{insert}
use pecl_teds.Vector.Store.Laws.{insert-Holds}
use pecl_teds.Vector.Keys.{index_of, contains, to_array}
use pecl_teds.Vector.Keys.Laws.{index_of-list}
use pecl_teds.Vector.History.{
  call_pop_front, call_push, call_set_size, call_insert, call_offset_unset, call_get, call_to_array,
  Call, calls, all_on_list, Seen, breaks, shortens,
}
use pecl_teds.Vector.History.Laws.{Outcome, calls-on_list}
use pecl_teds.Vector.Remove.{set_size}
use pecl_teds.Vector.Remove.Size.{set_size-asserted}
use pecl_teds.Vector.Build.{
  fresh, init_from_traversable, unserialize, set_state, filter_with, map_values,
}
use pecl_teds.Vector.Build.Filled.{Exact, listed}
use pecl_teds.Vector.Build.Collected.{init_from_traversable-Exact}
use pecl_teds.Vector.Build.Mapped.{map_values-Exact}
use pecl_teds.Vector.Build.Kept.{kept, filter_with-Exact}
use pecl_teds.Vector.Build.Thrown.{Answers, thrown_after, filter_with-throw}
use pecl_teds.Vector.Build.Saved.{to_array-unserialize}

abbrev limit : ℕ
limit = 1073741824

limit-Limit : Limit limit
limit-Limit = record { pow2 = (30, refl); floor = omega arith; ceiling = omega arith }

abbrev three : Entries ℕ
three = record {
  null = false;
  entries = record {
    alloc = 4;
    cell = λ i.
        if i == 0 then some 10 else if i == 1 then some 20 else if i == 2 then some 30 else none;
  };
  size = 3;
  capacity = 4;
  iterators = 1 ∷ [];
}

abbrev three_values : List ℕ
three_values = 10 ∷ 20 ∷ 30 ∷ []

three_cells : (i : ℕ) → i < 3 → three.entries.cell i ≡ get_elem? three_values i
three_cells zero h = refl
three_cells (suc zero) h = refl
three_cells (suc (suc zero)) h = refl
three_cells (suc (suc (suc i))) h = absurd (omega arith)

three-Holds : Holds three three_values
three-Holds = record { count = refl; size_in = omega arith; alloc = refl; cells = three_cells }

abbrev script : List (Call ℕ)
script =
    call_pop_front
    ∷ call_push (40 ∷ 50 ∷ [])
    ∷ call_insert 1 (60 ∷ [])
    ∷ call_offset_unset 9
    ∷ call_set_size 2 0
    ∷ call_get 1
    ∷ call_to_array
    ∷ []

calls-on_list_example :
    Outcome
      (λ (r : Entries ℕ × List (Seen ℕ)).
        Holds r.0 (all_on_list three_values script).0 × (r.1 ≡ (all_on_list three_values script).1))
      (breaks limit three script)
      (calls limit three script)
    × (breaks limit three script && not (shortens three_values script) ≡ false)
calls-on_list_example =
    calls-on_list limit three three_values script limit-Limit three-Holds (omega arith)

insert_vector_example :
    Returns
      (λ e.
        Holds e (insert_at 1 (15 ∷ 16 ∷ []) three_values)
        × (e.iterators ≡ adjust_iterators_before_insert 3 1 2 three.iterators))
      (insert limit three 1 (15 ∷ 16 ∷ []))
insert_vector_example =
    insert-Holds limit three three_values 1 15 (16 ∷ []) limit-Limit three-Holds (omega arith)
      (omega arith)

init_from_traversable_vector_example :
    Returns (Exact three_values) (init_from_traversable limit fresh (values three_values))
init_from_traversable_vector_example =
    init_from_traversable-Exact limit limit-Limit fresh three_values (omega arith)

to_array-unserialize_example :
    Returns
      (λ saved.
        Returns (Exact three_values) (unserialize fresh (listed saved))
        × Returns (Exact three_values) (set_state saved))
      (to_array three)
to_array-unserialize_example = to_array-unserialize three three_values three-Holds (omega arith)

abbrev large : ℕ → Bool
large a = ltb 15 a

filter_with_example :
    Returns (Exact (kept large three_values)) (filter_with none (λ a. ok (large a)) three)
filter_with_example =
    filter_with-Exact none (λ a. ok (large a)) large (λ a. refl) three three_values three-Holds
      (omega arith)

-- It keeps 20, and throws at 30.
abbrev careful : ℕ → Run Bool
careful a = if a == 30 then throw runtime else ok (large a)

careful-Answers : Answers careful large (10 ∷ 20 ∷ [])
careful-Answers zero a e = ground (arith, e)
careful-Answers (suc zero) a e = ground (arith, e)
careful-Answers (suc (suc i)) a e = cc e

filter_with-throw_example :
    filter_with (some limit) careful three ≡ thrown_after (kept large (10 ∷ 20 ∷ [])) runtime
filter_with-throw_example =
    filter_with-throw (some limit) careful large 30 runtime refl [] three (10 ∷ 20 ∷ []) three-Holds
      (omega arith) careful-Answers

map_values_example :
    Returns (Exact (map (λ a. a + 1) three_values)) (map_values (λ a. ok (a + 1)) three)
map_values_example =
    map_values-Exact (λ a. a + 1) (λ a. ok (a + 1)) (λ a. refl) three three_values three-Holds

index_of-list_example :
    (index_of ◌==◌ 20 three ≡ ok (index_from ◌==◌ 20 0 three_values))
    × (contains ◌==◌ 20 three
        ≡ ok (elim (index_from ◌==◌ 20 0 three_values) [ none ↦ false | some _ ↦ true ]))
index_of-list_example = index_of-list ◌==◌ 20 three three_values three-Holds

abbrev is_zero : ℕ → Bool
is_zero a = a == 0

-- setSize(10) on a vector of 50 values with room for 200.
abbrev roomy : Entries ℕ
roomy = record {
  null = false;
  entries = record { alloc = 200; cell = λ i. some i };
  size = 50;
  capacity = 200;
  iterators = [];
}

roomy-asserted : set_size limit roomy 10 0 ≡ asserted
roomy-asserted = set_size-asserted limit roomy 10 0 (omega arith) (omega arith) refl
