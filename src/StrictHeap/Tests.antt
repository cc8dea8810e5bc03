-- ===== src/StrictHeap/Tests.antt =====
-- The theorems on the heaps, applied to small heaps of numbers.
use pecl_teds.Base.{
  ℕ, zero, suc, ◌<◌, ◌≡◌, refl, Bool, true, false, List, [], ◌∷◌, none, some, get_elem?, arith,
  ◌==◌, if◌then◌else◌,
}
use pecl_teds.Run.{Returns, ◌>>=◌}
use pecl_teds.Memory.{Block}
use pecl_teds.Util.Limit.{Limit}
use pecl_teds.Compare.Natural.{natural}
use pecl_teds.Vector.{Entries, Holds, empty_list}
use pecl_teds.StrictHeap.{insert, extract}
use pecl_teds.StrictHeap.Sift.{Rearranged}
use pecl_teds.StrictHeap.SiftUp.{half}
use pecl_teds.StrictHeap.Insert.{Added, insert-Added}
use pecl_teds.StrictHeap.Remove.{Extracted}
use pecl_teds.StrictHeap.Extract.{extract-Extracted}
use pecl_teds.StrictHeap.Build.{init_from_array, set_state}
use pecl_teds.StrictHeap.AddAll.{Least, extract-init_from_array}
use pecl_teds.StrictHeap.Made.{set_state-Added}
use pecl_teds.StrictHeap.Drain.{drain, drain-init_from_array}

abbrev heap_limit : ℕ
heap_limit = 1073741824

heap_limit-Limit : Limit heap_limit
heap_limit-Limit = record { pow2 = (30, refl); floor = omega arith; ceiling = omega arith }

abbrev three_block : Block ℕ
three_block = record {
  alloc = 3;
  cell = λ i. if i == 0 then some 5 else if i == 1 then some 7 else if i == 2 then some 6 else none;
}

-- A heap with no cell to spare.
abbrev three : Entries ℕ
three = record { null = false; entries = three_block; size = 3; capacity = 3; iterators = [] }

abbrev five_seven_six : List ℕ
five_seven_six = 5 ∷ 7 ∷ 6 ∷ []

three_cells : (i : ℕ) → i < 3 → three_block.cell i ≡ get_elem? five_seven_six i
three_cells zero h = refl
three_cells (suc zero) h = refl
three_cells (suc (suc zero)) h = refl
three_cells (suc (suc (suc i))) h = absurd (omega arith)

three-Holds : Holds three five_seven_six
three-Holds = record { count = refl; size_in = omega arith; alloc = refl; cells = three_cells }

none-Holds : Holds (empty_list {A = ℕ}) []
none-Holds = record {
  count = refl;
  size_in = omega arith;
  alloc = refl;
  cells = λ i lt. absurd (omega arith);
}

insert_heap_example :
    Returns
      (Added natural true half five_seven_six (4 ∷ []))
      (insert natural true heap_limit three 4)
insert_heap_example =
    insert-Added natural true heap_limit three five_seven_six 4 heap_limit-Limit three-Holds
      (omega arith)

extract_example : Returns (Extracted natural true 5 (7 ∷ 6 ∷ [])) (extract natural true three)
extract_example = extract-Extracted natural true three 5 (7 ∷ 6 ∷ []) three-Holds (omega arith)

extract-init_from_array_example :
    Returns
      (λ (r : ℕ × Entries ℕ). Least natural false (7 ∷ 5 ∷ 9 ∷ []) (r.0))
      (init_from_array natural heap_limit false (7 ∷ 5 ∷ 9 ∷ []) >>= λ e. extract natural false e)
extract-init_from_array_example =
    extract-init_from_array natural false heap_limit heap_limit-Limit 7 (5 ∷ 9 ∷ []) (omega arith)

drain-init_from_array_example :
    Returns (Rearranged (7 ∷ 5 ∷ 9 ∷ [])) (
      init_from_array natural heap_limit true (7 ∷ 5 ∷ 9 ∷ []) >>= λ heap.
      drain natural true 4 heap)
drain-init_from_array_example =
    drain-init_from_array natural true heap_limit (7 ∷ 5 ∷ 9 ∷ []) heap_limit-Limit (omega arith)

set_state_heap_example :
    Returns
      (λ (r : Bool × Entries ℕ). (r.0 ≡ true) × Added natural true half [] (3 ∷ 1 ∷ []) (r.1))
      (set_state natural heap_limit false (3 ∷ 1 ∷ []))
set_state_heap_example =
    set_state-Added natural heap_limit heap_limit-Limit false (3 ∷ 1 ∷ []) (omega arith)
