-- ===== src/Deque/Tests.antt =====
-- The theorems on the deque, applied to one whose two values lie across the end of its buffer.
use pecl_teds.Base.{
  ℕ, zero, suc, ◌+◌, ◌<◌, ◌≡◌, refl, false, List, [], ◌∷◌, ◌++◌, ◌%◌, none, some, length, get_elem?,
  insert_at, remove_at, arith, ◌==◌, if◌then◌else◌,
}
use mathlib.Core.List.{map, reverse}
use pecl_teds.Run.{Returns, ok, fatal, fault, ◌>>=◌}
use pecl_teds.Memory.{Block, load}
use pecl_teds.Util.{next_pow2_capacity, deque_next_pow2_capacity}
use pecl_teds.Deque.{Deque, get_capacity, Holds}
use pecl_teds.Deque.Storage.{raise_capacity, try_shrink_capacity}
use pecl_teds.Deque.Storage.Grow.{Stored, Kept, raise_capacity_lem, try_shrink_capacity_lem}
use pecl_teds.Deque.Add.{push, push_front, push_back, make_room, adjust_iterators_before_insert}
use pecl_teds.Util.Limit.{Limit}
use pecl_teds.Deque.Add.Room.{make_room-fatal}
use pecl_teds.Deque.Add.Push.{push_lem}
use pecl_teds.Deque.Add.Front.{push_front_lem}
use pecl_teds.Deque.Insert.{insert}
use pecl_teds.Deque.Insert.Laws.{insert_lem}
use pecl_teds.Deque.Remove.{offset_unset, pop, pop_front, adjust_iterators_before_remove}
use pecl_teds.Deque.Remove.Middle.{offset_unset_lem}
use pecl_teds.Deque.Remove.Ends.{Popped, pop_lem, pop_front_lem}
use pecl_teds.Deque.Build.{fresh, unserialize, copy_ctor}
use pecl_teds.Deque.Build.Serialized.{unserialize_lem}
use pecl_teds.Deque.Build.Clone.{clone-push_back}
use pecl_teds.Deque.Walk.{to_array, dtor, foreach}
use pecl_teds.Deque.Collect.{read_cells, add_wrapped, get_gc, gc_gives, get_gc-gives}
use pecl_teds.Deque.Walk.Laws.{to_array_lem, foreach_lem, numbered}

abbrev limit : ℕ
limit = 1073741824

limit-Limit : Limit limit
limit-Limit = record { pow2 = (30, refl); floor = omega arith; ceiling = omega arith }

abbrev ring_block : Block ℕ
ring_block = record {
  alloc = 4;
  cell = λ i. if i == 3 then some 10 else if i == 0 then some 20 else none;
}

abbrev across : Deque ℕ
across = record {
  null = false;
  buffer = ring_block;
  size = 2;
  mask = 3;
  offset = 3;
  iterators = 1 ∷ 0 ∷ [];
}

abbrev ten_twenty : List ℕ
ten_twenty = 10 ∷ 20 ∷ []

across_cells : (i : ℕ) → i < 2 → ring_block.cell ((3 + i) % 4) ≡ get_elem? ten_twenty i
across_cells zero h = refl
across_cells (suc zero) h = refl
across_cells (suc (suc i)) h = absurd (omega arith)

across-Holds : Holds across ten_twenty
unfolding get_capacity
across-Holds = record {
  valid = record {
    pow2 = (2, refl);
    bounded = omega arith;
    offset_in = omega arith;
    size_in = omega arith;
    alloc_in = omega arith;
  };
  count = refl;
  cells = across_cells;
}

raise_capacity_example : Returns (Stored across ten_twenty 8) (raise_capacity limit across 8)
unfolding get_capacity
raise_capacity_example =
    raise_capacity_lem across ten_twenty 8 across-Holds (3, refl) (omega arith) (omega arith) limit
      (omega arith) (omega arith)

try_shrink_capacity_example : Returns (Kept across ten_twenty) (try_shrink_capacity across 3)
try_shrink_capacity_example =
    try_shrink_capacity_lem across ten_twenty 3 across-Holds (omega arith) (omega arith)

make_room-fatal_example : make_room 4 across 5 ≡ fatal
unfolding get_capacity
make_room-fatal_example = make_room-fatal 4 across 5 (omega arith) (omega arith) (omega arith)

push_example :
    Returns
      (λ (e : Deque ℕ). Holds e (ten_twenty ++ 30 ∷ 40 ∷ 50 ∷ []) × (e.iterators ≡ 1 ∷ 0 ∷ []))
      (push limit across (30 ∷ 40 ∷ 50 ∷ []))
push_example =
    push_lem limit across ten_twenty (30 ∷ 40 ∷ 50 ∷ []) limit-Limit across-Holds (omega arith)

push_front_example :
    Returns
      (λ (e : Deque ℕ).
        Holds e (reverse (1 ∷ 2 ∷ []) ++ ten_twenty)
        × (e.iterators ≡ adjust_iterators_before_insert 2 0 2 (1 ∷ 0 ∷ [])))
      (push_front limit across (1 ∷ 2 ∷ []))
push_front_example =
    push_front_lem limit across ten_twenty 1 (2 ∷ []) limit-Limit across-Holds (omega arith)

insert_example :
    Returns
      (λ (e : Deque ℕ).
        Holds e (insert_at 1 (1 ∷ 2 ∷ 3 ∷ []) ten_twenty)
        × (e.iterators ≡ adjust_iterators_before_insert 2 1 3 (1 ∷ 0 ∷ [])))
      (insert limit across 1 (1 ∷ 2 ∷ 3 ∷ []))
insert_example =
    insert_lem limit across ten_twenty 1 1 (2 ∷ 3 ∷ []) limit-Limit across-Holds (omega arith)
      (omega arith)

offset_unset_example :
    Returns
      (λ (e : Deque ℕ).
        Holds e (remove_at 0 ten_twenty)
        × (e.iterators ≡ adjust_iterators_before_remove 2 0 (1 ∷ 0 ∷ [])))
      (offset_unset across 0)
offset_unset_example = offset_unset_lem across ten_twenty 0 across-Holds (omega arith)

pop_example : Returns (Popped across 20 (10 ∷ []) 1) (pop across)
pop_example = pop_lem across (10 ∷ []) 20 across-Holds

pop_front_example : Returns (Popped across 10 (20 ∷ []) 0) (pop_front across)
pop_front_example = pop_front_lem across (20 ∷ []) 10 across-Holds

unserialize_example :
    Returns
      (λ (e : Deque ℕ). Holds e ten_twenty)
      (unserialize fresh (map (λ x. (false, x)) ten_twenty))
unserialize_example = unserialize_lem fresh ten_twenty refl refl (omega arith)

spare : length ten_twenty < deque_next_pow2_capacity (length ten_twenty)
unfolding deque_next_pow2_capacity next_pow2_capacity
spare = omega arith

clone-push_back_example : (copy_ctor across >>= λ e. push_back limit e 30) ≡ fault
clone-push_back_example =
    clone-push_back limit across ten_twenty 30 across-Holds (omega arith) spare

to_array_example : (to_array across ≡ ok ten_twenty) × (dtor across ≡ ok ten_twenty)
to_array_example = to_array_lem across ten_twenty across-Holds

foreach_example : foreach 3 across 0 ≡ ok (numbered 0 ten_twenty)
foreach_example = foreach_lem across ten_twenty across-Holds

-- A deque of three whose last value lies at the start of the buffer.
abbrev turned : Deque ℕ
turned = record {
  null = false;
  buffer = record {
    alloc = 4;
    cell = λ i.
        if i == 2 then some 10 else if i == 3 then some 20 else if i == 0 then some 30 else none;
  };
  size = 3;
  mask = 3;
  offset = 2;
  iterators = [];
}

abbrev turned_values : List ℕ
turned_values = 10 ∷ 20 ∷ 30 ∷ []

turned_cells : (i : ℕ) → i < 3 → turned.buffer.cell ((2 + i) % 4) ≡ get_elem? turned_values i
turned_cells zero h = refl
turned_cells (suc zero) h = refl
turned_cells (suc (suc zero)) h = refl
turned_cells (suc (suc (suc i))) h = absurd (omega arith)

turned-Holds : Holds turned turned_values
unfolding get_capacity
turned-Holds = record {
  valid = record {
    pow2 = (2, refl);
    bounded = omega arith;
    offset_in = omega arith;
    size_in = omega arith;
    alloc_in = omega arith;
  };
  count = refl;
  cells = turned_cells;
}

get_gc-gives_example : get_gc turned ≡ gc_gives turned turned_values
get_gc-gives_example = get_gc-gives turned turned_values turned-Holds

-- The collector is given a cell that was never written.
turned_gc : get_gc turned ≡ fault
unfolding get_gc read_cells add_wrapped load
turned_gc = refl
