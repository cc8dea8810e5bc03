-- ===== src/StrictHeap/Build.antt =====
-- teds_strictheap.c: how a heap is made: __construct, __unserialize, __set_state and clone.
use pecl_teds.Base.{
  ℕ, zero, suc, ◌+◌, Bool, true, false, List, [], ◌∷◌, Option, none, some, length, ◌==◌,
  if◌then◌else◌,
}
use pecl_teds.Machine.{u32}
use pecl_teds.Run.{Run, ok, throw, runtime, unexpected_value, ◌>>=◌}
use pecl_teds.Memory.{Block, no_block, malloc, load, store}
use pecl_teds.Util.{deque_next_pow2_capacity}
use pecl_teds.Iterable.{Traversal, failed, values, Iterable, array, object}
use pecl_teds.Vector.{Entries, empty_list}
use pecl_teds.StrictHeap.{Comparison, insert, add_all}

module _ {A : Type 0} where
  -- A new object, as teds_strictheap_new leaves it.
  abbrev pub fresh : Entries A
  fresh = record { null = true; entries = no_block; size = 0; capacity = 0; iterators = [] }

  -- teds_strictheap_copy_range, for the `n` zvals from `begin` on.
  unfoldable pub copy_range : Block A → ℕ → Block A → ℕ → ℕ → Run (Block A)
  copy_range entries to from begin zero = ok entries
  copy_range entries to from begin (suc n) = load from begin >>= λ a.
      store entries to a >>= λ copied. copy_range copied (to + 1) from (begin + 1) n

  -- teds_strictheap_entries_copy_ctor
  unfoldable pub copy_ctor : Entries A → Run (Entries A)
  copy_ctor from =
      if from.size == 0
      then ok empty_list
      else (copy_range (malloc from.capacity) 0 from.entries 0 from.size >>= λ copied. ok (record {
        null = false;
        entries = copied;
        size = from.size;
        capacity = from.capacity;
        iterators = [];
      }))

module _ {A : Type 0} (order : Comparison A) (max_size : ℕ) where
  module _ (is_min_heap : Bool) where
    -- teds_strictheap_entries_init_from_array
    unfoldable pub init_from_array : List A → Run (Entries A)
    init_from_array [] = ok empty_list
    init_from_array (x ∷ xs) =
        let size = u32 (length (x ∷ xs)) in
        add_all order is_min_heap max_size
          (record {
            null = false;
            entries = malloc size;
            size = 0;
            capacity = size;
            iterators = [];
          })
          (x ∷ xs)

    -- teds_strictheap_entries_init_from_traversable
    unfoldable pub init_from_traversable : Traversal A → Run (Entries A)
    init_from_traversable failed = ok fresh
    init_from_traversable (values xs) = add_all order is_min_heap max_size fresh xs

    -- StrictMinHeap::__construct and StrictMaxHeap::__construct
    unfoldable pub construct : Entries A → Option (Iterable A) → Run (Entries A)
    construct heap iterable =
        if heap.null
        then (elim iterable [
          | none ↦ ok empty_list
          | some (array xs) ↦ init_from_array xs
          | some (object t) ↦ init_from_traversable t
        ])
        else throw runtime

    -- The loop of __unserialize over the entries, each with whether its key is a string.
    unfoldable pub unserialize_loop : Entries A → List (Bool × A) → Run (Entries A)
    unserialize_loop heap [] = ok heap
    unserialize_loop heap ((str, val) ∷ raw_data) =
        let rest =
          insert order is_min_heap max_size heap val >>= λ grown. unserialize_loop grown raw_data in
        if str then throw unexpected_value else rest

    -- StrictMinHeap::__unserialize and StrictMaxHeap::__unserialize
    unfoldable pub unserialize : Entries A → List (Bool × A) → Run (Entries A)
    unserialize heap raw_data =
        if heap.null
        then (elim raw_data [
          | [] ↦ ok empty_list
          | e ∷ es ↦
              let capacity = deque_next_pow2_capacity (length (e ∷ es)) in
              unserialize_loop
                (record {
                  null = false;
                  entries = malloc capacity;
                  size = 0;
                  capacity = capacity;
                  iterators = [];
                })
                (e ∷ es)
        ])
        else throw runtime

  -- StrictMinHeap::__set_state, and StrictMaxHeap::__set_state, which has the same body: whether the
  -- object that is made is a StrictMinHeap, and its entries.
  unfoldable pub set_state : Bool → List A → Run (Bool × Entries A)
  set_state is_min_heap xs = init_from_array true xs >>= λ made. ok (true, made)
