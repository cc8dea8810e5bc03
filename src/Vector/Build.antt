-- ===== src/Vector/Build.antt =====
-- teds_vector.c: how a Vector is made: __construct, __unserialize, __set_state, clone, filter and map.
pub mod Filled
pub mod Collected
pub mod Mapped
pub mod Kept
pub mod Thrown
pub mod Saved
use pecl_teds.Base.{
  ℕ, zero, suc, ◌+◌, ◌-◌, ◌*◌, ◌/◌, Bool, true, false, List, [], ◌∷◌, Option, none, some, length,
  leb, ltb, ◌==◌, if◌then◌else◌, ◌&&◌,
}
use pecl_teds.Machine.{u32}
use pecl_teds.Run.{
  Run, ok, throw, fatal, asserted, fault, out_of_fuel, Exception, runtime, unexpected_value, ◌>>=◌,
}
use pecl_teds.Memory.{Block, no_block, malloc, realloc, load, store, fill}
use pecl_teds.Iterable.{Traversal, failed, values, Iterable, array, object}
use pecl_teds.Vector.{Entries, empty_list, set_empty_list}

-- The capacity after a full one, in teds_vector_entries_init_from_traversable. `entries` is NULL
-- while the capacity is 0.
unfoldable pub next_capacity : ℕ → ℕ → Run ℕ
next_capacity max_size capacity =
    if capacity == 0
    then ok 4
    else if ltb (max_size / 2) capacity
    then (if ltb capacity max_size then ok max_size else fatal)
    else ok (capacity * 2)

module _ {A : Type 0} where
  -- A new object, as teds_vector_new leaves it.
  abbrev pub fresh : Entries A
  fresh = record { null = true; entries = no_block; size = 0; capacity = 0; iterators = [] }

  -- teds_vector_entries_init_from_array_values
  unfoldable pub init_from_array_values : Entries A → List A → Run (Entries A)
  init_from_array_values vector [] = ok (set_empty_list vector)
  init_from_array_values vector (x ∷ xs) =
      let num_entries = u32 (length (x ∷ xs)) in
      fill (malloc num_entries) 0 (x ∷ xs) >>= λ entries. ok (record vector {
        null = false;
        entries = entries;
        size = num_entries;
        capacity = num_entries;
      })

  module _ (max_size : ℕ) where
    -- The loop of teds_vector_entries_init_from_traversable: `entries`, `size` and `capacity`.
    unfoldable pub collect : Block A → ℕ → ℕ → List A → Run (Block A × ℕ × ℕ)
    collect entries size capacity [] = ok (entries, size, capacity)
    collect entries size capacity (x ∷ xs) =
        (if leb capacity size
          then (next_capacity max_size capacity >>= λ raised.
              ok (if capacity == 0 then malloc raised else realloc entries raised, raised))
          else ok (entries, capacity))
        >>= λ (room, capacity').
            store room size x >>= λ stored. collect stored (u32 (size + 1)) capacity' xs

    -- teds_vector_entries_init_from_traversable
    unfoldable pub init_from_traversable : Entries A → Traversal A → Run (Entries A)
    init_from_traversable vector failed =
        ok (record vector { null = true; entries = no_block; size = 0 })
    init_from_traversable vector (values xs) =
        collect no_block 0 0 xs >>= λ (entries, size, capacity). ok (record vector {
          null = capacity == 0;
          entries = if ltb size capacity then realloc entries size else entries;
          size = size;
          capacity = size;
        })

    -- Vector::__construct
    unfoldable pub construct : Entries A → Option (Iterable A) → Run (Entries A)
    construct vector iterable =
        if vector.null
        then (elim iterable [
          | none ↦ ok (set_empty_list vector)
          | some (array xs) ↦ init_from_array_values vector xs
          | some (object t) ↦ init_from_traversable vector t
        ])
        else throw runtime

  -- The loop of Vector::__unserialize over the entries, each with whether its key is a string.
  unfoldable pub unserialize_loop : Block A → ℕ → List (Bool × A) → Run (Block A)
  unserialize_loop entries it [] = ok entries
  unserialize_loop entries it ((str, val) ∷ raw_data) =
      let rest = store entries it val >>= λ stored. unserialize_loop stored (it + 1) raw_data in
      if str then throw unexpected_value else rest

  -- Vector::__unserialize
  unfoldable pub unserialize : Entries A → List (Bool × A) → Run (Entries A)
  unserialize vector raw_data =
      if vector.null
      then (elim raw_data [
        | [] ↦ ok (set_empty_list vector)
        | e ∷ es ↦
            let num_entries = u32 (length (e ∷ es)) in
            unserialize_loop (malloc num_entries) 0 (e ∷ es) >>= λ entries. ok (record vector {
              null = false;
              entries = entries;
              size = num_entries;
              capacity = num_entries;
            })
      ])
      else throw runtime

  -- Vector::__set_state
  unfoldable pub set_state : List A → Run (Entries A)
  set_state array_ht = init_from_array_values fresh array_ht

  -- teds_vector_copy_range, for the `n` zvals from `begin` on.
  unfoldable pub copy_range : Block A → ℕ → Block A → ℕ → ℕ → Run (Block A)
  copy_range entries to from begin zero = ok entries
  copy_range entries to from begin (suc n) = load from begin >>= λ a.
      store entries to a >>= λ copied. copy_range copied (to + 1) from (begin + 1) n

  -- teds_vector_entries_copy_ctor, into a new object.
  unfoldable pub copy_ctor : Entries A → Run (Entries A)
  copy_ctor from =
      if from.size == 0
      then ok empty_list
      else (copy_range (malloc from.size) 0 from.entries 0 from.size >>= λ entries.
          ok (record fresh {
            null = false;
            entries = entries;
            size = from.size;
            capacity = from.size;
          }))

  -- The destruction of the zvals at `size`, `size - 1` down to 1, in filter and map.
  unfoldable pub cleanup : Block A → ℕ → Run (List A)
  cleanup entries zero = ok []
  cleanup entries (suc size) =
      load entries (suc size) >>= λ a. cleanup entries size >>= λ rest. ok (a ∷ rest)

  -- The room for one more value in filter, with `left` values of the vector not yet kept or
  -- dropped. `limit` is the maximum, where the code compares the capacity with it.
  unfoldable pub filter_room : Option ℕ → Block A → ℕ → ℕ → ℕ → Run (Block A × ℕ)
  filter_room limit entries size capacity left =
      if leb capacity size
      then (if capacity == 0
          then ok (malloc (if ltb 0 left then left else 1), if ltb 0 left then left else 1)
          else (elim limit [
            | none ↦ ok (realloc entries (size + left), size + left)
            | some max_size ↦
                if leb max_size (size + left)
                then fatal
                else ok (realloc entries (size + left), size + left)
          ]))
      else ok (entries, capacity)

  module _ (limit : Option ℕ) (keeps : A → Run Bool) where
    -- The loop of filter, with `n` values of the vector left from index `i` on. `entries` is NULL
    -- while the capacity is 0. The test is a callback, which does not change the vector.
    unfoldable pub filter_loop : Block A → ℕ → ℕ → Block A → ℕ → ℕ → Run (Block A × ℕ × ℕ)
    filter_loop from i zero entries size capacity = ok (entries, size, capacity)
    filter_loop from i (suc n) entries size capacity = load from i >>= λ operand.
        elim (keeps operand) [
          | ok true ↦ filter_room limit entries size capacity (suc n) >>= λ (room, capacity').
              store room size operand >>= λ stored.
              filter_loop from (i + 1) n stored (u32 (size + 1)) capacity'
          | ok false ↦ filter_loop from (i + 1) n entries size capacity
          | throw e ↦
              (if capacity == 0 then ok [] else cleanup entries size) >>= λ destroyed. throw e
          | fatal ↦ fatal
          | asserted ↦ asserted
          | fault ↦ fault
          | out_of_fuel ↦ out_of_fuel
        ]

    -- Vector::filter
    unfoldable pub filter_with : Entries A → Run (Entries A)
    filter_with vector =
        filter_loop vector.entries 0 vector.size no_block 0 0 >>= λ (entries, size, capacity). ok (
          if size == 0 then empty_list else record fresh {
            null = false;
            entries = if ltb size capacity then realloc entries size else entries;
            size = size;
            capacity = size;
          })

  -- Vector::filter: without a callback the test is zend_is_true.
  unfoldable pub filter : ℕ → (A → Bool) → Option (A → Run Bool) → Entries A → Run (Entries A)
  filter max_size is_true none vector = filter_with none (λ a. ok (is_true a)) vector
  filter max_size is_true (some callback) vector = filter_with (some max_size) callback vector

  module _ (callback : A → Run A) where
    -- The loop of map, with `n` values left. The engine has set the zval at `size` to UNDEF when the
    -- callback throws, so that the clean-up reads below it.
    unfoldable pub map_loop : Block A → ℕ → ℕ → Block A → Run (Block A)
    map_loop from size zero entries = ok entries
    map_loop from size (suc n) entries = load from size >>= λ operand. elim (callback operand) [
      | ok result ↦ store entries size result >>= λ stored. map_loop from (size + 1) n stored
      | throw e ↦ cleanup entries (size - 1) >>= λ destroyed. throw e
      | fatal ↦ fatal
      | asserted ↦ asserted
      | fault ↦ fault
      | out_of_fuel ↦ out_of_fuel
    ]

    -- Vector::map
    unfoldable pub map_values : Entries A → Run (Entries A)
    map_values vector =
        if vector.size == 0
        then ok empty_list
        else (map_loop vector.entries 0 vector.size (malloc vector.size) >>= λ entries.
            ok (record fresh {
              null = false;
              entries = entries;
              size = vector.size;
              capacity = vector.size;
            }))
