-- ===== src/StrictSortedVectorMap/Build.antt =====
-- teds_strictsortedvectormap.c: how a map is made of an iterator or of pairs, written out and read
-- back, cloned and emptied.
pub mod Puts
pub mod Made
pub mod Saved
use mathlib.Core.List.{map}
use pecl_teds.Base.{
  ℕ, ◌+◌, ◌*◌, ◌/◌, ◌%◌, Bool, true, false, List, [], ◌∷◌, Option, none, some, length, leb, ◌==◌,
  if◌then◌else◌,
}
use pecl_teds.Machine.{u32}
use pecl_teds.Run.{Run, ok, throw, fatal, runtime, unexpected_value, fault, ◌>>=◌}
use pecl_teds.Memory.{no_block, malloc}
use pecl_teds.Util.{deque_next_pow2_capacity}
use pecl_teds.Util.Range.{read_values}
use pecl_teds.Iterable.{Traversal, failed, values, Iterable, array, object}
use pecl_teds.Compare.{Comparison}
use pecl_teds.Vector.{Entries, empty_list, set_empty_list}
use pecl_teds.Vector.Build.{fresh, copy_range}
use pecl_teds.StrictSortedVectorMap.{Entry, insert_pair}

-- What teds_strictsortedvectormap_entries_insert_from_pair finds in a zval: no array, an array with
-- no element at the index 0 or 1, or a key and a value.
pub data Raw (A : Type 0) : Type 0 where
  non_array no_key no_value : Raw A
  pair : A → A → Raw A

module _ {A : Type 0} where
  -- The keys and values in turn.
  abbrev pub flat : List (Entry A) → List A
  flat [] = []
  flat (x ∷ q) = x.0 ∷ (x.1 ∷ flat q)

  -- StrictSortedVectorMap::__serialize
  unfoldable pub serialize : Entries (Entry A) → Run (List A)
  serialize from =
      if from.size == 0
      then ok []
      else (read_values from.entries 0 from.size >>= λ entries. ok (flat entries))

  -- StrictSortedVectorMap::toPairs
  unfoldable pub to_pairs : Entries (Entry A) → Run (List (Entry A))
  to_pairs from = if from.size == 0 then ok [] else read_values from.entries 0 from.size

  -- StrictSortedVectorMap::keys
  unfoldable pub keys : Entries (Entry A) → Run (List A)
  keys from =
      if from.size == 0
      then ok []
      else (read_values from.entries 0 from.size >>= λ entries. ok (map (λ e. e.0) entries))

  -- StrictSortedVectorMap::values
  unfoldable pub all_values : Entries (Entry A) → Run (List A)
  all_values from =
      if from.size == 0
      then ok []
      else (read_values from.entries 0 from.size >>= λ entries. ok (map (λ e. e.1) entries))

  -- teds_strictsortedvectormap_clear
  unfoldable pub clear : Entries (Entry A) → Entries (Entry A)
  clear from = if from.capacity == 0 then from else set_empty_list from

  -- teds_strictsortedvectormap_entries_copy_ctor, into a new object, with
  -- teds_strictsortedvectormap_copy_range, which has the body of teds_vector_copy_range.
  unfoldable pub copy_ctor : Entries (Entry A) → Run (Entries (Entry A))
  copy_ctor from =
      if from.size == 0
      then ok empty_list
      else (copy_range (malloc from.capacity) 0 from.entries 0 from.size >>= λ entries.
          ok (record fresh {
            null = false;
            entries = entries;
            size = from.size;
            capacity = from.capacity;
          }))

module _ {A : Type 0} (order : Comparison A) (max_pairs : ℕ) where
  -- The loop of teds_strictsortedvectormap_entries_init_from_traversable, over the keys and the
  -- values of the iterator.
  unfoldable pub collect_pairs : Entries (Entry A) → List (Entry A) → Run (Entries (Entry A))
  collect_pairs into [] = ok into
  collect_pairs into (x ∷ q) =
      insert_pair order max_pairs into x.0 x.1 false >>= λ (grown, new). collect_pairs grown q

  -- teds_strictsortedvectormap_entries_init_from_traversable
  unfoldable pub init_from_iterator :
      Entries (Entry A) → Traversal (Entry A) → Run (Entries (Entry A))
  init_from_iterator into failed =
      ok (record into { null = true; entries = no_block; size = 0; capacity = 0 })
  init_from_iterator into (values q) =
      collect_pairs (record into { null = true; entries = no_block; size = 0; capacity = 0 }) q

  -- teds_strictsortedvectormap_entries_insert_from_pair
  unfoldable pub insert_from_pair : Entries (Entry A) → Raw A → Run (Entries (Entry A))
  insert_from_pair into non_array = throw unexpected_value
  insert_from_pair into no_key = throw unexpected_value
  insert_from_pair into no_value = throw unexpected_value
  insert_from_pair into (pair key value) =
      insert_pair order max_pairs into key value false >>= λ (grown, new). ok grown

  -- The loop over the pairs, which ends at the first zval that is no pair.
  unfoldable pub insert_pairs : Entries (Entry A) → List (Raw A) → Run (Entries (Entry A))
  insert_pairs into [] = ok into
  insert_pairs into (raw_val ∷ rest) =
      insert_from_pair into raw_val >>= λ grown. insert_pairs grown rest

  -- teds_strictsortedvectormap_entries_init_from_array_pairs
  unfoldable pub init_from_array_pairs : Entries (Entry A) → List (Raw A) → Run (Entries (Entry A))
  init_from_array_pairs into [] = ok (record into { null = false; entries = no_block; size = 0 })
  init_from_array_pairs into (raw_val ∷ rest) =
      let capacity = u32 (deque_next_pow2_capacity (u32 (length (raw_val ∷ rest)))) in
      if leb max_pairs capacity
      then fatal
      else insert_pairs
          (record into { null = false; entries = malloc capacity; size = 0; capacity = capacity })
          (raw_val ∷ rest)

  -- teds_strictsortedvectormap_entries_init_from_traversable_pairs
  unfoldable pub init_from_iterator_pairs :
      Entries (Entry A) → Traversal (Raw A) → Run (Entries (Entry A))
  init_from_iterator_pairs into failed =
      ok (record into { null = true; entries = no_block; size = 0; capacity = 0 })
  init_from_iterator_pairs into (values q) =
      insert_pairs (record into { null = true; entries = no_block; size = 0; capacity = 0 }) q

  -- create_from_pairs, and StrictSortedVectorMap::fromPairs
  unfoldable pub from_pairs : Iterable (Raw A) → Run (Entries (Entry A))
  from_pairs (array q) = init_from_array_pairs fresh q
  from_pairs (object t) = init_from_iterator_pairs fresh t

  -- StrictSortedVectorMap::__set_state
  unfoldable pub set_state : List (Raw A) → Run (Entries (Entry A))
  set_state array_ht = init_from_array_pairs fresh array_ht

  -- The loop of __unserialize over the entries, each with whether its key is a string. `key` is
  -- what the last round with an even `i` has left.
  unfoldable pub unserialize_loop :
      Entries (Entry A) → ℕ → Option A → List (Bool × A) → Run (Entries (Entry A))
  unserialize_loop into i key [] = ok into
  unserialize_loop into i key ((str, val) ∷ rest) =
      let insert_next : Run (Entries (Entry A)) = elim key [
        | none ↦ fault
        | some last_key ↦ insert_pair order max_pairs into last_key val true >>= λ (grown, new).
            unserialize_loop grown (u32 (i + 1)) (some last_key) rest
      ] in
      let keep_next = unserialize_loop into (u32 (i + 1)) (some val) rest in
      if str then throw unexpected_value else if i % 2 == 1 then insert_next else keep_next

  -- StrictSortedVectorMap::__unserialize
  unfoldable pub unserialize : Entries (Entry A) → List (Bool × A) → Run (Entries (Entry A))
  unserialize into raw_data =
      let raw_size = u32 (length raw_data) in
      if raw_size % 2 == 0
      then (if into.null
          then (if raw_size == 0
              then ok (record into { null = false; entries = no_block })
              else (let capacity = u32 (deque_next_pow2_capacity (raw_size / 2)) in
                  unserialize_loop
                    (record into {
                      null = false;
                      entries = malloc capacity;
                      size = 0;
                      capacity = capacity;
                    })
                    0 none raw_data))
          else throw runtime)
      else throw unexpected_value
