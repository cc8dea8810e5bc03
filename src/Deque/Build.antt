-- ===== src/Deque/Build.antt =====
-- teds_deque.c: how a Deque is made: __construct, __unserialize, __set_state and clone.
pub mod FromArray
pub mod Serialized
pub mod FromTraversable
pub mod Clone
use pecl_teds.Base.{
  ℕ, zero, suc, ◌+◌, ◌-◌, ◌*◌, ◌^◌, Bool, true, false, List, [], ◌∷◌, Option, none, some, length,
  leb, ltb, ◌==◌, if◌then◌else◌,
}
use pecl_teds.Machine.{u32, u64}
use pecl_teds.Run.{Run, ok, throw, runtime, unexpected_value, ◌>>=◌}
use pecl_teds.Memory.{Block, no_block, malloc, realloc, load, store, fill}
use pecl_teds.Util.{deque_next_pow2_capacity}
use pecl_teds.Iterable.{Traversal, failed, values, Iterable, array, object}
use pecl_teds.Deque.{Deque}

module _ {A : Type 0} where
  -- A new object, as teds_deque_new leaves it.
  abbrev pub fresh : Deque A
  fresh = record { null = true; buffer = no_block; size = 0; mask = 0; offset = 0; iterators = [] }

  -- An empty deque over `empty_entry_list`.
  abbrev pub emptied : Deque A → Deque A
  emptied d = record d { null = false; buffer = no_block; size = 0; mask = 0; offset = 0 }

  -- teds_deque_entries_init_from_array
  unfoldable pub init_from_array : Deque A → List A → Run (Deque A)
  init_from_array d [] = ok (emptied d)
  init_from_array d (x ∷ xs) =
      let size = length (x ∷ xs) in
      let capacity = u32 (deque_next_pow2_capacity size) in
      fill (malloc capacity) 0 (x ∷ xs) >>= λ b. ok (record d {
        null = false;
        buffer = b;
        size = u32 size;
        mask = u32 (capacity + 2 ^ 32 - 1);
        offset = 0;
      })

  -- The loop of teds_deque_entries_init_from_traversable: the buffer, `size` and `capacity`.
  unfoldable pub collect : Block A → ℕ → ℕ → List A → Run (Block A × ℕ × ℕ)
  collect b size capacity [] = ok (b, size, capacity)
  collect b size capacity (x ∷ xs) =
      if leb capacity size
      then (let capacity' = if capacity == 0 then 4 else u64 (capacity * 2) in
          store (if capacity == 0 then malloc 4 else realloc b capacity') size x >>= λ c.
          collect c (u32 (size + 1)) capacity' xs)
      else (store b size x >>= λ c. collect c (u32 (size + 1)) capacity xs)

  -- teds_deque_entries_init_from_traversable
  unfoldable pub init_from_traversable : Deque A → Traversal A → Run (Deque A)
  init_from_traversable d failed =
      ok (record d { null = true; buffer = no_block; size = 0; offset = 0 })
  init_from_traversable d (values xs) = collect no_block 0 0 xs >>= λ (b, size, capacity).
      ok (record d {
        null = capacity == 0;
        buffer = b;
        size = size;
        mask = if ltb 0 capacity then u32 (capacity + 2 ^ 64 - 1) else 0;
        offset = 0;
      })

  -- Deque::__construct
  unfoldable pub construct : Deque A → Option (Iterable A) → Run (Deque A)
  construct d iterable =
      if d.null
      then (elim iterable [
        | none ↦ ok (emptied d)
        | some (array xs) ↦ init_from_array d xs
        | some (object t) ↦ init_from_traversable d t
      ])
      else throw runtime

  -- The loop of Deque::__unserialize over the entries, each with whether its key is a string.
  unfoldable pub unserialize_loop : Block A → ℕ → List (Bool × A) → Run (Block A × ℕ)
  unserialize_loop b it [] = ok (b, it)
  unserialize_loop b it ((str, val) ∷ entries) =
      let rest = store b it val >>= λ c. unserialize_loop c (it + 1) entries in
      if str then throw unexpected_value else rest

  -- Deque::__unserialize
  unfoldable pub unserialize : Deque A → List (Bool × A) → Run (Deque A)
  unserialize d raw_data =
      if d.null
      then (elim raw_data [
        | [] ↦ ok (emptied d)
        | e ∷ es ↦
            let capacity = u32 (deque_next_pow2_capacity (length (e ∷ es))) in
            unserialize_loop (malloc capacity) 0 (e ∷ es) >>= λ (b, it). ok (record d {
              null = false;
              buffer = b;
              size = u32 it;
              mask = u32 (capacity + 2 ^ 32 - 1);
            })
      ])
      else throw runtime

  -- teds_deque_entries_init_from_array_values, on the new object of Deque::__set_state
  unfoldable pub set_state : List A → Run (Deque A)
  set_state [] = ok fresh
  set_state (x ∷ xs) =
      let capacity = deque_next_pow2_capacity (length (x ∷ xs)) in
      fill (malloc capacity) 0 (x ∷ xs) >>= λ b. ok (record fresh {
        null = false;
        buffer = b;
        size = u32 (length (x ∷ xs));
        mask = u32 (capacity + 2 ^ 64 - 1);
      })

  -- The loop of teds_deque_entries_copy_ctor: `n` cells from `from_begin` on go to `p_dest` and
  -- behind it, round the buffer of `capacity` cells.
  unfoldable pub copy_loop : Block A → ℕ → Block A → ℕ → ℕ → ℕ → Run (Block A)
  copy_loop dst p_dest src capacity from_begin zero = ok dst
  copy_loop dst p_dest src capacity from_begin (suc n) =
      let from = if from_begin == capacity then 0 else from_begin in
      load src from >>= λ a.
      store dst p_dest a >>= λ b. copy_loop b (p_dest + 1) src capacity (from + 1) n

  -- teds_deque_entries_copy_ctor: a clone has room for `size` cells, and the mask of a power of two.
  unfoldable pub copy_ctor : Deque A → Run (Deque A)
  copy_ctor from =
      if from.size == 0
      then ok (emptied fresh)
      else (copy_loop (malloc from.size) 0 from.buffer (from.mask + 1) from.offset from.size
          >>= λ b. ok (record fresh {
            null = false;
            buffer = b;
            size = from.size;
            mask = u32 (u32 (deque_next_pow2_capacity from.size) + 2 ^ 32 - 1);
          }))
