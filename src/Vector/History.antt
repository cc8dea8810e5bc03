-- ===== src/Vector/History.antt =====
-- teds_vector.c: calls of the methods of a vector one after the other, each with what the script
-- sees of it, and the same calls on a list.
pub mod Matches
pub mod Writes
pub mod Takes
pub mod Each
pub mod Laws
use mathlib.Core.List.{reverse}
use pecl_teds.Base.{
  ℕ, ◌+◌, ◌-◌, ◌^◌, Bool, false, ◌||◌, ◌&&◌, List, [], ◌∷◌, ◌++◌, Option, none, some, length,
  get_elem?, set, insert_at, remove_at, ltb, leb, if◌then◌else◌,
}
use pecl_teds.Run.{
  Run, ok, throw, fatal, asserted, fault, out_of_fuel, Exception, invalid_index, underflow,
  value_error, ◌>>=◌,
}
use pecl_teds.Deque.Keys.{found}
use pecl_teds.Vector.{Entries}
use pecl_teds.Vector.Store.{write_dimension, set_value_at_offset, push, push_front, insert}
use pecl_teds.Vector.Remove.{pop, pop_front, offset_unset, clear, set_size, shrink_to_fit, reserve}
use pecl_teds.Vector.Remove.Size.{resize, breaks_assertion}
use pecl_teds.Vector.Keys.{get_value_at_offset, first, last, to_array}

-- The methods of Vector, with their arguments. A number is the 64-bit pattern of a zend_long.
pub data Call (A : Type 0) : Type 0 where
  call_set : ℕ → A → Call A
  call_append : A → Call A
  call_push call_push_front : List A → Call A
  call_insert : ℕ → List A → Call A
  call_pop call_pop_front call_clear call_shrink_to_fit call_first call_last call_to_array : Call A
  call_offset_unset call_reserve call_get : ℕ → Call A
  call_set_size : ℕ → A → Call A

-- What the script sees: no value, a value, an array, or an exception.
pub data Seen (A : Type 0) : Type 0 where
  nothing : Seen A
  value : A → Seen A
  all : List A → Seen A
  thrown : Exception → Seen A

module _ {A : Type 0} where
  -- An exception leaves the vector as it was: each method throws before its first write.
  abbrev caught :
      {B : Type 0} → Entries A → (B → Entries A × Seen A) → Run B → Run (Entries A × Seen A)
  caught array seen (ok b) = ok (seen b)
  caught array seen (throw e) = ok (array, thrown e)
  caught array seen fatal = fatal
  caught array seen asserted = asserted
  caught array seen fault = fault
  caught array seen out_of_fuel = out_of_fuel

  abbrev written : Entries A → Run (Entries A) → Run (Entries A × Seen A)
  written array run = caught array (λ e. (e, nothing)) run

  abbrev reading : Entries A → Run A → Run (Entries A × Seen A)
  reading array run = caught array (λ a. (array, value a)) run

  unfoldable pub call : ℕ → Entries A → Call A → Run (Entries A × Seen A)
  call max_size array (call_set offset a) = written array (set_value_at_offset array offset a)
  call max_size array (call_append a) = written array (write_dimension max_size array none a)
  call max_size array (call_push args) = written array (push max_size array args)
  call max_size array (call_push_front args) = written array (push_front max_size array args)
  call max_size array (call_insert offset args) = written array (insert max_size array offset args)
  call max_size array call_pop = caught array (λ r. (r.0, value r.1)) (pop array)
  call max_size array call_pop_front = caught array (λ r. (r.0, value r.1)) (pop_front array)
  call max_size array (call_offset_unset offset) =
      caught array (λ r. (r.0, nothing)) (offset_unset array offset)
  call max_size array call_clear = ok (clear array, nothing)
  call max_size array (call_set_size size a) = written array (set_size max_size array size a)
  call max_size array (call_reserve capacity) = written array (reserve max_size array capacity)
  call max_size array call_shrink_to_fit = ok (shrink_to_fit array, nothing)
  call max_size array (call_get offset) = reading array (get_value_at_offset array offset)
  call max_size array call_first = reading array (first array)
  call max_size array call_last = reading array (last array)
  call max_size array call_to_array = caught array (λ q. (array, all q)) (to_array array)

  -- Whether the call is one of setSize that breaks an assertion.
  abbrev pub breaks_call : Entries A → Call A → Bool
  breaks_call array (call_set_size size a) = breaks_assertion array size
  breaks_call array _ = false

  abbrev then_breaks : Run (Entries A × Seen A) → (Entries A → Bool) → Bool
  then_breaks (ok r) rest = rest r.0
  then_breaks _ rest = false

  -- Whether the calls come to one that breaks an assertion.
  unfoldable pub breaks : ℕ → Entries A → List (Call A) → Bool
  breaks max_size array [] = false
  breaks max_size array (c ∷ cs) =
      breaks_call array c || then_breaks (call max_size array c) (λ after. breaks max_size after cs)

  unfoldable pub calls : ℕ → Entries A → List (Call A) → Run (Entries A × List (Seen A))
  calls max_size array [] = ok (array, [])
  calls max_size array (c ∷ cs) = call max_size array c >>= λ (after, seen).
      calls max_size after cs >>= λ (final, rest). ok (final, seen ∷ rest)

  -- The same call on a list.
  abbrev pub read_at : List A → ℕ → Exception → Seen A
  read_at q i e = found (get_elem? q i) (thrown e) (λ a. value a)

  abbrev pub on_list : List A → Call A → List A × Seen A
  on_list q (call_set offset a) =
      if ltb offset (length q) then (set q offset a, nothing) else (q, thrown invalid_index)
  on_list q (call_append a) = (q ++ a ∷ [], nothing)
  on_list q (call_push args) = (q ++ args, nothing)
  on_list q (call_push_front args) = (reverse args ++ q, nothing)
  on_list q (call_insert offset args) =
      if leb offset (length q)
      then (insert_at offset args q, nothing)
      else (q, thrown invalid_index)
  on_list q call_pop = (remove_at (length q - 1) q, read_at q (length q - 1) underflow)
  on_list q call_pop_front = (remove_at 0 q, read_at q 0 underflow)
  on_list q (call_offset_unset offset) =
      if ltb offset (length q) then (remove_at offset q, nothing) else (q, thrown invalid_index)
  on_list q call_clear = ([], nothing)
  on_list q (call_set_size size a) =
      if ltb size (2 ^ 63) then (resize size a q, nothing) else (q, thrown value_error)
  on_list q (call_reserve capacity) = (q, nothing)
  on_list q call_shrink_to_fit = (q, nothing)
  on_list q (call_get offset) = (q, read_at q offset invalid_index)
  on_list q call_first = (q, read_at q 0 underflow)
  on_list q call_last = (q, read_at q (length q - 1) underflow)
  on_list q call_to_array = (q, all q)

  abbrev pub all_on_list : List A → List (Call A) → List A × List (Seen A)
  all_on_list q [] = (q, [])
  all_on_list q (c ∷ cs) =
      let (after, seen) = on_list q c in
      let (final, rest) = all_on_list after cs in (final, seen ∷ rest)

  -- Whether one of the calls removes more than one value by setSize, and not all.
  abbrev pub shortens_call : List A → Call A → Bool
  shortens_call q (call_set_size size a) = ltb 0 size && ltb (size + 1) (length q)
  shortens_call q _ = false

  abbrev pub shortens : List A → List (Call A) → Bool
  shortens q [] = false
  shortens q (c ∷ cs) = shortens_call q c || shortens (on_list q c).0 cs

  -- The places that a call asks for: at most this many more values are held after it.
  abbrev pub places : Call A → ℕ
  places (call_append a) = 1
  places (call_push args) = length args
  places (call_push_front args) = length args
  places (call_insert offset args) = length args
  places (call_set_size size a) = if ltb size (2 ^ 63) then size else 0
  places (call_reserve capacity) = if ltb capacity (2 ^ 63) then capacity else 0
  places _ = 0

  abbrev pub all_places : List (Call A) → ℕ
  all_places [] = 0
  all_places (c ∷ cs) = places c + all_places cs
