-- ===== src/Deque/Walk.antt =====
-- teds_deque.c: what goes through the entries without changing them: toArray, indexOf, contains,
-- foreach, and the destruction of the entries.
pub mod Laws
pub mod Search
use pecl_teds.Base.{
  ℕ, zero, suc, ◌+◌, ◌-◌, ◌^◌, Bool, true, false, List, [], ◌∷◌, Option, none, some, leb, ltb, ◌==◌,
  if◌then◌else◌,
}
use pecl_teds.Machine.{u32}
use pecl_teds.Run.{Run, ok, throw, out_of_fuel, invalid_index, ◌>>=◌}
use pecl_teds.Memory.{Block, load}
use pecl_teds.Deque.{Deque, get_entry_at_offset}

-- teds_deque_it_move_forward
unfoldable pub it_move_forward : ℕ → ℕ
it_move_forward current = u32 (current + 1)

module _ {A : Type 0} where
  -- The loop of teds_deque_entries_to_refcounted_array: the pointer goes back to the start after
  -- the last cell. The loop runs while `len` is not 0 after the first round.
  unfoldable pub to_array_loop : Block A → ℕ → ℕ → ℕ → Run (List A)
  to_array_loop b capacity p zero = ok []
  to_array_loop b capacity p (suc len) = load b p >>= λ a.
      to_array_loop b capacity (if p + 1 == capacity then 0 else p + 1) len >>= λ rest.
      ok (a ∷ rest)

  -- Deque::toArray, which is also __serialize and jsonSerialize
  unfoldable pub to_array : Deque A → Run (List A)
  to_array d = if d.size == 0 then ok [] else to_array_loop d.buffer (d.mask + 1) d.offset d.size

  -- The loop of teds_deque_entries_dtor: the values that are destroyed, in their order. The pointer
  -- goes back to the start before it would read past the last cell.
  unfoldable pub dtor_loop : Block A → ℕ → ℕ → ℕ → Run (List A)
  dtor_loop b capacity p zero = ok []
  dtor_loop b capacity p (suc remaining) =
      let at = if p == capacity then 0 else p in
      load b at >>= λ a. dtor_loop b capacity (at + 1) remaining >>= λ rest. ok (a ∷ rest)

  -- teds_deque_entries_dtor
  unfoldable pub dtor : Deque A → Run (List A)
  dtor d =
      if d.mask == 0
      then ok []
      else if ltb 0 d.size
      then dtor_loop d.buffer (d.mask + 1) d.offset d.size
      else ok []

  module _ (identical : A → A → Bool) (value : A) where
    -- The loop of Deque::indexOf and of Deque::contains, with `n` entries left from `i` on.
    unfoldable pub search_loop : Deque A → ℕ → ℕ → Run (Option ℕ)
    search_loop d i zero = ok none
    search_loop d i (suc n) = get_entry_at_offset d i >>= λ dest. elim (identical value dest) [
      | true ↦ ok (some i)
      | false ↦ search_loop d (i + 1) n
    ]

    -- Deque::indexOf
    unfoldable pub index_of : Deque A → Run (Option ℕ)
    index_of d = search_loop d 0 d.size

    -- Deque::contains
    unfoldable pub contains : Deque A → Run Bool
    contains d = search_loop d 0 d.size >>= λ r. ok (elim r [ none ↦ false | some _ ↦ true ])

  -- teds_deque_it_valid
  unfoldable pub it_valid : Deque A → ℕ → Bool
  it_valid d current = ltb current d.size

  -- teds_deque_it_get_current_data
  unfoldable pub it_get_current_data : Deque A → ℕ → Run A
  it_get_current_data d current =
      if leb d.size current then throw invalid_index else get_entry_at_offset d current

  -- teds_deque_it_get_current_key, `none` for NULL
  unfoldable pub it_get_current_key : Deque A → ℕ → Option ℕ
  it_get_current_key d current = if leb d.size current then none else some current

  -- What foreach does with an iterator that was rewound: keys and values up to the end.
  unfoldable pub foreach : ℕ → Deque A → ℕ → Run (List (Option ℕ × A))
  foreach zero d current = out_of_fuel
  foreach (suc fuel) d current = elim (it_valid d current) [
    | false ↦ ok []
    | true ↦ it_get_current_data d current >>= λ a.
        foreach fuel d (it_move_forward current) >>= λ rest.
        ok ((it_get_current_key d current, a) ∷ rest)
  ]
