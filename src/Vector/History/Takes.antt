-- ===== src/Vector/History/Takes.antt =====
-- pop, popFront, offsetUnset and toArray do what the same calls do on the list that the vector holds.
use pecl_teds.Base.{
  ℕ, ◌-◌, ◌*◌, ◌≤◌, ◌≡◌, refl, List, length, get_elem?-none, lt→ltb, le→ltb, le→leb, ◌==◌, arith,
  dec_lt, true,
}
use pecl_teds.Run.{invalid_index, underflow, Returns, returns}
use pecl_teds.Util.Limit.{Limit}
use pecl_teds.Vector.{Entries, Holds}
use pecl_teds.Vector.Remove.{pop, pop_front, offset_unset}
use pecl_teds.Vector.Remove.Laws.{pop-Taken, pop_front-Taken, offset_unset-Taken}
use pecl_teds.Vector.Keys.Laws.{to_array-list}
use pecl_teds.Vector.History.{
  call_pop, call_pop_front, call_to_array, call_offset_unset, call, on_list,
}
use pecl_teds.Vector.History.Matches.{
  Matches, remove_at-nil, throw-Matches, taking-Matches, dropping-Matches,
}

module _ {A : Type 0} (max_size : ℕ) where
  module _ (l : Limit max_size) (array : Entries A) (q : List A) (h : Holds array q) where
    pub pop-Matches :
        length q * 2 ≤ max_size
        → Returns (Matches max_size (on_list q call_pop)) (call max_size array call_pop)
    unfolding call pop
    pop-Matches small = elim (dec_lt 0 (length q)) [
      | yes lt ↦
          taking-Matches max_size array q (length q - 1) underflow
            (pop-Taken array q h lt (omega (arith, l.ceiling)))
      | no ge ↦
          let none_yet : (array.size == 0) ≡ true = ground (arith, h.count) in
          rw
            (
              remove_at-nil (length q - 1) q (omega arith),
              get_elem?-none q (length q - 1) (omega arith),
              none_yet,
            )
            (throw-Matches max_size array q underflow h)
    ]

    pub pop_front-Matches :
        length q * 2 ≤ max_size
        → Returns (Matches max_size (on_list q call_pop_front)) (call max_size array call_pop_front)
    unfolding call pop_front
    pop_front-Matches small = elim (dec_lt 0 (length q)) [
      | yes lt ↦
          taking-Matches max_size array q 0 underflow
            (pop_front-Taken array q h lt (omega (arith, l.ceiling)))
      | no ge ↦
          let none_yet : (array.size == 0) ≡ true = ground (arith, h.count) in
          rw (remove_at-nil 0 q (omega arith), get_elem?-none q 0 (omega arith), none_yet)
            (throw-Matches max_size array q underflow h)
    ]

    pub offset_unset-Matches :
        (offset : ℕ)
        → length q * 2 ≤ max_size
        → Returns
            (Matches max_size (on_list q (call_offset_unset offset)))
            (call max_size array (call_offset_unset offset))
    unfolding call offset_unset
    offset_unset-Matches offset small = elim (dec_lt offset (length q)) [
      | yes lt ↦ rw (lt→ltb offset (length q) lt) (
          dropping-Matches max_size array q offset
            (offset_unset-Taken array q offset h lt (omega (arith, l.ceiling))))
      | no ge ↦
          rw
            (
              le→ltb offset (length q) (omega arith),
              le→leb array.size offset (omega (arith, h.count)),
            )
            (throw-Matches max_size array q invalid_index h)
    ]

    pub to_array-Matches :
        Returns (Matches max_size (on_list q call_to_array)) (call max_size array call_to_array)
    unfolding call
    to_array-Matches = rw (to_array-list array q h) (returns record { holds = h; same = refl })
