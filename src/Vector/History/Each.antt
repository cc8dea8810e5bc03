-- ===== src/Vector/History/Each.antt =====
-- Each call on a vector does what the same call does on the list that it holds.
use pecl_teds.Base.{
  ℕ, ◌+◌, ◌-◌, ◌*◌, ◌<◌, ◌≤◌, ◌≡◌, refl, true, false, List, length, get_elem?, arith,
}
use pecl_teds.Run.{asserted, invalid_index, underflow, Returns, returns}
use pecl_teds.Util.Limit.{Limit}
use pecl_teds.Vector.{Entries, Holds}
use pecl_teds.Vector.Remove.Size.{set_size-asserted, clear-Holds, shrink_to_fit-Holds}
use pecl_teds.Vector.Keys.Laws.{reads-found}
use pecl_teds.Vector.History.{
  Call, call_set, call_append, call_push, call_push_front, call_insert, call_pop, call_pop_front,
  call_clear, call_shrink_to_fit, call_first, call_last, call_to_array, call_offset_unset,
  call_reserve, call_get, call_set_size, call, on_list, places, breaks_call,
}
use pecl_teds.Vector.History.Matches.{Matches, reading-Matches}
use pecl_teds.Vector.History.Writes.{
  set-Matches, append-Matches, push-Matches, push_front-Matches, insert-Matches, set_size-Matches,
  reserve-Matches,
}
use pecl_teds.Vector.History.Takes.{
  pop-Matches, pop_front-Matches, offset_unset-Matches, to_array-Matches,
}

module _ {A : Type 0} (max_size : ℕ) where
  module _ (l : Limit max_size) (array : Entries A) (q : List A) (h : Holds array q) where
    -- The call of one method.
    pub call-Matches :
        (c : Call A)
        → (length q + places c) * 2 ≤ max_size
        → breaks_call array c ≡ false
        → Returns (Matches max_size (on_list q c)) (call max_size array c)
    unfolding call
    call-Matches (call_set offset a) fits sound = set-Matches max_size l array q h offset a
    call-Matches (call_append a) fits sound = append-Matches max_size l array q h a fits
    call-Matches (call_push args) fits sound = push-Matches max_size l array q h args fits
    call-Matches (call_push_front args) fits sound =
        push_front-Matches max_size l array q h args fits
    call-Matches (call_insert offset args) fits sound =
        insert-Matches max_size l array q h offset args fits
    call-Matches call_pop fits sound = pop-Matches max_size l array q h (omega arith)
    call-Matches call_pop_front fits sound = pop_front-Matches max_size l array q h (omega arith)
    call-Matches call_clear fits sound =
        returns record { holds = clear-Holds array q h; same = refl }
    call-Matches call_shrink_to_fit fits sound =
        returns record { holds = (shrink_to_fit-Holds array q h).0; same = refl }
    call-Matches call_first fits sound =
        reading-Matches max_size array q (get_elem? q 0) underflow h (reads-found array q 0 h).1
    call-Matches call_last fits sound =
        reading-Matches max_size array q (get_elem? q (length q - 1)) underflow h
          (reads-found array q 0 h).2
    call-Matches call_to_array fits sound = to_array-Matches max_size l array q h
    call-Matches (call_offset_unset offset) fits sound =
        offset_unset-Matches max_size l array q h offset (omega arith)
    call-Matches (call_reserve capacity) fits sound =
        reserve-Matches max_size l array q h capacity fits
    call-Matches (call_get offset) fits sound =
        reading-Matches max_size array q (get_elem? q offset) invalid_index h
          (reads-found array q offset h).0
    call-Matches (call_set_size size a) fits sound =
        set_size-Matches max_size l array q h size a fits sound

    -- The call that breaks an assertion.
    pub call-asserted :
        (c : Call A)
        → (length q + places c) * 2 ≤ max_size
        → breaks_call array c ≡ true
        → call max_size array c ≡ asserted
    unfolding call
    call-asserted (call_set_size size a) fits broken =
        let above : size + 1 < array.size = ground (arith, broken) in
        rw
          (set_size-asserted max_size array size a (omega (arith, h.count))
            (omega (arith, h.count, l.ceiling)) broken)
          refl
    call-asserted (call_set offset a) fits broken = cc broken
    call-asserted (call_append a) fits broken = cc broken
    call-asserted (call_push args) fits broken = cc broken
    call-asserted (call_push_front args) fits broken = cc broken
    call-asserted (call_insert offset args) fits broken = cc broken
    call-asserted call_pop fits broken = cc broken
    call-asserted call_pop_front fits broken = cc broken
    call-asserted call_clear fits broken = cc broken
    call-asserted call_shrink_to_fit fits broken = cc broken
    call-asserted call_first fits broken = cc broken
    call-asserted call_last fits broken = cc broken
    call-asserted call_to_array fits broken = cc broken
    call-asserted (call_offset_unset offset) fits broken = cc broken
    call-asserted (call_reserve capacity) fits broken = cc broken
    call-asserted (call_get offset) fits broken = cc broken
