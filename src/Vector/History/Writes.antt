-- ===== src/Vector/History/Writes.antt =====
-- Each call that writes to a vector does what the same call does on the list that it holds.
use pecl_teds.Base.{
  ℕ, ◌+◌, ◌*◌, ◌^◌, ◌<◌, ◌≤◌, ◌≡◌, refl, false, List, [], ◌∷◌, length, insert_at, take-drop, ltb,
  leb, lt→ltb, le→ltb, le→leb, lt→leb, arith, dec_lt, dec_le, Bool-cases, inl, inr, ltb→le,
}
use pecl_teds.Run.{invalid_index, value_error, Returns, returns, Returns-map}
use pecl_teds.Util.Limit.{Limit}
use pecl_teds.Vector.{Entries, Holds}
use pecl_teds.Vector.Store.{write_dimension, set_value_at_offset, push_front, insert}
use pecl_teds.Vector.Store.Laws.{push-Holds, insert-Holds}
use pecl_teds.Vector.Store.Single.{push_front-Holds, set_value-Holds, push_entry-Holds}
use pecl_teds.Vector.Remove.{set_size, reserve}
use pecl_teds.Vector.Remove.Size.{breaks_assertion, set_size-Holds, reserve-Roomy}
use pecl_teds.Vector.History.{
  call_set, call_append, call_push, call_push_front, call_insert, call_reserve, call_set_size,
  nothing, thrown, call, on_list, places, written,
}
use pecl_teds.Vector.History.Matches.{Matches, written-Matches, throw-Matches}

module _ {A : Type 0} (max_size : ℕ) where
  module _ (l : Limit max_size) (array : Entries A) (q : List A) (h : Holds array q) where
    pub set-Matches :
        (offset : ℕ) (a : A)
        → Returns
            (Matches max_size (on_list q (call_set offset a)))
            (call max_size array (call_set offset a))
    unfolding call set_value_at_offset
    set-Matches offset a = elim (dec_lt offset (length q)) [
      | yes lt ↦
          rw (lt→ltb offset (length q) lt)
            (written-Matches max_size array (set_value-Holds array q offset a h lt))
      | no ge ↦
          rw
            (
              le→ltb offset (length q) (omega arith),
              le→leb array.size offset (omega (arith, h.count)),
            )
            (throw-Matches max_size array q invalid_index h)
    ]

    pub append-Matches :
        (a : A)
        → (length q + places (call_append a)) * 2 ≤ max_size
        → Returns
            (Matches max_size (on_list q (call_append a)))
            (call max_size array (call_append a))
    unfolding call write_dimension
    append-Matches a fits =
        written-Matches max_size array (push_entry-Holds max_size array q a l h (omega arith))

    pub push-Matches :
        (args : List A)
        → (length q + places (call_push args)) * 2 ≤ max_size
        → Returns
            (Matches max_size (on_list q (call_push args)))
            (call max_size array (call_push args))
    unfolding call
    push-Matches args fits =
        written-Matches max_size array (push-Holds max_size array q args l h fits)

    pub push_front-Matches :
        (args : List A)
        → (length q + places (call_push_front args)) * 2 ≤ max_size
        → Returns
            (Matches max_size (on_list q (call_push_front args)))
            (call max_size array (call_push_front args))
    unfolding call push_front
    push_front-Matches [] fits = returns record { holds = h; same = refl }
    push_front-Matches (x ∷ args) fits =
        written-Matches max_size array (push_front-Holds max_size array q x args l h fits)

    pub insert-Matches :
        (offset : ℕ) (args : List A)
        → (length q + places (call_insert offset args)) * 2 ≤ max_size
        → Returns
            (Matches max_size (on_list q (call_insert offset args)))
            (call max_size array (call_insert offset args))
    unfolding call insert
    insert-Matches offset args fits = elim (dec_le offset (length q)) [
      | yes le ↦ rw (le→leb offset (length q) le) (inside args le fits)
      | no gt ↦ rw (lt→leb offset (length q) (omega arith)) (outside args (omega arith))
    ]
      where
        inside :
            (args : List A)
            → offset ≤ length q
            → (length q + length args) * 2 ≤ max_size
            → Returns
                (Matches max_size (insert_at offset args q, nothing))
                (written array (insert max_size array offset args))
        inside [] le fits =
            rw (le→ltb array.size offset (omega (arith, h.count)), take-drop offset q)
              (returns record { holds = h; same = refl })
        inside (x ∷ args) le fits =
            written-Matches max_size array (insert-Holds max_size array q offset x args l h le fits)

        outside :
            (args : List A)
            → length q < offset
            → Returns
                (Matches max_size (q, thrown invalid_index))
                (written array (insert max_size array offset args))
        outside [] lt =
            rw (lt→ltb array.size offset (omega (arith, h.count)))
              (throw-Matches max_size array q invalid_index h)
        outside (x ∷ args) lt =
            rw (lt→ltb array.size offset (omega (arith, h.count)))
              (throw-Matches max_size array q invalid_index h)

    pub set_size-Matches :
        (size : ℕ) (a : A)
        → (length q + places (call_set_size size a)) * 2 ≤ max_size
        → breaks_assertion array size ≡ false
        → Returns
            (Matches max_size (on_list q (call_set_size size a)))
            (call max_size array (call_set_size size a))
    unfolding call set_size
    set_size-Matches size a fits sound = elim (Bool-cases (ltb size (2 ^ 63))) [
      | inl small ↦
          let room : size * 2 ≤ max_size = ground (arith, small, fits) in
          rw small (
            written-Matches max_size array (
              set_size-Holds max_size array q size a h (omega (arith, l.floor)) l.ceiling
                (omega (arith, l.ceiling)) sound))
      | inr negative ↦
          rw
            (
              negative,
              le→leb max_size size (omega (arith, l.ceiling, ltb→le _ _ negative)),
              le→leb (2 ^ 63) size (ltb→le _ _ negative),
            )
            (throw-Matches max_size array q value_error h)
    ]

    pub reserve-Matches :
        (capacity : ℕ)
        → (length q + places {A = A} (call_reserve capacity)) * 2 ≤ max_size
        → Returns
            (Matches max_size (on_list q (call_reserve capacity)))
            (call max_size array (call_reserve capacity))
    unfolding call reserve
    reserve-Matches capacity fits = elim (Bool-cases (ltb capacity (2 ^ 63))) [
      | inl small ↦
          let room : capacity * 2 ≤ max_size = ground (arith, small, fits) in
          written-Matches max_size array (
            Returns-map
              (reserve-Roomy max_size array q capacity h (omega arith) (omega (arith, l.ceiling)))
              (λ e r. (r.holds, r.same_iterators)))
      | inr negative ↦ elim (Bool-cases (leb capacity array.capacity)) [
        | inl le ↦ rw le (returns record { holds = h; same = refl })
        | inr gt ↦
            rw (gt, le→leb (2 ^ 63) capacity (ltb→le _ _ negative))
              (returns record { holds = h; same = refl })
      ]
    ]
