-- ===== src/Vector/History/Laws.antt =====
-- A run of calls on a vector shows what the same calls on the list show.
use mathlib.Core.List.{reverse}
use pecl_teds.Base.{
  ℕ, ◌+◌, ◌-◌, ◌*◌, ◌≤◌, ◌≡◌, refl, not, ◌&&◌, Bool, true, false, Bool-cases, inl, inr, List, [],
  ◌∷◌, length, length-append, length-insert_at, length-take_le, length-remove_at_le, length-set,
  length-replicate, take, replicate, arith, dec_le,
}
use pecl_teds.Run.{Run, ok, asserted, Returns, returns, Returns-inv, ◌>>=◌}
use pecl_teds.Util.Limit.{Limit}
use pecl_teds.Vector.{Entries, Holds}
use pecl_teds.Vector.Remove.Size.{resize}
use pecl_teds.Vector.History.{
  Call, call_set, call_append, call_push, call_push_front, call_insert, call_pop, call_pop_front,
  call_clear, call_shrink_to_fit, call_first, call_last, call_to_array, call_offset_unset,
  call_reserve, call_get, call_set_size, Seen, calls, on_list, all_on_list, places, all_places,
  breaks_call, breaks, shortens_call, shortens,
}
use pecl_teds.Vector.History.Each.{call-Matches, call-asserted}
use pecl_teds.Vector.Store.Single.{length-reverse_aux}

-- What is wanted of calls: that they end well, or break an assertion where they are said to.
pub data Outcome {B : Type 0} (Good : B → Type 0) : Bool → Run B → Type 0 where
  ends : {run : Run B} → Returns Good run → Outcome Good false run
  breaks_off : Outcome Good true asserted

Outcome-bind :
    {B C : Type 0} {Good : B → Type 0} {Better : C → Type 0} {b : Bool} {run : Run B} (next : B → C)
    → Outcome Good b run
    → ((r : B) → Good r → Better (next r))
    → Outcome Better b (run >>= λ r. ok (next r))
Outcome-bind next (ends (returns good)) better = ends (returns (better _ good))
Outcome-bind next breaks_off better = breaks_off

module _ {A : Type 0} where
  length-resize : (size : ℕ) (a : A) (q : List A) → length (resize size a q) ≤ length q + size
  length-resize size a q = omega (
    arith,
    length-append (take size q) (replicate (size - length q) a),
    length-replicate (size - length q) a,
    length-take_le size q,
  )

  length-on_list : (q : List A) (c : Call A) → length (on_list q c).0 ≤ length q + places c
  length-on_list q (call_set offset a) = ground (arith, length-set q offset a)
  length-on_list q (call_append a) = omega (arith, length-append q (a ∷ []))
  length-on_list q (call_push args) = omega (arith, length-append q args)
  length-on_list q (call_push_front args) =
      omega (arith, length-append (reverse args) q, length-reverse_aux args [])
  length-on_list q (call_insert offset args) = elim (dec_le offset (length q)) [
    | yes le ↦ ground (arith, length-insert_at offset args q le)
    | no gt ↦ ground arith
  ]
  length-on_list q call_pop = omega (arith, length-remove_at_le (length q - 1) q)
  length-on_list q call_pop_front = omega (arith, length-remove_at_le 0 q)
  length-on_list q call_clear = omega arith
  length-on_list q call_shrink_to_fit = omega arith
  length-on_list q call_first = omega arith
  length-on_list q call_last = omega arith
  length-on_list q call_to_array = omega arith
  length-on_list q (call_offset_unset offset) = ground (arith, length-remove_at_le offset q)
  length-on_list q (call_reserve capacity) = ground arith
  length-on_list q (call_get offset) = omega arith
  length-on_list q (call_set_size size a) = ground (arith, length-resize size a q)

  calls-Outcome :
      (max_size : ℕ) (array : Entries A) (q : List A) (cs : List (Call A))
      → Limit max_size
      → Holds array q
      → (length q + all_places cs) * 2 ≤ max_size
      → Outcome
          (λ (r : Entries A × List (Seen A)).
            Holds r.0 (all_on_list q cs).0 × (r.1 ≡ (all_on_list q cs).1))
          (breaks max_size array cs)
          (calls max_size array cs)
  unfolding calls breaks
  calls-Outcome max_size array q [] l h fits = ends (returns (h, refl))
  calls-Outcome max_size array q (c ∷ cs) l h fits = elim (Bool-cases (breaks_call array c)) [
    | inl broken ↦ rw (broken, call-asserted max_size l array q h c (omega arith) broken) breaks_off
    | inr sound ↦
        let ((after, seen), called, m) =
          Returns-inv (call-Matches max_size l array q h c (omega arith) sound) in
        rw (sound, called)
          (Outcome-bind (λ (final, rest). (final, seen ∷ rest))
            (calls-Outcome max_size after (on_list q c).0 cs l m.holds
              (omega (arith, length-on_list q c)))
            λ (final, rest) (holds, same). (holds, rw (m.same, same) refl))
  ]

  breaks_call-shortens :
      (array : Entries A) (q : List A) (c : Call A)
      → Holds array q
      → shortens_call q c ≡ false
      → breaks_call array c ≡ false
  breaks_call-shortens array q (call_set_size size a) h none = ground (arith, h.count, none)
  breaks_call-shortens array q (call_set offset a) h none = refl
  breaks_call-shortens array q (call_append a) h none = refl
  breaks_call-shortens array q (call_push args) h none = refl
  breaks_call-shortens array q (call_push_front args) h none = refl
  breaks_call-shortens array q (call_insert offset args) h none = refl
  breaks_call-shortens array q call_pop h none = refl
  breaks_call-shortens array q call_pop_front h none = refl
  breaks_call-shortens array q call_clear h none = refl
  breaks_call-shortens array q call_shrink_to_fit h none = refl
  breaks_call-shortens array q call_first h none = refl
  breaks_call-shortens array q call_last h none = refl
  breaks_call-shortens array q call_to_array h none = refl
  breaks_call-shortens array q (call_offset_unset offset) h none = refl
  breaks_call-shortens array q (call_reserve capacity) h none = refl
  breaks_call-shortens array q (call_get offset) h none = refl

  breaks-shortens :
      (max_size : ℕ) (array : Entries A) (q : List A) (cs : List (Call A))
      → Limit max_size
      → Holds array q
      → (length q + all_places cs) * 2 ≤ max_size
      → breaks max_size array cs && not (shortens q cs) ≡ false
  unfolding breaks
  breaks-shortens max_size array q [] l h fits = refl
  breaks-shortens max_size array q (c ∷ cs) l h fits = elim (Bool-cases (shortens_call q c)) [
    | inl several ↦ rw several (ground arith)
    | inr few ↦
        let sound = breaks_call-shortens array q c h few in
        let ((after, seen), called, m) =
          Returns-inv (call-Matches max_size l array q h c (omega arith) sound) in
        rw (few, sound, called)
          (breaks-shortens max_size after (on_list q c).0 cs l m.holds
            (omega (arith, length-on_list q c)))
  ]

  -- For a limit as documented and a vector that holds a list, any sequence of calls of set,
  -- `$vector[] = $value`, push, pushFront, insert, pop, popFront, offsetUnset, clear, setSize,
  -- reserve, shrinkToFit, get, first, last and toArray, with any arguments, whose list and
  -- requested places are together at most half of the limit, breaks an assertion of
  -- teds_vector_shrink_capacity exactly if it comes to a setSize that removes more than one value
  -- but not all, leaves less than a quarter of the capacity in use, and finds a capacity of more
  -- than 2 * (n - 1) for the old size n. If it comes to none, it ends with no fatal error and no
  -- access outside its memory, shows the script the same values, arrays and exceptions as the
  -- same calls on the list, and leaves a vector that holds what they leave of the list. If on the
  -- list no setSize of the sequence removes more than one value but not all, it comes to none.
  pub calls-on_list :
      (max_size : ℕ) (array : Entries A) (q : List A) (cs : List (Call A))
      → Limit max_size
      → Holds array q
      → (length q + all_places cs) * 2 ≤ max_size
      → Outcome
          (λ (r : Entries A × List (Seen A)).
            Holds r.0 (all_on_list q cs).0 × (r.1 ≡ (all_on_list q cs).1))
          (breaks max_size array cs)
          (calls max_size array cs)
        × (breaks max_size array cs && not (shortens q cs) ≡ false)
  calls-on_list max_size array q cs l h fits =
      (calls-Outcome max_size array q cs l h fits, breaks-shortens max_size array q cs l h fits)
