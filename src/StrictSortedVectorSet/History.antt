-- ===== src/StrictSortedVectorSet/History.antt =====
-- teds_strictsortedvectorset.c: calls of the methods one after the other, each with its answer, and
-- the same calls on a set that has no order and no representation.
use pecl_teds.Base.{
  ℕ, ◌+◌, ◌<◌, ◌≤◌, ◌≡◌, refl, ap, ◌∙◌, Bool, false, not, ◌&&◌, ◌||◌, List, [], ◌∷◌, length, arith,
  inl, inr,
}
use pecl_teds.Run.{Run, ok, Returns, returns, Returns-bind, Returns-map, ◌>>=◌}
use pecl_teds.Util.Limit.{Limit}
use pecl_teds.Compare.{Comparison}
use pecl_teds.Compare.Laws.{Sign-cases}
use pecl_teds.Vector.{Entries, Holds}
use pecl_teds.StrictSortedVectorSet.{insert, remove_key, contains}
use pecl_teds.StrictSortedVectorSet.Sorted.{Ascending}
use pecl_teds.StrictSortedVectorSet.Sets.{same, has, insert_key, remove_from}
use pecl_teds.StrictSortedVectorSet.Change.{
  insert_key-Ascending, remove_from-Ascending, insert_key-has, remove_from-has,
}
use pecl_teds.StrictSortedVectorSet.Listed.{contains-has, remove_key-list, insert-list}

-- The methods of StrictSortedVectorSet, with their arguments.
pub data Call (A : Type 0) : Type 0 where
  call_add call_remove call_contains : A → Call A

module _ {A : Type 0} (order : Comparison A) where
  unfoldable pub call : ℕ → Entries A → Call A → Run (Entries A × Bool)
  call max_size array (call_add value) = insert order max_size array value false
  call max_size array (call_remove value) = remove_key order array value
  call max_size array (call_contains value) =
      contains order array value >>= λ found. ok (array, found)

  unfoldable pub calls : ℕ → Entries A → List (Call A) → Run (Entries A × List Bool)
  calls max_size array [] = ok (array, [])
  calls max_size array (c ∷ cs) = call max_size array c >>= λ (after, answer).
      calls max_size after cs >>= λ (final, rest). ok (final, answer ∷ rest)

  -- A set says of each value whether it has it. Values that compare as equal are the same.
  abbrev pub on_set : (A → Bool) → Call A → (A → Bool) × Bool
  on_set s (call_add value) = (λ a. same order a value || s a, not (s value))
  on_set s (call_remove value) = (λ a. s a && not (same order a value), s value)
  on_set s (call_contains value) = (s, s value)

  abbrev pub all_on_set : (A → Bool) → List (Call A) → (A → Bool) × List Bool
  all_on_set s [] = (s, [])
  all_on_set s (c ∷ cs) =
      let (after, answer) = on_set s c in
      let (final, rest) = all_on_set after cs in (final, answer ∷ rest)

  -- The array is ascending, and its values are those of the set.
  pub record Represents (array : Entries A) (s : A → Bool) : Type 0 where
    pub members : List A
    pub holds : Holds array members
    pub ascending : Ascending order members
    pub complete : (a : A) → has order members a ≡ s a

  pub length-insert_key_le : (key : A) (q : List A) → length (insert_key order key q) ≤ length q + 1
  unfolding insert_key
  length-insert_key_le key [] = omega arith
  length-insert_key_le key (x ∷ q) = elim (Sign-cases (order.stable_compare key x)) [
    | inl up ↦ rw (insert_key, up) (omega (arith, length-insert_key_le key q))
    | inr (inl down) ↦ rw (insert_key, down) (omega arith)
    | inr (inr level) ↦ rw (insert_key, level) (omega arith)
  ]

  pub length-remove_from_le : (key : A) (q : List A) → length (remove_from order key q) ≤ length q
  unfolding remove_from
  length-remove_from_le key [] = omega arith
  length-remove_from_le key (x ∷ q) = elim (Sign-cases (order.stable_compare key x)) [
    | inl up ↦ rw (remove_from, up) (omega (arith, length-remove_from_le key q))
    | inr (inl down) ↦ rw (remove_from, down) (omega arith)
    | inr (inr level) ↦ rw (remove_from, level) (omega arith)
  ]

  -- What a call returns is what it does on the set, and it adds at most one value.
  record Matches (n : ℕ) (want : (A → Bool) × Bool) (got : Entries A × Bool) : Type 0 where
    after : Represents got.0 want.0
    answer : got.1 ≡ want.1
    size : length after.members ≤ n + 1

  module _ (max_size : ℕ) (l : Limit max_size) where
    call-Matches :
        (array : Entries A) (s : A → Bool) (r : Represents array s) (c : Call A)
        → length r.members < max_size
        → Returns (Matches (length r.members) (on_set s c)) (call max_size array c)
    unfolding call
    call-Matches array s r (call_add value) small =
        Returns-map
          (insert-list order max_size l array r.members value false r.holds r.ascending small)
          λ got (kept, answered). record {
            after = record {
              members = insert_key order value r.members;
              holds = kept;
              ascending = insert_key-Ascending order value r.members r.ascending;
              complete = λ a.
                  insert_key-has order value r.members a
                  ∙ ap (λ b. same order a value || b) (r.complete a);
            };
            answer = answered ∙ ap not (r.complete value);
            size = length-insert_key_le value r.members;
          }
    call-Matches array s r (call_remove value) small =
        Returns-map
          (remove_key-list order array r.members value r.holds r.ascending
            (omega (arith, l.ceiling)))
          λ got (kept, answered). record {
            after = record {
              members = remove_from order value r.members;
              holds = kept;
              ascending = remove_from-Ascending order value r.members r.ascending;
              complete = λ a.
                  remove_from-has order value r.members r.ascending a
                  ∙ ap (λ b. b && not (same order a value)) (r.complete a);
            };
            answer = answered ∙ r.complete value;
            size = omega (arith, length-remove_from_le value r.members);
          }
    call-Matches array s r (call_contains value) small =
        let found =
          contains-has order array r.members value r.holds r.ascending (omega (arith, l.ceiling)) in
        rw found (returns record { after = r; answer = r.complete value; size = omega arith })

    -- For a limit as documented and an ascending array whose values are those of a set, any
    -- sequence of calls of add, remove and contains that is within the limit ends with no fatal
    -- error and no access outside its memory, gives the answers that the same calls give on the
    -- set, which says of each value whether it has one that compares as equal, and leaves an
    -- ascending array of what they leave of the set.
    pub calls-on_set :
        (array : Entries A) (s : A → Bool) (cs : List (Call A)) (r : Represents array s)
        → length r.members + length cs ≤ max_size
        → Returns
            (λ (got : Entries A × List Bool).
              Represents got.0 (all_on_set s cs).0 × (got.1 ≡ (all_on_set s cs).1))
            (calls max_size array cs)
    unfolding calls
    calls-on_set array s [] r fits = returns (r, refl)
    calls-on_set array s (c ∷ cs) r fits =
        Returns-bind (call-Matches array s r c (omega arith)) λ (after, answer) m.
          Returns-bind (calls-on_set after (on_set s c).0 cs m.after (omega (arith, m.size)))
            λ (final, rest) (rep, answers). returns (rep, rw (m.answer, answers) refl)
