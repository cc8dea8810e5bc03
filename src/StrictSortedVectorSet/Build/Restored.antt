-- ===== src/StrictSortedVectorSet/Build/Restored.antt =====
-- teds_strictsortedvectorset.c: a set that is unserialized has exactly the values, and a clone those of
-- the set.
use pecl_teds.Base.{
  ℕ, ◌+◌, ◌≤◌, ◌≡◌, refl, ap, ◌∙◌, Bool, true, false, ◌||◌, List, [], ◌∷◌, length, arith, ◌==◌,
  ==→eq,
}
use pecl_teds.Machine.{u32}
use pecl_teds.Run.{Returns, returns, Returns-bind, Returns-map, Returns-if}
use pecl_teds.Memory.{malloc, fill}
use pecl_teds.Memory.Copy.{fill_lem}
use pecl_teds.Util.{deque_next_pow2_capacity}
use pecl_teds.Util.Limit.{Limit, deque_capacity-le-Limit}
use pecl_teds.Compare.{Comparison}
use pecl_teds.Vector.{Entries, Holds, set_empty_list}
use pecl_teds.Vector.Keys.Laws.{Holds-From}
use pecl_teds.Vector.Build.{copy_range}
use pecl_teds.Vector.Build.Filled.{listed, length-listed, copy_range-fill}
use pecl_teds.StrictSortedVectorSet.Sets.{has, same, insert_key}
use pecl_teds.StrictSortedVectorSet.Change.{insert_key-Ascending, insert_key-has}
use pecl_teds.StrictSortedVectorSet.Listed.{insert-list}
use pecl_teds.StrictSortedVectorSet.History.{Represents, length-insert_key_le}
use pecl_teds.StrictSortedVectorSet.Build.{unserialize_loop, unserialize, copy_ctor}
use pecl_teds.StrictSortedVectorSet.Build.Made.{Represents-empty, Holds-none}

module _ {A : Type 0} (order : Comparison A) where
  -- The values may be any of those of an equal set.
  Represents-cast :
      {set : Entries A} {s t : A → Bool}
      → Represents order set s
      → ((a : A) → s a ≡ t a)
      → Represents order set t
  Represents-cast r e = record {
    members = r.members;
    holds = r.holds;
    ascending = r.ascending;
    complete = λ a. r.complete a ∙ e a;
  }

  module _ (max_size : ℕ) (l : Limit max_size) where
    unserialize_loop-Represents :
        (q : List A) (set : Entries A) (s : A → Bool) (r : Represents order set s)
        → length r.members + length q ≤ max_size
        → Returns
            (λ e. Represents order e (λ a. has order q a || s a))
            (unserialize_loop order max_size set (listed q))
    unfolding unserialize_loop
    unserialize_loop-Represents [] set s r fits = returns (Represents-cast r (λ a. refl))
    unserialize_loop-Represents (x ∷ q) set s r fits =
        Returns-bind
          (insert-list order max_size l set r.members x true r.holds r.ascending (omega arith))
          λ (grown, added) (kept, answer).
            Returns-map
              (unserialize_loop-Represents q grown (λ a. same order a x || s a)
                (record {
                  members = insert_key order x r.members;
                  holds = kept;
                  ascending = insert_key-Ascending order x r.members r.ascending;
                  complete = λ a.
                      insert_key-has order x r.members a
                      ∙ ap (λ b. same order a x || b) (r.complete a);
                })
                (omega (arith, length-insert_key_le order x r.members)))
              λ e final. Represents-cast final (λ a. ground arith)

    -- For a limit as documented, __unserialize on a new object, with at most as many values as
    -- the limit under keys that are no strings, in any order, makes an ascending array that has
    -- exactly those values, up to equal ones.
    pub unserialize-Represents :
        (set : Entries A) (q : List A)
        → set.null ≡ true
        → set.size ≡ 0
        → length q ≤ max_size
        → Returns
            (λ e. Represents order e (has order q))
            (unserialize order max_size set (listed q))
    unfolding unserialize
    unserialize-Represents set [] new nil fits = rw new (
        returns (
          Represents-empty order (set_empty_list set)
            (Holds-none order (set_empty_list set) refl refl)))
    unserialize-Represents set (x ∷ q) new nil fits =
        let capacity = deque_next_pow2_capacity (length (x ∷ q)) in
        let c = deque_capacity-le-Limit max_size (length (x ∷ q)) l fits in
        let narrow : u32 (length (x ∷ q)) ≡ length (x ∷ q) = omega (arith, l.ceiling) in
        let start : Entries A = record set {
          null = false;
          entries = malloc capacity;
          size = 0;
          capacity = u32 capacity;
        } in
        rw (new, length-listed q, narrow)
          (Returns-map
            (unserialize_loop-Represents (x ∷ q) start (λ a. false)
              (record {
                members = [];
                holds = Holds-none order start refl (omega (arith, c, l.ceiling));
                ascending = λ i j a b lt at_i at_j. cc at_i;
                complete = λ a. refl;
              })
              (omega arith))
            λ e final. Represents-cast final (λ a. ground arith))

  -- The clone holds the values of the array that is copied.
  pub copy_ctor-Holds :
      (from : Entries A) (q : List A)
      → Holds from q
      → Returns (λ e. Holds e q × (e.capacity ≤ from.capacity)) (copy_ctor order from)
  unfolding copy_ctor
  copy_ctor-Holds from q h =
      let copied : copy_range (malloc from.capacity) 0 from.entries 0 from.size
          ≡ fill (malloc from.capacity) 0 q =
        ap (copy_range (malloc from.capacity) 0 from.entries 0) h.count
        ∙ copy_range-fill q (malloc from.capacity) 0 from.entries 0
            (omega (arith, h.count, h.size_in)) (Holds-From from q h) in
      Returns-if (from.size == 0)
        (λ nil. returns (
          record {
            count = omega (arith, h.count, ==→eq _ _ nil);
            size_in = omega arith;
            alloc = refl;
            cells = λ i lt. absurd (omega (arith, h.count, ==→eq _ _ nil));
          },
          omega arith,
        ))
        (λ some_yet. rw copied (
          Returns-bind (fill_lem q (malloc from.capacity) 0 (omega (arith, h.count, h.size_in)))
            λ b f. returns (
              record {
                count = h.count;
                size_in = h.size_in;
                alloc = f.same_size;
                cells = λ i lt. ground (arith, f.cells i);
              },
              omega arith,
            )))

  -- A clone of an ascending array that has the values of a set has them as well, and has a
  -- capacity of at most that of the array.
  pub copy_ctor-Represents :
      (from : Entries A) (s : A → Bool)
      → Represents order from s
      → Returns (λ e. Represents order e s × (e.capacity ≤ from.capacity)) (copy_ctor order from)
  copy_ctor-Represents from s r =
      Returns-map (copy_ctor-Holds from r.members r.holds) λ e (kept, within). (
        record {
          members = r.members;
          holds = kept;
          ascending = r.ascending;
          complete = r.complete;
        },
        within,
      )
