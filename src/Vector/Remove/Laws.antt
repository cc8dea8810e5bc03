-- ===== src/Vector/Remove/Laws.antt =====
-- teds_vector.c: what pop, popFront, offsetUnset, setSize and the calls on the capacity leave of the
-- list that a vector holds.
use pecl_teds.Base.{
  ℕ, suc, ◌+◌, ◌-◌, ◌*◌, ◌/◌, ◌^◌, ◌<◌, ◌≤◌, ◌≡◌, refl, ◌∙◌, List, length, get_elem?,
  get_elem?-some, remove_at, length-remove_at, get_elem?-remove_at, arith, ltb, leb, lt→leb, ◌==◌,
  if◌then◌else◌, true, false, Bool-cases, &&-both, inl, inr, some, ◌&&◌,
}
use pecl_teds.Machine.{u32}
use pecl_teds.Run.{Returns, returns, Returns-bind, Returns-step}
use pecl_teds.Memory.{realloc2}
use pecl_teds.Memory.Laws.{load-ok}
use pecl_teds.Memory.Copy.{memcpy_lem}
use pecl_teds.Deque.Remove.{adjust_iterators_before_remove}
use pecl_teds.Vector.{Entries, Holds, shrink_capacity, shrink_if_sparse}
use pecl_teds.Vector.Store.Laws.{Holds-cells}
use pecl_teds.Vector.Remove.{pop, pop_front, offset_unset, remove_entry}

module _ {A : Type 0} where
  -- A value is taken out, or the size set lower, and the capacity follows.
  pub record Sparse (array : Entries A) (q : List A) (e : Entries A) : Type 0 where
    pub holds : Holds e q
    pub same_iterators : e.iterators ≡ array.iterators

  pub shrink_if_sparse_lem :
      (array : Entries A) (q : List A) (old_size tested : ℕ)
      → Holds array q
      → array.size ≡ old_size - 1
      → 0 < old_size
      → old_size ≤ 2 ^ 31
      → Returns (Sparse array q) (shrink_if_sparse array old_size tested)
  unfolding shrink_if_sparse shrink_capacity realloc2
  shrink_if_sparse_lem array q old_size tested h one_less pos small =
      let c = if ltb 2 (old_size - 1) then u32 ((old_size - 1) * 2) else 4 in
      let wide : u32 ((old_size - 1) * 2) ≡ (old_size - 1) * 2 = omega arith in
      elim (Bool-cases (ltb tested (array.capacity / 4) && ltb c array.capacity)) [
        | inl sparse ↦
            let fits : ltb c array.capacity ≡ true =
              (&&-both (ltb tested (array.capacity / 4)) (ltb c array.capacity) sparse).1 in
            let asserts : (leb (old_size - 1) c
                  && ((old_size - 1 == array.size) && (ltb 0 c && ltb c array.capacity)))
                ≡ true =
              ground (arith, wide, one_less, fits) in
            rw (sparse, asserts)
              (returns record {
                holds = record {
                  count = h.count;
                  size_in = ground (arith, wide);
                  alloc = refl;
                  cells = λ i lt. ground (arith, wide, h.cells i lt, h.count);
                };
                same_iterators = refl;
              })
        | inr dense ↦ rw dense (returns record { holds = h; same_iterators = refl })
      ]

  -- What a call that takes one value out returns.
  pub record Taken (array : Entries A) (q : List A) (at : ℕ) (r : Entries A × A) : Type 0 where
    pub holds : Holds r.0 (remove_at at q)
    pub value : get_elem? q at ≡ some r.1
    pub iterators : r.0.iterators ≡ adjust_iterators_before_remove (length q) at array.iterators

  remove_entry-Taken :
      (array : Entries A) (q : List A) (at : ℕ)
      → Holds array q
      → at < length q
      → length q ≤ 2 ^ 31
      → Returns (Taken array q at) (remove_entry array at)
  unfolding remove_entry
  remove_entry-Taken array q at h lt small =
      let (a, e) = get_elem?-some q at lt in
      Returns-step _
        (load-ok array.entries at (omega (arith, h.count, h.size_in, h.alloc)) (h.cells at lt ∙ e))
        (Returns-bind
          (memcpy_lem (array.size - at - 1) array.entries at array.entries (at + 1)
            (omega (arith, h.count, h.size_in, h.alloc))
            (omega (arith, h.count, h.size_in, h.alloc)))
          λ moved m.
            let left : Entries A = record array {
              entries = moved;
              size = array.size - 1;
              iterators = adjust_iterators_before_remove array.size at array.iterators;
            } in
            let kept : Holds left (remove_at at q) =
              Holds-cells array moved (remove_at at q) (array.size - 1) _ (m.same_size ∙ h.alloc)
                (omega (arith, h.count, length-remove_at at q lt))
                (omega (arith, h.count, h.size_in, length-remove_at at q lt))
                λ i lti. ground (
                  arith,
                  m.cells i,
                  get_elem?-remove_at at q i lt,
                  length-remove_at at q lt,
                  h.cells i,
                  h.cells (suc i),
                  h.count,
                ) in
            Returns-bind
              (shrink_if_sparse_lem left (remove_at at q) array.size array.size kept refl
                (omega (arith, h.count)) (omega (arith, h.count)))
              λ shrunk s. returns record {
                holds = s.holds;
                value = e;
                iterators = s.same_iterators ∙ rw h.count refl;
              })

  pub pop-Taken :
      (array : Entries A) (q : List A)
      → Holds array q
      → 0 < length q
      → length q ≤ 2 ^ 31
      → Returns (Taken array q (length q - 1)) (pop array)
  unfolding pop
  pop-Taken array q h pos small =
      let last = length q - 1 in
      let (a, e) = get_elem?-some q last (omega arith) in
      let some_yet : (array.size == 0) ≡ false = ground (arith, h.count) in
      let at : array.size - 1 ≡ last = omega (arith, h.count) in
      let left : Entries A = record array {
        size = last;
        iterators = adjust_iterators_before_remove array.size last array.iterators;
      } in
      let kept : Holds left (remove_at last q) =
        Holds-cells array array.entries (remove_at last q) last _ h.alloc
          (omega (arith, length-remove_at last q))
          (omega (arith, h.count, h.size_in, length-remove_at last q))
          λ i lti.
            ground (arith, get_elem?-remove_at last q i, length-remove_at last q, h.cells i) in
      rw
        (
          some_yet,
          at,
          load-ok array.entries last (omega (arith, h.count, h.size_in, h.alloc))
              (h.cells last (omega arith) ∙ e),
        )
        (Returns-bind
          (shrink_if_sparse_lem left (remove_at last q) array.size array.size kept
            (omega (arith, h.count)) (omega (arith, h.count)) (omega (arith, h.count)))
          λ shrunk s.
            returns
              record { holds = s.holds; value = e; iterators = s.same_iterators ∙ rw h.count refl })

  pub pop_front-Taken :
      (array : Entries A) (q : List A)
      → Holds array q
      → 0 < length q
      → length q ≤ 2 ^ 31
      → Returns (Taken array q 0) (pop_front array)
  unfolding pop_front
  pop_front-Taken array q h pos small =
      let some_yet : (array.size == 0) ≡ false = ground (arith, h.count) in
      rw some_yet (remove_entry-Taken array q 0 h pos small)

  pub offset_unset-Taken :
      (array : Entries A) (q : List A) (at : ℕ)
      → Holds array q
      → at < length q
      → length q ≤ 2 ^ 31
      → Returns (Taken array q at) (offset_unset array at)
  unfolding offset_unset
  offset_unset-Taken array q at h lt small =
      rw (lt→leb array.size at (omega (arith, h.count))) (remove_entry-Taken array q at h lt small)
