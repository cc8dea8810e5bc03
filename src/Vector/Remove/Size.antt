-- ===== src/Vector/Remove/Size.antt =====
-- teds_vector.c: what setSize, clear, reserve and shrinkToFit leave of the list that a vector holds.
use mathlib.Core.List.{append-nil}
use pecl_teds.Base.{
  ℕ, zero, suc, ◌+◌, ◌-◌, ◌*◌, ◌/◌, ◌^◌, Bool, true, false, ◌&&◌, if◌then◌else◌, ◌<◌, ◌≤◌, ◌≡◌,
  refl, ◌∙◌, sym, ap, List, [], ◌∷◌, ◌++◌, length, length-append, get_elem?-append, replicate,
  length-replicate, take, length-take, get_elem?-take, arith, ltb, leb, ltb→le, leb→le, leb→lt,
  le→ltb, lt→leb, lt→ltb, ltb→lt, ◌==◌, Bool-cases, inl, inr, dec_lt,
}
use pecl_teds.Machine.{u32}
use pecl_teds.Run.{asserted, Returns, returns, Returns-bind, Returns-map, Returns-if}
use pecl_teds.Memory.{realloc}
use pecl_teds.Memory.Copy.{fill_lem}
use pecl_teds.Vector.{Entries, Holds, set_empty_list, shrink_capacity, shrink_if_sparse}
use pecl_teds.Vector.Store.Laws.{Roomy, raise_capacity-Roomy, Holds-cells}
use pecl_teds.Vector.Remove.{clear, set_size, shrink_to_fit, reserve}
use pecl_teds.Vector.Remove.Laws.{Sparse, shrink_if_sparse_lem}

module _ {A : Type 0} where
  -- What setSize makes of a list.
  abbrev pub resize : ℕ → A → List A → List A
  resize size default q = take size q ++ replicate (size - length q) default

  Holds-empty : (array : Entries A) → Holds (set_empty_list array) []
  Holds-empty array = record {
    count = refl;
    size_in = omega arith;
    alloc = refl;
    cells = λ i lt. absurd (omega arith);
  }

  pub clear-Holds : (array : Entries A) (q : List A) → Holds array q → Holds (clear array) []
  unfolding clear
  clear-Holds array q h = elim (Bool-cases (ltb 0 array.capacity)) [
    | inl some_yet ↦ rw some_yet (Holds-empty array)
    | inr none_yet ↦ rw none_yet record {
      count = omega (arith, h.size_in, ltb→le _ _ none_yet);
      size_in = h.size_in;
      alloc = h.alloc;
      cells = λ i lt. absurd (omega arith);
    }
  ]

  pub shrink_to_fit-Holds :
      (array : Entries A) (q : List A)
      → Holds array q
      → Holds (shrink_to_fit array) q × ((shrink_to_fit array).capacity ≡ length q)
  unfolding shrink_to_fit realloc
  shrink_to_fit-Holds array q h = elim (Bool-cases (leb array.capacity array.size)) [
    | inl full ↦ rw full (h, omega (arith, leb→le _ _ full, h.size_in, h.count))
    | inr spare ↦ rw spare (
      record {
        count = h.count;
        size_in = omega arith;
        alloc = ground arith;
        cells = λ i lt. ground (arith, h.cells i lt, h.alloc, h.count, h.size_in);
      },
      h.count,
    )
  ]

  pub reserve-Roomy :
      (max_size : ℕ) (array : Entries A) (q : List A) (capacity : ℕ)
      → Holds array q
      → capacity ≤ max_size
      → max_size < 2 ^ 63
      → Returns (Roomy array q capacity) (reserve max_size array capacity)
  unfolding reserve
  reserve-Roomy max_size array q capacity h fits small =
      Returns-if (leb capacity array.capacity)
        (λ le. returns record { holds = h; room = leb→le _ _ le; same_iterators = refl })
        (λ gt.
          rw (lt→leb (2 ^ 63) capacity (omega arith))
            (raise_capacity-Roomy max_size array q capacity h (omega (arith, leb→lt _ _ gt)) fits))

  grow-Holds :
      (max_size : ℕ) (array : Entries A) (q : List A) (size : ℕ) (default : A)
      → Holds array q
      → size < max_size
      → max_size ≤ 2 ^ 31
      → length q < size
      → Returns
          (λ e.
            Holds e (q ++ replicate (size - length q) default) × (e.iterators ≡ array.iterators))
          (set_size max_size array size default)
  unfolding set_size
  grow-Holds max_size array q size default h fits small more =
      let count = h.count in
      let sized : replicate (size - array.size) default ≡ replicate (size - length q) default =
        ap (λ t. replicate (size - t) default) h.count in
      let fresh = replicate (size - array.size) default in
      let fresh_length = length-replicate (size - array.size) default in
      rw (lt→leb max_size size fits, lt→ltb array.size size (omega arith))
        (Returns-bind
          (Returns-if {Good = Roomy array q size} (ltb array.capacity size)
            (λ lt.
              raise_capacity-Roomy max_size array q size h (omega (arith, ltb→lt _ _ lt))
                (omega arith))
            (λ ge. returns record { holds = h; room = ltb→le _ _ ge; same_iterators = refl }))
          λ e r.
            Returns-bind
              (fill_lem fresh e.entries array.size
                (omega (arith, r.room, r.holds.alloc, fresh_length)))
              λ filled f. returns (
                rw (← sized) (
                    Holds-cells e filled (q ++ fresh) _ e.iterators (f.same_size ∙ r.holds.alloc)
                      (omega (arith, length-append q fresh, fresh_length))
                      (omega (arith, length-append q fresh, fresh_length, r.room))
                      λ i lt. ground (
                        arith,
                        f.cells i,
                        get_elem?-append q fresh i,
                        length-append q fresh,
                        r.holds.cells i,
                      )),
                r.same_iterators,
              ))

  take-all : (n : ℕ) (q : List A) → length q ≤ n → take n q ≡ q
  take-all zero [] h = refl
  take-all zero (x ∷ q) h = absurd (omega arith)
  take-all (suc n) [] h = refl
  take-all (suc n) (x ∷ q) h = ap (λ t. x ∷ t) (take-all n q (omega arith))

  cut-Holds :
      (array : Entries A) (q : List A) (size : ℕ)
      → Holds array q
      → size ≤ length q
      → Holds (record array { size = size }) (take size q)
  cut-Holds array q size h le = record {
    count = sym (length-take size q le);
    size_in = omega (arith, h.size_in, h.count);
    alloc = h.alloc;
    cells = λ i lt. ground (arith, length-take size q le, get_elem?-take size q i, h.cells i);
  }

  -- Whether setSize asks teds_vector_shrink_capacity to keep another number of values than there
  -- are: it removes more than one value and not all, and the vector is sparse for the new size and
  -- has more room than twice the old size less one.
  abbrev pub breaks_assertion : Entries A → ℕ → Bool
  breaks_assertion array size =
      ltb 0 size
      && (ltb (size + 1) array.size
          && (ltb size (array.capacity / 4) && ltb ((array.size - 1) * 2) array.capacity))

  pub set_size-asserted :
      (max_size : ℕ) (array : Entries A) (size : ℕ) (default : A)
      → size < max_size
      → array.size ≤ 2 ^ 31
      → breaks_assertion array size ≡ true
      → set_size max_size array size default ≡ asserted
  unfolding set_size shrink_if_sparse shrink_capacity
  set_size-asserted max_size array size default fits small broken =
      let (pos, several, sparse, room) = all_four array size broken in
      let wide : u32 ((array.size - 1) * 2) ≡ (array.size - 1) * 2 = omega arith in
      ground (arith, wide)
    where
      all_four :
          (array : Entries A) (size : ℕ)
          → breaks_assertion array size ≡ true
          → (0 < size)
            × (size + 1 < array.size)
            × (size < array.capacity / 4)
            × ((array.size - 1) * 2 < array.capacity)
      all_four array size e =
          (ground (arith, e), ground (arith, e), ground (arith, e), ground (arith, e))

  -- What ends setSize on a shorter vector, where the assertions hold.
  cut_shrink :
      (array : Entries A) (q : List A) (old_size size : ℕ)
      → Holds (record array { size = size }) q
      → array.size ≡ old_size
      → 0 < size
      → size < old_size
      → old_size ≤ 2 ^ 31
      → breaks_assertion array size ≡ false
      → Returns
          (Sparse (record array { size = size }) q)
          (shrink_if_sparse (record array { size = size }) old_size size)
  unfolding shrink_if_sparse
  cut_shrink array q old_size size h count pos less small sound =
      let c = if ltb 2 (old_size - 1) then u32 ((old_size - 1) * 2) else 4 in
      let wide : u32 ((old_size - 1) * 2) ≡ (old_size - 1) * 2 = omega arith in
      elim (Bool-cases (ltb size (array.capacity / 4) && ltb c array.capacity)) [
        | inl sparse ↦
            let one_less : size ≡ old_size - 1 = ground (arith, sound, sparse, wide, count) in
            shrink_if_sparse_lem (record array { size = size }) q old_size size h one_less
              (omega arith) small
        | inr dense ↦ rw dense (returns record { holds = h; same_iterators = refl })
      ]

  cut_sparse :
      (max_size : ℕ) (array : Entries A) (q : List A) (size : ℕ) (default : A)
      → Holds array q
      → size < max_size
      → length q ≤ 2 ^ 31
      → size ≤ length q
      → breaks_assertion array size ≡ false
      → Returns
          (λ e. Holds e (take size q) × (e.iterators ≡ array.iterators))
          (set_size max_size array size default)
  unfolding set_size
  cut_sparse max_size array q size default h fits small le sound =
      let cut = cut-Holds array q size h le in
      rw (lt→leb max_size size fits, le→ltb array.size size (omega (arith, h.count)))
        (Returns-if (array.size - size == 0)
          (λ same. returns (
            record {
              count = ground (arith, length-take size q le, h.count);
              size_in = h.size_in;
              alloc = h.alloc;
              cells = cut.cells;
            },
            refl,
          ))
          (λ less.
            Returns-if (size == 0)
              (λ nil. returns (
                record {
                  count = ground (arith, length-take size q le);
                  size_in = omega arith;
                  alloc = refl;
                  cells = λ i lt. ground (arith, length-take size q le);
                },
                refl,
              ))
              (λ pos.
                Returns-map
                  (cut_shrink array (take size q) array.size size cut refl (ground arith)
                    (ground arith) (omega (arith, h.count)) sound)
                  λ e s. (s.holds, s.same_iterators))))

  -- Vector::setSize
  pub set_size-Holds :
      (max_size : ℕ) (array : Entries A) (q : List A) (size : ℕ) (default : A)
      → Holds array q
      → size < max_size
      → max_size ≤ 2 ^ 31
      → length q ≤ 2 ^ 31
      → breaks_assertion array size ≡ false
      → Returns
          (λ e. Holds e (resize size default q) × (e.iterators ≡ array.iterators))
          (set_size max_size array size default)
  set_size-Holds max_size array q size default h fits small inside sound =
      elim (dec_lt (length q) size) [
        | yes lt ↦
            rw (take-all size q (omega arith))
              (grow-Holds max_size array q size default h fits small lt)
        | no ge ↦
            let none : size - length q ≡ 0 = omega arith in
            rw (none, append-nil)
              (cut_sparse max_size array q size default h fits inside (omega arith) sound)
      ]
