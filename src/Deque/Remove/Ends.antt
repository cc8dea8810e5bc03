-- ===== src/Deque/Remove/Ends.antt =====
-- pop and popFront take the value at an end of the list; clear leaves nothing.
use native.Mathlib.Nat.{mod-lt, mod-eq_of_lt, mod-add-mod, add-zero}
use pecl_teds.Base.{
  ℕ, suc, ◌+◌, ◌-◌, ◌%◌, ◌≡◌, refl, ap, ◌∙◌, List, [], ◌∷◌, ◌++◌, some, length, length-append,
  get_elem?, get_elem?-append, arith, ◌==◌, false, true, Bool-cases, inl, inr,
}
use pecl_teds.Run.{throw, underflow, Returns, returns, Returns-bind}
use pecl_teds.Memory.Laws.{load-ok}
use pecl_teds.Deque.{Deque, get_capacity, Holds}
use pecl_teds.Deque.Ring.{mask_at}
use pecl_teds.Deque.Reads.{capacity_of_nonempty, get_entry-ok}
use pecl_teds.Deque.Storage.Grow.{try_shrink_capacity_lem}
use pecl_teds.Deque.Add.Front.{Holds-ring, Holds-iterators}
use pecl_teds.Deque.Remove.{pop, pop_front, clear, adjust_iterators_before_remove}

module _ {A : Type 0} where
  -- What pop and popFront return and leave.
  pub record Popped (d : Deque A) (x : A) (q : List A) (place : ℕ) (r : A × Deque A) : Type 0 where
    pub value : r.0 ≡ x
    pub holds : Holds r.1 q
    pub iterators : r.1.iterators ≡ adjust_iterators_before_remove (length q + 1) place d.iterators

  -- Deque::pop on a deque that holds a list with a last value returns that value and leaves a
  -- consistent deque that holds the list before it; the iterators are those that
  -- teds_deque_adjust_iterators_before_remove gives for the last offset.
  pub pop_lem :
      (d : Deque A) (q : List A) (x : A)
      → Holds d (q ++ x ∷ [])
      → Returns (Popped d x q (length q)) (pop d)
  unfolding pop
  pop_lem d q x h =
      let v = h.valid in
      let total : d.size ≡ length q + 1 = omega (arith, h.count, length-append q (x ∷ [])) in
      let last : d.size - 1 ≡ length q = omega arith in
      let some_left : (d.size == 0) ≡ false = ground arith in
      let end : get_elem? (q ++ x ∷ []) (d.size - 1) ≡ some x =
        let zeros : length q - length q ≡ 0 = omega arith in
        ap (get_elem? (q ++ x ∷ [])) last
        ∙ get_elem?-append q (x ∷ []) (length q)
        ∙ rw zeros (ground arith) in
      rw (some_left, get_entry-ok (d.size - 1) h (omega (arith, h.count)) end)
        (Returns-bind
          (try_shrink_capacity_lem _ q d.size
            (Holds-iterators (adjust_iterators_before_remove d.size (d.size - 1) d.iterators) (
              Holds-ring d q d.buffer d.offset (d.size - 1) v refl v.offset_in last
                (omega (arith, v.size_in))
                (λ i lt.
                  ground
                    (arith, h.cells i, get_elem?-append q (x ∷ []) i, length-append q (x ∷ [])))))
            (omega arith) (omega arith))
          λ e k. returns (record {
            value = refl;
            holds = k.holds;
            iterators =
                k.iterators
                ∙ ap (λ t. adjust_iterators_before_remove t (d.size - 1) d.iterators) total
                ∙ ap (λ t. adjust_iterators_before_remove (length q + 1) t d.iterators) last;
          }))

  -- Deque::popFront on a deque that holds a list with a first value returns that value and leaves
  -- a consistent deque that holds the list behind it; the iterators are those that
  -- teds_deque_adjust_iterators_before_remove gives for offset 0.
  pub pop_front_lem :
      (d : Deque A) (q : List A) (x : A) → Holds d (x ∷ q) → Returns (Popped d x q 0) (pop_front d)
  unfolding pop_front
  pop_front_lem d q x h =
      let v = h.valid in
      let c = d.mask + 1 in
      let total : d.size ≡ length q + 1 = omega (arith, h.count) in
      let whole = capacity_of_nonempty v (omega (arith, v.size_in)) in
      let some_left : (d.size == 0) ≡ false = ground arith in
      let here : (d.offset + 0) % c ≡ d.offset =
        ap (λ t. t % c) (add-zero d.offset) ∙ mod-eq_of_lt (omega (arith, v.offset_in)) in
      let front =
        load-ok d.buffer d.offset (omega (arith, v.offset_in, v.alloc_in, whole))
          (rw here at (h.cells 0 (omega arith))) in
      let low = mod-lt (d.offset + 1) {m = c} (omega arith) in
      rw (some_left, front, mask_at d.mask v.pow2 v.bounded (d.offset + 1))
        (Returns-bind
          (try_shrink_capacity_lem _ q d.size
            (Holds-iterators (adjust_iterators_before_remove d.size 0 d.iterators) (
              Holds-ring d q d.buffer ((d.offset + 1) % c) (d.size - 1) v refl (omega (arith, low))
                (omega arith) (omega (arith, v.size_in))
                (λ i lt.
                  let turned : ((d.offset + 1) % c + i) % c ≡ (d.offset + suc i) % c =
                    mod-add-mod (d.offset + 1) c i ∙ ap (λ t. t % c) (omega arith) in
                  rw turned (h.cells (suc i) (omega arith)))))
            (omega arith) (omega arith))
          λ e k. returns (record {
            value = refl;
            holds = k.holds;
            iterators =
                k.iterators ∙ ap (λ t. adjust_iterators_before_remove t 0 d.iterators) total;
          }))

  -- An empty deque has nothing to pop at either end.
  pub pop-throw :
      (d : Deque A) → Holds d [] → (pop d ≡ throw underflow) × (pop_front d ≡ throw underflow)
  unfolding pop pop_front
  pop-throw d h =
      let none_left : (d.size == 0) ≡ true = ground (arith, h.count) in (rw none_left, rw none_left)

  -- clear on a deque that holds a list leaves a consistent deque that holds the empty list and
  -- has capacity 0.
  pub clear_lem :
      (d : Deque A) (q : List A) → Holds d q → Holds (clear d) [] × (get_capacity (clear d) ≡ 0)
  unfolding clear get_capacity
  clear_lem d q h = elim (Bool-cases (d.mask == 0)) [
    | inl no_storage ↦
        let none_left : length q ≡ 0 = ground (arith, h.count, h.valid.size_in) in
        let v = h.valid in
        rw no_storage (
          record { valid = v; count = h.count ∙ none_left; cells = λ i lt. absurd (omega arith) },
          rw no_storage,
        )
    | inr storage ↦ rw storage (
      record {
        valid = record {
          pow2 = (0, refl);
          bounded = omega arith;
          offset_in = omega arith;
          size_in = omega arith;
          alloc_in = omega arith;
        };
        count = refl;
        cells = λ i lt. absurd (omega arith);
      },
      refl,
    )
  ]
