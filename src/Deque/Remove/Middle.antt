-- ===== src/Deque/Remove/Middle.antt =====
-- offsetUnset takes the entry at an offset out of the list.
use native.Mathlib.Nat.{mod-lt, mod-add-mod}
use pecl_teds.Base.{
  ℕ, suc, ◌+◌, ◌-◌, ◌/◌, ◌%◌, ◌^◌, ◌<◌, ◌≤◌, ◌≡◌, ap, ◌∙◌, subst, List, some, length,
  get_elem?-some, remove_at, length-remove_at, get_elem?-remove_at, arith, leb, false,
}
use pecl_teds.Machine.{u32, bit_and, bit_and_mask}
use pecl_teds.Run.{
  ok, throw, invalid_index, Returns, returns, Returns-map, Returns-bind, Returns-if, ◌>>=◌,
}
use pecl_teds.Memory.{Block}
use pecl_teds.Memory.Laws.{load-ok}
use pecl_teds.Deque.{Deque, get_capacity, Holds}
use pecl_teds.Deque.Ring.{mask_at, turn}
use pecl_teds.Deque.Shift.{place, MovedUp}
use pecl_teds.Deque.Reads.{capacity_of_nonempty}
use pecl_teds.Deque.Storage.Grow.{try_shrink_capacity_lem}
use pecl_teds.Deque.Add.Front.{RingHolds, Holds-ring, Holds-iterators}
use pecl_teds.Deque.Remove.{
  pull_from_end, pull_from_front, close_gap, remove_offset, offset_unset,
  adjust_iterators_before_remove,
}
use pecl_teds.Deque.Remove.Pull.{pull_from_end_lem, pull_from_front_lem}

module _ {A : Type 0} (d : Deque A) (q : List A) (at : ℕ) (h : Holds d q)
    (inside : at < length q) where
  -- The list without the entry stands in the ring from cell `r.1`.
  record Closed (r : Block A × ℕ) : Type 0 where
    alloc : r.0.alloc ≡ d.buffer.alloc
    front : r.1 ≤ d.mask
    cells : RingHolds r.0.cell (d.mask + 1) r.1 (remove_at at q)

  whole : get_capacity d ≡ d.mask + 1
  whole = capacity_of_nonempty h.valid (omega (arith, h.count, h.valid.size_in))

  fits : length q ≤ d.mask + 1
  fits = omega (arith, whole, h.count, h.valid.size_in)

  room : d.mask + 1 ≤ d.buffer.alloc
  room = omega (arith, whole, h.valid.alloc_in)

  entry : (i : ℕ) → i < length q → (a : A) × (place d.buffer (d.mask + 1) d.offset i ≡ some a)
  entry i lt = let (a, e) = get_elem?-some q i lt in (a, h.cells i lt ∙ e)

  close_at_end : Returns Closed (
      pull_from_end
        (d.size + 1)
        d.buffer
        d.mask
        ((d.offset + at) % (d.mask + 1))
        (bit_and (u32 (d.offset + d.size + 2 ^ 32 - 1)) d.mask)
      >>= λ b. ok (b, d.offset))
  close_at_end =
      let v = h.valid in
      let c = d.mask + 1 in
      let last : bit_and (u32 (d.offset + d.size + 2 ^ 32 - 1)) d.mask
          ≡ (d.offset + (at + (length q - 1 - at))) % c =
        mask_at d.mask v.pow2 v.bounded (d.offset + d.size + 2 ^ 32 - 1)
        ∙ ap (λ t. t % c) (omega (arith, h.count))
        ∙ turn d.mask v.pow2 v.bounded (d.offset + (at + (length q - 1 - at))) in
      rw last (
        Returns-bind
          (pull_from_end_lem d.mask d.offset v.pow2 v.bounded v.offset_in (d.size + 1)
            (length q - 1 - at) d.buffer at (omega (arith, h.count)) room (omega (arith, fits))
            (λ i lo hi. entry i (omega arith)))
          λ b r. returns (record {
            alloc = r.alloc;
            front = v.offset_in;
            cells = λ i lt.
                let next : i + 1 ≡ suc i = omega arith in
                ground (
                  arith,
                  r.cells i,
                  h.cells i,
                  h.cells (suc i),
                  fits,
                  get_elem?-remove_at at q i inside,
                  length-remove_at at q inside,
                  ap (place d.buffer c d.offset) next,
                );
          }))

  close_at_front : Returns Closed (
      pull_from_front
        (d.size + 1)
        d.buffer
        d.mask
        ((d.offset + at) % (d.mask + 1))
        (bit_and d.offset d.mask)
      >>= λ b. ok (b, bit_and (u32 (d.offset + 1)) d.mask))
  close_at_front =
      let v = h.valid in
      let c = d.mask + 1 in
      let first : bit_and d.offset d.mask ≡ (d.offset + 0) % c =
        bit_and_mask d.offset d.mask v.pow2 ∙ ap (λ t. t % c) (omega arith) in
      let next = mask_at d.mask v.pow2 v.bounded (d.offset + 1) in
      let low = mod-lt (d.offset + 1) {m = c} (omega arith) in
      let start : 0 + at ≡ at = omega arith in
      rw (first, next)
        (Returns-bind
          (subst
            (λ t. Returns (MovedUp d.buffer c d.offset 0 at 1) (
              pull_from_front (d.size + 1) d.buffer d.mask ((d.offset + t) % c)
                ((d.offset + 0) % c)))
            start
            (pull_from_front_lem d.mask d.offset v.pow2 v.bounded v.offset_in (d.size + 1) at
              d.buffer 0 (omega (arith, h.count)) room (omega (arith, fits))
              (λ i lo hi. entry i (omega arith))))
          λ b r. returns (record {
            alloc = r.alloc;
            front = omega (arith, low);
            cells = λ i lt.
                let turned : ((d.offset + 1) % c + i) % c ≡ (d.offset + (i + 1)) % c =
                  mod-add-mod (d.offset + 1) c i ∙ ap (λ t. t % c) (omega arith) in
                let back : i + 1 - 1 ≡ i = omega arith in
                let next : i + 1 ≡ suc i = omega arith in
                rw turned (
                  ground (
                    arith,
                    r.cells (i + 1),
                    h.cells i,
                    h.cells (suc i),
                    fits,
                    get_elem?-remove_at at q i inside,
                    length-remove_at at q inside,
                    ap (place d.buffer c d.offset) back,
                    ap (place d.buffer c d.offset) next,
                  ));
          }))

  close_gap_lem : Returns Closed (close_gap d at)
  unfolding close_gap
  close_gap_lem =
      rw (mask_at d.mask h.valid.pow2 h.valid.bounded (d.offset + at))
        (Returns-if (leb (d.size / 2) at) (λ _. close_at_end) (λ _. close_at_front))

  -- Deque::offsetUnset on a deque that holds a list, at an offset inside it, returns a consistent
  -- deque that holds the list without that entry, whichever side of the ring is moved and whether
  -- or not the buffer shrinks; the iterators are those that
  -- teds_deque_adjust_iterators_before_remove gives.
  pub offset_unset_lem :
      Returns
        (λ e.
          Holds e (remove_at at q)
          × (e.iterators ≡ adjust_iterators_before_remove (length q) at d.iterators))
        (offset_unset d at)
  unfolding offset_unset remove_offset
  offset_unset_lem =
      let v = h.valid in
      let (a, e) = entry at inside in
      let low = mod-lt (d.offset + at) {m = d.mask + 1} (omega arith) in
      let within : leb d.size at ≡ false = ground (arith, h.count) in
      rw
        (
          within,
          mask_at d.mask v.pow2 v.bounded (d.offset + at),
          load-ok d.buffer _ (omega (arith, low, room)) e,
        )
        (Returns-bind close_gap_lem λ (b, o) r.
          Returns-map
            (try_shrink_capacity_lem _ (remove_at at q) (d.size - 1)
              (Holds-iterators (adjust_iterators_before_remove d.size at d.iterators) (
                Holds-ring d (remove_at at q) b o (d.size - 1) v r.alloc r.front
                  (omega (arith, h.count, length-remove_at at q inside)) (omega (arith, v.size_in))
                  r.cells))
              (omega arith) (omega arith))
            λ x k. (k.holds, rw (← h.count) k.iterators))

module _ {A : Type 0} where
  -- offsetUnset on a deque that holds a list throws for an offset that is not inside the list.
  pub offset_unset-throw :
      (d : Deque A) (q : List A) (at : ℕ)
      → Holds d q
      → length q ≤ at
      → offset_unset d at ≡ throw invalid_index
  unfolding offset_unset
  offset_unset-throw d q at h past = ground (arith, h.count)
