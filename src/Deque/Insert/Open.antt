-- ===== src/Deque/Insert/Open.antt =====
-- The gap is opened, whichever side moves.
use native.Mathlib.Nat.{mod-lt, mod-eq_of_lt, mod-add-mod, add-zero}
use pecl_teds.Base.{
  ℕ, ◌+◌, ◌-◌, ◌/◌, ◌%◌, ◌^◌, ◌<◌, ◌≤◌, ◌≡◌, ap, ◌∙◌, subst, List, some, length, get_elem?,
  get_elem?-some, arith, leb, leb→lt,
}
use pecl_teds.Machine.{u32, u32-mod, bit_and, bit_and_mask}
use pecl_teds.Run.{ok, Returns, returns, Returns-bind, Returns-if, ◌>>=◌}
use pecl_teds.Memory.{Block}
use pecl_teds.Deque.{Deque, get_capacity, Holds}
use pecl_teds.Deque.Ring.{mask_at, step_far_back}
use pecl_teds.Deque.Shift.{place, MovedUp, MovedDown}
use pecl_teds.Deque.Reads.{capacity_of_nonempty}
use pecl_teds.Deque.Insert.{move_to_end, move_to_front, open_gap}
use pecl_teds.Deque.Insert.Gap.{move_to_end_lem, move_to_front_lem}

module _ {A : Type 0} where
  -- The list stands in the ring from cell `r.1` with `n` places free at `at`.
  pub record Gapped (e : Deque A) (q : List A) (at n : ℕ) (r : Block A × ℕ) : Type 0 where
    pub alloc : r.0.alloc ≡ e.buffer.alloc
    pub front : r.1 ≤ e.mask
    pub before : (i : ℕ) → i < at → place r.0 (e.mask + 1) r.1 i ≡ get_elem? q i
    pub after :
        (i : ℕ) → at + n ≤ i → i < length q + n → place r.0 (e.mask + 1) r.1 i ≡ get_elem? q (i - n)

  module _ (e : Deque A) (q : List A) (at n : ℕ) (h : Holds e q) (inside : at ≤ length q)
      (pos : 0 < n) (fits : length q + n ≤ get_capacity e) where
    whole : get_capacity e ≡ e.mask + 1
    whole = capacity_of_nonempty h.valid (omega arith)

    room : e.mask + 1 ≤ e.buffer.alloc
    room = omega (arith, whole, h.valid.alloc_in)

    entry : (i : ℕ) → i < length q → (a : A) × (place e.buffer (e.mask + 1) e.offset i ≡ some a)
    entry i lt = let (a, eq) = get_elem?-some q i lt in (a, h.cells i lt ∙ eq)

    gap_at_end : Returns (Gapped e q at n) (
        let src_offset = bit_and (u32 (e.offset + e.size)) e.mask in
        move_to_end
          (e.size + 1)
          e.buffer
          e.mask
          src_offset
          (u32 (src_offset + n))
          (bit_and (u32 (e.offset + at)) e.mask)
        >>= λ b. ok (b, e.offset))
    gap_at_end =
        let v = h.valid in
        let m = e.mask in
        let total : at + (length q - at) ≡ e.size = omega (arith, h.count) in
        let dst : u32 ((e.offset + e.size) % (m + 1) + n) % (m + 1)
            ≡ (e.offset + (at + (length q - at) + n)) % (m + 1) =
          u32-mod _ (m + 1) v.pow2 (omega (arith, v.bounded))
          ∙ mod-add-mod (e.offset + e.size) (m + 1) n
          ∙ ap (λ t. t % (m + 1)) (omega (arith, total)) in
        rw
          (
            mask_at m v.pow2 v.bounded (e.offset + e.size),
            mask_at m v.pow2 v.bounded (e.offset + at),
          )
          (Returns-bind
            (subst
              (λ t. Returns (MovedUp e.buffer (m + 1) e.offset at (length q - at) n) (
                move_to_end (e.size + 1) e.buffer m ((e.offset + t) % (m + 1))
                  (u32 ((e.offset + e.size) % (m + 1) + n)) ((e.offset + at) % (m + 1))))
              total
              (move_to_end_lem m e.offset v.pow2 v.bounded v.offset_in (e.size + 1) (length q - at)
                e.buffer at n _ (omega arith) room pos (omega (arith, whole)) dst
                (λ i lo hi. entry i (omega arith))))
            λ g r. returns (record {
              alloc = r.alloc;
              front = v.offset_in;
              before = λ i lt. ground (arith, r.cells i, h.cells i, whole);
              after = λ i lo hi. ground (arith, r.cells i, h.cells (i - n), whole);
            }))

    module _ (o' : ℕ) (front : o' ≤ e.mask)
        (turned : (i : ℕ) → (o' + (n + i)) % (e.mask + 1) ≡ (e.offset + i) % (e.mask + 1)) where
      -- An entry as it is counted from the new front.
      old_place :
          (i : ℕ)
          → n ≤ i
          → place e.buffer (e.mask + 1) o' i ≡ place e.buffer (e.mask + 1) e.offset (i - n)
      old_place i lo =
          ap e.buffer.cell (ap (λ t. (o' + t) % (e.mask + 1)) (omega arith) ∙ turned (i - n))

      moved_front :
          at < length q
          → Returns (MovedDown e.buffer (e.mask + 1) o' 0 at n) (
              move_to_front
                (e.size + 1)
                e.buffer
                e.mask
                e.offset
                o'
                ((e.offset + at) % (e.mask + 1)))
      moved_front early =
          let c = e.mask + 1 in
          let v = h.valid in
          let src : (o' + (0 + n)) % c ≡ e.offset =
            ap (λ t. (o' + t) % c) (omega arith)
            ∙ turned 0
            ∙ ap (λ t. t % c) (add-zero e.offset)
            ∙ mod-eq_of_lt (omega (arith, v.offset_in)) in
          let dst : (o' + 0) % c ≡ o' =
            ap (λ t. t % c) (add-zero o') ∙ mod-eq_of_lt (omega arith) in
          let end : (o' + (0 + at + n)) % c ≡ (e.offset + at) % c =
            ap (λ t. (o' + t) % c) (omega arith) ∙ turned at in
          rw (src, dst, end) at
            (move_to_front_lem e.mask o' v.pow2 v.bounded front (e.size + 1) at e.buffer 0 n
              (omega (arith, h.count)) room pos (omega (arith, whole))
              (λ i lo hi.
                let (a, eq) = entry (i - n) (omega arith) in (a, old_place i (omega arith) ∙ eq)))

      gap_from_front :
          at < length q
          → Returns (Gapped e q at n) (
              move_to_front
                (e.size + 1)
                e.buffer
                e.mask
                e.offset
                o'
                ((e.offset + at) % (e.mask + 1))
              >>= λ b. ok (b, o'))
      gap_from_front early = Returns-bind (moved_front early) λ g r. returns (record {
        alloc = r.alloc;
        front = front;
        before = λ i lt.
            let back : i + n - n ≡ i = omega arith in
            ground (
              arith,
              r.cells i,
              old_place (i + n),
              h.cells i,
              whole,
              ap (place e.buffer (e.mask + 1) e.offset) back,
            );
        after = λ i lo hi. ground (arith, r.cells i, old_place i, h.cells (i - n), whole);
      })

    gap_at_front :
        at < length q
        → Returns (Gapped e q at n) (
            let src_offset = bit_and e.offset e.mask in
            let dst_offset = bit_and (u32 (e.offset + 2 ^ 32 - n)) e.mask in
            move_to_front
              (e.size + 1)
              e.buffer
              e.mask
              src_offset
              dst_offset
              (bit_and (u32 (src_offset + at)) e.mask)
            >>= λ b. ok (b, dst_offset))
    gap_at_front early =
        let v = h.valid in
        let src : bit_and e.offset e.mask ≡ e.offset =
          bit_and_mask e.offset e.mask v.pow2 ∙ mod-eq_of_lt (omega (arith, v.offset_in)) in
        let low = mod-lt (e.offset + 2 ^ 32 - n) {m = e.mask + 1} (omega arith) in
        rw (src, mask_at e.mask v.pow2 v.bounded (e.offset + at))
          (gap_from_front _
            (omega (arith, low, mask_at e.mask v.pow2 v.bounded (e.offset + 2 ^ 32 - n)))
            (λ i.
              step_far_back e.mask v.pow2 v.bounded e.offset n i (omega (arith, whole, v.bounded)))
            early)

    pub open_gap_lem : Returns (Gapped e q at n) (open_gap e at n)
    unfolding open_gap
    open_gap_lem =
        Returns-if (leb (e.size / 2) at) (λ _. gap_at_end)
          (λ early. gap_at_front (omega (arith, leb→lt _ _ early, h.count)))
