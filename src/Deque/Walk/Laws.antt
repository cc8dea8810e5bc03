-- ===== src/Deque/Walk/Laws.antt =====
-- toArray, foreach and the destructor go through exactly the list.
use native.Mathlib.Nat.{mod-lt, mod-eq_of_lt}
use pecl_teds.Base.{
  ℕ, suc, ◌+◌, ◌%◌, ◌<◌, ◌≤◌, ◌≡◌, refl, ap, sym, ◌∙◌, List, [], ◌∷◌, Option, some, length,
  get_elem?, arith, ◌==◌, if◌then◌else◌,
}
use pecl_teds.Machine.{u32}
use pecl_teds.Run.{ok}
use pecl_teds.Memory.{Block, load}
use pecl_teds.Memory.Laws.{load-ok}
use pecl_teds.Deque.{Deque, get_capacity, Holds}
use pecl_teds.Deque.Reads.{capacity_of_pos, capacity_bounds, get_entry-ok}
use pecl_teds.Deque.Build.Clone.{wrapped_next}
use pecl_teds.Deque.Walk.{
  to_array_loop, to_array, dtor_loop, dtor, it_valid, it_get_current_data, it_get_current_key,
  it_move_forward, foreach,
}

module _ {A : Type 0} where
  -- The list stands in the ring from place `i` on.
  abbrev FromPlace : Block A → ℕ → ℕ → ℕ → List A → Type 0
  FromPlace b c o i q = (j : ℕ) → j < length q → b.cell ((o + (i + j)) % c) ≡ get_elem? q j

  FromPlace-tail :
      (b : Block A) (c o i : ℕ) (x : A) (q : List A)
      → FromPlace b c o i (x ∷ q)
      → FromPlace b c o (i + 1) q
  FromPlace-tail b c o i x q h j lt =
      ap (λ t. b.cell ((o + t) % c)) (omega arith) ∙ h (suc j) (omega arith)

  FromPlace-head :
      (b : Block A) (c o i : ℕ) (x : A) (q : List A)
      → o < c
      → c ≤ b.alloc
      → FromPlace b c o i (x ∷ q)
      → load b ((o + i) % c) ≡ ok x
  FromPlace-head b c o i x q front room h =
      load-ok b ((o + i) % c) (omega (arith, mod-lt (o + i) {m = c} (omega arith)))
        (ap (λ t. b.cell ((o + t) % c)) (omega arith) ∙ h 0 (omega arith))

  module _ (b : Block A) (c o : ℕ) (front : o < c) (room : c ≤ b.alloc) where
    to_array_loop_lem :
        (q : List A) (i : ℕ)
        → i + length q ≤ c
        → FromPlace b c o i q
        → to_array_loop b c ((o + i) % c) (length q) ≡ ok q
    unfolding to_array_loop
    to_array_loop_lem [] i fits h = refl
    to_array_loop_lem (x ∷ q) i fits h = rw (
      FromPlace-head b c o i x q front room h,
      wrapped_next o i c front (omega arith),
      to_array_loop_lem q (i + 1) (omega arith) (FromPlace-tail b c o i x q h),
    )

    dtor_loop_lem :
        (q : List A) (i p : ℕ)
        → i + length q ≤ c
        → FromPlace b c o i q
        → (if p == c then 0 else p) ≡ (o + i) % c
        → dtor_loop b c p (length q) ≡ ok q
    unfolding dtor_loop
    dtor_loop_lem [] i p fits h e = refl
    dtor_loop_lem (x ∷ q) i p fits h e = rw (
      e,
      FromPlace-head b c o i x q front room h,
      dtor_loop_lem q (i + 1) ((o + i) % c + 1) (omega arith) (FromPlace-tail b c o i x q h)
          (wrapped_next o i c front (omega arith)),
    )

  from_front : (d : Deque A) (q : List A) → Holds d q → FromPlace d.buffer (d.mask + 1) d.offset 0 q
  from_front d q h j lt =
      ap (λ t. d.buffer.cell ((d.offset + t) % (d.mask + 1))) (omega arith) ∙ h.cells j lt

  mask_of_pos :
      (d : Deque A) (n : ℕ) → get_capacity d ≡ d.mask + 1 → n ≤ get_capacity d → ¬ (d.mask ≡ 0)
  unfolding get_capacity
  mask_of_pos d n e h = ground arith

  -- For a deque that holds a list, toArray gives exactly the list, and the destructor destroys
  -- each of its values once, in order.
  pub to_array_lem : (d : Deque A) (q : List A) → Holds d q → (to_array d ≡ ok q) × (dtor d ≡ ok q)
  unfolding to_array dtor
  to_array_lem d [] h = ground (arith, h.count)
  to_array_lem d (x ∷ q) h =
      let v = h.valid in
      let some_size : 0 < d.size = omega (arith, h.count) in
      let whole = capacity_of_pos v some_size in
      let bounds = capacity_bounds v in
      let at : (d.offset + 0) % (d.mask + 1) ≡ d.offset =
        ap (λ t. t % (d.mask + 1)) (omega arith) ∙ mod-eq_of_lt (omega (arith, v.offset_in)) in
      let front : d.offset < d.mask + 1 = omega (arith, v.offset_in) in
      let room : d.mask + 1 ≤ d.buffer.alloc = omega (arith, whole, v.alloc_in) in
      let fits : 0 + length (x ∷ q) ≤ d.mask + 1 = omega (arith, h.count, whole, v.size_in) in
      let placed = from_front d (x ∷ q) h in
      let kept =
        ap (λ t. to_array_loop d.buffer (d.mask + 1) t d.size) (sym at)
        ∙ (ap (λ t. to_array_loop d.buffer (d.mask + 1) ((d.offset + 0) % (d.mask + 1)) t) h.count
            ∙ to_array_loop_lem d.buffer (d.mask + 1) d.offset front room (x ∷ q) 0 fits placed) in
      let same : (if d.offset == d.mask + 1 then 0 else d.offset) ≡ (d.offset + 0) % (d.mask + 1) =
        ground (arith, at) in
      let destroyed =
        ap (λ t. dtor_loop d.buffer (d.mask + 1) d.offset t) h.count
        ∙ dtor_loop_lem d.buffer (d.mask + 1) d.offset front room (x ∷ q) 0 d.offset fits placed
            same in
      let capacity_kept = mask_of_pos d (d.size) whole v.size_in in
      (ground (arith, kept), ground (arith, destroyed, capacity_kept))

  -- The pairs that foreach yields from key `i` on.
  unfoldable pub numbered : ℕ → List A → List (Option ℕ × A)
  numbered i [] = []
  numbered i (x ∷ q) = (some i, x) ∷ numbered (i + 1) q

  foreach_from :
      (d : Deque A) (q : List A) (i : ℕ) (r : List A)
      → Holds d q
      → i + length r ≡ length q
      → ((j : ℕ) → j < length r → get_elem? q (i + j) ≡ get_elem? r j)
      → foreach (suc (length r)) d i ≡ ok (numbered i r)
  unfolding foreach it_valid it_get_current_data it_get_current_key it_move_forward numbered
  foreach_from d q i [] h e at = ground (arith, h.count)
  foreach_from d q i (x ∷ r) h e at =
      let v = h.valid in
      let bounds = capacity_bounds v in
      let front : get_elem? q i ≡ some x = ap (get_elem? q) (omega arith) ∙ at 0 (omega arith) in
      let next : u32 (i + 1) ≡ i + 1 = omega (arith, h.count, v.size_in) in
      let rest =
        foreach_from d q (i + 1) r h (omega arith)
          (λ j lt. ap (get_elem? q) (omega arith) ∙ at (suc j) (omega arith)) in
      let inside : i < d.size = omega (arith, h.count) in
      let read = get_entry-ok i h (omega arith) front in ground (arith, inside, next, rest, read)

  -- foreach over a deque that holds a list, and is not changed on the way, ends after the list's
  -- length of steps and yields each value of the list with its offset as the key.
  pub foreach_lem :
      (d : Deque A) (q : List A) → Holds d q → foreach (suc (length q)) d 0 ≡ ok (numbered 0 q)
  foreach_lem d q h = foreach_from d q 0 q h (omega arith) (λ j lt. ap (get_elem? q) (omega arith))
