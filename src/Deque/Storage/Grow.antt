-- ===== src/Deque/Storage/Grow.antt =====
-- Growing and shrinking keep the list; growing past the limit is a fatal error.
use pecl_teds.Base.{
  ℕ, zero, suc, ◌+◌, ◌-◌, ◌/◌, ◌^◌, ◌<◌, ◌≤◌, ◌≡◌, refl, ◌∙◌, List, arith, ltb, leb, &&-both,
  ltb→lt, lt→ltb, le→ltb, leb→le, ==→eq, ◌==◌, ◌&&◌, true, false,
}
use native.Mathlib.Nat.{mod-eq_of_lt, pow-suc, one-le-pow}
use pecl_teds.Machine.{u32, IsPow2}
use pecl_teds.Run.{fatal, Returns, returns, Returns-map, Returns-bind, Returns-if}
use pecl_teds.Memory.{realloc, malloc}
use pecl_teds.Util.{deque_min_capacity}
use pecl_teds.Deque.{Deque, get_capacity, IsValid, Holds}
use pecl_teds.Deque.Reads.{capacity_of_nonempty}
use pecl_teds.Deque.Storage.{raise_capacity, shrink_capacity, try_shrink_capacity}
use pecl_teds.Deque.Storage.Resize.{Resized, move-Resized}

half-IsPow2 : (m : ℕ) → IsPow2 (m + 1) → 1 ≤ m → IsPow2 (m / 2 + 1)
half-IsPow2 m (zero, e) h = absurd (omega arith)
half-IsPow2 m (suc k, e) h = (k, omega (arith, pow-suc 2 k, one-le-pow k 2 (omega arith)))

module _ {A : Type 0} where
  pub capacity_of_mask : (d : Deque A) → d.mask < 2 ^ 31 → 1 ≤ d.mask → get_capacity d ≡ d.mask + 1
  unfolding get_capacity
  capacity_of_mask d h p = ground arith

  -- What an operation on the storage leaves: the same list and iterators, in a buffer of `c` cells.
  pub record Stored (d : Deque A) (q : List A) (c : ℕ) (e : Deque A) : Type 0 where
    pub holds : Holds e q
    pub iterators : e.iterators ≡ d.iterators
    pub capacity : get_capacity e ≡ c
    pub mask : e.mask + 1 ≡ c

  with_mask :
      (d : Deque A) (q : List A) (c m : ℕ) (e : Deque A)
      → Holds d q
      → Resized d c e
      → IsPow2 c
      → 2 ≤ c
      → c ≤ 2 ^ 31
      → d.size ≤ c
      → m ≡ c - 1
      → Stored d q c (record e { mask = m })
  with_mask d q c m e h r p two small fits em =
      let whole : m + 1 ≡ c = omega arith in
      let cap : get_capacity (record e { mask = m }) ≡ c =
        capacity_of_mask (record e { mask = m }) (omega arith) (omega arith) ∙ whole in
      record {
        holds = record {
          valid = record {
            pow2 = rw whole p;
            bounded = omega arith;
            offset_in = omega (arith, r.offset);
            size_in = rw cap (omega (arith, r.size));
            alloc_in = rw cap (omega (arith, r.alloc));
          };
          count = r.size ∙ h.count;
          cells = λ i lt. rw whole (r.cells i (omega (arith, h.count)) ∙ h.cells i lt);
        };
        iterators = r.iterators;
        capacity = cap;
        mask = whole;
      }

  realloc-Resized :
      (d : Deque A) (c : ℕ)
      → IsValid d
      → 0 < get_capacity d
      → d.offset + d.size ≤ c
      → d.offset + d.size ≤ d.mask + 1
      → d.offset < c
      → Resized d c (record d { null = false; buffer = realloc d.buffer c })
  unfolding realloc
  realloc-Resized d c v pos fits inside front = record {
    size = refl;
    iterators = refl;
    alloc = refl;
    offset = front;
    cells = λ i lt. ground (
      arith,
      capacity_of_nonempty v pos,
      v.alloc_in,
      mod-eq_of_lt {n = d.offset + i} {m = c} (omega arith),
      mod-eq_of_lt {n = d.offset + i} {m = d.mask + 1} (omega arith),
    );
  }

  empty-Resized :
      (d : Deque A) (c : ℕ)
      → IsValid d
      → d.mask ≡ 0
      → 0 < c
      → Resized d c (record d { null = false; buffer = malloc c })
  unfolding get_capacity
  empty-Resized d c v e pos = record {
    size = refl;
    iterators = refl;
    alloc = refl;
    offset = omega (arith, v.offset_in);
    cells = λ i lt. absurd (ground (arith, v.size_in));
  }

  -- Growing beyond the limit of the engine is a fatal error.
  pub raise_capacity-fatal :
      (max_size : ℕ) (d : Deque A) (c : ℕ) → max_size < c → raise_capacity max_size d c ≡ fatal
  unfolding raise_capacity
  raise_capacity-fatal max_size d c h = rw (lt→ltb max_size c h)

  module _ (d : Deque A) (q : List A) (c : ℕ) (h : Holds d q) (p : IsPow2 c) (two : 2 ≤ c)
      (small : c ≤ 2 ^ 31) where
    -- Raising the capacity of a deque that holds a list to a power of two from 2 to 2 ^ 31,
    -- within the engine's limit and no less than before, keeps the list and the iterators and
    -- leaves exactly that capacity, whether the buffer is new, resized in place or copied in one
    -- or two pieces.
    pub raise_capacity_lem :
        (max_size : ℕ)
        → c ≤ max_size
        → get_capacity d ≤ c
        → Returns (Stored d q c) (raise_capacity max_size d c)
    unfolding raise_capacity
    raise_capacity_lem max_size limit grow =
        let v = h.valid in
        rw (le→ltb max_size c limit) (
          Returns-bind
            (Returns-if (d.mask == 0)
              (λ none_yet. returns (empty-Resized d c v (==→eq _ _ none_yet) (omega arith)))
              (λ some_yet.
                let cap = capacity_of_mask d v.bounded (ground arith) in
                Returns-if (leb (u32 (d.offset + d.size)) (u32 (d.mask + 1)))
                  (λ flat.
                    let inside : d.offset + d.size ≤ d.mask + 1 =
                      omega (arith, leb→le _ _ flat, v.bounded, v.offset_in, v.size_in) in
                    returns (
                      realloc-Resized d c v (omega arith) (omega arith) inside
                        (omega (arith, v.offset_in))))
                  (λ round.
                    move-Resized d c v (omega arith) (omega (arith, v.size_in)) (omega arith))))
            λ e r.
              returns
                (with_mask d q c _ e h r p two small (omega (arith, v.size_in)) (omega arith)))

    -- Shrinking the capacity to a power of two with room for the list keeps it, and the iterators.
    pub shrink_capacity_lem :
        c < get_capacity d → d.size ≤ c → Returns (Stored d q c) (shrink_capacity d c)
    unfolding shrink_capacity
    shrink_capacity_lem less fits =
        let v = h.valid in
        let cap = capacity_of_nonempty v (omega arith) in
        Returns-bind
          (Returns-if (ltb (u32 (d.offset + d.size)) c)
            (λ flat.
              let inside : d.offset + d.size < c =
                omega (arith, ltb→lt _ _ flat, v.bounded, v.offset_in, v.size_in) in
              returns
                (realloc-Resized d c v (omega arith) (omega arith) (omega arith) (omega arith)))
            (λ round. move-Resized d c v (omega arith) fits (omega arith)))
          λ e r. returns (with_mask d q c _ e h r p two small fits (omega arith))

  -- Whether or not it shrinks, the list and the iterators are kept.
  pub record Kept (d : Deque A) (q : List A) (e : Deque A) : Type 0 where
    pub holds : Holds e q
    pub iterators : e.iterators ≡ d.iterators

  -- teds_deque_entries_try_shrink_capacity on a deque that holds a list and has as many entries
  -- as the old size or one less keeps the list, the consistency and the iterators.
  pub try_shrink_capacity_lem :
      (d : Deque A) (q : List A) (old_size : ℕ)
      → Holds d q
      → d.size ≤ old_size
      → old_size ≤ d.size + 1
      → Returns (Kept d q) (try_shrink_capacity d old_size)
  unfolding try_shrink_capacity
  try_shrink_capacity_lem d q old_size h lo hi =
      Returns-if
        (leb (u32 (old_size + 2 ^ 32 - 1)) (d.mask / 4) && ltb (deque_min_capacity - 1) d.mask)
        (λ e.
          Returns-map (shrinks (&&-both _ _ e))
            λ x s. record { holds = s.holds; iterators = s.iterators })
        (λ _. returns (record { holds = h; iterators = refl }))
    where
      v : IsValid d
      v = h.valid

      shrinks :
          (leb (u32 (old_size + 2 ^ 32 - 1)) (d.mask / 4) ≡ true)
            × (ltb (deque_min_capacity - 1) d.mask ≡ true)
          → Returns (Stored d q (u32 (d.mask / 2 + 1))) (shrink_capacity d (u32 (d.mask / 2 + 1)))
      shrinks (few, large) =
          let big : 3 < d.mask = ltb→lt _ _ large in
          let half : u32 (d.mask / 2 + 1) ≡ d.mask / 2 + 1 = omega (arith, v.bounded) in
          let cap = capacity_of_mask d v.bounded (omega arith) in
          let rest : u32 (old_size + 2 ^ 32 - 1) ≤ d.mask / 4 = leb→le _ _ few in
          rw half (
            shrink_capacity_lem d q (d.mask / 2 + 1) h (half-IsPow2 d.mask v.pow2 (omega arith))
              (omega arith) (omega (arith, v.bounded)) (omega arith) (omega (arith, v.bounded)))
