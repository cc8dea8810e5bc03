-- ===== src/Deque/Storage/Resize.antt =====
-- A deque whose buffer is moved or resized holds the same list.
use pecl_teds.Base.{
  ℕ, ◌+◌, ◌-◌, ◌%◌, ◌^◌, ◌<◌, ◌≤◌, ◌≡◌, refl, ap, ◌∙◌, arith, leb, leb→le, leb→lt, dec_lt,
}
use native.Mathlib.Nat.{mod-eq_of_lt, zero-add}
use pecl_teds.Machine.{u32}
use pecl_teds.Run.{Returns, returns, Returns-map, Returns-bind, Returns-if, ◌>>=◌}
use pecl_teds.Memory.{Block, malloc, memcpy}
use pecl_teds.Memory.Copy.{memcpy_lem}
use pecl_teds.Deque.{Deque, get_capacity, IsValid}
use pecl_teds.Deque.Reads.{capacity_of_nonempty}
use pecl_teds.Deque.Ring.{ring_wrap}
use pecl_teds.Deque.Storage.{move_circular_buffer}

module _ {A : Type 0} where
  -- `e` keeps the entries of `d` in a buffer of `c` cells; its mask may still be the old one.
  pub record Resized (d : Deque A) (c : ℕ) (e : Deque A) : Type 0 where
    pub size : e.size ≡ d.size
    pub iterators : e.iterators ≡ d.iterators
    pub alloc : e.buffer.alloc ≡ c
    pub offset : e.offset < c
    pub cells :
        (i : ℕ)
        → i < d.size
        → e.buffer.cell ((e.offset + i) % c) ≡ d.buffer.cell ((d.offset + i) % (d.mask + 1))

  -- The entries of `d` from the start of the block on.
  record Straight (d : Deque A) (c : ℕ) (b : Block A) : Type 0 where
    alloc : b.alloc ≡ c
    cells : (i : ℕ) → i < d.size → b.cell i ≡ d.buffer.cell ((d.offset + i) % (d.mask + 1))

  one_segment :
      (d : Deque A) (c : ℕ)
      → IsValid d
      → get_capacity d ≡ d.mask + 1
      → d.size ≤ c
      → d.size ≤ d.mask + 1 - d.offset
      → Returns (Straight d c) (memcpy (malloc c) 0 d.buffer d.offset d.size)
  one_segment d c v cap fits short =
      Returns-map
        (memcpy_lem d.size (malloc c) 0 d.buffer d.offset (omega (arith, v.alloc_in)) (omega arith))
        λ b k. record {
          alloc = k.same_size;
          cells = λ i lt. ground (
            arith,
            k.cells i,
            ring_wrap d.offset i (d.mask + 1),
            v.offset_in,
            ap d.buffer.cell (from_start i),
          );
        }
    where
      from_start : (i : ℕ) → d.offset + (i - 0) ≡ d.offset + i
      from_start i = omega arith

  two_segments :
      (d : Deque A) (c first : ℕ)
      → IsValid d
      → get_capacity d ≡ d.mask + 1
      → d.size ≤ c
      → first ≡ d.mask + 1 - d.offset
      → first < d.size
      → Returns (Straight d c) (
          memcpy (malloc c) 0 d.buffer d.offset first >>= λ b.
          memcpy b first d.buffer 0 (d.size - first))
  two_segments d c first v cap fits e long =
      Returns-bind
        (memcpy_lem first (malloc c) 0 d.buffer d.offset (omega (arith, v.alloc_in, v.offset_in))
          (omega arith))
        λ b k.
          Returns-map
            (memcpy_lem (d.size - first) b first d.buffer 0
              (omega (arith, v.alloc_in, v.size_in, v.offset_in)) (omega (arith, k.same_size)))
            λ b' k'. record {
              alloc = k'.same_size ∙ k.same_size;
              cells = λ i lt. elim (dec_lt i first) [
                | yes p ↦ ground (
                  arith,
                  k.cells i,
                  k'.cells i,
                  ring_wrap d.offset i (d.mask + 1),
                  v.offset_in,
                  ap d.buffer.cell (before i),
                )
                | no p ↦ ground (
                  arith,
                  k'.cells i,
                  ring_wrap d.offset i (d.mask + 1),
                  v.offset_in,
                  v.size_in,
                  ap d.buffer.cell (after i (omega arith)),
                )
              ];
            }
    where
      before : (i : ℕ) → d.offset + (i - 0) ≡ d.offset + i
      before i = omega arith

      after : (i : ℕ) → first ≤ i → 0 + (i - first) ≡ d.offset + i - (d.mask + 1)
      after i h = omega (arith, v.offset_in)

  pub move-Resized :
      (d : Deque A) (c : ℕ)
      → IsValid d
      → 0 < get_capacity d
      → d.size ≤ c
      → 0 < c
      → Returns (Resized d c) (move_circular_buffer d c)
  unfolding move_circular_buffer
  move-Resized d c v h fits pos =
      Returns-bind
        (Returns-if (leb d.size (u32 (d.mask + 1 + 2 ^ 32 - d.offset)))
          (λ short. one_segment d c v cap fits (omega (arith, first_len, leb→le _ _ short)))
          (λ long. two_segments d c _ v cap fits first_len (leb→lt _ _ long)))
        λ b k. returns (record {
          size = refl;
          iterators = refl;
          alloc = k.alloc;
          offset = pos;
          cells = λ i lt.
              ap b.cell (mod-eq_of_lt {n = 0 + i} {m = c} (omega arith))
              ∙ ap b.cell (zero-add i)
              ∙ k.cells i lt;
        })
    where
      cap : get_capacity d ≡ d.mask + 1
      cap = capacity_of_nonempty v h

      first_len : u32 (d.mask + 1 + 2 ^ 32 - d.offset) ≡ d.mask + 1 - d.offset
      first_len = omega (arith, v.bounded, v.offset_in)
