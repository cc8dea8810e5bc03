-- ===== src/Deque/Shift.antt =====
-- Runs of entries that move along the ring, in insert and in remove.
use native.Mathlib.Nat.{mod-lt}
use pecl_teds.Base.{
  ℕ, suc, ◌+◌, ◌-◌, ◌%◌, ◌<◌, ◌≤◌, ◌≡◌, Option, some, arith, ltb, leb, ◌==◌, if◌then◌else◌, ◌&&◌,
  ℕ_discrete, dec_lt,
}
use pecl_teds.Run.{ok}
use pecl_teds.Memory.{Block, copy_cell, update}
use pecl_teds.Memory.Laws.{copy_cell-ok}
use pecl_teds.Deque.Ring.{ring-update}

module _ {A : Type 0} where
  -- The cells of a ring as a list would count them.
  abbrev pub place : Block A → ℕ → ℕ → ℕ → Option A
  place b c o i = b.cell ((o + i) % c)

  -- One cell copied to another place of the ring.
  abbrev pub copied : Block A → ℕ → ℕ → ℕ → A → Block A
  copied b c o to a = record b { cell = update b.cell ((o + to) % c) a }

  pub place-copied :
      (b : Block A) (c o to i : ℕ) (a : A)
      → o < c
      → to < c
      → i < c
      → place (copied b c o to a) c o i ≡ (if to == i then some a else place b c o i)
  place-copied b c o to i a ho ht hi = ring-update b.cell o to i c a ho ht hi

  -- The `n` entries from place `from` on stand `shift` places further on, and nothing else below
  -- place `top` has changed.
  pub record MovedUp (b : Block A) (c o from n shift : ℕ) (g : Block A) : Type 0 where
    pub alloc : g.alloc ≡ b.alloc
    pub cells :
        (i : ℕ)
        → i < c
        → place g c o i ≡ (
            if leb (from + shift) i && ltb i (from + shift + n)
            then place b c o (i - shift)
            else place b c o i)

  pub MovedUp-last :
      (b g : Block A) (c o from n shift : ℕ) (a : A)
      → o < c
      → 0 < shift
      → from + suc n + shift ≤ c
      → place b c o (from + n) ≡ some a
      → MovedUp (copied b c o (from + n + shift) a) c o from n shift g
      → MovedUp b c o from (suc n) shift g
  MovedUp-last b g c o from n shift a ho pos fits e r = record {
    alloc = r.alloc;
    cells = λ i h. elim (ℕ_discrete i (from + n + shift)) [
      | yes eq ↦
          let source : i - shift ≡ from + n = omega arith in
          rw source (ground (arith, r.cells i, place-copied b c o (from + n + shift) i a))
      | no ne ↦ ground (
        arith,
        r.cells i,
        place-copied b c o (from + n + shift) i a,
        place-copied b c o (from + n + shift) (i - shift) a,
      )
    ];
  }

  -- The `n` entries `shift` places behind `from` stand from place `from` on, and nothing else has
  -- changed.
  pub record MovedDown (b : Block A) (c o from n shift : ℕ) (g : Block A) : Type 0 where
    pub alloc : g.alloc ≡ b.alloc
    pub cells :
        (i : ℕ)
        → i < c
        → place g c o i
          ≡ (if leb from i && ltb i (from + n) then place b c o (i + shift) else place b c o i)

  pub MovedDown-first :
      (b g : Block A) (c o from n shift : ℕ) (a : A)
      → o < c
      → 0 < shift
      → from + suc n + shift ≤ c
      → place b c o (from + shift) ≡ some a
      → MovedDown (copied b c o from a) c o (from + 1) n shift g
      → MovedDown b c o from (suc n) shift g
  MovedDown-first b g c o from n shift a ho pos fits e r = record {
    alloc = r.alloc;
    cells = λ i h. elim (ℕ_discrete i from) [
      | yes eq ↦
          let source : i + shift ≡ from + shift = omega arith in
          rw source (ground (arith, r.cells i, place-copied b c o from i a))
      | no ne ↦ elim (dec_lt i (from + suc n)) [
        | yes lt ↦
            ground
              (arith, r.cells i, place-copied b c o from i a, place-copied b c o from (i + shift) a)
        | no ge ↦ ground (arith, r.cells i, place-copied b c o from i a)
      ]
    ];
  }

  module _ (m o : ℕ) (front : o ≤ m) where
    pub copy_round :
        (b : Block A) (to from : ℕ) (a : A)
        → m + 1 ≤ b.alloc
        → place b (m + 1) o from ≡ some a
        → copy_cell b ((o + to) % (m + 1)) ((o + from) % (m + 1)) ≡ ok (copied b (m + 1) o to a)
    copy_round b to from a room e =
        copy_cell-ok b ((o + to) % (m + 1)) ((o + from) % (m + 1))
          (omega (arith, mod-lt (o + to) {m = m + 1} (omega arith)))
          (omega (arith, mod-lt (o + from) {m = m + 1} (omega arith))) e
