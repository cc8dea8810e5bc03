-- ===== src/Deque/Ring.antt =====
-- Indices that go round a buffer of `c` cells from its cell `o`.
use pecl_teds.Base.{
  ℕ, suc, ◌+◌, ◌-◌, ◌%◌, ◌^◌, ◌<◌, ◌≤◌, ◌≡◌, ◌≢◌, sym, ap, ◌∙◌, List, [], ◌∷◌, Option, some, length,
  get_elem?, arith, ltb, leb, ◌==◌, lt→ltb, if◌then◌else◌, ◌&&◌, dec_le, dec_lt, ℕ_discrete,
}
use native.Mathlib.Nat.{mod-eq_of_lt, mod-eq-sub-mod, mod-add-mod, mod-lt, add_assoc, add-mod_right}
use pecl_teds.Machine.{u32, u32-mod, pred-mod, bit_and, bit_and_mask, IsPow2}
use pecl_teds.Memory.{update}

-- Where the index goes round once, and where it does not.
pub ring_wrap :
    (o i c : ℕ) → o < c → i ≤ c → (o + i) % c ≡ (if ltb (o + i) c then o + i else o + i - c)
ring_wrap o i c ho hi = elim (dec_lt (o + i) c) [
  | yes p ↦ rw (lt→ltb (o + i) c p) (mod-eq_of_lt p)
  | no p ↦ ground (
    arith,
    mod-eq-sub-mod {n = o + i} {m = c} (omega arith),
    mod-eq_of_lt {n = o + i - c} {m = c} (omega arith),
  )
]

-- Two places less than a whole turn apart are different cells.
pub ring_inj : (o i j c : ℕ) → o < c → i < c → j < c → (o + i) % c ≡ (o + j) % c → i ≡ j
ring_inj o i j c ho hi hj e = ground (arith, ring_wrap o i c, ring_wrap o j c)

-- One place further on, and one place back.
pub ring_next : (o i c : ℕ) → ((o + i) % c + 1) % c ≡ (o + (i + 1)) % c
ring_next o i c = mod-add-mod (o + i) c 1 ∙ ap (λ t. t % c) (add_assoc o i 1)

pub ring_prev : (o i c : ℕ) → 0 < c → ((o + (i + 1)) % c + (c - 1)) % c ≡ (o + i) % c
ring_prev o i c h =
    mod-add-mod (o + (i + 1)) c (c - 1) ∙ ap (λ t. t % c) (omega arith) ∙ add-mod_right (o + i) c

module _ {A : Type 0} where
  pub ring-update :
      (f : ℕ → Option A) (o k i c : ℕ) (x : A)
      → o < c
      → k < c
      → i < c
      → update f ((o + k) % c) x ((o + i) % c) ≡ (if k == i then some x else f ((o + i) % c))
  ring-update f o k i c x ho hk hi = elim (ℕ_discrete k i) [
    | yes e ↦ rw e (ground arith)
    | no ne ↦
        let apart : (o + k) % c ≢ (o + i) % c = λ e. ne (ring_inj o k i c ho hk hi e) in
        ground arith
  ]

  -- From place `start` on the ring holds the values of the list; elsewhere it is as before.
  abbrev pub RingFilled : (ℕ → Option A) → ℕ → ℕ → ℕ → List A → (ℕ → Option A) → Type 0
  RingFilled f c o start xs g =
      (i : ℕ)
      → i < c
      → g ((o + i) % c) ≡ (
          if leb start i && ltb i (start + length xs)
          then get_elem? xs (i - start)
          else f ((o + i) % c))

  pub RingFilled-nil : (f : ℕ → Option A) (c o start : ℕ) → RingFilled f c o start [] f
  RingFilled-nil f c o start i h = ground arith

  pub RingFilled-cons :
      (f g : ℕ → Option A) (c o start : ℕ) (x : A) (xs : List A)
      → o < c
      → start < c
      → RingFilled (update f ((o + start) % c) x) c o (start + 1) xs g
      → RingFilled f c o start (x ∷ xs) g
  RingFilled-cons f g c o start x xs ho hs r i h = elim (dec_le i start) [
    | yes le ↦ elim (ℕ_discrete i start) [
      | yes eq ↦
          let zeros : i - start ≡ 0 = omega arith in
          rw zeros (ground (arith, r i h, ring-update f o start i c x))
      | no ne ↦ ground (arith, r i h, ring-update f o start i c x)
    ]
    | no gt ↦
        let sucs : i - start ≡ suc (i - (start + 1)) = omega arith in
        rw sucs (ground (arith, r i h, ring-update f o start i c x))
  ]

-- `& mask` in the code, for a capacity that is a power of two.
module _ (m : ℕ) (p : IsPow2 (m + 1)) (small : m < 2 ^ 31) where
  pub mask_next : (x : ℕ) → x ≤ m → bit_and (u32 (x + 1)) m ≡ (x + 1) % (m + 1)
  mask_next x h = bit_and_mask (u32 (x + 1)) m p ∙ u32-mod (x + 1) (m + 1) p (omega arith)

  pub mask_prev : (x : ℕ) → bit_and (u32 (x + 2 ^ 32 - 1)) m ≡ (x + m) % (m + 1)
  mask_prev x =
      bit_and_mask (u32 (x + 2 ^ 32 - 1)) m p
      ∙ u32-mod (x + 2 ^ 32 - 1) (m + 1) p (omega arith)
      ∙ pred-mod x m p (omega arith)

  -- The cell before place `i + 1` of a ring from `o`.
  pub step_back :
      (o x i : ℕ)
      → x % (m + 1) ≡ (o + (i + 1)) % (m + 1)
      → bit_and (u32 (x + 2 ^ 32 - 1)) m ≡ (o + i) % (m + 1)
  step_back o x i e =
      let low : m + 1 - 1 ≡ m = omega arith in
      mask_prev x
      ∙ sym (mod-add-mod x (m + 1) m)
      ∙ ap (λ t. (t + m) % (m + 1)) e
      ∙ ap (λ t. ((o + (i + 1)) % (m + 1) + t) % (m + 1)) (sym low)
      ∙ ring_prev o i (m + 1) (omega arith)

  -- The cell behind place `i`.
  pub step_next : (o i : ℕ) → bit_and (u32 ((o + i) % (m + 1) + 1)) m ≡ (o + (i + 1)) % (m + 1)
  step_next o i =
      mask_next ((o + i) % (m + 1)) (omega (arith, mod-lt (o + i) {m = m + 1} (omega arith)))
      ∙ ring_next o i (m + 1)

  pub mask_at : (x : ℕ) → bit_and (u32 x) m ≡ x % (m + 1)
  mask_at x = bit_and_mask (u32 x) m p ∙ u32-mod x (m + 1) p (omega arith)

  -- A whole turn of the 32-bit numbers is one of the ring.
  pub turn : (x : ℕ) → (x + 2 ^ 32) % (m + 1) ≡ x % (m + 1)
  turn x =
      let same : u32 (x + 2 ^ 32) ≡ u32 x = omega arith in
      sym (u32-mod (x + 2 ^ 32) (m + 1) p (omega arith))
      ∙ ap (λ t. t % (m + 1)) same
      ∙ u32-mod x (m + 1) p (omega arith)

  -- The cell `n` places before `o`, and what stands behind it.
  pub step_far_back :
      (o n i : ℕ)
      → n < 2 ^ 32
      → (bit_and (u32 (o + 2 ^ 32 - n)) m + (n + i)) % (m + 1) ≡ (o + i) % (m + 1)
  step_far_back o n i h =
      ap (λ t. (t + (n + i)) % (m + 1)) (mask_at (o + 2 ^ 32 - n))
      ∙ mod-add-mod (o + 2 ^ 32 - n) (m + 1) (n + i)
      ∙ ap (λ t. t % (m + 1)) (omega arith)
      ∙ turn (o + i)
