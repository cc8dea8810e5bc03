-- ===== src/Deque/Remove/Pull.antt =====
-- The two ways to close the gap move every entry that they have to, in an order that loses none.
use native.Mathlib.Nat.{mod-mod, add-zero}
use pecl_teds.Base.{
  ℕ, zero, suc, ◌+◌, ◌%◌, ◌^◌, ◌<◌, ◌≤◌, ◌≡◌, ◌≢◌, refl, some, arith, ◌==◌, true, false,
}
use pecl_teds.Machine.{IsPow2}
use pecl_teds.Run.{Returns, returns, Returns-map}
use pecl_teds.Memory.{Block}
use pecl_teds.Deque.Ring.{ring_inj, step_back, step_next}
use pecl_teds.Deque.Shift.{
  place, copied, place-copied, MovedUp, MovedUp-last, MovedDown, MovedDown-first, copy_round,
}
use pecl_teds.Deque.Remove.{pull_from_end, pull_from_front}

module _ (m o : ℕ) (front : o ≤ m) (i n : ℕ) (h : i + suc n ≤ m) where
  -- Two places of the ring are told apart by the test of the loop.
  apart : ((o + i) % (m + 1) == (o + (i + suc n)) % (m + 1)) ≡ false
  apart =
      let ne : (o + i) % (m + 1) ≢ (o + (i + suc n)) % (m + 1) = λ e. absurd (
        omega
          (arith, ring_inj o i (i + suc n) (m + 1) (omega arith) (omega arith) (omega arith) e)) in
      ground arith

  apart_sym : ((o + (i + suc n)) % (m + 1) == (o + i) % (m + 1)) ≡ false
  apart_sym = ground (arith, apart)

module _ {A : Type 0} (m o : ℕ) (p : IsPow2 (m + 1)) (small : m < 2 ^ 31) (front : o ≤ m) where
  -- The `n` entries behind place `from` move one place down.
  pub pull_from_end_lem :
      (fuel n : ℕ) (b : Block A) (from : ℕ)
      → n < fuel
      → m + 1 ≤ b.alloc
      → from + n ≤ m
      → ((i : ℕ) → from < i → i ≤ from + n → (a : A) × (place b (m + 1) o i ≡ some a))
      → Returns
          (MovedDown b (m + 1) o from n 1)
          (pull_from_end fuel b m ((o + from) % (m + 1)) ((o + (from + n)) % (m + 1)))
  unfolding pull_from_end
  pull_from_end_lem zero n b from f room fits full = absurd (omega arith)
  pull_from_end_lem (suc fuel) zero b from f room fits full =
      let done : ((o + from) % (m + 1) == (o + (from + 0)) % (m + 1)) ≡ true =
        ground (arith, add-zero from) in
      rw (done, pull_from_end) (returns (record { alloc = refl; cells = λ i h. ground arith }))
  pull_from_end_lem (suc fuel) (suc n) b from f room fits full =
      let end : from + suc n ≡ from + 1 + n = omega arith in
      let (a, e) = full (from + 1) (omega arith) (omega arith) in
      rw
        (
          apart m o front from n fits,
          pull_from_end,
          step_next m p small o from,
          copy_round m o front b from (from + 1) a room e,
          end,
        )
        (Returns-map
          (pull_from_end_lem fuel n (copied b (m + 1) o from a) (from + 1) (omega arith) room
            (omega arith)
            (λ i lo hi.
              let (x, ex) = full i (omega arith) (omega arith) in
              (x, ground (arith, place-copied b (m + 1) o from i a))))
          λ g r.
            MovedDown-first b g (m + 1) o from n 1 a (omega arith) (omega arith) (omega arith) e r)

  -- The `n` entries from place `from` on move one place up.
  pub pull_from_front_lem :
      (fuel n : ℕ) (b : Block A) (from : ℕ)
      → n < fuel
      → m + 1 ≤ b.alloc
      → from + n ≤ m
      → ((i : ℕ) → from ≤ i → i < from + n → (a : A) × (place b (m + 1) o i ≡ some a))
      → Returns
          (MovedUp b (m + 1) o from n 1)
          (pull_from_front fuel b m ((o + (from + n)) % (m + 1)) ((o + from) % (m + 1)))
  unfolding pull_from_front
  pull_from_front_lem zero n b from f room fits full = absurd (omega arith)
  pull_from_front_lem (suc fuel) zero b from f room fits full =
      let done : ((o + (from + 0)) % (m + 1) == (o + from) % (m + 1)) ≡ true =
        ground (arith, add-zero from) in
      rw (done, pull_from_front) (returns (record { alloc = refl; cells = λ i h. ground arith }))
  pull_from_front_lem (suc fuel) (suc n) b from f room fits full =
      let top : from + suc n ≡ from + n + 1 = omega arith in
      let prev =
        step_back m p small o ((o + (from + n + 1)) % (m + 1)) (from + n)
          (mod-mod (o + (from + n + 1)) (m + 1)) in
      let (a, e) = full (from + n) (omega arith) (omega arith) in
      rw
        (
          apart_sym m o front from n fits,
          pull_from_front,
          top,
          prev,
          copy_round m o front b (from + n + 1) (from + n) a room e,
        )
        (Returns-map
          (pull_from_front_lem fuel n (copied b (m + 1) o (from + n + 1) a) from (omega arith) room
            (omega arith)
            (λ i lo hi.
              let (x, ex) = full i (omega arith) (omega arith) in
              (x, ground (arith, place-copied b (m + 1) o (from + n + 1) i a))))
          λ g r.
            MovedUp-last b g (m + 1) o from n 1 a (omega arith) (omega arith) (omega arith) e r)
