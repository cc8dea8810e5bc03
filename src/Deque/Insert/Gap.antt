-- ===== src/Deque/Insert/Gap.antt =====
-- The two ways to open the gap move every entry that they have to, in an order that loses none.
use native.Mathlib.Nat.{mod-mod, add-zero}
use pecl_teds.Base.{
  ℕ, zero, suc, ◌+◌, ◌%◌, ◌^◌, ◌<◌, ◌≤◌, ◌≡◌, ◌≢◌, refl, ap, ◌∙◌, some, arith, ◌==◌, true, false,
}
use pecl_teds.Machine.{u32, bit_and, IsPow2}
use pecl_teds.Run.{Returns, returns, Returns-map}
use pecl_teds.Memory.{Block}
use pecl_teds.Deque.Ring.{ring_inj, step_back, step_next}
use pecl_teds.Deque.Shift.{
  place, copied, place-copied, MovedUp, MovedUp-last, MovedDown, MovedDown-first, copy_round,
}
use pecl_teds.Deque.Insert.{move_to_end, move_to_front}

module _ {A : Type 0} where
  module _ (m o : ℕ) (p : IsPow2 (m + 1)) (small : m < 2 ^ 31) (front : o ≤ m) where
    -- The loop moves up the `n` entries from place `from` on, the last one first.
    pub move_to_end_lem :
        (fuel n : ℕ) (b : Block A) (from shift dst : ℕ)
        → n < fuel
        → m + 1 ≤ b.alloc
        → 0 < shift
        → from + n + shift ≤ m + 1
        → dst % (m + 1) ≡ (o + (from + n + shift)) % (m + 1)
        → ((i : ℕ) → from ≤ i → i < from + n → (a : A) × (place b (m + 1) o i ≡ some a))
        → Returns
            (MovedUp b (m + 1) o from n shift)
            (move_to_end fuel b m ((o + (from + n)) % (m + 1)) dst ((o + from) % (m + 1)))
    unfolding move_to_end
    move_to_end_lem zero n b from shift dst f room pos fits at full = absurd (omega arith)
    move_to_end_lem (suc fuel) zero b from shift dst f room pos fits at full =
        let done : ((o + (from + 0)) % (m + 1) == (o + from) % (m + 1)) ≡ true =
          ground (arith, add-zero from) in
        rw (done, move_to_end) (returns (record { alloc = refl; cells = λ i h. ground arith }))
    move_to_end_lem (suc fuel) (suc n) b from shift dst f room pos fits at full =
        let apart : (o + (from + suc n)) % (m + 1) ≢ (o + from) % (m + 1) = λ e. absurd (
          omega (
            arith,
            ring_inj o (from + suc n) from (m + 1) (omega arith) (omega arith) (omega arith) e,
          )) in
        let more : ((o + (from + suc n)) % (m + 1) == (o + from) % (m + 1)) ≡ false =
          ground arith in
        let src =
          step_back m p small o ((o + (from + suc n)) % (m + 1)) (from + n)
            (mod-mod (o + (from + suc n)) (m + 1) ∙ ap (λ t. (o + t) % (m + 1)) (omega arith)) in
        let to =
          step_back m p small o dst (from + n + shift)
            (at ∙ ap (λ t. (o + t) % (m + 1)) (omega arith)) in
        let (a, e) = full (from + n) (omega arith) (omega arith) in
        rw
          (
            more,
            move_to_end,
            src,
            to,
            copy_round m o front b (from + n + shift) (from + n) a room e,
          )
          (Returns-map
            (move_to_end_lem fuel n (copied b (m + 1) o (from + n + shift) a) from shift _
              (omega arith) room pos (omega arith) (mod-mod (o + (from + n + shift)) (m + 1))
              (λ i lo hi.
                let (x, ex) = full i lo (omega arith) in
                (x, ground (arith, place-copied b (m + 1) o (from + n + shift) i a))))
            λ g r. MovedUp-last b g (m + 1) o from n shift a (omega arith) pos (omega arith) e r)

    -- The loop moves down the `n` entries that stand `shift` places behind `from`, the first one first.
    pub move_to_front_lem :
        (fuel n : ℕ) (b : Block A) (from shift : ℕ)
        → n < fuel
        → m + 1 ≤ b.alloc
        → 0 < shift
        → from + n + shift ≤ m
        → ((i : ℕ)
            → from + shift ≤ i
            → i < from + shift + n
            → (a : A) × (place b (m + 1) o i ≡ some a))
        → Returns (MovedDown b (m + 1) o from n shift) (
            move_to_front fuel b m
              ((o + (from + shift)) % (m + 1))
              ((o + from) % (m + 1))
              ((o + (from + n + shift)) % (m + 1)))
    unfolding move_to_front
    move_to_front_lem zero n b from shift f room pos fits full = absurd (omega arith)
    move_to_front_lem (suc fuel) zero b from shift f room pos fits full =
        let done : ((o + (from + shift)) % (m + 1) == (o + (from + 0 + shift)) % (m + 1)) ≡ true =
          ground (arith, add-zero from) in
        rw (done, move_to_front) (returns (record { alloc = refl; cells = λ i h. ground arith }))
    move_to_front_lem (suc fuel) (suc n) b from shift f room pos fits full =
        let apart : (o + (from + shift)) % (m + 1) ≢ (o + (from + suc n + shift)) % (m + 1) = λ e.
          absurd (
            omega (
              arith,
              ring_inj o (from + shift) (from + suc n + shift) (m + 1) (omega arith) (omega arith)
                  (omega arith) e,
            )) in
        let more : ((o + (from + shift)) % (m + 1) == (o + (from + suc n + shift)) % (m + 1))
            ≡ false =
          ground arith in
        let src : bit_and (u32 ((o + (from + shift)) % (m + 1) + 1)) m
            ≡ (o + (from + 1 + shift)) % (m + 1) =
          step_next m p small o (from + shift) ∙ ap (λ t. (o + t) % (m + 1)) (omega arith) in
        let end : from + suc n + shift ≡ from + 1 + n + shift = omega arith in
        let (a, e) = full (from + shift) (omega arith) (omega arith) in
        rw
          (
            more,
            move_to_front,
            src,
            step_next m p small o from,
            copy_round m o front b from (from + shift) a room e,
            end,
          )
          (Returns-map
            (move_to_front_lem fuel n (copied b (m + 1) o from a) (from + 1) shift (omega arith)
              room pos (omega arith)
              (λ i lo hi.
                let (x, ex) = full i (omega arith) (omega arith) in
                (x, ground (arith, place-copied b (m + 1) o from i a))))
            λ g r. MovedDown-first b g (m + 1) o from n shift a (omega arith) pos (omega arith) e r)
