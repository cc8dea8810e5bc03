-- ===== src/Vector/Build/Thrown.antt =====
-- teds_vector.c: what filter does when its callback throws.
use mathlib.Core.List.{append-nil, append_assoc}
use pecl_teds.Base.{
  ℕ, suc, ◌+◌, ◌^◌, ◌<◌, ◌≡◌, ◌≢◌, refl, Bool, true, false, List, [], ◌∷◌, ◌++◌, Option, none, some,
  length, length-append, get_elem?, arith, ◌==◌, ==→eq, ==→ne, if◌then◌else◌, Bool-cases, inl, inr,
}
use pecl_teds.Machine.{u32}
use pecl_teds.Run.{Run, ok, throw, fault, Exception, Returns-inv, ◌>>=◌}
use pecl_teds.Memory.{Block, no_block, load, update}
use pecl_teds.Memory.Laws.{store-ok}
use pecl_teds.Util.Range.{From, From-load, From-next}
use pecl_teds.Vector.{Entries, Holds}
use pecl_teds.Vector.Keys.Laws.{Holds-From}
use pecl_teds.Vector.Build.{cleanup, filter_loop, filter_with}
use pecl_teds.Vector.Build.Kept.{
  kept, kept-nil, kept-yes, kept-no, Keeping, Keeping-start, Keeping-drop, Keeping-store,
  filter_room-Keeping,
}

module _ {A : Type 0} where
  load-blank : (b : Block A) (i : ℕ) → b.cell i ≡ none → load b i ≡ fault
  unfolding load
  load-blank b i e = ground (arith, e)

  -- The clean-up begins with a zval that was never written.
  cleanup-fault :
      (done : List A) (b : Block A) (left capacity : ℕ)
      → Keeping done left b capacity
      → 0 < length done
      → cleanup b (length done) ≡ fault
  unfolding cleanup
  cleanup-fault [] b left capacity k pos = absurd (omega arith)
  cleanup-fault (x ∷ done) b left capacity k pos =
      rw (load-blank b (length (x ∷ done)) (k.blank (length (x ∷ done)) (omega arith))) refl

  -- The callback answers on the values of the list.
  abbrev pub Answers : (A → Run Bool) → (A → Bool) → List A → Type 0
  Answers keeps p q = (i : ℕ) (a : A) → get_elem? q i ≡ some a → keeps a ≡ ok (p a)

  -- What a throw in the callback leads to, once `done` is kept.
  abbrev pub thrown_after : List A → Exception → {B : Type 0} → Run B
  thrown_after done e = if length done == 0 then throw e else fault

  thrown_after-bind :
      (done : List A) (e : Exception) {B C : Type 0} (next : B → Run C)
      → (thrown_after done e >>= next) ≡ thrown_after done e
  thrown_after-bind done e next = elim (Bool-cases (length done == 0)) [
    | inl nil ↦ rw nil refl
    | inr some_yet ↦ rw some_yet refl
  ]

  module _ (limit : Option ℕ) (keeps : A → Run Bool) (p : A → Bool) (y : A) (e : Exception)
      (throws : keeps y ≡ throw e) (rest : List A) where
    filter_loop_throw :
        (front done : List A) (from b : Block A) (i capacity : ℕ)
        → Answers keeps p front
        → From from i (front ++ y ∷ rest)
        → Keeping done (length (front ++ y ∷ rest)) b capacity
        → (capacity ≢ 0 → 0 < length done)
        → length done + length (front ++ y ∷ rest) < 2 ^ 32
        → filter_loop limit keeps from i (length (front ++ y ∷ rest)) b (length done) capacity
          ≡ thrown_after (done ++ kept p front) e
    unfolding filter_loop
    filter_loop_throw [] done from b i capacity answers v k some_kept small =
        elim (Bool-cases (capacity == 0)) [
          | inl nil ↦
              let none_kept : (length done == 0) ≡ true =
                ground (arith, k.written.fits, k.alloc, ==→eq _ _ nil) in
              rw (From-load from i y rest v, throws, nil, kept-nil p, append-nil, none_kept) refl
          | inr some_yet ↦
              let pos = some_kept (==→ne _ _ some_yet) in
              let not_nil : (length done == 0) ≡ false = ground (arith, pos) in
              rw
                (
                  From-load from i y rest v,
                  throws,
                  some_yet,
                  cleanup-fault done b _ capacity k pos,
                  kept-nil p,
                  append-nil,
                  not_nil,
                )
                refl
        ]
    filter_loop_throw (x ∷ front) done from b i capacity answers v k some_kept small =
        let q = front ++ y ∷ rest in
        elim (Bool-cases (p x)) [
          | inl yes_p ↦
              let ((room, c), known, (k', lt)) =
                Returns-inv (filter_room-Keeping limit done (length q) b capacity k) in
              let wide : u32 (length done + 1) ≡ length (done ++ x ∷ []) =
                omega (arith, length-append done (x ∷ [])) in
              rw
                (
                  kept-yes p x front yes_p,
                  From-load from i x q v,
                  answers 0 x refl,
                  yes_p,
                  known,
                  store-ok room (length done) x (omega (arith, k'.alloc)),
                  wide,
                  ← append_assoc done (x ∷ []) (kept p front),
                )
                (filter_loop_throw front (done ++ x ∷ []) from
                  (record room { cell = update room.cell (length done) x }) (i + 1) c
                  (λ j. answers (suc j)) (From-next from i x q v)
                  (Keeping-store done (length q) room c x k' lt)
                  (λ ne. omega (arith, length-append done (x ∷ [])))
                  (omega (arith, length-append done (x ∷ []))))
          | inr no_p ↦
              rw (kept-no p x front no_p, From-load from i x q v, answers 0 x refl, no_p)
                (filter_loop_throw front done from b (i + 1) capacity (λ j. answers (suc j))
                  (From-next from i x q v) (Keeping-drop done (length q) b capacity k) some_kept
                  (omega arith))
        ]

    -- If the callback of Vector::filter answers on the values before one at which it throws, in a
    -- vector of fewer than 2 ^ 32 values, filter passes the exception on when it has kept none of
    -- them, and otherwise reads a zval that was never written.
    pub filter_with-throw :
        (vector : Entries A) (front : List A)
        → Holds vector (front ++ y ∷ rest)
        → length (front ++ y ∷ rest) < 2 ^ 32
        → Answers keeps p front
        → filter_with limit keeps vector ≡ thrown_after (kept p front) e
    unfolding filter_with
    filter_with-throw vector front h small answers =
        rw
          (
            h.count,
            filter_loop_throw front [] vector.entries no_block 0 0 answers
                (Holds-From vector (front ++ y ∷ rest) h)
                (Keeping-start (length (front ++ y ∷ rest))) (λ ne. absurd (ne refl)) (omega arith),
          )
          (thrown_after-bind (kept p front) e _)
