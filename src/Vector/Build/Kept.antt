-- ===== src/Vector/Build/Kept.antt =====
-- teds_vector.c: filter makes the vector of the kept values.
use mathlib.Core.List.{append-nil, append_assoc}
use pecl_teds.Base.{
  ℕ, suc, ◌+◌, ◌^◌, ◌<◌, ◌≤◌, ◌≡◌, ◌≢◌, refl, sym, Bool, true, false, List, [], ◌∷◌, ◌++◌, Option,
  none, length, length-append, get_elem?, arith, ltb, leb, leb→le, leb→lt, ◌==◌, ==→eq, ==→ne,
  if◌then◌else◌, Bool-cases, inl, inr,
}
use pecl_teds.Machine.{u32}
use pecl_teds.Run.{Run, ok, Returns, returns, Returns-bind, Returns-if}
use pecl_teds.Memory.{Block, no_block, realloc, update}
use pecl_teds.Memory.Laws.{store-ok}
use pecl_teds.Util.Range.{From, From-load, From-next}
use pecl_teds.Vector.{Entries, Holds, empty_list}
use pecl_teds.Vector.Keys.Laws.{Holds-From}
use pecl_teds.Vector.Build.{fresh, filter_room, filter_loop, filter_with}
use pecl_teds.Vector.Build.Filled.{Exact, Exact-new}
use pecl_teds.Vector.Build.Mapped.{Written, Written-store}

module _ {A : Type 0} where
  -- The values that the test holds for, in their order.
  unfoldable pub kept : (A → Bool) → List A → List A
  kept p [] = []
  kept p (x ∷ q) = elim (p x) [ true ↦ x ∷ kept p q | false ↦ kept p q ]

  pub length-kept_le : (p : A → Bool) (q : List A) → length (kept p q) ≤ length q
  unfolding kept
  length-kept_le p [] = omega arith
  length-kept_le p (x ∷ q) = ground (arith, length-kept_le p q)

  pub kept-nil : (p : A → Bool) → kept p [] ≡ []
  unfolding kept
  kept-nil p = refl

  pub kept-yes : (p : A → Bool) (x : A) (q : List A) → p x ≡ true → kept p (x ∷ q) ≡ x ∷ kept p q
  unfolding kept
  kept-yes p x q e = rw (kept, e) refl

  pub kept-no : (p : A → Bool) (x : A) (q : List A) → p x ≡ false → kept p (x ∷ q) ≡ kept p q
  unfolding kept
  kept-no p x q e = rw (kept, e) refl

  -- The loop has kept `done` in a block of `capacity` zvals, and has `left` values to go.
  pub record Keeping (done : List A) (left : ℕ) (b : Block A) (capacity : ℕ) : Type 0 where
    pub written : Written done b
    pub alloc : b.alloc ≡ capacity
    pub room : capacity ≢ 0 → length done + left ≤ capacity
    pub blank : (i : ℕ) → length done ≤ i → b.cell i ≡ none

  pub Keeping-start : (left : ℕ) → Keeping [] left no_block 0
  Keeping-start left = record {
    written = record { fits = omega arith; cells = λ i lt. absurd (omega arith) };
    alloc = refl;
    room = λ ne. absurd (ne refl);
    blank = λ i le. refl;
  }

  pub Keeping-drop :
      (done : List A) (left : ℕ) (b : Block A) (capacity : ℕ)
      → Keeping done (suc left) b capacity
      → Keeping done left b capacity
  Keeping-drop done left b capacity k = record {
    written = k.written;
    alloc = k.alloc;
    room = λ ne. omega (arith, k.room ne);
    blank = k.blank;
  }

  pub Keeping-store :
      (done : List A) (left : ℕ) (b : Block A) (capacity : ℕ) (x : A)
      → Keeping done (suc left) b capacity
      → length done < capacity
      → Keeping (done ++ x ∷ []) left (record b { cell = update b.cell (length done) x }) capacity
  Keeping-store done left b capacity x k lt = record {
    written = Written-store done b x k.written (omega (arith, k.alloc));
    alloc = k.alloc;
    room = λ ne. omega (arith, k.room ne, length-append done (x ∷ []));
    blank = λ i le. ground (arith, k.blank i, length-append done (x ∷ []));
  }

  pub filter_room-Keeping :
      (limit : Option ℕ) (done : List A) (n : ℕ) (b : Block A) (capacity : ℕ)
      → Keeping done (suc n) b capacity
      → Returns
          (λ (r : Block A × ℕ). Keeping done (suc n) r.0 r.1 × (length done < r.1))
          (filter_room limit b (length done) capacity (suc n))
  unfolding filter_room
  filter_room-Keeping limit done n b capacity k =
      Returns-if (leb capacity (length done))
        (λ full.
          Returns-if (capacity == 0)
            (λ nil.
              let empty : length done ≡ 0 = omega (arith, k.written.fits, k.alloc, ==→eq _ _ nil) in
              returns (
                record {
                  written = record { fits = omega arith; cells = λ i lt. absurd (omega arith) };
                  alloc = refl;
                  room = λ ne. ground arith;
                  blank = λ i le. refl;
                },
                ground arith,
              ))
            (λ pos. absurd (omega (arith, leb→le _ _ full, k.room (==→ne _ _ pos)))))
        (λ spare. returns (k, leb→lt _ _ spare))

  module _ (limit : Option ℕ) (keeps : A → Run Bool) where
    module _ (p : A → Bool) (total : (a : A) → keeps a ≡ ok (p a)) where
      filter_loop_lem :
          (q done : List A) (from b : Block A) (i capacity : ℕ)
          → From from i q
          → Keeping done (length q) b capacity
          → length done + length q < 2 ^ 32
          → Returns
              (λ (r : Block A × ℕ × ℕ).
                Keeping (done ++ kept p q) 0 r.0 r.2 × (r.1 ≡ length (done ++ kept p q)))
              (filter_loop limit keeps from i (length q) b (length done) capacity)
      unfolding filter_loop
      filter_loop_lem [] done from b i capacity v k small =
          rw (kept-nil p, append-nil) (returns (k, refl))
      filter_loop_lem (x ∷ q) done from b i capacity v k small = elim (Bool-cases (p x)) [
        | inl yes_p ↦
            rw (kept-yes p x q yes_p, From-load from i x q v, total x, yes_p)
              (Returns-bind (filter_room-Keeping limit done (length q) b capacity k)
                λ (room, c) (k', lt).
                  let wide : u32 (length done + 1) ≡ length (done ++ x ∷ []) =
                    omega (arith, length-append done (x ∷ [])) in
                  rw
                    (
                      store-ok room (length done) x (omega (arith, k'.alloc)),
                      wide,
                      ← append_assoc done (x ∷ []) (kept p q),
                    )
                    (filter_loop_lem q (done ++ x ∷ []) from
                      (record room { cell = update room.cell (length done) x }) (i + 1) c
                      (From-next from i x q v) (Keeping-store done (length q) room c x k' lt)
                      (omega (arith, length-append done (x ∷ [])))))
        | inr no_p ↦
            rw (kept-no p x q no_p, From-load from i x q v, total x, no_p)
              (filter_loop_lem q done from b (i + 1) capacity (From-next from i x q v)
                (Keeping-drop done (length q) b capacity k) (omega arith))
      ]

      Exact-nil : (q : List A) → length q ≡ 0 → Exact q empty_list
      Exact-nil q nil = record {
        holds = record {
          count = sym nil;
          size_in = omega arith;
          alloc = refl;
          cells = λ i lt. absurd (omega arith);
        };
        tight = sym nil;
      }

      kept_cells :
          (q : List A) (b : Block A) (size capacity : ℕ)
          → Keeping q 0 b capacity
          → size ≡ length q
          → ((if ltb size capacity then realloc b size else b).alloc ≡ size)
            × ((i : ℕ)
                → i < length q
                → (if ltb size capacity then realloc b size else b).cell i ≡ get_elem? q i)
      unfolding realloc
      kept_cells q b size capacity k count = (
        ground (arith, k.alloc, k.written.fits),
        λ i lt. ground (arith, k.written.cells i lt, k.alloc, k.written.fits),
      )

      -- Vector::filter on a vector that holds fewer than 2 ^ 32 values, with a test that always
      -- answers, makes a vector that holds the values that the test holds for, in their order,
      -- and has no capacity to spare.
      pub filter_with-Exact :
          (vector : Entries A) (q : List A)
          → Holds vector q
          → length q < 2 ^ 32
          → Returns (Exact (kept p q)) (filter_with limit keeps vector)
      unfolding filter_with
      filter_with-Exact vector q h small = rw h.count (
          Returns-bind
            (filter_loop_lem q [] vector.entries no_block 0 0 (Holds-From vector q h)
              (Keeping-start (length q)) (omega arith))
            λ (b, size, capacity) (k, count). elim (Bool-cases (size == 0)) [
              | inl nil ↦
                  rw nil (returns (Exact-nil (kept p q) (omega (arith, ==→eq _ _ nil, count))))
              | inr some_yet ↦
                  let (alloc, cells) = kept_cells (kept p q) b size capacity k count in
                  rw some_yet
                    (returns (Exact-new fresh (kept p q) _ size false [] count alloc cells))
            ])
