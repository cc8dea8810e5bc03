-- ===== src/Vector/Store/Single.antt =====
-- teds_vector.c: set, `$vector[] = $value`, and pushFront, whose loop writes downwards.
use mathlib.Core.List.{reverse, reverse_aux}
use pecl_teds.Base.{
  ℕ, ◌+◌, ◌-◌, ◌*◌, ◌<◌, ◌≤◌, ◌≡◌, refl, ◌∙◌, List, [], ◌∷◌, ◌++◌, length, length-append, get_elem?,
  get_elem?-end, get_elem?-append, get_elem?-some, set, length-set, get_elem?-set, arith, ltb, leb,
  leb→le, leb→lt, lt→leb, if◌then◌else◌, ℕ_discrete, Option, suc, subst,
}
use pecl_teds.Machine.{u32}
use pecl_teds.Run.{ok, Returns, returns, Returns-bind, Returns-map, Returns-if}
use pecl_teds.Memory.{Block, update}
use pecl_teds.Memory.Laws.{load-ok, store-ok}
use pecl_teds.Memory.Copy.{Copied, Filled, memcpy_lem}
use pecl_teds.Util.Limit.{Limit}
use pecl_teds.Deque.Add.{adjust_iterators_before_insert}
use pecl_teds.Vector.{Entries, Holds, raise_capacity}
use pecl_teds.Vector.Store.{push_front, push_entry, fill_down, set_value_at_offset}
use pecl_teds.Vector.Store.Laws.{
  Roomy, raise_capacity-Roomy, Roomy-weaken, make_room_lem, Holds-cells, inserted_cells,
}

module _ {A : Type 0} where
  pub length-reverse_aux : (xs ys : List A) → length (reverse_aux xs ys) ≡ length xs + length ys
  length-reverse_aux [] ys = omega arith
  length-reverse_aux (x ∷ xs) ys = omega (arith, length-reverse_aux xs (x ∷ ys))

  -- From `low` on the block holds `done`, and behind it what it held before.
  abbrev Down : (ℕ → Option A) → ℕ → List A → (ℕ → Option A) → Type 0
  Down origin low done cell =
      (j : ℕ)
      → low ≤ j
      → cell j ≡ (if ltb j (low + length done) then get_elem? done (j - low) else origin j)

  Down-store :
      (origin : ℕ → Option A) (low : ℕ) (x : A) (done : List A) (cell : ℕ → Option A)
      → Down origin (suc low) done cell
      → Down origin low (x ∷ done) (update cell low x)
  Down-store origin low x done cell d j le = elim (ℕ_discrete j low) [
    | yes eq ↦ let zeros : j - low ≡ 0 = omega arith in rw zeros (ground arith)
    | no ne ↦ let sucs : j - low ≡ suc (j - suc low) = omega arith in rw sucs (ground (arith, d j))
  ]

  fill_down_lem :
      (args done : List A) (b : Block A) (origin : ℕ → Option A)
      → length args + length done ≤ b.alloc
      → Down origin (length args) done b.cell
      → Returns
          (λ c. (c.alloc ≡ b.alloc) × Down origin 0 (reverse_aux args done) c.cell)
          (fill_down b (length args) args)
  unfolding fill_down
  fill_down_lem [] done b origin fits d = returns (refl, d)
  fill_down_lem (x ∷ args) done b origin fits d =
      let back : suc (length args) - 1 ≡ length args = omega arith in
      rw (back, store-ok b (length args) x (omega arith))
        (fill_down_lem args (x ∷ done) _ origin (omega arith)
          (Down-store origin (length args) x done b.cell d))

  Down-Filled :
      (moved c : Block A) (args : List A)
      → c.alloc ≡ moved.alloc
      → Down moved.cell 0 (reverse args) c.cell
      → Filled moved 0 (reverse args) c
  Down-Filled moved c args same d = record { same_size = same; cells = λ j. ground (arith, d j) }

  Copied-cast :
      {dst src : Block A} {to to' from n n' : ℕ} {b : Block A}
      → to ≡ to'
      → n ≡ n'
      → Copied dst to src from n b
      → Copied dst to' src from n' b
  Copied-cast {dst} {src} {to} {from = from} {n' = n'} {b = b} e e' c =
      subst (λ t. Copied dst t src from n' b) e (subst (λ t. Copied dst to src from t b) e' c)

  -- Vector::pushFront
  pub push_front-Holds :
      (max_size : ℕ) (array : Entries A) (q : List A) (x : A) (args : List A)
      → Limit max_size
      → Holds array q
      → (length q + length (x ∷ args)) * 2 ≤ max_size
      → Returns
          (λ e.
            Holds e (reverse (x ∷ args) ++ q)
            × (e.iterators
                ≡ adjust_iterators_before_insert (length q) 0 (length (x ∷ args)) array.iterators))
          (push_front max_size array (x ∷ args))
  unfolding push_front
  push_front-Holds max_size array q x args l h fits =
      let argc = length (x ∷ args) in
      let back = reverse (x ∷ args) in
      let same : length back ≡ argc = omega (arith, length-reverse_aux (x ∷ args) []) in
      Returns-bind (make_room_lem max_size array q (array.size + argc) l h (omega (arith, h.count)))
        λ e r.
          Returns-bind
            (memcpy_lem array.size e.entries argc e.entries 0
              (omega (arith, r.room, r.holds.alloc, h.count))
              (omega (arith, r.room, r.holds.alloc, h.count)))
            λ moved m.
              Returns-bind
                (fill_down_lem (x ∷ args) [] moved moved.cell
                  (omega (arith, r.room, r.holds.alloc, m.same_size)) (λ j le. ground arith))
                λ filled (alloc, d). returns (
                  Holds-cells e filled (back ++ q) _ _ (alloc ∙ m.same_size ∙ r.holds.alloc)
                      (omega (arith, length-append back q, same, h.count, l.ceiling))
                      (omega (arith, length-append back q, same, h.count, r.room))
                      (inserted_cells 0 back array.size r.holds h.count (omega arith)
                        (Copied-cast (omega (arith, same)) (omega arith) m)
                        (Down-Filled moved filled (x ∷ args) alloc d)),
                  rw h.count refl,
                )

  -- teds_vector_set_value_at_offset
  pub set_value-Holds :
      (array : Entries A) (q : List A) (i : ℕ) (x : A)
      → Holds array q
      → i < length q
      → Returns
          (λ e. Holds e (set q i x) × (e.iterators ≡ array.iterators))
          (set_value_at_offset array i x)
  unfolding set_value_at_offset
  set_value-Holds array q i x h lt =
      let (a, e) = get_elem?-some q i lt in
      rw
        (
          lt→leb array.size i (omega (arith, h.count)),
          load-ok array.entries i (omega (arith, h.count, h.size_in, h.alloc)) (h.cells i lt ∙ e),
          store-ok array.entries i x (omega (arith, h.count, h.size_in, h.alloc)),
        )
        (returns (
          Holds-cells array (record array.entries { cell = update array.entries.cell i x })
              (set q i x) array.size array.iterators h.alloc
              (omega (arith, h.count, length-set q i x))
              (omega (arith, h.count, h.size_in, length-set q i x))
              (λ j ltj. ground (arith, get_elem?-set q i j x, h.cells j, length-set q i x)),
          refl,
        ))

  entry_room :
      (max_size : ℕ) (array : Entries A) (q : List A)
      → Limit max_size
      → Holds array q
      → length q * 2 ≤ max_size
      → Returns (Roomy array q (array.size + 1)) (
          if leb array.capacity array.size
          then raise_capacity max_size array (if ltb 2 array.size then u32 (array.size * 2) else 4)
          else ok array)
  entry_room max_size array q l h fits =
      let c = if ltb 2 array.size then u32 (array.size * 2) else 4 in
      let wide : u32 (array.size * 2) ≡ array.size * 2 = omega (arith, h.count, l.ceiling) in
      Returns-if (leb array.capacity array.size)
        (λ full.
          Returns-map
            (raise_capacity-Roomy max_size array q c h (ground (arith, leb→le _ _ full, wide))
              (ground (arith, l.floor, wide, h.count)))
            (λ e r. Roomy-weaken r (ground (arith, wide))))
        (λ spare.
          returns
            record { holds = h; room = omega (arith, leb→lt _ _ spare); same_iterators = refl })

  -- teds_vector_entries_push
  pub push_entry-Holds :
      (max_size : ℕ) (array : Entries A) (q : List A) (x : A)
      → Limit max_size
      → Holds array q
      → length q * 2 ≤ max_size
      → Returns
          (λ e. Holds e (q ++ x ∷ []) × (e.iterators ≡ array.iterators))
          (push_entry max_size array x)
  unfolding push_entry
  push_entry-Holds max_size array q x l h fits =
      Returns-bind (entry_room max_size array q l h fits) λ e r.
        rw (store-ok e.entries array.size x (omega (arith, r.room, r.holds.alloc))) (
          returns (
            Holds-cells e (record e.entries { cell = update e.entries.cell array.size x })
                (q ++ x ∷ []) _ e.iterators r.holds.alloc
                (omega (arith, length-append q (x ∷ []), h.count, l.ceiling))
                (omega (arith, length-append q (x ∷ []), h.count, r.room))
                (λ i lt. ground (
                  arith,
                  get_elem?-append q (x ∷ []) i,
                  length-append q (x ∷ []),
                  r.holds.cells i,
                  h.count,
                  get_elem?-end q x,
                )),
            r.same_iterators,
          ))
