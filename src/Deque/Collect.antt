-- ===== src/Deque/Collect.antt =====
-- teds_deque.c: what the deque gives to the garbage collector of the engine.
use native.Mathlib.Nat.{mod-eq_of_lt}
use pecl_teds.Base.{
  ℕ, zero, suc, ◌+◌, ◌-◌, ◌%◌, ◌^◌, ◌<◌, ◌≤◌, ◌≡◌, refl, sym, ap, ◌∙◌, true, List, [], ◌∷◌, ◌++◌,
  Option, none, some, length, get_elem?, take, length-take, get_elem?-take, replicate, arith, leb,
  leb→le, leb→lt, lt→ltb, ◌==◌, ==→eq, Bool-cases, inl, inr, if◌then◌else◌,
}
use pecl_teds.Machine.{u32}
use pecl_teds.Run.{Run, ok, fault, ◌>>=◌}
use pecl_teds.Memory.{Block, load}
use pecl_teds.Util.Range.{From, From-load, From-next}
use pecl_teds.Deque.{Deque, get_capacity, Holds}
use pecl_teds.Deque.Keys.{found}

module _ {A : Type 0} where
  -- `n` zvals from the cell `i` on.
  unfoldable pub read_cells : Block A → ℕ → ℕ → Run (List A)
  read_cells b i zero = ok []
  read_cells b i (suc n) = load b i >>= λ a. read_cells b (i + 1) n >>= λ rest. ok (a ∷ rest)

  -- The second loop of teds_deque_get_gc: its `len` rounds all add the zval at `len`.
  unfoldable pub add_wrapped : Block A → ℕ → ℕ → Run (List A)
  add_wrapped b len zero = ok []
  add_wrapped b len (suc n) = load b len >>= λ a. add_wrapped b len n >>= λ rest. ok (a ∷ rest)

  -- teds_deque_get_gc: the zvals that the collector is given.
  unfoldable pub get_gc : Deque A → Run (List A)
  get_gc d =
      let capacity = u32 (d.mask + 1) in
      let len = u32 (d.offset + d.size + 2 ^ 32 - capacity) in
      if d.mask == 0
      then ok []
      else if leb d.size (capacity - d.offset)
      then read_cells d.buffer d.offset d.size
      else (read_cells d.buffer d.offset (capacity - d.offset) >>= λ front.
          add_wrapped d.buffer len len >>= λ wrapped. ok (front ++ wrapped))

  -- The zval that stands at `len`: of a full deque its first value, and else what a cell holds that
  -- is none of its entries.
  abbrev pub stray : Deque A → List A → Option A
  stray d q =
      if length q == d.mask + 1
      then get_elem? q 0
      else d.buffer.cell (d.offset + length q - (d.mask + 1))

  -- What the collector is given of a deque that holds the list.
  abbrev pub gc_gives : Deque A → List A → Run (List A)
  gc_gives d q =
      let front = d.mask + 1 - d.offset in
      if leb (length q) front
      then ok q
      else found (stray d q) fault (λ a. ok (take front q ++ replicate (length q - front) a))

  read_cells-From :
      (b : Block A) (q : List A) (i : ℕ) → From b i q → read_cells b i (length q) ≡ ok q
  unfolding read_cells
  read_cells-From b [] i f = refl
  read_cells-From b (x ∷ q) i f =
      rw (From-load b i x q f, read_cells-From b q (i + 1) (From-next b i x q f)) refl

  add_wrapped-found :
      (b : Block A) (len n : ℕ)
      → len < b.alloc
      → 0 < n
      → add_wrapped b len n ≡ found (b.cell len) fault (λ a. ok (replicate n a))
  unfolding add_wrapped load
  add_wrapped-found b len zero inside pos = absurd (omega arith)
  add_wrapped-found b len (suc n) inside pos = by_cell (b.cell len) refl
    where
      all_rounds :
          (a : A) → b.cell len ≡ some a → (k : ℕ) → add_wrapped b len k ≡ ok (replicate k a)
      all_rounds a e zero = refl
      all_rounds a e (suc k) = rw (lt→ltb len b.alloc inside, e, all_rounds a e k) refl

      by_cell :
          (v : Option A)
          → b.cell len ≡ v
          → add_wrapped b len (suc n) ≡ found v fault (λ a. ok (replicate (suc n) a))
      by_cell none e = rw (lt→ltb len b.alloc inside, e) refl
      by_cell (some a) e = all_rounds a e (suc n)

  front-From :
      (d : Deque A) (q : List A) (n : ℕ)
      → Holds d q
      → n ≤ length q
      → d.offset + n ≤ d.mask + 1
      → d.mask + 1 ≤ d.buffer.alloc
      → From d.buffer d.offset (take n q)
  front-From d q n h le room full j lt =
      let inside : j < n = omega (arith, length-take n q le) in
      let straight : (d.offset + j) % (d.mask + 1) ≡ d.offset + j = mod-eq_of_lt (omega arith) in
      (
        omega arith,
        ap d.buffer.cell (sym straight)
            ∙ h.cells j (omega arith)
            ∙ sym (ground (arith, get_elem?-take n q j)),
      )

  -- The wrapped case, once the machine arithmetic is done.
  wrapped-gives :
      (d : Deque A) (q : List A)
      → Holds d q
      → d.mask + 1 - d.offset < length q
      → length q ≤ d.mask + 1
      → d.mask + 1 ≤ d.buffer.alloc
      → (read_cells d.buffer d.offset (d.mask + 1 - d.offset) >>= λ front.
          add_wrapped d.buffer
            (d.offset + length q - (d.mask + 1))
            (d.offset + length q - (d.mask + 1))
          >>= λ wrapped. ok (front ++ wrapped))
        ≡ found (stray d q) fault (λ a.
          ok (take (d.mask + 1 - d.offset) q ++ replicate (length q - (d.mask + 1 - d.offset)) a))
  wrapped-gives d q h more fits full =
      let n = d.mask + 1 - d.offset in
      let len = d.offset + length q - (d.mask + 1) in
      let rounds : len ≡ length q - n = omega (arith, h.valid.offset_in) in
      let fronts : read_cells d.buffer d.offset n ≡ ok (take n q) =
        ap (read_cells d.buffer d.offset) (sym (length-take n q (omega arith)))
        ∙ read_cells-From d.buffer (take n q) d.offset
            (front-From d q n h (omega arith) (omega (arith, h.valid.offset_in)) full) in
      let wraps : add_wrapped d.buffer len len
          ≡ found (stray d q) fault (λ a. ok (replicate (length q - n) a)) =
        add_wrapped-found d.buffer len len (omega (arith, h.valid.offset_in))
          (omega (arith, h.valid.offset_in))
        ∙ ap (λ v. found v fault (λ a. ok (replicate len a))) (stray-cell d q h more fits)
        ∙ ap (λ k. found (stray d q) fault (λ a. ok (replicate k a))) rounds in
      rw (fronts, wraps) (append_front (take n q) (length q - n) (stray d q))
    where
      append_front :
          (front : List A) (n : ℕ) (v : Option A)
          → (found v fault (λ a. ok (replicate n a)) >>= λ wrapped. ok (front ++ wrapped))
            ≡ found v fault (λ a. ok (front ++ replicate n a))
      append_front front n none = refl
      append_front front n (some a) = refl

      stray-cell :
          (d : Deque A) (q : List A)
          → Holds d q
          → d.mask + 1 - d.offset < length q
          → length q ≤ d.mask + 1
          → d.buffer.cell (d.offset + length q - (d.mask + 1)) ≡ stray d q
      stray-cell d q h more fits = elim (Bool-cases (length q == d.mask + 1)) [
        | inl whole ↦
            let all = ==→eq _ _ whole in
            let at : d.offset + length q - (d.mask + 1) ≡ (d.offset + 0) % (d.mask + 1) = sym (
              mod-eq_of_lt {n = d.offset + 0} {m = d.mask + 1} (omega (arith, h.valid.offset_in))
              ∙ omega arith) in
            rw whole (ap d.buffer.cell at ∙ h.cells 0 (omega (arith, h.valid.offset_in)))
        | inr part ↦ rw part refl
      ]

  -- For a consistent deque that holds a list, teds_deque_get_gc gives the collector the values of
  -- the list if they do not wrap to the start of the buffer. If they do, it gives those before
  -- the end of the buffer, and then, as many times as there are wrapped values, one and the same
  -- zval: the first value of the list if the deque is full, and else what the cell behind the
  -- wrapped values holds, and it faults if that cell was never written.
  pub get_gc-gives : (d : Deque A) (q : List A) → Holds d q → get_gc d ≡ gc_gives d q
  unfolding get_gc get_capacity
  get_gc-gives d q h = elim (Bool-cases (d.mask == 0)) [
    | inl flat ↦
        let nil : length q ≡ 0 = ground (arith, h.valid.size_in, h.count, flat) in
        let low : leb 0 (d.mask + 1 - d.offset) ≡ true = ground arith in
        rw (flat, nil, low) (ap ok (only_nil q nil))
    | inr turning ↦
        let v = h.valid in
        let wide : u32 (d.mask + 1) ≡ d.mask + 1 = omega (arith, v.bounded) in
        let fits : length q ≤ d.mask + 1 = ground (arith, v.size_in, h.count, turning, wide) in
        let full : d.mask + 1 ≤ d.buffer.alloc = ground (arith, v.alloc_in, turning, wide) in
        rw (turning, wide, h.count)
          (elim (Bool-cases (leb (length q) (d.mask + 1 - d.offset))) [
            | inl straight ↦
                let le = leb→le _ _ straight in
                rw straight (
                  read_cells-From d.buffer q d.offset (λ j lt.
                    let here : (d.offset + j) % (d.mask + 1) ≡ d.offset + j =
                      mod-eq_of_lt (omega (arith, v.offset_in)) in
                    (omega (arith, v.offset_in), ap d.buffer.cell (sym here) ∙ h.cells j lt)))
            | inr over ↦
                let more = leb→lt _ _ over in
                let len : u32 (d.offset + length q + 2 ^ 32 - (d.mask + 1))
                    ≡ d.offset + length q - (d.mask + 1) =
                  omega (arith, v.offset_in, v.bounded) in
                rw (over, len) (wrapped-gives d q h more fits full)
          ])
  ]
    where
      only_nil : (q : List A) → length q ≡ 0 → [] ≡ q
      only_nil [] e = refl
      only_nil (x ∷ q) e = absurd (omega arith)
