-- ===== src/StrictHeap/Made.antt =====
-- What __construct, __unserialize, __set_state and clone make of their values.
use mathlib.Core.List.{map}
use pecl_teds.Base.{
  ℕ, zero, suc, ◌+◌, ◌<◌, ◌≤◌, ◌≡◌, refl, sym, ap, subst, ◌∙◌, Bool, true, false, List, [], ◌∷◌,
  Option, some, length, get_elem?-some, arith, ◌==◌,
}
use pecl_teds.Run.{throw, runtime, Returns, returns, Returns-map, Returns-bind, Returns-step, ◌>>=◌}
use pecl_teds.Memory.{Block, malloc, update}
use pecl_teds.Memory.Laws.{load-ok, store-ok}
use pecl_teds.Util.{deque_next_pow2_capacity}
use pecl_teds.Util.Limit.{Limit}
use pecl_teds.Iterable.{Iterable, values}
use pecl_teds.Vector.{Entries, Holds}
use pecl_teds.StrictHeap.{Comparison, insert, add_all}
use pecl_teds.StrictHeap.SiftUp.{half}
use pecl_teds.StrictHeap.Insert.{Added}
use pecl_teds.StrictHeap.AddAll.{add_all-Added, init_from_array-Added}
use pecl_teds.StrictHeap.Build.{
  init_from_array, init_from_traversable, construct, unserialize_loop, unserialize, set_state,
  copy_range, copy_ctor,
}

module _ {A : Type 0} where
  -- The `n` zvals from `begin` on, at `to` and behind it.
  record CopiedRange (entries : Block A) (to : ℕ) (from : Block A) (begin n : ℕ) (copied : Block A)
      : Type 0 where
    alloc : copied.alloc ≡ entries.alloc
    before : (j : ℕ) → j < to → copied.cell j ≡ entries.cell j
    cells : (j : ℕ) → j < n → copied.cell (to + j) ≡ from.cell (begin + j)

  copy_range_lem :
      (n : ℕ) (entries : Block A) (to : ℕ) (from : Block A) (begin : ℕ)
      → to + n ≤ entries.alloc
      → begin + n ≤ from.alloc
      → ((j : ℕ) → j < n → (a : A) × (from.cell (begin + j) ≡ some a))
      → Returns (CopiedRange entries to from begin n) (copy_range entries to from begin n)
  unfolding copy_range
  copy_range_lem zero entries to from begin room there full =
      returns (record { alloc = refl; before = λ j lt. refl; cells = λ j lt. absurd (omega arith) })
  copy_range_lem (suc n) entries to from begin room there full =
      let (a, e) = full 0 (omega arith) in
      let here : from.cell begin ≡ some a = ap from.cell (omega arith) ∙ e in
      Returns-step _ (load-ok from begin (omega arith) here) (
        Returns-step _ (store-ok entries to a (omega arith)) (
          Returns-map
            (copy_range_lem n _ (to + 1) from (begin + 1) (omega arith) (omega arith) (λ j lt.
              let (x, ex) = full (suc j) (omega arith) in (x, ap from.cell (omega arith) ∙ ex)))
            λ copied c. record {
              alloc = c.alloc;
              before = λ j lt. ground (arith, c.before j);
              cells = λ j lt. copied_at entries to from begin n copied a j lt c here;
            }))
    where
      copied_at :
          (entries : Block A) (to : ℕ) (from : Block A) (begin n : ℕ) (copied : Block A) (a : A)
          (j : ℕ)
          → j < suc n
          → CopiedRange
              (record entries { cell = update entries.cell to a })
              (to + 1)
              from
              (begin + 1)
              n
              copied
          → from.cell begin ≡ some a
          → copied.cell (to + j) ≡ from.cell (begin + j)
      copied_at entries to from begin n copied a zero lt c here =
          let kept : copied.cell to ≡ some a = ground (arith, c.before to) in
          ap copied.cell (omega arith) ∙ kept ∙ sym here ∙ ap from.cell (omega arith)
      copied_at entries to from begin n copied a (suc j) lt c here =
          ap copied.cell (omega arith) ∙ c.cells j (omega arith) ∙ ap from.cell (omega arith)

  -- A clone of a heap has the same entries in the same places, in a block of the capacity that it
  -- promises.
  pub copy_ctor-Holds :
      (heap : Entries A) (q : List A) → Holds heap q → Returns (λ e. Holds e q) (copy_ctor heap)
  unfolding copy_ctor
  copy_ctor-Holds heap [] h =
      let bare : (heap.size == 0) ≡ true = ground (arith, h.count) in
      rw bare (
        returns (record {
          count = refl;
          size_in = omega arith;
          alloc = refl;
          cells = λ i lt. absurd (omega arith);
        }))
  copy_ctor-Holds heap (x ∷ q) h =
      let filled : (heap.size == 0) ≡ false = ground (arith, h.count) in
      rw filled (
        Returns-bind
          (copy_range_lem heap.size (malloc heap.capacity) 0 heap.entries 0
            (omega (arith, h.size_in)) (omega (arith, h.alloc, h.size_in))
            (λ j lt.
              let (a, e) = get_elem?-some (x ∷ q) j (omega (arith, h.count)) in
              (a, ap heap.entries.cell (omega arith) ∙ h.cells j (omega (arith, h.count)) ∙ e)))
          λ copied c. returns (record {
            count = h.count;
            size_in = h.size_in;
            alloc = c.alloc;
            cells = λ i lt.
                ap copied.cell (omega arith)
                ∙ c.cells i (omega (arith, h.count))
                ∙ ap heap.entries.cell (omega arith)
                ∙ h.cells i lt;
          }))

module _ {A : Type 0} (order : Comparison A) (max_size : ℕ) where
  -- An object that has its entries is not made a second time.
  pub construct-runtime :
      (is_min_heap : Bool) (heap : Entries A) (iterable : Option (Iterable A))
      (raw_data : List (Bool × A))
      → heap.null ≡ false
      → (construct order max_size is_min_heap heap iterable ≡ throw runtime)
        × (unserialize order max_size is_min_heap heap raw_data ≡ throw runtime)
  unfolding construct unserialize
  construct-runtime is_min_heap heap iterable raw_data e = (rw e refl, rw e refl)

  -- Without a string key, the loop of __unserialize adds each value.
  unserialize_loop-add_all :
      (is_min_heap : Bool) (xs : List A) (heap : Entries A)
      → unserialize_loop order max_size is_min_heap heap (map (λ x. (false, x)) xs)
        ≡ add_all order is_min_heap max_size heap xs
  unfolding unserialize_loop add_all
  unserialize_loop-add_all is_min_heap [] heap = refl
  unserialize_loop-add_all is_min_heap (x ∷ xs) heap = λ i.
      insert order is_min_heap max_size heap x >>= λ grown.
      unserialize_loop-add_all is_min_heap xs grown i

  module _ (l : Limit max_size) where
    -- __set_state of either class, with values within the limit, makes a StrictMinHeap whose
    -- entries are the values rearranged.
    pub set_state-Added :
        (is_min_heap : Bool) (xs : List A)
        → length xs ≤ max_size
        → Returns
            (λ (r : Bool × Entries A). (r.0 ≡ true) × Added order true half [] xs (r.1))
            (set_state order max_size is_min_heap xs)
    unfolding set_state
    set_state-Added is_min_heap xs fits =
        Returns-bind (init_from_array-Added order true max_size l xs fits) λ e a. returns (refl, a)

    pub init_from_traversable-Added :
        (is_min_heap : Bool) (xs : List A)
        → length xs ≤ max_size
        → Returns
            (Added order is_min_heap half [] xs)
            (init_from_traversable order max_size is_min_heap (values xs))
    unfolding init_from_traversable
    init_from_traversable-Added is_min_heap xs fits =
        add_all-Added order is_min_heap max_size l _ [] xs
          (record {
            count = refl;
            size_in = omega arith;
            alloc = refl;
            cells = λ i lt. absurd (omega arith);
          })
          (omega arith)

    -- __unserialize on a new heap, with values within the limit whose keys are not strings,
    -- returns a heap whose entries are the values rearranged, in the order that insert keeps.
    pub unserialize-Added :
        (is_min_heap : Bool) (heap : Entries A) (xs : List A)
        → heap.null ≡ true
        → length xs ≤ max_size
        → Returns
            (Added order is_min_heap half [] xs)
            (unserialize order max_size is_min_heap heap (map (λ x. (false, x)) xs))
    unfolding unserialize init_from_array
    unserialize-Added is_min_heap heap [] e fits =
        rw e (init_from_array-Added order is_min_heap max_size l [] fits)
    unserialize-Added is_min_heap heap (x ∷ xs) e fits =
        let tagged : List (Bool × A) = map (λ y. (false, y)) (x ∷ xs) in
        let c = deque_next_pow2_capacity (length tagged) in
        let start : Entries A = record {
          null = false;
          entries = malloc c;
          size = 0;
          capacity = c;
          iterators = [];
        } in
        rw e (
          subst (Returns (Added order is_min_heap half [] (x ∷ xs)))
            (sym (unserialize_loop-add_all is_min_heap (x ∷ xs) start))
            (add_all-Added order is_min_heap max_size l start [] (x ∷ xs)
              (record {
                count = refl;
                size_in = omega arith;
                alloc = refl;
                cells = λ i lt. absurd (omega arith);
              })
              (omega arith)))
