-- ===== src/Vector/Build/Filled.antt =====
-- teds_vector.c: a Vector made of an array, of serialized values or of another Vector holds them.
use mathlib.Core.List.{map}
use pecl_teds.Base.{
  ℕ, suc, ◌+◌, ◌^◌, ◌<◌, ◌≤◌, ◌≡◌, refl, ap, Bool, true, false, List, [], ◌∷◌, length, get_elem?,
  arith, ◌==◌,
}
use pecl_teds.Machine.{u32}
use pecl_teds.Run.{Returns, returns, Returns-bind, Returns-map}
use pecl_teds.Memory.{Block, malloc, fill}
use pecl_teds.Memory.Laws.{store-ok}
use pecl_teds.Memory.Copy.{fill_lem}
use pecl_teds.Util.Range.{From, From-load, From-next}
use pecl_teds.Vector.{Entries, Holds, set_empty_list}
use pecl_teds.Vector.Keys.Laws.{Holds-From}
use pecl_teds.Vector.Build.{
  fresh, init_from_array_values, unserialize_loop, unserialize, copy_range, copy_ctor,
}

module _ {A : Type 0} where
  -- A new block of just the values.
  pub fill_new :
      (xs : List A)
      → length xs < 2 ^ 32
      → Returns
          (λ b. (b.alloc ≡ u32 (length xs)) × ((i : ℕ) → i < length xs → b.cell i ≡ get_elem? xs i))
          (fill (malloc (u32 (length xs))) 0 xs)
  fill_new xs small =
      Returns-map (fill_lem xs (malloc (u32 (length xs))) 0 (omega arith))
        λ b f. (f.same_size, λ i lt. ground (arith, f.cells i))

  -- What is made has its values in order, and no cell more.
  pub record Exact (q : List A) (e : Entries A) : Type 0 where
    pub holds : Holds e q
    pub tight : e.capacity ≡ length q

  pub Exact-new :
      (vector : Entries A) (q : List A) (b : Block A) (n : ℕ) (null : Bool) (iterators : List ℕ)
      → n ≡ length q
      → b.alloc ≡ n
      → ((i : ℕ) → i < length q → b.cell i ≡ get_elem? q i)
      → Exact q (record { null = null; entries = b; size = n; capacity = n; iterators = iterators })
  Exact-new vector q b n null iterators count alloc cells = record {
    holds = record { count = count; size_in = omega arith; alloc = alloc; cells = cells };
    tight = count;
  }

  pub Exact-empty : (vector : Entries A) → Exact [] (set_empty_list vector)
  Exact-empty vector =
      Exact-new vector [] (set_empty_list vector).entries 0 false vector.iterators refl refl
        (λ i lt. absurd (omega arith))

  pub init_from_array-Exact :
      (vector : Entries A) (q : List A)
      → length q < 2 ^ 32
      → Returns (Exact q) (init_from_array_values vector q)
  unfolding init_from_array_values
  init_from_array-Exact vector [] small = returns (Exact-empty vector)
  init_from_array-Exact vector (x ∷ q) small =
      Returns-bind (fill_new (x ∷ q) small) λ b (alloc, cells).
        returns (Exact-new vector (x ∷ q) b _ false vector.iterators (omega arith) alloc cells)

  -- Values whose keys are not strings.
  abbrev pub listed : List A → List (Bool × A)
  listed q = map (λ a. (false, a)) q

  unserialize_loop-fill :
      (q : List A) (entries : Block A) (it : ℕ)
      → it + length q ≤ entries.alloc
      → unserialize_loop entries it (listed q) ≡ fill entries it q
  unfolding unserialize_loop fill
  unserialize_loop-fill [] entries it room = refl
  unserialize_loop-fill (x ∷ q) entries it room =
      rw (store-ok entries it x (omega arith)) (unserialize_loop-fill q _ (it + 1) (omega arith))

  pub length-listed : (q : List A) → length (listed q) ≡ length q
  length-listed [] = refl
  length-listed (x ∷ q) = ap suc (length-listed q)

  pub unserialize-Exact :
      (vector : Entries A) (q : List A)
      → vector.null ≡ true
      → length q < 2 ^ 32
      → Returns (Exact q) (unserialize vector (listed q))
  unfolding unserialize
  unserialize-Exact vector [] new small = rw new (returns (Exact-empty vector))
  unserialize-Exact vector (x ∷ q) new small =
      rw
        (
          new,
          length-listed q,
          unserialize_loop-fill (x ∷ q) (malloc (u32 (length (x ∷ q)))) 0 (omega arith),
        )
        (Returns-bind (fill_new (x ∷ q) small) λ b (alloc, cells).
          returns (Exact-new vector (x ∷ q) b _ false vector.iterators (omega arith) alloc cells))

  pub copy_range-fill :
      (q : List A) (entries : Block A) (to : ℕ) (from : Block A) (begin : ℕ)
      → to + length q ≤ entries.alloc
      → From from begin q
      → copy_range entries to from begin (length q) ≡ fill entries to q
  unfolding copy_range fill
  copy_range-fill [] entries to from begin room f = refl
  copy_range-fill (x ∷ q) entries to from begin room f =
      rw (From-load from begin x q f, store-ok entries to x (omega arith))
        (copy_range-fill q _ (to + 1) from (begin + 1) (omega arith) (From-next from begin x q f))

  pub copy_ctor-Exact :
      (from : Entries A) (q : List A)
      → Holds from q
      → length q < 2 ^ 32
      → Returns (Exact q) (copy_ctor from)
  unfolding copy_ctor
  copy_ctor-Exact from [] h small = rw h.count (returns (Exact-empty fresh))
  copy_ctor-Exact from (x ∷ q) h small =
      let narrow : u32 (length (x ∷ q)) ≡ length (x ∷ q) = omega arith in
      let some_yet : (length (x ∷ q) == 0) ≡ false = ground arith in
      rw
        (
          h.count,
          some_yet,
          copy_range-fill (x ∷ q) (malloc (length (x ∷ q))) 0 from.entries 0 (omega arith)
              (Holds-From from (x ∷ q) h),
          ← narrow,
        )
        (Returns-bind (fill_new (x ∷ q) small) λ b (alloc, cells).
          returns (Exact-new fresh (x ∷ q) b _ false [] (omega arith) alloc cells))
