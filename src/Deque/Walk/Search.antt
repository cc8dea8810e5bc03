-- ===== src/Deque/Walk/Search.antt =====
-- indexOf and contains find the first entry that is identical to the value.
use pecl_teds.Base.{
  ℕ, suc, ◌+◌, ◌<◌, ◌≡◌, refl, ap, ◌∙◌, List, [], ◌∷◌, Option, some, none, length, get_elem?, arith,
  true, false, Bool,
}
use pecl_teds.Run.{ok}
use pecl_teds.Deque.{Deque, Holds}
use pecl_teds.Deque.Reads.{get_entry-ok}
use pecl_teds.Deque.Walk.{search_loop, index_of, contains}

module _ {A : Type 0} (identical : A → A → Bool) (value : A) where
  -- The place of the first value of the list that is identical, counted from `i`.
  unfoldable pub find_index : ℕ → List A → Option ℕ
  find_index i [] = none
  find_index i (x ∷ q) = elim (identical value x) [ true ↦ some i | false ↦ find_index (i + 1) q ]

  search_loop_lem :
      (d : Deque A) (q : List A) (i : ℕ) (r : List A)
      → Holds d q
      → i + length r ≡ length q
      → ((j : ℕ) → j < length r → get_elem? q (i + j) ≡ get_elem? r j)
      → search_loop identical value d i (length r) ≡ ok (find_index i r)
  unfolding search_loop find_index
  search_loop_lem d q i [] h e at = refl
  search_loop_lem d q i (x ∷ r) h e at =
      let front : get_elem? q i ≡ some x = ap (get_elem? q) (omega arith) ∙ at 0 (omega arith) in
      let rest =
        search_loop_lem d q (i + 1) r h (omega arith)
          (λ j lt. ap (get_elem? q) (omega arith) ∙ at (suc j) (omega arith)) in
      rw (get_entry-ok i h (omega arith) front) (ground (arith, rest))

  -- On a deque that holds a list, indexOf gives the offset of the first value of the list that is
  -- identical, or none, and contains says whether there is one.
  pub index_of_lem :
      (d : Deque A) (q : List A)
      → Holds d q
      → (index_of identical value d ≡ ok (find_index 0 q))
        × (contains identical value d ≡ ok (elim (find_index 0 q) [ none ↦ false | some _ ↦ true ]))
  unfolding index_of contains
  index_of_lem d q h =
      let found =
        ap (search_loop identical value d 0) h.count
        ∙ search_loop_lem d q 0 q h (omega arith) (λ j lt. ap (get_elem? q) (omega arith)) in
      (found, rw found refl)
