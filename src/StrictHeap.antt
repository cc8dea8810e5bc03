-- ===== src/StrictHeap.antt =====
-- teds_strictheap.c: Teds\StrictMinHeap and Teds\StrictMaxHeap, over the comparison that
-- teds_stable_compare gives.
pub mod Order
pub mod Sift
pub mod Sink
pub mod SiftUp
pub mod Insert
pub mod Children
pub mod Remove
pub mod Extract
pub mod Build
pub mod AddAll
pub mod Made
pub mod Drain
mod Tests
use pecl_teds.Base.{
  ℕ, zero, suc, ◌+◌, ◌-◌, ◌*◌, ◌/◌, ◌≡◌, Bool, true, false, List, [], ◌∷◌, length, ltb, leb, ◌==◌,
  if◌then◌else◌,
}
pub use pecl_teds.Compare.{Sign, negative, null, positive, opposite, Comparison}
use pecl_teds.Machine.{u32}
use pecl_teds.Run.{Run, ok, throw, out_of_fuel, underflow, ◌>>=◌}
use pecl_teds.Memory.{Block, malloc, load, store, copy_cell}
use pecl_teds.Util.{deque_next_pow2_capacity}
use pecl_teds.Vector.{Entries, empty_list, raise_capacity}

module _ {A : Type 0} (order : Comparison A) (is_min_heap : Bool) where
  -- teds_strictheap_should_be_above
  unfoldable pub should_be_above : A → A → Bool
  should_be_above a b =
      if is_min_heap
      then (elim (order.stable_compare a b) [ negative ↦ true | null ↦ false | positive ↦ false ])
      else (elim (order.stable_compare a b) [ negative ↦ false | null ↦ false | positive ↦ true ])

  -- The loop of teds_strictheap_entries_insert: the entries, and the place for the key.
  unfoldable pub sift_up : ℕ → Block A → A → ℕ → Run (Block A × ℕ)
  sift_up zero entries key offset = out_of_fuel
  sift_up (suc fuel) entries key offset = elim (ltb 0 offset) [
    | false ↦ ok (entries, offset)
    | true ↦ load entries (offset / 2) >>= λ above. elim (should_be_above key above) [
      | false ↦ ok (entries, offset)
      | true ↦ store entries offset above >>= λ moved. sift_up fuel moved key (offset / 2)
    ]
  ]

  -- The child of `offset` that should be above the other, where both are there.
  unfoldable pub upper_child : Block A → ℕ → ℕ → Run ℕ
  upper_child entries len new_offset = elim (ltb (new_offset + 1) len) [
    | false ↦ ok new_offset
    | true ↦ load entries (new_offset + 1) >>= λ right. load entries new_offset >>= λ left.
        ok (if should_be_above right left then new_offset + 1 else new_offset)
  ]

  -- The loop of teds_strictheap_entries_remove_top: the entries, and the place for the replacement,
  -- which stands at `len`.
  unfoldable pub sift_down : ℕ → Block A → ℕ → ℕ → Run (Block A × ℕ)
  sift_down zero entries len offset = out_of_fuel
  sift_down (suc fuel) entries len offset = elim (leb len (u32 (offset * 2 + 1))) [
    | true ↦ ok (entries, offset)
    | false ↦ upper_child entries len (u32 (offset * 2 + 1)) >>= λ new_offset.
        load entries new_offset >>= λ new_entry. load entries len >>= λ replacement.
        elim (should_be_above new_entry replacement) [
          | false ↦ ok (entries, offset)
          | true ↦ store entries offset new_entry >>= λ moved. sift_down fuel moved len new_offset
        ]
  ]

  -- teds_strictheap_entries_remove_top
  unfoldable pub remove_top : Entries A → Run (Entries A)
  remove_top array =
      let len = array.size - 1 in
      sift_down (len + 1) array.entries len 0 >>= λ (entries, offset).
      copy_cell entries offset len >>= λ stored. ok (record array { entries = stored; size = len })

  -- StrictMinHeap::extract and StrictMaxHeap::extract
  unfoldable pub extract : Entries A → Run (A × Entries A)
  extract array =
      if array.size == 0
      then throw underflow
      else (load array.entries 0 >>= λ top. remove_top array >>= λ rest. ok (top, rest))

  -- StrictMinHeap::next and StrictMaxHeap::next
  unfoldable pub next : Entries A → Run (Entries A)
  next array =
      if array.size == 0
      then throw underflow
      else (load array.entries 0 >>= λ top. remove_top array)

  module _ (max_size : ℕ) where
    -- teds_strictheap_entries_insert
    unfoldable pub insert : Entries A → A → Run (Entries A)
    insert array key =
        (if leb array.capacity array.size
          then raise_capacity max_size array (deque_next_pow2_capacity (array.size + 1))
          else ok array)
        >>= λ grown. sift_up (grown.size + 1) grown.entries key grown.size >>= λ (entries, offset).
            store entries offset key >>= λ stored.
            ok (record grown { entries = stored; size = u32 (grown.size + 1) })

    -- The calls of teds_strictheap_entries_insert in the loops below, and StrictMinHeap::add.
    unfoldable pub add_all : Entries A → List A → Run (Entries A)
    add_all array [] = ok array
    add_all array (x ∷ xs) = insert array x >>= λ grown. add_all grown xs
