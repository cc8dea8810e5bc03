-- ===== src/Memory/Laws.antt =====
-- When an access succeeds, and what it leaves behind.
use pecl_teds.Base.{ℕ, ◌<◌, ◌≤◌, ◌≡◌, some, lt→ltb, le→ltb}
use pecl_teds.Run.{ok, fault}
use pecl_teds.Memory.{Block, load, store, copy_cell, update}

module _ {A : Type 0} where
  pub load-ok : (b : Block A) (i : ℕ) {a : A} → i < b.alloc → b.cell i ≡ some a → load b i ≡ ok a
  unfolding load
  load-ok b i h e = rw (lt→ltb i b.alloc h, e)

  pub store-ok :
      (b : Block A) (i : ℕ) (a : A)
      → i < b.alloc
      → store b i a ≡ ok (record b { cell = update b.cell i a })
  unfolding store
  store-ok b i a h = rw (lt→ltb i b.alloc h)

  pub copy_cell-ok :
      (b : Block A) (to from : ℕ) {a : A}
      → to < b.alloc
      → from < b.alloc
      → b.cell from ≡ some a
      → copy_cell b to from ≡ ok (record b { cell = update b.cell to a })
  unfolding copy_cell
  copy_cell-ok b to from {a} ht hf e = rw (load-ok b from hf e, store-ok b to a ht)

  -- A store behind the end of the block is a fault.
  pub store-fault : (b : Block A) (i : ℕ) (a : A) → b.alloc ≤ i → store b i a ≡ fault
  unfolding store
  store-fault b i a h = rw (le→ltb i b.alloc h)
