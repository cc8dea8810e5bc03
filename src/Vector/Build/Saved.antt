-- ===== src/Vector/Build/Saved.antt =====
-- teds_vector.c: what __serialize gives, __unserialize and __set_state take back.
use pecl_teds.Base.{◌^◌, ◌<◌, refl, List, length}
use pecl_teds.Run.{Returns, returns}
use pecl_teds.Vector.{Entries, Holds}
use pecl_teds.Vector.Keys.{to_array}
use pecl_teds.Vector.Keys.Laws.{to_array-list}
use pecl_teds.Vector.Build.{fresh, unserialize, set_state}
use pecl_teds.Vector.Build.Filled.{Exact, listed, unserialize-Exact, init_from_array-Exact}

module _ {A : Type 0} where
  -- For a vector that holds fewer than 2 ^ 32 values, what toArray, which is also __serialize,
  -- gives is taken back by __unserialize on a new object, under keys that are no strings, and by
  -- __set_state: each makes a vector that holds the same values in the same order and has no
  -- capacity to spare.
  pub to_array-unserialize :
      (vector : Entries A) (q : List A)
      → Holds vector q
      → length q < 2 ^ 32
      → Returns
          (λ saved.
            Returns (Exact q) (unserialize fresh (listed saved))
            × Returns (Exact q) (set_state saved))
          (to_array vector)
  unfolding set_state
  to_array-unserialize vector q h small =
      rw (to_array-list vector q h)
        (returns (unserialize-Exact fresh q refl small, init_from_array-Exact fresh q small))
