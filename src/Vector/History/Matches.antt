-- ===== src/Vector/History/Matches.antt =====
-- What it means that a call on a vector does what the same call does on the list that it holds.
use pecl_teds.Base.{
  ℕ, zero, suc, ◌≡◌, refl, List, [], ◌∷◌, Option, none, some, length, get_elem?, remove_at, arith,
}
use pecl_teds.Run.{Run, ok, throw, Exception, Returns, returns}
use pecl_teds.Deque.Keys.{found}
use pecl_teds.Vector.{Entries, Holds}
use pecl_teds.Vector.Remove.Laws.{Taken}
use pecl_teds.Vector.History.{Seen, nothing, value, thrown, caught, written}

pub remove_at-nil : {A : Type 0} (i : ℕ) (q : List A) → length q ≡ 0 → remove_at i q ≡ q
remove_at-nil zero [] h = refl
remove_at-nil (suc i) [] h = refl
remove_at-nil i (x ∷ q) h = absurd (omega arith)

module _ {A : Type 0} (max_size : ℕ) where
  -- What the call returns is what it does on a list.
  pub record Matches (want : List A × Seen A) (got : Entries A × Seen A) : Type 0 where
    pub holds : Holds got.0 want.0
    pub same : got.1 ≡ want.1

  pub written-Matches :
      (array : Entries A) {run : Run (Entries A)} {q : List A} {P : Entries A → Type 0}
      → Returns (λ e. Holds e q × P e) run
      → Returns (Matches (q, nothing)) (written array run)
  written-Matches array (returns (h, rest)) = returns record { holds = h; same = refl }

  pub throw-Matches :
      (array : Entries A) (q : List A) (e : Exception)
      → Holds array q
      → Returns (Matches (q, thrown e)) (ok (array, thrown e))
  throw-Matches array q e h = returns record { holds = h; same = refl }

  pub reading-Matches :
      (array : Entries A) (q : List A) (o : Option A) (e : Exception) {run : Run A}
      → Holds array q
      → run ≡ found o (throw e) (λ a. ok a)
      → Returns
          (Matches (q, found o (thrown e) (λ a. value a)))
          (caught array (λ a. (array, value a)) run)
  reading-Matches array q none e h known = rw known (returns record { holds = h; same = refl })
  reading-Matches array q (some a) e h known = rw known (returns record { holds = h; same = refl })

  pub taking-Matches :
      (array : Entries A) (q : List A) (at : ℕ) (e : Exception) {run : Run (Entries A × A)}
      → Returns (Taken array q at) run
      → Returns
          (Matches (remove_at at q, found (get_elem? q at) (thrown e) (λ a. value a)))
          (caught array (λ r. (r.0, value r.1)) run)
  taking-Matches array q at e (returns t) =
      returns record { holds = t.holds; same = ground (arith, t.value) }

  pub dropping-Matches :
      (array : Entries A) (q : List A) (at : ℕ) {run : Run (Entries A × A)}
      → Returns (Taken array q at) run
      → Returns (Matches (remove_at at q, nothing)) (caught array (λ r. (r.0, nothing)) run)
  dropping-Matches array q at (returns t) = returns record { holds = t.holds; same = refl }
