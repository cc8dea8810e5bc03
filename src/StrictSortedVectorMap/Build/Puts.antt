-- ===== src/StrictSortedVectorMap/Build/Puts.antt =====
-- teds_strictsortedvectormap.c: pairs put into a map one after the other.
use pecl_teds.Base.{
  ℕ, ◌+◌, ◌*◌, ◌<◌, ◌≤◌, ◌≡◌, refl, ap, ◌∙◌, Bool, List, [], ◌∷◌, Option, none, some, length, arith,
  Bool-cases, inl, inr, if◌then◌else◌,
}
use pecl_teds.Run.{Returns, Returns-map}
use pecl_teds.Util.Limit.{Limit}
use pecl_teds.Compare.{Comparison}
use pecl_teds.Deque.Keys.{found}
use pecl_teds.Vector.{Entries}
use pecl_teds.StrictSortedVectorSet.Sorted.{Ascending}
use pecl_teds.StrictSortedVectorSet.Sets.{same, same-compare, Ascending-head, Ascending-tail}
use pecl_teds.StrictSortedVectorMap.{Entry, insert_pair}
use pecl_teds.StrictSortedVectorMap.Search.{by_key}
use pecl_teds.StrictSortedVectorMap.Finds.{
  find, find-level, put, put-Ascending, put-find, length-put_le,
}
use pecl_teds.StrictSortedVectorMap.Listed.{insert_pair-list}
use pecl_teds.StrictSortedVectorMap.History.{Represents}

module _ {A : Type 0} (order : Comparison A) where
  -- The map with one pair more.
  abbrev pub with_pair : A → A → (A → Option A) → A → Option A
  with_pair key value m a = if same order a key then some value else m a

  -- The map with all the pairs, of which a later one takes the place of an earlier one.
  abbrev pub put_all : List (Entry A) → (A → Option A) → A → Option A
  put_all [] m = m
  put_all (x ∷ q) m = put_all q (with_pair x.0 x.1 m)

  -- Of pairs whose keys ascend, each key has the value of its only pair.
  pub put_all-find :
      (q : List (Entry A)) (m : A → Option A)
      → Ascending (by_key order) q
      → (a : A) → put_all q m a ≡ found (find order q a) (m a) some
  put_all-find [] m asc a = refl
  put_all-find (x ∷ q) m asc a =
      let rest = put_all-find q (with_pair x.0 x.1 m) (Ascending-tail (by_key order) x q asc) a in
      elim (Bool-cases (same order a x.0)) [
        | inl yes_x ↦
            let away =
              find-level order a x q (same-compare order a x.0 yes_x)
                (Ascending-head (by_key order) x q asc) in
            rest ∙ rw (away, yes_x) refl
        | inr no_x ↦ rest ∙ rw no_x refl
      ]

  module _ (is_null : A → Bool) where
    pub Represents-cast :
        {array : Entries (Entry A)} {m n : A → Option A}
        → Represents order is_null array m
        → ((a : A) → m a ≡ n a)
        → Represents order is_null array n
    Represents-cast r e = record {
      pairs = r.pairs;
      holds = r.holds;
      ascending = r.ascending;
      complete = λ a. r.complete a ∙ e a;
    }

    -- A map of at most `n` pairs.
    pub record Within (n : ℕ) (array : Entries (Entry A)) (m : A → Option A) : Type 0 where
      pub represents : Represents order is_null array m
      pub most : length represents.pairs ≤ n

    -- A map that holds nothing yet.
    pub Within-none :
        (array : Entries (Entry A))
        → array.size ≡ 0
        → array.entries.alloc ≡ array.capacity
        → Within 0 array (λ a. none)
    Within-none array nil alloc = record {
      represents = record {
        pairs = [];
        holds = record {
          count = nil;
          size_in = omega arith;
          alloc = alloc;
          cells = λ i lt. absurd (omega arith);
        };
        ascending = λ i j a b lt at_i at_j. cc at_i;
        complete = λ a. refl;
      };
      most = omega arith;
    }

    pub insert_pair-Within :
        (half : ℕ) (l : Limit half) (array : Entries (Entry A)) (m : A → Option A) (n : ℕ)
        (key value : A) (probably_largest : Bool)
        → Within n array m
        → n < half
        → Returns
            (λ (r : Entries (Entry A) × Bool). Within (n + 1) r.0 (with_pair key value m))
            (insert_pair order (half * 2) array key value probably_largest)
    insert_pair-Within half l array m n key value probably_largest w small =
        let r = w.represents in
        Returns-map
          (insert_pair-list order array r.pairs key r.holds r.ascending
            (omega (arith, l.ceiling, w.most)) half l value probably_largest
            (omega (arith, w.most)))
          λ got (kept, answered). record {
            represents = record {
              pairs = put order key value r.pairs;
              holds = kept;
              ascending = put-Ascending order key value r.pairs r.ascending;
              complete = λ a.
                  put-find order key value r.pairs a
                  ∙ ap (λ v. if same order a key then some value else v) (r.complete a);
            };
            most = omega (arith, w.most, length-put_le order key value r.pairs);
          }
