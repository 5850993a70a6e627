-- ===== src/Table/Rows.antt =====
-- How SELECT, UPDATE, COUNT and the rest act on one another.
use mathlib.Core.Option
use claude_discord_agent.Prelude.{
  ◌+◌, ◌≡◌, refl, Bool, true, none, some, List, [], ◌∷◌, ◌++◌, arith, if◌then◌else◌, All,
  Bool-cases, inl, inr,
}
use claude_discord_agent.Table.{select, find, update, count, exists}

module _ {A : Type 0} where
  -- What `find` returns passes its test.
  pub find-test : (test : A → Bool) (rs : List A) (r : A) → find test rs ≡ some r → test r ≡ true
  unfolding find
  find-test test [] r h = cc
  find-test test (x ∷ rs) r h = ground (arith, find-test test rs r)

  pub select-All :
      (P : A → Type 0) (test : A → Bool) (rs : List A) → All P rs → All P (select test rs)
  unfolding select
  select-All P test [] h = tt
  select-All P test (x ∷ rs) h = elim (Bool-cases (test x)) [
    | inl t ↦ rw t (h.0, select-All P test rs h.1)
    | inr t ↦ rw t (select-All P test rs h.1)
  ]

  -- Every row that SELECT returns passes its test.
  pub select-test : (test : A → Bool) (rs : List A) → All (λ r. test r ≡ true) (select test rs)
  unfolding select
  select-test test [] = tt
  select-test test (x ∷ rs) = elim (Bool-cases (test x)) [
    | inl t ↦ rw t (t, select-test test rs)
    | inr t ↦ rw t (select-test test rs)
  ]

  -- An UPDATE keeps a property if it does so at each row that it changes.
  pub update-All :
      (P : A → Type 0) (test : A → Bool) (f : A → A) (rs : List A)
      → ((r : A) → test r ≡ true → P r → P (f r))
      → All P rs
      → All P (update test f rs)
  unfolding update
  update-All P test f [] keep h = tt
  update-All P test f (x ∷ rs) keep h = elim (Bool-cases (test x)) [
    | inl t ↦ rw t (keep x t h.0, update-All P test f rs keep h.1)
    | inr t ↦ rw t (h.0, update-All P test f rs keep h.1)
  ]

  -- An UPDATE that does not touch what a test reads does not change what the test finds but for
  -- its own change.
  pub find-update :
      (test q : A → Bool) (f : A → A) (rs : List A)
      → ((r : A) → q (f r) ≡ q r)
      → find q (update test f rs) ≡ Option.map (λ (r : A). if test r then f r else r) (find q rs)
  unfolding find update
  find-update test q f [] keep = refl
  find-update test q f (x ∷ rs) keep = ground (arith, keep x, find-update test q f rs keep)

  pub count-update :
      (test q : A → Bool) (f : A → A) (rs : List A)
      → ((r : A) → q (f r) ≡ q r)
      → count q (update test f rs) ≡ count q rs
  unfolding count update
  count-update test q f [] keep = refl
  count-update test q f (x ∷ rs) keep = ground (arith, keep x, count-update test q f rs keep)

  pub exists-update :
      (test q : A → Bool) (f : A → A) (rs : List A)
      → ((r : A) → q (f r) ≡ q r)
      → exists q (update test f rs) ≡ exists q rs
  unfolding exists update
  exists-update test q f [] keep = refl
  exists-update test q f (x ∷ rs) keep = ground (arith, keep x, exists-update test q f rs keep)

  pub exists-append_left :
      (q : A → Bool) (rs ss : List A) → exists q rs ≡ true → exists q (rs ++ ss) ≡ true
  unfolding exists
  exists-append_left q [] ss h = cc
  exists-append_left q (x ∷ rs) ss h = ground (arith, exists-append_left q rs ss)

  pub find-append :
      (q : A → Bool) (rs : List A) (x : A)
      → find q (rs ++ x ∷ [])
        ≡ elim (find q rs) [ none ↦ if q x then some x else none | some r ↦ some r ]
  unfolding find
  find-append q [] x = ground arith
  find-append q (y ∷ rs) x = ground (arith, find-append q rs x)

  pub count-append_one :
      (q : A → Bool) (rs : List A) (x : A)
      → count q (rs ++ x ∷ []) ≡ count q rs + (if q x then 1 else 0)
  unfolding count
  count-append_one q [] x = ground arith
  count-append_one q (y ∷ rs) x = ground (arith, count-append_one q rs x)
