-- ===== src/Table/Unique.antt =====
-- An UPDATE of the one row that passes a test.
use claude_discord_agent.Prelude.{
  ◌≤◌, ◌≡◌, refl, Bool, true, false, some, List, [], ◌∷◌, arith, if◌then◌else◌, All, Bool-cases,
  inl, inr, subst, some-injective, sym,
}
use claude_discord_agent.Table.{find, update, count}

module _ {A : Type 0} where
  pub update_of_count_zero :
      (test : A → Bool) (f : A → A) (rs : List A) → count test rs ≡ 0 → update test f rs ≡ rs
  unfolding count update
  update_of_count_zero test f [] h = refl
  update_of_count_zero test f (x ∷ rs) h = ground (arith, update_of_count_zero test f rs)

  -- Where one row passes the test, a property is kept if it is kept at the row that is found.
  pub update_found-All :
      (P : A → Type 0) (test : A → Bool) (f : A → A) (rs : List A) (found : A)
      → find test rs ≡ some found
      → count test rs ≤ 1
      → (P found → P (f found))
      → All P rs
      → All P (update test f rs)
  unfolding find count update
  update_found-All P test f [] found e one keep h = tt
  update_found-All P test f (x ∷ rs) found e one keep h = elim (Bool-cases (test x)) [
    | inl t ↦
        let same : x ≡ found = some-injective x found (rw t at e) in
        let rest : update test f rs ≡ rs = update_of_count_zero test f rs (ground arith) in
        rw (t, rest) (subst (λ y. P (f y)) (sym same) (keep (subst P same h.0)), h.1)
    | inr t ↦ rw t (h.0, update_found-All P test f rs found (rw t at e) (ground arith) keep h.1)
  ]

  -- After an UPDATE whose change makes a test fail, no row passes that test if only rows that are
  -- changed could.
  pub count-update_done :
      (test q : A → Bool) (f : A → A) (rs : List A)
      → ((r : A) → q r ≡ true → test r ≡ true)
      → ((r : A) → test r ≡ true → q (f r) ≡ false)
      → count q (update test f rs) ≡ 0
  unfolding count update
  count-update_done test q f [] narrow done = refl
  count-update_done test q f (x ∷ rs) narrow done =
      ground (arith, narrow x, done x, count-update_done test q f rs narrow done)

  pub count_of_none :
      (test q : A → Bool) (rs : List A)
      → ((r : A) → q r ≡ true → test r ≡ true)
      → count test rs ≡ 0
      → count q rs ≡ 0
  unfolding count
  count_of_none test q [] narrow h = refl
  count_of_none test q (x ∷ rs) narrow h = ground (arith, narrow x, count_of_none test q rs narrow)

  -- A test that narrows one which a single row passes counts that row or none.
  pub count_of_found :
      (test q : A → Bool) (rs : List A) (found : A)
      → ((r : A) → q r ≡ true → test r ≡ true)
      → find test rs ≡ some found
      → count test rs ≤ 1
      → count q rs ≡ (if q found then 1 else 0)
  unfolding find count
  count_of_found test q [] found narrow e one = cc
  count_of_found test q (x ∷ rs) found narrow e one = elim (Bool-cases (test x)) [
    | inl t ↦
        let same : x ≡ found = some-injective x found (rw t at e) in
        let none_left : count q rs ≡ 0 = count_of_none test q rs narrow (ground arith) in
        rw (same, none_left) (omega arith)
    | inr t ↦
        let skipped : q x ≡ false = ground (arith, narrow x) in
        rw skipped (omega (arith, count_of_found test q rs found narrow (rw t at e) (ground arith)))
  ]
