-- ===== src/Table/Delete.antt =====
-- What DELETE leaves in a table.
use claude_discord_agent.Prelude.{
  ◌≡◌, Bool, true, false, not, List, [], ◌∷◌, arith, All, All-map, Bool-cases, inl, inr,
}
use claude_discord_agent.Table.{exists, delete}
use claude_discord_agent.Table.Rows.{select-All}

module _ {A : Type 0} where
  pub delete-All :
      (P : A → Type 0) (test : A → Bool) (rs : List A) → All P rs → All P (delete test rs)
  unfolding delete
  delete-All P test rs h = select-All P (λ r. not (test r)) rs h

  -- A row that is there, and that the test does not hit, stays there.
  pub exists-delete :
      (q test : A → Bool) (rs : List A)
      → All (λ r. q r ≡ true → test r ≡ false) rs
      → exists q rs ≡ true
      → exists q (delete test rs) ≡ true
  unfolding exists delete
  exists-delete q test [] miss h = cc
  exists-delete q test (x ∷ rs) miss h = elim (Bool-cases (test x)) [
    | inl t ↦
        let absent : q x ≡ false = ground (arith, miss.0) in
        rw t (exists-delete q test rs miss.1 (rw absent at h))
    | inr t ↦ elim (Bool-cases (q x)) [
      | inl p ↦ rw (t, p)
      | inr p ↦ rw (t, p) (exists-delete q test rs miss.1 (rw p at h))
    ]
  ]

  pub All-of_not-exists :
      (q : A → Bool) (rs : List A) → exists q rs ≡ false → All (λ r. q r ≡ false) rs
  unfolding exists
  All-of_not-exists q [] h = tt
  All-of_not-exists q (x ∷ rs) h = elim (Bool-cases (q x)) [
    | inl p ↦ absurd (cc (rw p at h))
    | inr p ↦ (p, All-of_not-exists q rs (rw p at h))
  ]

  -- Every row is there.
  pub All-exists : (rs : List A) → All (λ x. (q : A → Bool) → q x ≡ true → exists q rs ≡ true) rs
  unfolding exists
  All-exists [] = tt
  All-exists (x ∷ rs) = (
    λ q p. rw p,
    All-map (λ y. (q : A → Bool) → q y ≡ true → exists q rs ≡ true)
        (λ y. (q : A → Bool) → q y ≡ true → exists q (x ∷ rs) ≡ true) rs
        (λ y h q p. ground (arith, h q p)) (All-exists rs),
  )
