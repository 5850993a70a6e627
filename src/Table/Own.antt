-- ===== src/Table/Own.antt =====
-- The rows of a table, each found by its own key, and the counts after an UPDATE.
use claude_discord_agent.Prelude.{
  ◌++◌, ℕ, ◌≤◌, ◌<◌, ◌≡◌, refl, Bool, true, false, some, List, [], ◌∷◌, arith, ◌==◌, ==_refl, ◌||◌,
  ◌+◌, All, All-map, Bool-cases, inl, inr, some-injective,
}
use claude_discord_agent.Table.{find, count, exists, update}

module _ {A : Type 0} where
  count_of_found_pos : (q : A → Bool) (rs : List A) (r : A) → find q rs ≡ some r → 1 ≤ count q rs
  unfolding find count
  count_of_found_pos q [] r h = cc
  count_of_found_pos q (x ∷ rs) r h = ground (arith, count_of_found_pos q rs r)

  -- An UPDATE after which a changed row passes a test only if it passed it before.
  pub count-update-le :
      (test q : A → Bool) (f : A → A) (rs : List A)
      → ((r : A) → test r ≡ true → q (f r) ≡ true → q r ≡ true)
      → count q (update test f rs) ≤ count q rs
  unfolding count update
  count-update-le test q f [] enters = omega arith
  count-update-le test q f (x ∷ rs) enters =
      ground (arith, enters x, count-update-le test q f rs enters)

  pub count-or :
      (q q' : A → Bool) (rs : List A)
      → (count q rs ≤ count (λ x. q x || q' x) rs)
        × (count (λ x. q x || q' x) rs ≤ count q rs + count q' rs)
  unfolding count
  count-or q q' [] = (omega arith, omega arith)
  count-or q q' (x ∷ rs) =
      let (low, high) = count-or q q' rs in (ground (arith, low), ground (arith, high))

  pub count-update-less :
      (test q : A → Bool) (f : A → A) (rs : List A) (r : A)
      → ((r : A) → q (f r) ≡ false)
      → find test rs ≡ some r
      → q r ≡ true
      → count q (update test f rs) < count q rs
  unfolding find count update
  count-update-less test q f [] r done found passed = cc
  count-update-less test q f (x ∷ rs) r done found passed = elim (Bool-cases (test x)) [
    | inl t ↦
        let same : x ≡ r = some-injective x r (rw t at found) in
        rw (t, same, done r, passed)
          (omega (arith, count-update-le test q f rs (λ z _ h. absurd (ground (arith, h, done z)))))
    | inr t ↦ rw t (omega (arith, count-update-less test q f rs r done (rw t at found) passed))
  ]

module _ {A : Type 0} (key : A → ℕ) where
  abbrev pub FoundIn : List A → A → Type 0
  FoundIn rs r = count (λ x. key x == key r) rs ≤ 1 → find (λ x. key x == key r) rs ≡ some r

  pub own-found : (rs : List A) → All (FoundIn rs) rs
  unfolding find count
  own-found [] = tt
  own-found (y ∷ ys) = (
    λ one. rw (==_refl (key y)) refl,
    All-map (FoundIn ys) (FoundIn (y ∷ ys)) ys later (own-found ys),
  )
    where
      later : (r : A) → FoundIn ys r → FoundIn (y ∷ ys) r
      later r ih one = elim (Bool-cases (key y == key r)) [
        | inl t ↦
            let fewer : count (λ (x : A). key x == key r) ys ≤ 0 = ground (arith, t, one) in
            let pos = count_of_found_pos (λ x. key x == key r) ys r (ih (omega (arith, fewer))) in
            absurd (omega (arith, fewer, pos))
        | inr t ↦
            let same : count (λ (x : A). key x == key r) ys ≤ 1 = ground (arith, t, one) in
            rw t (ih same)
      ]

  -- Every row's key is there.
  pub own-exists : (rs : List A) → All (λ r. exists (λ x. key x == key r) rs ≡ true) rs
  unfolding exists
  own-exists [] = tt
  own-exists (y ∷ ys) = (
    ground (arith, ==_refl (key y)),
    All-map (λ r. exists (λ x. key x == key r) ys ≡ true)
        (λ r. exists (λ x. key x == key r) (y ∷ ys) ≡ true) ys (λ r h. ground (arith, h))
        (own-exists ys),
  )

pub exists_of_found :
    {A : Type 0} (q : A → Bool) (rs : List A) (r : A) → find q rs ≡ some r → exists q rs ≡ true
unfolding find exists
exists_of_found q [] r h = cc
exists_of_found q (x ∷ rs) r h = ground (arith, exists_of_found q rs r)

pub exists-append_one :
    {A : Type 0} (q : A → Bool) (rs : List A) (x : A) → q x ≡ true → exists q (rs ++ x ∷ []) ≡ true
unfolding exists
exists-append_one q [] x h = ground (arith, h)
exists-append_one q (y ∷ rs) x h = ground (arith, exists-append_one q rs x h)
