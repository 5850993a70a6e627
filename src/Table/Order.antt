-- ===== src/Table/Order.antt =====
-- The order of what ORDER BY returns.
use claude_discord_agent.Prelude.{
  ◌≡◌, Bool, true, false, List, [], ◌∷◌, inl, inr, Bool-cases, All, All-map,
}
use claude_discord_agent.Table.{insert_by, sort_by}

module _ {A : Type 0} (le : A → A → Bool) where
  -- No row stands before one that it should follow.
  abbrev pub IsSorted : List A → Type 0
  IsSorted [] = Unit
  IsSorted (x ∷ xs) = All (λ y. le x y ≡ true) xs × IsSorted xs

  insert_by-All :
      (P : A → Type 0) (x : A) (xs : List A) → P x → All P xs → All P (insert_by le x xs)
  unfolding insert_by
  insert_by-All P x [] px h = (px, tt)
  insert_by-All P x (y ∷ ys) px h = elim (Bool-cases (le x y)) [
    | inl t ↦ rw t (px, h)
    | inr t ↦ rw t (h.0, insert_by-All P x ys px h.1)
  ]

  -- What all rows have, all sorted rows have.
  pub sort_by-All : (P : A → Type 0) (xs : List A) → All P xs → All P (sort_by le xs)
  unfolding sort_by
  sort_by-All P [] h = tt
  sort_by-All P (x ∷ xs) h = insert_by-All P x (sort_by le xs) h.0 (sort_by-All P xs h.1)

module _ {A : Type 0} (le : A → A → Bool)
    (le_trans : (a b c : A) → le a b ≡ true → le b c ≡ true → le a c ≡ true)
    (le_total : (a b : A) → le a b ≡ false → le b a ≡ true) where
  insert_by-IsSorted : (x : A) (xs : List A) → IsSorted le xs → IsSorted le (insert_by le x xs)
  unfolding insert_by
  insert_by-IsSorted x [] h = (tt, tt)
  insert_by-IsSorted x (y ∷ ys) h = elim (Bool-cases (le x y)) [
    | inl t ↦
        rw t
          ((t, All-map (λ z. le y z ≡ true) (λ z. le x z ≡ true) ys (λ z. le_trans x y z t) h.0), h)
    | inr t ↦ rw t (
      insert_by-All le (λ z. le y z ≡ true) x ys (le_total x y t) h.0,
      insert_by-IsSorted x ys h.1,
    )
  ]

  -- For a total preorder the sorted rows are in order.
  pub sort_by-IsSorted : (xs : List A) → IsSorted le (sort_by le xs)
  unfolding sort_by
  sort_by-IsSorted [] = tt
  sort_by-IsSorted (x ∷ xs) = insert_by-IsSorted x (sort_by le xs) (sort_by-IsSorted xs)
