-- ===== src/Table.antt =====
-- What the SQL statements of lib/db.py do to the rows of one table: SELECT, UPDATE, DELETE, COUNT,
-- ORDER BY. Rows stand in the order in which they were inserted.
pub mod Rows
pub mod Order
pub mod Keys
pub mod Delete
pub mod Unique
pub mod Own
use claude_discord_agent.Prelude.{
  ℕ, ◌+◌, Bool, true, false, ◌||◌, not, Option, none, some, List, [], ◌∷◌, ◌++◌, ◌==◌,
  if◌then◌else◌,
}

-- The rows, and the next value of the AUTOINCREMENT key, which is never given twice.
pub record Table (A : Type 0) : Type 0 where
  pub rows : List A
  pub next_id : ℕ

abbrev pub empty : {A : Type 0} → Table A
empty = record { rows = []; next_id = 1 }

-- INSERT of the row that `make` builds from its new key; the key is `lastrowid`.
abbrev pub insert_row : {A : Type 0} → (ℕ → A) → Table A → ℕ × Table A
insert_row make t =
    (t.next_id, record { rows = t.rows ++ make t.next_id ∷ []; next_id = t.next_id + 1 })

module _ {A : Type 0} where
  -- SELECT * WHERE test
  unfoldable pub select : (A → Bool) → List A → List A
  select test [] = []
  select test (r ∷ rs) = let rest = select test rs in if test r then r ∷ rest else rest

  -- The first row of SELECT * WHERE test, by `fetchone`.
  unfoldable pub find : (A → Bool) → List A → Option A
  find test [] = none
  find test (r ∷ rs) = let rest = find test rs in if test r then some r else rest

  -- UPDATE SET f WHERE test
  unfoldable pub update : (A → Bool) → (A → A) → List A → List A
  update test f [] = []
  update test f (r ∷ rs) = (if test r then f r else r) ∷ update test f rs

  -- SELECT COUNT(*) WHERE test; also the `rowcount` of an UPDATE or DELETE with that test.
  unfoldable pub count : (A → Bool) → List A → ℕ
  count test [] = 0
  count test (r ∷ rs) = (if test r then 1 else 0) + count test rs

  unfoldable pub exists : (A → Bool) → List A → Bool
  exists test [] = false
  exists test (r ∷ rs) = test r || exists test rs

  -- DELETE WHERE test
  unfoldable pub delete : (A → Bool) → List A → List A
  unfolding select
  delete test rs = select (λ r. not (test r)) rs

  unfoldable pub insert_by : (A → A → Bool) → A → List A → List A
  insert_by le x [] = x ∷ []
  insert_by le x (y ∷ ys) = let rest = y ∷ insert_by le x ys in if le x y then x ∷ y ∷ ys else rest

  -- ORDER BY; rows that compare equal keep their order.
  unfoldable pub sort_by : (A → A → Bool) → List A → List A
  unfolding insert_by
  sort_by le [] = []
  sort_by le (x ∷ xs) = insert_by le x (sort_by le xs)
