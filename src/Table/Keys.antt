-- ===== src/Table/Keys.antt =====
-- The primary key of a table: no two rows have one key, and no row has a key still to be given.
use claude_discord_agent.Prelude.{
  ℕ, ◌+◌, ◌≤◌, ◌<◌, ◌≡◌, refl, Bool, false, not, List, [], ◌∷◌, ◌++◌, arith, ◌==◌, All, All-append,
  All-map, Bool-cases, inl, inr,
}
use claude_discord_agent.Table.{Table, insert_row, select, update, count, exists, delete}
use claude_discord_agent.Table.Rows.{select-All, update-All, count-update, count-append_one}

module _ {A : Type 0} where
  pub count-select-le : (q test : A → Bool) (rs : List A) → count q (select test rs) ≤ count q rs
  unfolding count select
  count-select-le q test [] = omega arith
  count-select-le q test (x ∷ rs) = ground (arith, count-select-le q test rs)

  count-zero_of_All : (q : A → Bool) (rs : List A) → All (λ r. q r ≡ false) rs → count q rs ≡ 0
  unfolding count
  count-zero_of_All q [] h = refl
  count-zero_of_All q (x ∷ rs) h = ground (arith, count-zero_of_All q rs h.1)

  pub count-zero_of_not-exists : (q : A → Bool) (rs : List A) → exists q rs ≡ false → count q rs ≡ 0
  unfolding count exists
  count-zero_of_not-exists q [] h = refl
  count-zero_of_not-exists q (x ∷ rs) h = ground (arith, count-zero_of_not-exists q rs)

module _ {A : Type 0} (key : A → ℕ) where
  pub record IsKeyed (t : Table A) : Type 0 where
    pub fresh : All (λ r. key r < t.next_id) t.rows
    pub unique : (i : ℕ) → count (λ r. key r == i) t.rows ≤ 1

  -- INSERT gives the new row a key of its own.
  pub insert_row-IsKeyed :
      (make : ℕ → A) (t : Table A)
      → ((i : ℕ) → key (make i) ≡ i)
      → IsKeyed t
      → IsKeyed (insert_row make t).1
  insert_row-IsKeyed make t made h = record {
    fresh =
        All-append (λ r. key r < t.next_id + 1) t.rows (make t.next_id ∷ [])
          (All-map (λ r. key r < t.next_id) (λ r. key r < t.next_id + 1) t.rows
            (λ r (p : key r < t.next_id). omega arith) h.fresh)
          (omega (arith, made t.next_id), tt);
    unique = λ i. one_key i;
  }
    where
      absent : count (λ r. key r == t.next_id) t.rows ≡ 0
      absent =
          count-zero_of_All (λ r. key r == t.next_id) t.rows
            (All-map (λ r. key r < t.next_id) (λ r. (key r == t.next_id) ≡ false) t.rows
              (λ r (p : key r < t.next_id). ground arith) h.fresh)

      one_key : (i : ℕ) → count (λ r. key r == i) (t.rows ++ make t.next_id ∷ []) ≤ 1
      one_key i = elim (Bool-cases (t.next_id == i)) [
        | inl e ↦ ground (
          arith,
          count-append_one (λ r. key r == i) t.rows (make t.next_id),
          h.unique i,
          absent,
          made t.next_id,
        )
        | inr e ↦ ground (
          arith,
          count-append_one (λ r. key r == i) t.rows (make t.next_id),
          h.unique i,
          made t.next_id,
        )
      ]

  -- An UPDATE that sets no key keeps the keys.
  pub update-IsKeyed :
      (test : A → Bool) (f : A → A) (t : Table A)
      → ((r : A) → key (f r) ≡ key r)
      → IsKeyed t
      → IsKeyed (record { rows = update test f t.rows; next_id = t.next_id })
  update-IsKeyed test f t same h = record {
    fresh =
        update-All (λ r. key r < t.next_id) test f t.rows
          (λ r _ (p : key r < t.next_id). omega (arith, same r)) h.fresh;
    unique = λ i.
        omega (arith, count-update test (λ r. key r == i) f t.rows (λ r. rw (same r)), h.unique i);
  }

  pub delete-IsKeyed :
      (test : A → Bool) (t : Table A)
      → IsKeyed t
      → IsKeyed (record { rows = delete test t.rows; next_id = t.next_id })
  unfolding delete
  delete-IsKeyed test t h = record {
    fresh = select-All (λ r. key r < t.next_id) (λ r. not (test r)) t.rows h.fresh;
    unique = λ i.
        omega (arith, count-select-le (λ r. key r == i) (λ r. not (test r)) t.rows, h.unique i);
  }
