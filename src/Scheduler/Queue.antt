-- ===== src/Scheduler/Queue.antt =====
-- The order of `list_jobs` (lib/db.py), and that it leaves out no job but for its limit.
use claude_discord_agent.Prelude.{
  ℕ, ◌≡◌, refl, ◌≤◌, ◌<◌, ◌↔◌, Bool, true, false, Option, none, some, List, [], ◌∷◌, arith,
  Bool-cases, inl, inr, leb, length, length-take-le, zero, suc, All, take, take-All, subst,
}
use claude_discord_agent.Prelude.Int.{pos_part, neg_part}
use claude_discord_agent.Prelude.{All-map, ◌⊎◌, ◌+◌, sym, ap, ◌==◌}
use claude_discord_agent.Table.{select, insert_by, sort_by}
use claude_discord_agent.Table.Rows.{select-test}
use claude_discord_agent.Table.Order.{IsSorted, sort_by-All, sort_by-IsSorted}
use claude_discord_agent.Db.Lifecycle.{JobState, same_state}
use claude_discord_agent.Db.Types.{Db, Job, Time}
use claude_discord_agent.Db.Jobs.{matches, is_listed, runs_before, list_jobs}

module _ {A : Type 0} where
  take-IsSorted :
      (le : A → A → Bool) (n : ℕ) (xs : List A) → IsSorted le xs → IsSorted le (take n xs)
  take-IsSorted le zero xs h = tt
  take-IsSorted le (suc n) [] h = tt
  take-IsSorted le (suc n) (x ∷ xs) h =
      (take-All (λ y. le x y ≡ true) n xs h.0, take-IsSorted le n xs h.1)

runs_before_trans :
    (a b c : Job) → runs_before a b ≡ true → runs_before b c ≡ true → runs_before a c ≡ true
unfolding runs_before
runs_before_trans a b c h k = ground arith

runs_before_total : (a b : Job) → runs_before a b ≡ false → runs_before b a ≡ true
unfolding runs_before
runs_before_total a b h = ground arith

pub list_jobs_lem :
    (repo_id : Option ℕ) (state : Option JobState) (limit : ℕ) (now : Option Time) (db : Db)
    → IsSorted runs_before (list_jobs repo_id state limit now db)
      × (length (list_jobs repo_id state limit now db) ≤ limit)
      × All (λ j. is_listed repo_id state now j ≡ true) (list_jobs repo_id state limit now db)
unfolding list_jobs
list_jobs_lem repo_id state limit now db =
    let rows = select (is_listed repo_id state now) db.jobs.rows in
    (
      take-IsSorted runs_before limit (sort_by runs_before rows)
          (sort_by-IsSorted runs_before runs_before_trans runs_before_total rows),
      length-take-le limit (sort_by runs_before rows),
      take-All (λ j. is_listed repo_id state now j ≡ true) limit (sort_by runs_before rows)
          (sort_by-All runs_before (λ j. is_listed repo_id state now j ≡ true) rows
            (select-test (is_listed repo_id state now) db.jobs.rows)),
    )

-- A higher priority, or an earlier schedule at the same, or no later creation at both the same.
abbrev pub Precedes : Job → Job → Type 0
Precedes a b =
    (suc (pos_part b.priority + neg_part a.priority) ≤ pos_part a.priority + neg_part b.priority)
    ⊎ (pos_part b.priority + neg_part a.priority ≡ pos_part a.priority + neg_part b.priority)
      × ((a.enqueue_at < b.enqueue_at)
          ⊎ (a.enqueue_at ≡ b.enqueue_at) × (a.created_at ≤ b.created_at))

abbrev pub IsQueue : List Job → Type 0
IsQueue [] = Unit
IsQueue (j ∷ js) = All (Precedes j) js × IsQueue js

-- What the caller has asked for, where it has.
abbrev pub IsAsked : {A : Type 0} → (A → Type 0) → Option A → Type 0
IsAsked P none = Unit
IsAsked P (some a) = P a

abbrev pub IsWanted : Option ℕ → Option JobState → Option Time → Job → Type 0
IsWanted repo_id state now j =
    IsAsked (λ r. j.repo_id ≡ r) repo_id
    × IsAsked (λ s. same_state j.state s ≡ true) state
    × IsAsked (λ t. j.enqueue_at ≤ t) now

runs_before-Precedes : (a b : Job) → runs_before a b ≡ true → Precedes a b
unfolding runs_before
runs_before-Precedes a b h = ground (arith, h)

sorted-IsQueue : (js : List Job) → IsSorted runs_before js → IsQueue js
sorted-IsQueue [] h = tt
sorted-IsQueue (j ∷ js) h = (
  All-map (λ k. runs_before j k ≡ true) (Precedes j) js (λ k. runs_before-Precedes j k) h.0,
  sorted-IsQueue js h.1,
)

matches-IsAsked :
    {A : Type 0} (test : A → Bool) (P : A → Type 0) (o : Option A)
    → ((a : A) → (test a ≡ true) ↔ P a)
    → (matches test o ≡ true) ↔ IsAsked P o
matches-IsAsked test P none h = (λ _. tt, λ _. refl)
matches-IsAsked test P (some a) h = h a

module _ (repo_id : Option ℕ) (state : Option JobState) (now : Option Time) (j : Job) where
  matches-repo :
      (matches (λ r. j.repo_id == r) repo_id ≡ true) ↔ IsAsked (λ r. j.repo_id ≡ r) repo_id
  matches-repo = matches-IsAsked _ _ repo_id (λ r. (λ h. ground (arith, h), λ h. ground (arith, h)))

  matches-state :
      (matches (λ s. same_state j.state s) state ≡ true)
      ↔ IsAsked (λ s. same_state j.state s ≡ true) state
  matches-state = matches-IsAsked _ _ state (λ s. (λ h. h, λ h. h))

  matches-time :
      (matches (λ t. leb j.enqueue_at t) now ≡ true) ↔ IsAsked (λ t. j.enqueue_at ≤ t) now
  matches-time = matches-IsAsked _ _ now (λ t. (λ h. ground (arith, h), λ h. ground (arith, h)))

  listed-IsWanted : is_listed repo_id state now j ≡ true → IsWanted repo_id state now j
  unfolding is_listed
  listed-IsWanted h = (
    matches-repo.0 (ground (arith, h)),
    matches-state.0 (ground (arith, h)),
    matches-time.0 (ground (arith, h)),
  )

  wanted-listed : IsWanted repo_id state now j → is_listed repo_id state now j ≡ true
  unfolding is_listed
  wanted-listed (r, s, t) = rw (matches-repo.1 r, matches-state.1 s, matches-time.1 t) refl

-- What `list_jobs` returns is ordered: a job with a higher priority comes first, at one priority one
-- that is scheduled earlier, at one schedule an older one. It is at most `limit` jobs, each of which
-- has the repo and the state asked for and is due at the time asked for.
pub list_jobs-IsQueue :
    (repo_id : Option ℕ) (state : Option JobState) (limit : ℕ) (now : Option Time) (db : Db)
    → IsQueue (list_jobs repo_id state limit now db)
      × (length (list_jobs repo_id state limit now db) ≤ limit)
      × All (IsWanted repo_id state now) (list_jobs repo_id state limit now db)
list_jobs-IsQueue repo_id state limit now db =
    let (sorted, short, listed) = list_jobs_lem repo_id state limit now db in
    (
      sorted-IsQueue (list_jobs repo_id state limit now db) sorted,
      short,
      All-map (λ j. is_listed repo_id state now j ≡ true) (IsWanted repo_id state now) _
          (listed-IsWanted repo_id state now) listed,
    )

abbrev pub Among : Job → List Job → Type 0
Among k [] = ⊥
Among k (j ∷ js) = (j ≡ k) ⊎ Among k js

All-Among : (P : Job → Type 0) (k : Job) (js : List Job) → All P js → Among k js → P k
All-Among P k [] h m = absurd m
All-Among P k (j ∷ js) h (inl e) = subst P e h.0
All-Among P k (j ∷ js) h (inr m) = All-Among P k js h.1 m

select-Among :
    (test : Job → Bool) (k : Job) (js : List Job)
    → test k ≡ true
    → Among k js
    → Among k (select test js)
unfolding select
select-Among test k [] h m = m
select-Among test k (j ∷ js) h (inl e) =
    let passed : test j ≡ true = subst (λ x. test x ≡ true) (sym e) h in rw passed (inl e)
select-Among test k (j ∷ js) h (inr m) = elim (Bool-cases (test j)) [
  | inl t ↦ rw t (inr (select-Among test k js h m))
  | inr t ↦ rw t (select-Among test k js h m)
]

insert_by-Among :
    (le : Job → Job → Bool) (k x : Job) (js : List Job)
    → (x ≡ k) ⊎ Among k js
    → Among k (insert_by le x js)
unfolding insert_by
insert_by-Among le k x [] h = h
insert_by-Among le k x (j ∷ js) h = elim (Bool-cases (le x j)) [
  | inl t ↦ rw t h
  | inr t ↦ rw t (elim h [
    | inl e ↦ inr (insert_by-Among le k x js (inl e))
    | inr m ↦ elim m [ inl e ↦ inl e | inr m' ↦ inr (insert_by-Among le k x js (inr m')) ]
  ])
]

sort_by-Among :
    (le : Job → Job → Bool) (k : Job) (js : List Job) → Among k js → Among k (sort_by le js)
unfolding sort_by
sort_by-Among le k [] m = absurd m
sort_by-Among le k (j ∷ js) (inl e) = insert_by-Among le k j (sort_by le js) (inl e)
sort_by-Among le k (j ∷ js) (inr m) =
    insert_by-Among le k j (sort_by le js) (inr (sort_by-Among le k js m))

-- What LIMIT leaves out comes after all that it keeps.
take-Among :
    (k : Job) (n : ℕ) (js : List Job)
    → IsQueue js
    → Among k js
    → Among k (take n js) ⊎ (length (take n js) ≡ n) × All (λ j. Precedes j k) (take n js)
take-Among k zero js h m = inr (refl, tt)
take-Among k (suc n) [] h m = absurd m
take-Among k (suc n) (j ∷ js) h (inl e) = inl (inl e)
take-Among k (suc n) (j ∷ js) h (inr m) = elim (take-Among k n js h.1 m) [
  | inl kept ↦ inl (inr kept)
  | inr (full, all) ↦ inr (ap suc full, (All-Among (Precedes j) k js h.0 m, all))
]

-- A job in the table that has the repo and the state asked for and is due is in what `list_jobs`
-- returns, or that is as long as the limit allows and each of its jobs comes before this one or
-- ties with it.
pub list_jobs_complete :
    (repo_id : Option ℕ) (state : Option JobState) (limit : ℕ) (now : Option Time) (db : Db)
    (k : Job)
    → Among k db.jobs.rows
    → IsWanted repo_id state now k
    → Among k (list_jobs repo_id state limit now db)
      ⊎ (length (list_jobs repo_id state limit now db) ≡ limit)
        × All (λ j. Precedes j k) (list_jobs repo_id state limit now db)
unfolding list_jobs
list_jobs_complete repo_id state limit now db k there wanted =
    let rows = select (is_listed repo_id state now) db.jobs.rows in
    take-Among k limit (sort_by runs_before rows)
      (sorted-IsQueue _ (sort_by-IsSorted runs_before runs_before_trans runs_before_total rows))
      (sort_by-Among runs_before k rows (
        select-Among (is_listed repo_id state now) k db.jobs.rows
          (wanted-listed repo_id state now k wanted) there))
