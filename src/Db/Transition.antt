-- ===== src/Db/Transition.antt =====
-- What `transition_job` does (lib/db.py), on each of its branches.
use mathlib.Core.Option
use claude_discord_agent.Prelude.{
  ℕ, ◌≡◌, refl, ◌≢◌, Bool, true, false, Option, none, some, String, arith, if◌then◌else◌,
  Bool-cases, Option-cases, inl, inr, raised, ok, job_not_found, invalid_transition, ==_refl,
}
use claude_discord_agent.Table.Rows.{find-update, find-test}
use claude_discord_agent.Db.Lifecycle.{JobState, may_become}
use claude_discord_agent.Db.Types.{Db, Job, Time}
use claude_discord_agent.Db.Jobs.{job_is, get_job, update_jobs, moved, transition_job}

-- The row of a job after an UPDATE that does not set `id`.
pub get_job-update_jobs :
    (test : Job → Bool) (f : Job → Job) (k : ℕ) (db : Db)
    → ((j : Job) → (f j).id ≡ j.id)
    → get_job k (update_jobs test f db)
      ≡ Option.map (λ (j : Job). if test j then f j else j) (get_job k db)
unfolding get_job
get_job-update_jobs test f k db same =
    find-update test (job_is k) f db.jobs.rows (λ j. rw (same j) refl)

pub get_job-id : (k : ℕ) (db : Db) (j : Job) → get_job k db ≡ some j → j.id ≡ k
unfolding get_job
get_job-id k db j e = ground (arith, find-test (job_is k) db.jobs.rows j e)

-- An UPDATE of the job with an id changes that job,
pub get_job-update_same :
    (f : Job → Job) (k : ℕ) (db : Db) (j : Job)
    → ((j : Job) → (f j).id ≡ j.id)
    → get_job k db ≡ some j
    → get_job k (update_jobs (job_is k) f db) ≡ some (f j)
get_job-update_same f k db j same e =
    rw (get_job-update_jobs (job_is k) f k db same, e, get_job-id k db j e, ==_refl k) refl

-- and no other.
pub get_job-update_other :
    (f : Job → Job) (i k : ℕ) (db : Db)
    → ((j : Job) → (f j).id ≡ j.id)
    → k ≢ i
    → get_job k (update_jobs (job_is i) f db) ≡ get_job k db
get_job-update_other f i k db same other = elim (Option-cases (get_job k db)) [
  | inl e ↦ rw (get_job-update_jobs (job_is i) f k db same, e) refl
  | inr (j, e) ↦
      let skipped : job_is i j ≡ false = ground (arith, get_job-id k db j e) in
      rw (get_job-update_jobs (job_is i) f k db same, e, skipped) refl
]

pub moved-id :
    (s : JobState) (result : Option String) (now : Time) (j : Job)
    → (moved s result now j).id ≡ j.id
unfolding moved
moved-id s result now j = ground arith

-- How a call of `transition_job` may end.
pub data Transition (i : ℕ) (s : JobState) (result : Option String) (now : Time) (db : Db)
    : Type 0 where
  refused_missing :
      get_job i db ≡ none
      → transition_job i s result now db ≡ (raised job_not_found, db)
      → Transition i s result now db
  refused_invalid :
      (j : Job)
      → get_job i db ≡ some j
      → may_become j.state s ≡ false
      → transition_job i s result now db ≡ (raised invalid_transition, db)
      → Transition i s result now db
  done :
      (j : Job)
      → get_job i db ≡ some j
      → may_become j.state s ≡ true
      → (transition_job i s result now db).0 ≡ ok true
      → get_job i (transition_job i s result now db).1 ≡ some (moved s result now j)
      → ((k : ℕ) → k ≢ i → get_job k (transition_job i s result now db).1 ≡ get_job k db)
      → Transition i s result now db

module _ (i : ℕ) (s : JobState) (result : Option String) (now : Time) (db : Db) where
  missing : get_job i db ≡ none → transition_job i s result now db ≡ (raised job_not_found, db)
  unfolding transition_job
  missing e = rw (e, transition_job) refl

  refused :
      (j : Job)
      → get_job i db ≡ some j
      → may_become j.state s ≡ false
      → transition_job i s result now db ≡ (raised invalid_transition, db)
  unfolding transition_job
  refused j e m = rw (e, m, transition_job) refl

  pub accepted :
      (j : Job)
      → get_job i db ≡ some j
      → may_become j.state s ≡ true
      → transition_job i s result now db ≡ (ok true, update_jobs (job_is i) (moved s result now) db)
  unfolding transition_job
  accepted j e m = rw (e, m, transition_job) refl

-- A call of `transition_job` raises and changes nothing where there is no such job or the new state
-- may not follow the job's state, and otherwise returns, moves that job and leaves the others.
pub transition_job_lem :
    (i : ℕ) (s : JobState) (result : Option String) (now : Time) (db : Db)
    → Transition i s result now db
transition_job_lem i s result now db = elim (Option-cases (get_job i db)) [
  | inl e ↦ refused_missing e (missing i s result now db e)
  | inr (j, e) ↦ elim (Bool-cases (may_become j.state s)) [
    | inl m ↦
        done j e m (rw (accepted i s result now db j e m) refl)
          (rw (accepted i s result now db j e m)
            (get_job-update_same (moved s result now) i db j (moved-id s result now) e))
          (λ k other.
            rw (accepted i s result now db j e m)
              (get_job-update_other (moved s result now) i k db (moved-id s result now) other))
    | inr m ↦ refused_invalid j e m (refused i s result now db j e m)
  ]
]
