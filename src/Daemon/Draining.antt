-- ===== src/Daemon/Draining.antt =====
-- Calls of the daemon that add nothing to a count of jobs: the queued ones, or the running ones.
use claude_discord_agent.Prelude.{
  ℕ, ◌≤◌, ◌<◌, ◌≡◌, Bool, true, false, Option, some, String, Result, ok, raised, Error, Action,
  pure, raise, ◌>>=◌, arith, Option-cases, Bool-cases, inl, inr,
}
use claude_discord_agent.Table.{count}
use claude_discord_agent.Table.Own.{count-update-le, count-update-less}
use claude_discord_agent.Db.Lifecycle.{JobState, is_active, queued, same_state, may_become}
use claude_discord_agent.Db.Types.{Db, Job, Time}
use claude_discord_agent.Db.Jobs.{get_job, job_is, transition_job, moved}
use claude_discord_agent.Db.Transition.{accepted}
use claude_discord_agent.System.{System, on_db}

abbrev pub is_queued : Job → Bool
is_queued j = same_state j.state queued

abbrev pub is_running : Job → Bool
is_running j = is_active j.state

-- The number of queued jobs.
abbrev pub waiting : Db → ℕ
waiting db = count is_queued db.jobs.rows

-- The number of jobs that pass a test.
abbrev pub tally : (Job → Bool) → Db → ℕ
tally q db = count q db.jobs.rows

-- A call after which a size of the state is no larger.
pub record IsDraining {S A : Type 0} (size : S → ℕ) (m : Action S A) : Type 0 where
  pub fewer : (s : S) → size (m s).1 ≤ size s

module _ {S : Type 0} (size : S → ℕ) where
  run_after :
      {A B : Type 0} (f : A → Action S B) (r : Result A) (s : S)
      → ((a : A) → IsDraining size (f a))
      → size (((λ (t : S). (r, s)) >>= f) s).1 ≤ size s
  run_after f (ok a) s hf = (hf a).fewer s
  run_after f (raised e) s hf = omega arith

  -- What follows a call adds nothing to what the call leaves.
  pub bind-size :
      {A B : Type 0} (m : Action S A) (f : A → Action S B) (s : S)
      → ((a : A) → IsDraining size (f a))
      → size ((m >>= f) s).1 ≤ size (m s).1
  bind-size m f s hf = run_after f (m s).0 (m s).1 hf

  pub bind-IsDraining :
      {A B : Type 0} (m : Action S A) (f : A → Action S B)
      → IsDraining size m
      → ((a : A) → IsDraining size (f a))
      → IsDraining size (m >>= f)
  bind-IsDraining m f hm hf = record { fewer = λ s. omega (arith, bind-size m f s hf, hm.fewer s) }

  pub pure-IsDraining : {A : Type 0} (a : A) → IsDraining size (pure a)
  pure-IsDraining a = record { fewer = λ s. omega arith }

  pub raise-IsDraining : {A : Type 0} (e : Error) → IsDraining {A = A} size (raise e)
  raise-IsDraining e = record { fewer = λ s. omega arith }

  pub same-IsDraining :
      {A : Type 0} (m : Action S A) → ((s : S) → size (m s).1 ≡ size s) → IsDraining size m
  same-IsDraining m same = record { fewer = λ s. rw (same s) (omega arith) }

pub on_db-IsDraining :
    {A : Type 0} (size : Db → ℕ) (m : Action Db A)
    → IsDraining size m
    → IsDraining (λ (s : System). size s.db) (on_db m)
on_db-IsDraining size m h = record { fewer = λ s. h.fewer s.db }

module _ (i : ℕ) (new_state : JobState) (result : Option String) (now : Time) where
  -- A move of a job that passes a test afterwards only if it passed it before.
  pub transition-IsDraining :
      (q : Job → Bool)
      → ((j : Job) → job_is i j ≡ true → q (moved new_state result now j) ≡ true → q j ≡ true)
      → IsDraining (tally q) (transition_job i new_state result now)
  unfolding transition_job
  transition-IsDraining q enters = record {
    fewer = λ db. elim (Option-cases (get_job i db)) [
      | inl e ↦ rw (transition_job, e) (omega arith)
      | inr (j, e) ↦ elim (Bool-cases (may_become j.state new_state)) [
        | inl m ↦
            rw (transition_job, e, m)
              (count-update-le (job_is i) q (moved new_state result now) db.jobs.rows enters)
        | inr m ↦ rw (transition_job, e, m) (omega arith)
      ]
    ];
  }

  -- A queued job that moves leaves the queue.
  pub transition-waiting :
      (db : Db) (j : Job)
      → ((j : Job) → is_queued (moved new_state result now j) ≡ false)
      → get_job i db ≡ some j
      → is_queued j ≡ true
      → may_become j.state new_state ≡ true
      → waiting (transition_job i new_state result now db).1 < waiting db
  unfolding transition_job get_job
  transition-waiting db j leaves e q m = rw (accepted i new_state result now db j e m) (
      count-update-less (job_is i) is_queued (moved new_state result now) db.jobs.rows j leaves e q)
