-- ===== src/Steps/Planes/Scheduler.antt =====
-- The recovery of lib/scheduler.py as steps.
use claude_discord_agent.Prelude.{
  ℕ, true, false, Option, none, some, String, List, [], ◌∷◌, ◌++◌, ◌≡◌, ◌==◌, leb, length,
  if◌then◌else◌, Bool-cases, Option-cases, inl, inr, pure, gets, modify, total, refl,
}
use claude_discord_agent.Table.{count}
use claude_discord_agent.Db.Lifecycle.{
  queued, failed_permanent, rate_limited, failed_retryable, may_become,
}
use claude_discord_agent.Db.Types.{Db, Job, Time}
use claude_discord_agent.Db.Jobs.{get_job, transition_job, list_jobs, default_limit}
use claude_discord_agent.Db.Attempts.{get_attempts}
use claude_discord_agent.System.{System, on_db}
use claude_discord_agent.Steps.{transitions_job, clears_backoff, perform, Reaches, here, next}
use claude_discord_agent.Steps.Stepwise.{
  Reaches-trans, IsStepwise, bind_steps, then_steps, pure_steps, if_steps, gets_steps, modify_steps,
  total_steps, on_db_steps, whole, inner,
}
use claude_discord_agent.Scheduler.Backoff.{is_backed_off}
use claude_discord_agent.Scheduler.Outcome.{clear_if_none_limited, is_rate_limited_in}
use claude_discord_agent.Scheduler.Recovery.{
  requeue_rate_limited, requeue_failed_retryable, requeue_job, requeue_limited, requeue_failed,
  repo_ids, clear_repos, drive_recovery,
}

pub transition_steps :
    (i : ℕ) (s : _) (result : Option String) (now : Time)
    → IsStepwise whole (transition_job i s result now)
unfolding perform
transition_steps i s result now = record {
  steps = λ db. next here (transitions_job i s result now);
}

requeue-Reaches : (i : ℕ) (now : Time) (db : Db) → Reaches db (requeue_job i now db).1
unfolding requeue_job
requeue-Reaches i now db = elim (Option-cases (get_job i db)) [
  | inl e ↦ rw (e, requeue_job) here
  | inr (job, e) ↦ elim (Bool-cases (leb job.max_retries (length (get_attempts i db)))) [
    | inl spent ↦
        rw (e, spent, requeue_job)
          ((then_steps whole (transition_job i failed_permanent (some "Max retries exceeded") now)
              (pure false) (transition_steps i failed_permanent _ now)
              (pure_steps whole false)).steps
            db)
    | inr left ↦ elim (Bool-cases (may_become job.state queued)) [
      | inl m ↦
          rw (e, left, m, requeue_job)
            ((then_steps whole (transition_job i queued none now) (pure true)
                (transition_steps i queued none now) (pure_steps whole true)).steps
              db)
      | inr m ↦ rw (e, left, m, requeue_job) here
    ]
  ]
]

requeue_steps : (i : ℕ) (now : Time) → IsStepwise whole (requeue_job i now)
requeue_steps i now = record { steps = requeue-Reaches i now }

-- A call that leaves the database alone.
backed_off_same : (i : ℕ) (now : Time) (s : System) → (is_backed_off i now s).1.db ≡ s.db
unfolding is_backed_off
backed_off_same i now s = refl

backed_off_steps : (i : ℕ) (now : Time) → IsStepwise inner (total (is_backed_off i now))
unfolding is_backed_off
backed_off_steps i now = total_steps inner (is_backed_off i now) (λ s. here)

pub clear_limited_steps : (r : ℕ) (s : System) → Reaches s.db (clear_if_none_limited r s).db
unfolding clear_if_none_limited perform
clear_limited_steps r s = elim (Bool-cases (count (is_rate_limited_in r) s.db.jobs.rows == 0)) [
  | inl e ↦ rw (e, clear_if_none_limited) (next here (clears_backoff r))
  | inr e ↦ rw (e, clear_if_none_limited) here
]

clear_repos_steps : (rs : List ℕ) (s : System) → Reaches s.db (clear_repos rs s).db
unfolding clear_repos
clear_repos_steps [] s = here
clear_repos_steps (r ∷ rs) s =
    Reaches-trans (clear_limited_steps r s) (clear_repos_steps rs (clear_if_none_limited r s))

module _ (clock clock' : ℕ → Time) where
  requeue_limited_steps : (js : List Job) → IsStepwise inner (requeue_limited clock clock' js)
  unfolding requeue_limited
  requeue_limited_steps [] = pure_steps inner []
  requeue_limited_steps (j ∷ js) =
      let rest = requeue_limited_steps js in
      bind_steps inner (total (is_backed_off j.repo_id (clock j.id))) _
        (backed_off_steps j.repo_id (clock j.id))
        (λ b. if_steps inner b _ _ rest (
          bind_steps inner (on_db (requeue_job j.id (clock' j.id))) _
            (on_db_steps (requeue_job j.id (clock' j.id)) (requeue_steps j.id (clock' j.id)))
            (λ done. bind_steps inner (requeue_limited clock clock' js) _ rest (λ actions.
              pure_steps inner (if done then requeue_rate_limited j.id ∷ actions else actions)))))

  requeue_failed_steps : (js : List Job) → IsStepwise inner (requeue_failed clock clock' js)
  unfolding requeue_failed
  requeue_failed_steps [] = pure_steps inner []
  requeue_failed_steps (j ∷ js) =
      let rest = requeue_failed_steps js in
      bind_steps inner (on_db (requeue_job j.id (clock' j.id))) _
        (on_db_steps (requeue_job j.id (clock' j.id)) (requeue_steps j.id (clock' j.id)))
        (λ done. bind_steps inner (requeue_failed clock clock' js) _ rest (λ actions.
          pure_steps inner (if done then requeue_failed_retryable j.id ∷ actions else actions)))

  -- `drive_recovery` changes the database by a sequence of steps only, at any readings of the clock.
  pub drive_recovery_steps : IsStepwise inner (drive_recovery clock clock')
  unfolding drive_recovery
  drive_recovery_steps =
      bind_steps inner (gets (λ s. list_jobs none (some rate_limited) default_limit none s.db)) _
        (gets_steps inner _)
        (λ limited.
          bind_steps inner (requeue_limited clock clock' limited) _ (requeue_limited_steps limited)
            (λ actions.
              then_steps inner (modify (clear_repos (repo_ids limited))) _
                (modify_steps inner (clear_repos (repo_ids limited))
                  (clear_repos_steps (repo_ids limited)))
                (bind_steps inner
                  (gets (λ s. list_jobs none (some failed_retryable) default_limit none s.db)) _
                  (gets_steps inner _)
                  (λ failed.
                    bind_steps inner (requeue_failed clock clock' failed) _
                      (requeue_failed_steps failed)
                      (λ actions'. pure_steps inner (actions ++ actions'))))))
