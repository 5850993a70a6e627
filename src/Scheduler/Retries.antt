-- ===== src/Scheduler/Retries.antt =====
-- The retry limit of `requeue_job` (lib/scheduler.py).
use claude_discord_agent.Prelude.{
  ℕ, ◌≡◌, refl, true, false, Option, none, some, String, arith, Bool-cases, inl, inr, if◌then◌else◌,
  ltb, leb, length, ok, bind-ok, pure,
}
use claude_discord_agent.Db.Lifecycle.{JobState, queued, failed_permanent, may_become}
use claude_discord_agent.Db.Types.{Db, Job, Time}
use claude_discord_agent.Db.Jobs.{job_is, get_job, moved, update_jobs, transition_job}
use claude_discord_agent.Db.Transition.{accepted, get_job-update_same, moved-id}
use claude_discord_agent.Db.Attempts.{get_attempts}
use claude_discord_agent.Scheduler.Recovery.{requeue_job}

-- A state that may go back to the queue may also fail for good.
may_fail : (s : JobState) → may_become s queued ≡ true → may_become s failed_permanent ≡ true
may_fail s m = ground arith

module _ (i : ℕ) (now : Time) (db : Db) (job : Job) (found : get_job i db ≡ some job)
    (waits : may_become job.state queued ≡ true) where
  abbrev pub ended : JobState → Option String → Db
  ended s result = update_jobs (job_is i) (moved s result now) db

  used_up :
      ltb (length (get_attempts i db)) job.max_retries ≡ false
      → requeue_job i now db ≡ (ok false, ended failed_permanent (some "Max retries exceeded"))
  unfolding requeue_job
  used_up h =
      let over : leb job.max_retries (length (get_attempts i db)) ≡ true = ground arith in
      rw (found, over, requeue_job)
        (bind-ok (transition_job i failed_permanent (some "Max retries exceeded") now) db
          (ended failed_permanent (some "Max retries exceeded")) true (λ _. pure false)
          (accepted i failed_permanent (some "Max retries exceeded") now db job found
            (may_fail job.state waits)))

  left :
      ltb (length (get_attempts i db)) job.max_retries ≡ true
      → requeue_job i now db ≡ (ok true, ended queued none)
  unfolding requeue_job
  left h =
      let under : leb job.max_retries (length (get_attempts i db)) ≡ false = ground arith in
      rw (found, under, waits, requeue_job)
        (bind-ok (transition_job i queued none now) db (ended queued none) true (λ _. pure true)
          (accepted i queued none now db job found waits))

-- A job that may go back to the queue does so while it has had fewer attempts than `max_retries`,
-- and `requeue_job` then returns true; once it has had that many it fails for good, and
-- `requeue_job` returns false.
pub requeue_job_lem :
    (i : ℕ) (now : Time) (db : Db) (job : Job)
    → get_job i db ≡ some job
    → may_become job.state queued ≡ true
    → ((requeue_job i now db).0 ≡ ok (ltb (length (get_attempts i db)) job.max_retries))
      × (get_job i (requeue_job i now db).1
          ≡ some (
              if ltb (length (get_attempts i db)) job.max_retries
              then moved queued none now job
              else moved failed_permanent (some "Max retries exceeded") now job))
requeue_job_lem i now db job found waits =
    elim (Bool-cases (ltb (length (get_attempts i db)) job.max_retries)) [
      | inl t ↦
          rw (left i now db job found waits t, t)
            (
              refl,
              get_job-update_same (moved queued none now) i db job (moved-id queued none now) found,
            )
      | inr t ↦
          rw (used_up i now db job found waits t, t)
            (
              refl,
              get_job-update_same (moved failed_permanent (some "Max retries exceeded") now) i db
                  job (moved-id failed_permanent (some "Max retries exceeded") now) found,
            )
    ]
