-- ===== src/Steps/Planes/Check.antt =====
-- The checks of the watchdog (lib/watchdog.py) as steps.
use Prim.Native.String.{◌++◌ as append}
use claude_discord_agent.Prelude.{
  ℕ, ◌+◌, not, Option, none, some, List, [], ◌∷◌, ltb, is_none, length, last, Option-cases, inl,
  inr, Action, pure, gets, ◌>>=◌,
}
use claude_discord_agent.Db.Lifecycle.{timed_out, lost}
use claude_discord_agent.Db.Types.{Db, Job, Attempt, Time}
use claude_discord_agent.Db.Attempts.{get_attempts}
use claude_discord_agent.System.{System, Process}
use claude_discord_agent.Watchdog.Check.{
  RecoveryAction, report_lost, WatchdogConfig, get_process, is_idle_longer, try_transition,
  timeout_kind, timeout_detail, handle_timeout, handle_lost, check_attempt, check_job, add_action,
  check_each, check_all,
}
use claude_discord_agent.Steps.{Reaches, here}
use claude_discord_agent.Steps.Stepwise.{
  IsStepwise, bind_steps, then_steps, pure_steps, if_steps, gets_steps, whole, inner,
}
use claude_discord_agent.Steps.Planes.Complete.{try_steps}

module _ (c : WatchdogConfig) where
  timeout_steps : (job : Job) (now : Time) → IsStepwise whole (handle_timeout c job now)
  unfolding handle_timeout
  timeout_steps job now =
      bind_steps whole (gets (get_attempts job.id)) _ (gets_steps whole _) (λ as'.
        then_steps whole (try_transition job.id timed_out none now) _
          (try_steps job.id timed_out none now)
          (pure_steps whole (record {
            kind = timeout_kind c (length as');
            job_id = job.id;
            detail = timeout_detail c (length as');
          })))

  lost_steps : (job : Job) (a : Attempt) (now : Time) → IsStepwise whole (handle_lost c job a now)
  unfolding handle_lost
  lost_steps job a now =
      then_steps whole (try_transition job.id lost none now) _ (try_steps job.id lost none now) (
        pure_steps whole (record {
          kind = report_lost;
          job_id = job.id;
          detail =
              append "Process lost (attempt "
                (append (c.show a.attempt_num) "), reporting to controller");
        }))

  as_some_steps :
      (m : Action Db RecoveryAction)
      → IsStepwise whole m
      → IsStepwise whole (m >>= λ a. pure (some a))
  as_some_steps m h = bind_steps whole m (λ a. pure (some a)) h (λ a. pure_steps whole (some a))

  attempt_steps :
      (job : Job) (a : Attempt) (p : Option Process) (now now' : Time)
      → IsStepwise whole (check_attempt c job a p now now')
  unfolding check_attempt
  attempt_steps job a none now now' =
      if_steps whole (ltb (a.started_at + c.job_timeout) now) _ _
        (as_some_steps (handle_timeout c job now') (timeout_steps job now'))
        (if_steps whole (is_none a.finished_at) _ _
          (as_some_steps (handle_lost c job a now') (lost_steps job a now'))
          (pure_steps whole none))
  attempt_steps job a (some p) now now' =
      if_steps whole (ltb (a.started_at + c.job_timeout) now) _ _
        (as_some_steps (handle_timeout c job now') (timeout_steps job now'))
        (if_steps whole (not p.is_alive) _ _ (pure_steps whole none) (
          if_steps whole (is_idle_longer p c.heartbeat_timeout now) _ _
            (as_some_steps (handle_timeout c job now') (timeout_steps job now'))
            (pure_steps whole none)))

  check_job-Reaches :
      (job : Job) (now now' : Time) (s : System) → Reaches s.db (check_job c job now now' s).1.db
  unfolding check_job
  check_job-Reaches job now now' s = elim (Option-cases (last (get_attempts job.id s.db))) [
    | inl e ↦ rw (e, check_job) here
    | inr (a, e) ↦
        rw (e, check_job) ((attempt_steps job a (get_process a.id s) now now').steps s.db)
  ]

  module _ (clock clock' : ℕ → Time) where
    check_each_steps : (js : List Job) → IsStepwise inner (check_each c clock clock' js)
    unfolding check_each
    check_each_steps [] = pure_steps inner []
    check_each_steps (j ∷ js) =
        let rest = check_each_steps js in
        bind_steps inner (check_job c j (clock j.id) (clock' j.id)) _
          (record { steps = check_job-Reaches j (clock j.id) (clock' j.id) })
          (λ a.
            bind_steps inner (check_each c clock clock' js) _ rest
              (λ as'. pure_steps inner (add_action c a as')))

    -- A health check changes the database by a sequence of steps only, at any readings of the clock.
    pub check_all_steps : IsStepwise inner (check_all c clock clock')
    unfolding check_all
    check_all_steps = record { steps = λ s. (check_each_steps _).steps s }
