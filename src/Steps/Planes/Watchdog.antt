-- ===== src/Steps/Planes/Watchdog.antt =====
-- The recovery of lib/watchdog.py as steps.
use claude_discord_agent.Prelude.{
  ℕ, Option, none, some, String, [], ◌∷◌, is_none, last, Bool-cases, Option-cases, inl, inr, pure,
  total, ◌>>◌,
}
use claude_discord_agent.Prelude.Int.{negsuc}
use claude_discord_agent.Db.Lifecycle.{JobState, queued, failed_permanent, needs_controller}
use claude_discord_agent.Db.Types.{Db, Job, Attempt, Time, idle, dead}
use claude_discord_agent.Db.Jobs.{get_job, transition_job}
use claude_discord_agent.Db.Sessions.{SessionField, set_state, create_session}
use claude_discord_agent.Db.Attempts.{get_attempts}
use claude_discord_agent.System.{System}
use claude_discord_agent.Watchdog.Check.{
  RecoveryKind, RecoveryAction, retry_same_session, fork_session, report_lost, backoff, escalate,
  unknown_action, get_process, try_transition,
}
use claude_discord_agent.Watchdog.Recover.{
  Recovered, requeued, requeued_with_backoff, needs_controller_reported, escalated, failed,
  requeued_for_new_session, recovery_error, stop_process, set_session_of, stop_and_join,
  finish_stopped, cleanup_running_process, mark_old_session_dead, has_process, requeue_as,
  recover_fork, recover, apply_recovery,
}
use claude_discord_agent.Steps.{
  creates_session, updates_session, finishes_attempt, perform, Reaches, here, next,
}
use claude_discord_agent.Steps.Stepwise.{
  Reaches-trans, IsStepwise, bind_steps, then_steps, pure_steps, total_steps, catch_value_steps,
  whole,
}
use claude_discord_agent.Steps.Planes.Scheduler.{transition_steps}
use claude_discord_agent.Steps.Planes.Complete.{try_steps}

session_of_steps :
    (o : Option ℕ) (field : SessionField) (db : Db) → Reaches db (set_session_of o field db)
unfolding set_session_of perform
session_of_steps none field db = here
session_of_steps (some i) field db = next here (updates_session i (field ∷ []))

finish_stopped_steps :
    (i : ℕ) (a : Attempt) (now : Time) (db : Db) → Reaches db (finish_stopped i a now db)
unfolding finish_stopped perform
finish_stopped_steps i a now db = elim (Bool-cases (is_none a.finished_at)) [
  | inl e ↦
      rw (e, finish_stopped)
        (next here (finishes_attempt i (some (negsuc 0)) (some "Stopped by watchdog") now))
  | inr e ↦ rw (e, finish_stopped) here
]

module _ (joined : System → System) (joins : (s : System) → Reaches s.db (joined s).db) where
  join_steps : (i : ℕ) (s : System) → Reaches s.db (stop_and_join joined i s).db
  unfolding stop_and_join
  join_steps i s = elim (Option-cases (get_process i s)) [
    | inl e ↦ rw (e, stop_and_join) here
    | inr (p, e) ↦ rw (e, stop_and_join) (joins (stop_process i s))
  ]

  cleanup_steps :
      (i : ℕ) (now : Time) (s : System) → Reaches s.db (cleanup_running_process joined i now s).db
  unfolding cleanup_running_process
  cleanup_steps i now s = elim (Option-cases (last (get_attempts i s.db))) [
    | inl e ↦ rw (e, cleanup_running_process) here
    | inr (a, e) ↦
        let s' = stop_and_join joined a.id s in
        elim (Option-cases (last (get_attempts i s'.db))) [
          | inl f ↦
              rw (e, f, cleanup_running_process)
                (Reaches-trans (join_steps a.id s)
                  (session_of_steps a.session_id (set_state idle) s'.db))
          | inr (b, f) ↦
              rw (e, f, cleanup_running_process)
                (Reaches-trans (join_steps a.id s) (
                  Reaches-trans (finish_stopped_steps a.id b now s'.db) (
                    session_of_steps b.session_id (set_state idle)
                      (finish_stopped a.id b now s'.db))))
        ]
  ]

mark_dead_steps : (i : ℕ) (db : Db) → Reaches db (mark_old_session_dead i db).1
unfolding mark_old_session_dead
mark_dead_steps i db = elim (Option-cases (last (get_attempts i db))) [
  | inl e ↦ rw (e, mark_old_session_dead) here
  | inr (a, e) ↦ rw (e, mark_old_session_dead) (session_of_steps a.session_id (set_state dead) db)
]

create_session_steps :
    (r : ℕ) (pid : Option ℕ) (now : Time) → IsStepwise whole (create_session r pid now)
unfolding perform
create_session_steps r pid now = record { steps = λ db. next here (creates_session r pid now) }

fork_steps :
    (job : Job) (now now' now'' : Time) → IsStepwise whole (recover_fork job now now' now'')
unfolding recover_fork
fork_steps job now now' now'' =
    bind_steps whole (total (mark_old_session_dead job.id)) _
      (total_steps whole (mark_old_session_dead job.id) (mark_dead_steps job.id))
      (λ old.
        bind_steps whole (create_session job.repo_id none now) _
          (create_session_steps job.repo_id none now)
          (λ new.
            catch_value_steps whole _ _
              (then_steps whole (transition_job job.id queued none now')
                (pure (requeued_for_new_session old new)) (transition_steps job.id queued none now')
                (pure_steps whole (requeued_for_new_session old new)))
              (then_steps whole
                (try_transition job.id failed_permanent (some "Max retries exceeded after fork")
                  now'')
                (pure failed) (try_steps job.id failed_permanent _ now'')
                (pure_steps whole failed))))

requeue_as_steps :
    (report : Recovered) (i : ℕ) (now : Time) → IsStepwise whole (requeue_as report i now)
unfolding requeue_as
requeue_as_steps report i now =
    catch_value_steps whole _ _
      (then_steps whole (transition_job i queued none now) (pure report)
        (transition_steps i queued none now) (pure_steps whole report))
      (pure_steps whole recovery_error)

try_then_steps :
    (i : ℕ) (s : JobState) (result : Option String) (now : Time) (r : Recovered)
    → IsStepwise whole (try_transition i s result now >> pure r)
try_then_steps i s result now r =
    then_steps whole (try_transition i s result now) (pure r) (try_steps i s result now)
      (pure_steps whole r)

recover_steps :
    (kind : RecoveryKind) (i : ℕ) (detail : String) (job : Job) (now now' now'' : Time)
    → IsStepwise whole
        (recover (record { kind = kind; job_id = i; detail = detail }) job now now' now'')
unfolding recover
recover_steps retry_same_session i detail job now now' now'' = requeue_as_steps requeued i now
recover_steps fork_session i detail job now now' now'' = fork_steps job now now' now''
recover_steps report_lost i detail job now now' now'' =
    try_then_steps i needs_controller _ now needs_controller_reported
recover_steps backoff i detail job now now' now'' = requeue_as_steps requeued_with_backoff i now
recover_steps escalate i detail job now now' now'' =
    try_then_steps i failed_permanent _ now escalated
recover_steps (unknown_action name) i detail job now now' now'' = pure_steps whole recovery_error

-- A recovery changes the database by a sequence of steps only, if what runs during the join does so.
pub apply_recovery_steps :
    (joined : System → System)
    → ((s : System) → Reaches s.db (joined s).db)
    → (a : RecoveryAction) (stopped_at now now' now'' : Time) (s : System)
    → Reaches s.db (apply_recovery joined a stopped_at now now' now'' s).1.db
unfolding apply_recovery
apply_recovery_steps joined joins a stopped_at now now' now'' s =
    elim (Option-cases (get_job a.job_id s.db)) [
      | inl e ↦ rw (e, apply_recovery) here
      | inr (job, e) ↦ elim (Bool-cases (has_process job.state)) [
        | inl p ↦
            rw (e, p, apply_recovery)
              (Reaches-trans (cleanup_steps joined joins a.job_id stopped_at s) (
                (recover_steps a.kind a.job_id a.detail job now now' now'').steps
                  (cleanup_running_process joined a.job_id stopped_at s).db))
        | inr p ↦
            rw (e, p, apply_recovery)
              ((recover_steps a.kind a.job_id a.detail job now now' now'').steps s.db)
      ]
    ]
