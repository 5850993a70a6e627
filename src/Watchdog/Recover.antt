-- ===== src/Watchdog/Recover.antt =====
-- The recovery of `class Watchdog` (lib/watchdog.py): `apply_recovery` and the cleanup before it.
use Prim.Native.String.{◌++◌ as append}
use claude_discord_agent.Prelude.{
  ℕ, Bool, true, false, Option, none, some, [], ◌∷◌, ◌==◌, if◌then◌else◌, is_none, last, Action,
  pure, total, catch_value_error, ◌>>=◌, ◌>>◌,
}
use claude_discord_agent.Prelude.Int.{negsuc}
use claude_discord_agent.Table.{update}
use claude_discord_agent.Db.Lifecycle.{
  JobState, queued, running, starting, timed_out, lost, failed_permanent, needs_controller,
}
use claude_discord_agent.Db.Types.{Db, Job, Attempt, Time, idle, dead}
use claude_discord_agent.Db.Jobs.{get_job, transition_job}
use claude_discord_agent.Db.Sessions.{SessionField, set_state, update_session, create_session}
use claude_discord_agent.Db.Attempts.{get_attempts, finish_attempt}
use claude_discord_agent.System.{System, on_db, change_db}
use claude_discord_agent.Watchdog.Check.{
  RecoveryAction, retry_same_session, fork_session, report_lost, backoff, escalate, unknown_action,
  get_process, try_transition,
}

-- `ClaudeProcess.stop`, as far as the other planes see it.
abbrev pub stop_process : ℕ → System → System
stop_process attempt_id s = record s {
  processes =
      update (λ p. p.attempt_id == attempt_id) (λ p. record p { is_alive = false }) s.processes;
}

-- `update_session(session_id, state=…)` where the attempt has a session.
unfoldable pub set_session_of : Option ℕ → SessionField → Db → Db
set_session_of none field db = db
set_session_of (some session_id) field db = (update_session session_id (field ∷ []) db).1

-- Stop the process, if there is one. `joined` is what its reader threads do before the join
-- returns: the call of `on_complete`, or nothing if they do not end in time.
unfoldable pub stop_and_join : (System → System) → ℕ → System → System
stop_and_join joined attempt_id s = elim (get_process attempt_id s) [
  | none ↦ s
  | some p ↦ joined (stop_process attempt_id s)
]

-- `finish_attempt` where the newest attempt has not ended by itself.
unfoldable pub finish_stopped : ℕ → Attempt → Time → Db → Db
finish_stopped attempt_id fresh now db =
    if is_none fresh.finished_at
    then (finish_attempt attempt_id (some (negsuc 0)) (some "Stopped by watchdog") now db).1
    else db

-- The last two steps of the cleanup, on the attempts as they are after the join.
unfoldable pub release : ℕ → Attempt → Attempt → Time → Db → Db
unfolding finish_stopped set_session_of
release attempt_id stale fresh now db =
    set_session_of fresh.session_id (set_state idle) (finish_stopped attempt_id fresh now db)

unfoldable pub cleanup_running_process : (System → System) → ℕ → Time → System → System
unfolding stop_and_join release
cleanup_running_process joined job_id now s = elim (last (get_attempts job_id s.db)) [
  | none ↦ s
  | some latest ↦
      let s' = stop_and_join joined latest.id s in
      elim (last (get_attempts job_id s'.db)) [
        | none ↦ change_db (set_session_of latest.session_id (set_state idle)) s'
        | some fresh ↦ change_db (release latest.id latest fresh now) s'
      ]
]

-- `_mark_old_session_dead`: the session of the newest attempt.
unfoldable pub mark_old_session_dead : ℕ → Db → Option ℕ × Db
unfolding set_session_of
mark_old_session_dead job_id db = elim (last (get_attempts job_id db)) [
  | none ↦ (none, db)
  | some latest ↦ (latest.session_id, set_session_of latest.session_id (set_state dead) db)
]

-- What `apply_recovery` reports.
pub data Recovered : Type 0 where
  requeued requeued_with_backoff needs_controller_reported escalated failed : Recovered
  requeued_for_new_session : Option ℕ → ℕ → Recovered
  -- `{"error": …}`
  recovery_error : Recovered

-- `job["state"] in ("running", "starting", "timed_out", "lost")`
abbrev pub has_process : JobState → Bool
has_process running = true
has_process starting = true
has_process timed_out = true
has_process lost = true
has_process _ = false

-- Back to the queue, or an error report.
unfoldable pub requeue_as : Recovered → ℕ → Time → Action Db Recovered
requeue_as report job_id now =
    catch_value_error (transition_job job_id queued none now >> pure report) (pure recovery_error)

unfoldable pub recover_fork : Job → Time → Time → Time → Action Db Recovered
unfolding mark_old_session_dead
recover_fork job now now' now'' = do
  old_session_id ← total (mark_old_session_dead job.id)
  new_session_id ← create_session job.repo_id none now
  catch_value_error
      (transition_job job.id queued none now'
        >> pure (requeued_for_new_session old_session_id new_session_id))
      (try_transition job.id failed_permanent (some "Max retries exceeded after fork") now''
        >> pure failed)

-- The branches on the action, once the cleanup is done.
unfoldable pub recover : RecoveryAction → Job → Time → Time → Time → Action Db Recovered
unfolding requeue_as recover_fork
recover action job now now' now'' = elim action.kind [
  | retry_same_session ↦ requeue_as requeued action.job_id now
  | fork_session ↦ recover_fork job now now' now''
  | report_lost ↦
      try_transition action.job_id needs_controller (some "Process lost, needs manual intervention")
        now
      >> pure needs_controller_reported
  | backoff ↦ requeue_as requeued_with_backoff action.job_id now
  | escalate ↦
      try_transition action.job_id failed_permanent (some (append "Escalated: " action.detail)) now
      >> pure escalated
  | unknown_action name ↦ pure recovery_error
]

-- `stopped_at` is the clock in the cleanup, the other times are its readings after that.
unfoldable pub apply_recovery :
    (System → System) → RecoveryAction → Time → Time → Time → Time → Action System Recovered
unfolding cleanup_running_process recover
apply_recovery joined action stopped_at now now' now'' s = elim (get_job action.job_id s.db) [
  | none ↦ pure recovery_error s
  | some job ↦
      let s' =
        if has_process job.state
        then cleanup_running_process joined action.job_id stopped_at s
        else s in
      on_db (recover action job now now' now'') s'
]
