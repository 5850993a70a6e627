-- ===== src/Runner/Complete.antt =====
-- The closures `on_event` and `on_complete` of `Runner.run_job` (lib/runner.py).
use claude_discord_agent.Prelude.{
  ℕ, Bool, false, ◌||◌, not, Option, none, some, String, [], ◌∷◌, ◌==◌, if◌then◌else◌, last, Action,
  pure, modify, total, catch_any, ◌>>◌, is_set,
}
use claude_discord_agent.Prelude.Int.{ℤ, pos, negsuc, eq_ℤ}
use claude_discord_agent.Db.Lifecycle.{failed_permanent, failed_retryable, is_active}
use claude_discord_agent.Db.Types.{Db, Time, idle}
use claude_discord_agent.Db.Jobs.{get_job, transition_job}
use claude_discord_agent.Db.Sessions.{set_state, set_last_heartbeat, cas_update_session}
use claude_discord_agent.Db.Attempts.{get_attempts, finish_attempt, add_event}
use claude_discord_agent.System.{System, with_db, on_db}
use claude_discord_agent.Timeparse.{TimeLib}
use claude_discord_agent.Scheduler.Backoff.{BackoffConfig}
use claude_discord_agent.Scheduler.Chain.{Codec}
use claude_discord_agent.Scheduler.Outcome.{on_success, on_rate_limit}
use claude_discord_agent.Watchdog.Check.{try_transition}
use claude_discord_agent.Runner.Run.{pop_process}

-- A failure to record an event is ignored.
unfoldable pub on_event : ℕ → String → String → Time → Action Db (Unit {0})
on_event attempt_id event_type event_data now =
    catch_any (add_event attempt_id event_type (some event_data) now >> pure tt) (pure tt)

-- How a worker has ended.
pub record Ending : Type 0 where
  pub exit_code : ℤ
  pub result : Option String
  pub is_rate_limited : Bool

-- The readings of the clock in `on_complete`, and the random number for the backoff.
pub record EndTimes : Type 0 where
  pub finished_at : Time
  pub heartbeat_at : Time
  pub moved_at : Time
  pub parsed_at : Time
  pub created_at : Time
  pub draw : ℕ

-- `None if exit_code == 0 else (result or "Unknown error")`
abbrev pub error_message : Ending → Option String
error_message e =
    if eq_ℤ e.exit_code (pos 0)
    then none
    else if is_set e.result
    then e.result
    else some "Unknown error"

-- The newest attempt of the job is another one.
unfoldable pub is_stale : ℕ → ℕ → Db → Bool
is_stale job_id attempt_id db = elim (last (get_attempts job_id db)) [
  | none ↦ false
  | some a ↦ not (a.id == attempt_id)
]

module _ (backoff : BackoffConfig) (codec : Codec) (lib : TimeLib) where
  -- By the exit code, for a job that is still starting or running.
  unfoldable pub settle : ℕ → ℕ → Ending → EndTimes → Action System (Unit {0})
  settle repo_id job_id e t =
      if eq_ℤ e.exit_code (pos 0)
      then (on_success codec lib repo_id job_id e.result t.moved_at t.parsed_at t.created_at
          >> pure tt)
      else if e.is_rate_limited
      then (on_rate_limit backoff repo_id job_id t.moved_at t.draw >> pure tt)
      else if eq_ℤ e.exit_code (pos 143) || eq_ℤ e.exit_code (negsuc 14)
      then on_db
          (try_transition job_id failed_permanent (some "Killed by SIGTERM (no retry)") t.moved_at)
      else on_db (transition_job job_id failed_retryable none t.moved_at >> pure tt)

  unfoldable pub settle_if_active : ℕ → ℕ → Ending → EndTimes → Action System (Unit {0})
  unfolding settle
  settle_if_active repo_id job_id e t s = elim (get_job job_id s.db) [
    | none ↦ pure tt s
    | some job ↦ if is_active job.state then settle repo_id job_id e t s else pure tt s
  ]

  -- `repo_id` is that of the job when it was started.
  unfoldable pub on_complete : ℕ → ℕ → ℕ → ℕ → Ending → EndTimes → Action System (Unit {0})
  unfolding is_stale settle_if_active
  on_complete repo_id job_id session_id attempt_id e t s =
      if is_stale job_id attempt_id s.db
      then pure tt (pop_process attempt_id s)
      else (do
        total
            (with_db (finish_attempt attempt_id (some e.exit_code) (error_message e) t.finished_at))
        total (
            with_db (
              cas_update_session session_id attempt_id
                (set_state idle ∷ set_last_heartbeat t.heartbeat_at ∷ [])))
        modify (pop_process attempt_id)
        settle_if_active repo_id job_id e t)
          s
