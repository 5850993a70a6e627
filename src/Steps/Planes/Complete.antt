-- ===== src/Steps/Planes/Complete.antt =====
-- `on_complete` (lib/runner.py), the end of a worker, as steps.
use claude_discord_agent.Prelude.{
  ℕ, ◌||◌, Option, none, some, String, [], ◌∷◌, Bool-cases, Option-cases, inl, inr, pure, ◌>>◌,
}
use claude_discord_agent.Prelude.Int.{pos, negsuc, eq_ℤ}
use claude_discord_agent.Db.Lifecycle.{JobState, failed_permanent, failed_retryable, is_active}
use claude_discord_agent.Db.Types.{Time, idle}
use claude_discord_agent.Db.Jobs.{get_job, transition_job}
use claude_discord_agent.Db.Sessions.{set_state, set_last_heartbeat}
use claude_discord_agent.System.{System}
use claude_discord_agent.Timeparse.{TimeLib}
use claude_discord_agent.Scheduler.Backoff.{BackoffConfig}
use claude_discord_agent.Scheduler.Chain.{Codec}
use claude_discord_agent.Scheduler.Outcome.{on_rate_limit, on_success}
use claude_discord_agent.Watchdog.Check.{try_transition}
use claude_discord_agent.Runner.Run.{pop_process}
use claude_discord_agent.Runner.Complete.{
  Ending, EndTimes, error_message, is_stale, settle, settle_if_active, on_complete,
}
use claude_discord_agent.Steps.{finishes_attempt, swaps_session, perform, Reaches, here, next}
use claude_discord_agent.Steps.Stepwise.{
  Reaches-trans, IsStepwise, then_steps, pure_steps, if_steps, catch_value_steps, on_db_steps,
  whole, inner,
}
use claude_discord_agent.Steps.Planes.Scheduler.{transition_steps}
use claude_discord_agent.Steps.Planes.Success.{on_success_steps}
use claude_discord_agent.Steps.Planes.RateLimit.{on_rate_limit_steps}

pub try_steps :
    (i : ℕ) (s : JobState) (result : Option String) (now : Time)
    → IsStepwise whole (try_transition i s result now)
unfolding try_transition
try_steps i s result now =
    catch_value_steps whole _ _
      (then_steps whole (transition_job i s result now) (pure tt) (transition_steps i s result now)
        (pure_steps whole tt))
      (pure_steps whole tt)

module _ (b : BackoffConfig) (c : Codec) (lib : TimeLib) where
  settle_steps : (r i : ℕ) (e : Ending) (t : EndTimes) → IsStepwise inner (settle b c lib r i e t)
  unfolding settle
  settle_steps r i e t =
      if_steps inner (eq_ℤ e.exit_code (pos 0)) _ _
        (then_steps inner (on_success c lib r i e.result t.moved_at t.parsed_at t.created_at) _
          (on_success_steps c lib r i e.result t.moved_at t.parsed_at t.created_at)
          (pure_steps inner tt))
        (if_steps inner e.is_rate_limited _ _
          (then_steps inner (on_rate_limit b r i t.moved_at t.draw) _
            (on_rate_limit_steps b r i t.moved_at t.draw) (pure_steps inner tt))
          (if_steps inner (eq_ℤ e.exit_code (pos 143) || eq_ℤ e.exit_code (negsuc 14)) _ _
            (on_db_steps
              (try_transition i failed_permanent (some "Killed by SIGTERM (no retry)") t.moved_at)
              (try_steps i failed_permanent _ t.moved_at))
            (on_db_steps (transition_job i failed_retryable none t.moved_at >> pure tt) (
              then_steps whole (transition_job i failed_retryable none t.moved_at) (pure tt)
                (transition_steps i failed_retryable none t.moved_at) (pure_steps whole tt)))))

  settle_active_steps :
      (r i : ℕ) (e : Ending) (t : EndTimes) (s : System)
      → Reaches s.db (settle_if_active b c lib r i e t s).1.db
  unfolding settle_if_active
  settle_active_steps r i e t s = elim (Option-cases (get_job i s.db)) [
    | inl n ↦ rw (n, settle_if_active) here
    | inr (job, n) ↦ elim (Bool-cases (is_active job.state)) [
      | inl a ↦ rw (n, a, settle_if_active) ((settle_steps r i e t).steps s)
      | inr a ↦ rw (n, a, settle_if_active) here
    ]
  ]

  -- The end of a worker, however it ends, is a sequence of steps.
  pub on_complete_steps :
      (r i session_id attempt_id : ℕ) (e : Ending) (t : EndTimes) (s : System)
      → Reaches s.db (on_complete b c lib r i session_id attempt_id e t s).1.db
  unfolding on_complete perform pop_process
  on_complete_steps r i session_id attempt_id e t s =
      elim (Bool-cases (is_stale i attempt_id s.db)) [
        | inl old ↦ rw (old, on_complete) here
        | inr new ↦
            rw (new, on_complete)
              (Reaches-trans
                (next
                  (next here (
                    finishes_attempt attempt_id (some e.exit_code) (error_message e) t.finished_at))
                  (swaps_session session_id attempt_id
                    (set_state idle ∷ set_last_heartbeat t.heartbeat_at ∷ [])))
                (settle_active_steps r i e t _))
      ]
