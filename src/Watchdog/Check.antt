-- ===== src/Watchdog/Check.antt =====
-- The health checks of `class Watchdog` (lib/watchdog.py): `check_all` and what it calls.
use Prim.Native.String.{◌++◌ as append}
use claude_discord_agent.Prelude.{
  ℕ, ◌+◌, Bool, false, not, Option, none, some, String, List, [], ◌∷◌, ◌++◌, ltb, leb, ◌==◌,
  if◌then◌else◌, is_none, length, last, Action, pure, gets, catch_value_error, ◌>>=◌, ◌>>◌,
}
use claude_discord_agent.Table.{find}
use claude_discord_agent.Db.Lifecycle.{JobState, running, starting, timed_out, lost}
use claude_discord_agent.Db.Types.{Db, Job, Attempt, Time}
use claude_discord_agent.Db.Jobs.{transition_job, list_jobs, default_limit}
use claude_discord_agent.Db.Attempts.{get_attempts}
use claude_discord_agent.System.{System, Process, on_db}

-- RecoveryAction.action
pub data RecoveryKind : Type 0 where
  retry_same_session fork_session report_lost backoff escalate : RecoveryKind
  unknown_action : String → RecoveryKind

pub record RecoveryAction : Type 0 where
  pub kind : RecoveryKind
  pub job_id : ℕ
  pub detail : String

-- The thresholds, and how an f-string shows a number.
pub record WatchdogConfig : Type 0 where
  pub heartbeat_timeout : Time
  pub job_timeout : Time
  pub show : ℕ → String

-- `Runner.get_process`
unfoldable pub get_process : ℕ → System → Option Process
get_process attempt_id s = find (λ p. p.attempt_id == attempt_id) s.processes

-- `proc.idle_seconds > limit`, where no event yet counts as not idle.
abbrev pub is_idle_longer : Process → Time → Time → Bool
is_idle_longer p limit now =
    if p.last_event_time == 0 then false else ltb (p.last_event_time + limit) now

-- `try: transition_job(…) except ValueError: pass`
unfoldable pub try_transition : ℕ → JobState → Option String → Time → Action Db (Unit {0})
try_transition job_id new_state result now =
    catch_value_error (transition_job job_id new_state result now >> pure tt) (pure tt)

module _ (c : WatchdogConfig) where
  -- One attempt is retried on its session, later ones on a new session.
  abbrev pub timeout_kind : ℕ → RecoveryKind
  timeout_kind attempt_count = if leb attempt_count 1 then retry_same_session else fork_session

  unfoldable pub timeout_detail : ℕ → String
  timeout_detail attempt_count = append "Timed out after " (
      append (c.show attempt_count) (
        if leb attempt_count 1
        then " attempt(s), will retry on same session"
        else " attempt(s), will fork to new session"))

  unfoldable pub handle_timeout : Job → Time → Action Db RecoveryAction
  handle_timeout job now = do
    attempts ← gets (get_attempts job.id)
    try_transition job.id timed_out none now
    pure (record {
      kind = timeout_kind (length attempts);
      job_id = job.id;
      detail = timeout_detail (length attempts);
    })

  unfoldable pub handle_lost : Job → Attempt → Time → Action Db RecoveryAction
  handle_lost job attempt now = do
    try_transition job.id lost none now
    pure (record {
      kind = report_lost;
      job_id = job.id;
      detail =
          append "Process lost (attempt "
            (append (c.show attempt.attempt_num) "), reporting to controller");
    })

  abbrev pub as_some : Action Db RecoveryAction → Action Db (Option RecoveryAction)
  as_some m = m >>= λ a. pure (some a)

  -- `now` is the time of the check, `now'` that of the transition.
  unfoldable pub check_attempt :
      Job → Attempt → Option Process → Time → Time → Action Db (Option RecoveryAction)
  check_attempt job attempt proc now now' =
      if ltb (attempt.started_at + c.job_timeout) now
      then as_some (handle_timeout job now')
      else elim proc [
        | none ↦
            if is_none attempt.finished_at
            then as_some (handle_lost job attempt now')
            else pure none
        | some p ↦
            if not p.is_alive
            then pure none
            else if is_idle_longer p c.heartbeat_timeout now
            then as_some (handle_timeout job now')
            else pure none
      ]

  unfoldable pub check_job : Job → Time → Time → Action System (Option RecoveryAction)
  unfolding check_attempt
  check_job job now now' s = elim (last (get_attempts job.id s.db)) [
    | none ↦ pure none s
    | some attempt ↦ on_db (check_attempt job attempt (get_process attempt.id s) now now') s
  ]

  abbrev pub add_action : Option RecoveryAction → List RecoveryAction → List RecoveryAction
  add_action none as' = as'
  add_action (some a) as' = a ∷ as'

  -- The two clock readings at each job.
  unfoldable pub check_each :
      (ℕ → Time) → (ℕ → Time) → List Job → Action System (List RecoveryAction)
  check_each clock clock' [] = pure []
  check_each clock clock' (j ∷ js) =
      let rest = check_each clock clock' js in
      check_job j (clock j.id) (clock' j.id) >>= λ action.
      rest >>= λ actions. pure (add_action action actions)

  unfoldable pub check_all : (ℕ → Time) → (ℕ → Time) → Action System (List RecoveryAction)
  unfolding check_each
  check_all clock clock' s =
      check_each clock clock'
        (list_jobs none (some running) default_limit none s.db
          ++ list_jobs none (some starting) default_limit none s.db)
        s
