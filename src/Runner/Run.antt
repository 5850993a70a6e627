-- ===== src/Runner/Run.antt =====
-- `Runner.run_job` (lib/runner.py) and the methods on its processes.
use claude_discord_agent.Prelude.{
  ℕ, ◌+◌, Bool, true, false, none, some, List, [], ◌∷◌, ◌==◌, if◌then◌else◌, Action, pure, raise,
  modify, total, ◌>>=◌, ◌>>◌, runner_error, os_error,
}
use claude_discord_agent.Prelude.Int.{negsuc}
use claude_discord_agent.Table.{find, delete}
use claude_discord_agent.Db.Lifecycle.{starting, running, failed_retryable}
use claude_discord_agent.Db.Types.{Db, Time, idle, busy}
use claude_discord_agent.Db.Jobs.{repo_is, get_job, transition_job}
use claude_discord_agent.Db.Sessions.{
  set_state, set_last_heartbeat, set_current_attempt_id, set_pid, update_session,
}
use claude_discord_agent.Db.Attempts.{create_attempt, finish_attempt}
use claude_discord_agent.System.{System, Process, with_db, on_db}
use claude_discord_agent.Watchdog.Check.{get_process}
use claude_discord_agent.Watchdog.Recover.{stop_process}

-- `self._processes[attempt_id] = proc`
abbrev pub add_process : Process → System → System
add_process p s = record s { processes = p ∷ s.processes }

-- `self._processes.pop(attempt_id, None)`
unfoldable pub pop_process : ℕ → System → System
pop_process attempt_id s = record s {
  processes = delete (λ p. p.attempt_id == attempt_id) s.processes;
}

-- The readings of the clock, in the order in which `run_job` makes them.
pub record RunTimes : Type 0 where
  pub attempt_at : Time
  pub starting_at : Time
  pub heartbeat_at : Time
  pub running_at : Time
  pub process_at : Time
  pub finished_at : Time
  pub failed_at : Time

-- What `Popen` does: a process, `FileNotFoundError`, or another `OSError`.
pub data Start : Type 0 where
  process : ℕ → Start
  cli_missing start_failed : Start

-- The two lookups that raise `RunnerError`.
unfoldable pub check_job_and_repo : ℕ → Action Db (Unit {0})
check_job_and_repo job_id db = elim (get_job job_id db) [
  | none ↦ raise runner_error db
  | some job ↦ elim (find (repo_is job.repo_id) db.repos.rows) [
    | none ↦ raise runner_error db
    | some repo ↦ pure tt db
  ]
]

-- All up to the start of the process: the result is the attempt.
unfoldable pub prepare_run : ℕ → ℕ → RunTimes → Action Db ℕ
unfolding check_job_and_repo
prepare_run job_id session_id t = do
  check_job_and_repo job_id
  attempt_id ← create_attempt job_id (some session_id) t.attempt_at
  transition_job job_id starting none t.starting_at
  total (
      update_session session_id (
        set_state busy
        ∷ set_last_heartbeat t.heartbeat_at
        ∷ set_current_attempt_id attempt_id
        ∷ []))
  transition_job job_id running none t.running_at
  pure attempt_id

-- The `except RunnerError` branch.
unfoldable pub undo_run : ℕ → ℕ → ℕ → RunTimes → Action Db ℕ
undo_run job_id session_id attempt_id t = do
  total (
      finish_attempt attempt_id (some (negsuc 0)) (some "Failed to start claude process")
        t.finished_at)
  total (update_session session_id (set_state idle ∷ []))
  transition_job job_id failed_retryable none t.failed_at
  raise runner_error

-- `early` is what the reader threads do before the process is entered: the call of `on_complete` of
-- a worker that ends at once, or nothing.
unfoldable pub run_job : (ℕ → System → System) → ℕ → ℕ → Start → RunTimes → Action System ℕ
unfolding prepare_run undo_run
run_job early job_id session_id started t = do
  attempt_id ← on_db (prepare_run job_id session_id t)
  elim started [
    | cli_missing ↦ on_db (undo_run job_id session_id attempt_id t)
    | start_failed ↦ raise os_error
    | process pid ↦ do
      modify (early attempt_id)
      total (with_db (update_session session_id (set_pid pid ∷ [])))
      modify (
          add_process
            (record { attempt_id = attempt_id; is_alive = true; last_event_time = t.process_at }))
      pure attempt_id
  ]

-- `stop_job`: is there a process to stop?
unfoldable pub stop_job : ℕ → System → Bool × System
stop_job attempt_id s = elim (get_process attempt_id s) [
  | none ↦ (false, s)
  | some p ↦ (true, stop_process attempt_id s)
]

unfoldable pub stop_each : List Process → ℕ → System → ℕ × System
unfolding stop_job
stop_each [] n s = (n, s)
stop_each (p ∷ ps) n s =
    let (stopped, s') = stop_job p.attempt_id s in stop_each ps (if stopped then n + 1 else n) s'

unfoldable pub stop_all : System → ℕ × System
unfolding stop_each
stop_all s = stop_each s.processes 0 s
