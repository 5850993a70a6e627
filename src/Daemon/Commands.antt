-- ===== src/Daemon/Commands.antt =====
-- `_process_commands` and the two kill commands of `class Daemon` (lib/daemon.py).
use mathlib.Core.List.{reverse}
use claude_discord_agent.Prelude.{
  ℕ, Bool, false, ◌||◌, Option, none, some, List, [], ◌∷◌, if◌then◌else◌, str_eq, Action, pure,
  gets, modify, total, ◌>>=◌, ◌>>◌,
}
use claude_discord_agent.Db.Lifecycle.{JobState, queued, failed_permanent, is_active, same_state}
use claude_discord_agent.Db.Types.{Job, Attempt, Command, CommandPayload, Time}
use claude_discord_agent.Db.Jobs.{list_jobs, default_limit}
use claude_discord_agent.Db.Attempts.{get_attempts}
use claude_discord_agent.Db.Commands.{poll_commands}
use claude_discord_agent.System.{System, on_db, with_db}
use claude_discord_agent.Watchdog.Check.{try_transition}
use claude_discord_agent.Runner.Run.{stop_job}

-- The loop over the attempts, the newest first: it stops the first process that it finds.
unfoldable pub stop_newest : List Attempt → System → System
stop_newest [] s = s
stop_newest (a ∷ as') s =
    let (stopped, s') = stop_job a.id s in
    let rest = stop_newest as' s' in if stopped then s' else rest

unfoldable pub kill_job : ℕ → Time → Action System (Unit {0})
unfolding stop_newest
kill_job job_id now = do
  attempts ← gets (λ s. get_attempts job_id s.db)
  modify (stop_newest (reverse attempts))
  on_db (try_transition job_id failed_permanent (some "Killed by user") now)

-- `job["state"] in ("queued", "starting", "running")`
abbrev pub is_killable : JobState → Bool
is_killable s = same_state s queued || is_active s

unfoldable pub kill_each : (ℕ → Time) → List Job → Action System (Unit {0})
kill_each clock [] = pure tt
kill_each clock (j ∷ js) =
    let rest = kill_each clock js in
    if is_killable j.state then (kill_job j.id (clock j.id) >> rest) else rest

unfoldable pub kill_repo : ℕ → (ℕ → Time) → Action System (Unit {0})
unfolding kill_each
kill_repo repo_id clock s =
    kill_each clock (list_jobs (some repo_id) none default_limit none s.db) s

-- `payload.get(key)`, where a missing payload is an empty one.
abbrev pub payload_job : Option CommandPayload → Option ℕ
payload_job none = none
payload_job (some p) = p.job_id

abbrev pub payload_repo : Option CommandPayload → Option ℕ
payload_repo none = none
payload_repo (some p) = p.repo_id

-- `clock` is read at each job that is killed. The result says whether the daemon goes on.
unfoldable pub process_command : (ℕ → Time) → Command → Bool → Action System Bool
process_command clock cmd running =
    if str_eq cmd.command "kill_job"
    then elim (payload_job cmd.payload) [
      | none ↦ pure running
      | some job_id ↦ kill_job job_id (clock job_id) >> pure running
    ]
    else if str_eq cmd.command "kill_repo"
    then elim (payload_repo cmd.payload) [
      | none ↦ pure running
      | some repo_id ↦ kill_repo repo_id clock >> pure running
    ]
    else if str_eq cmd.command "shutdown"
    then pure false
    else pure running

unfoldable pub process_each : (ℕ → Time) → List Command → Bool → Action System Bool
unfolding process_command
process_each clock [] running = pure running
process_each clock (c ∷ cs) running =
    process_command clock c running >>= λ running'. process_each clock cs running'

unfoldable pub process_commands : (ℕ → Time) → Bool → Action System Bool
unfolding process_each
process_commands clock running = do
  commands ← total (with_db (poll_commands 10))
  process_each clock commands running
