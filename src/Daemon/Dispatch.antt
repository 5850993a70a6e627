-- ===== src/Daemon/Dispatch.antt =====
-- `_dispatch_queued_jobs`, `_run_watchdog` and `_tick` of `class Daemon` (lib/daemon.py).
use claude_discord_agent.Prelude.{
  ℕ, zero, suc, ◌+◌, Bool, Option, none, some, List, [], ◌∷◌, leb, if◌then◌else◌, first, Action,
  pure, modify, catch_any, ◌>>=◌, ◌>>◌,
}
use claude_discord_agent.Db.Types.{Db, Job, Time, idle}
use claude_discord_agent.Db.Sessions.{list_sessions, create_session}
use claude_discord_agent.System.{System, on_db}
use claude_discord_agent.Scheduler.Dispatch.{next_job}
use claude_discord_agent.Scheduler.Recovery.{drive_recovery}
use claude_discord_agent.Runner.Run.{RunTimes, Start, run_job}
use claude_discord_agent.Supervisor.Fallback.{SupervisorConfig}
use claude_discord_agent.Supervisor.Drive.{Answers, tick}
use claude_discord_agent.Watchdog.Check.{WatchdogConfig, RecoveryAction, check_all}
use claude_discord_agent.Watchdog.Recover.{apply_recovery}
use claude_discord_agent.Daemon.Commands.{process_commands}

-- The idle session that was made last, or a new one.
unfoldable pub session_for : ℕ → Time → Action Db ℕ
session_for repo_id now db = elim (first (list_sessions (some repo_id) (some idle) db)) [
  | none ↦ create_session repo_id none now db
  | some s ↦ pure s.id db
]

-- What the world does in one round of the dispatch loop: the clock in `next_job` (and at each job
-- that it looks at), in `create_session` and in `run_job`, the process that is started, and what
-- the reader threads do before it is entered.
pub record Round : Type 0 where
  pub now : Time
  pub clock : ℕ → Time
  pub session_at : Time
  pub times : RunTimes
  pub started : Start
  pub early : ℕ → System → System

-- One job: find a session and run it; every exception of `run_job` is logged.
unfoldable pub start_job : Round → Job → Action System (Unit {0})
unfolding session_for
start_job round job = do
  session_id ← on_db (session_for job.repo_id round.session_at)
  catch_any (run_job round.early job.id session_id round.started round.times >> pure tt) (pure tt)

-- The `while True` loop on fuel: `some` says that it has ended by `break`.
unfoldable pub dispatch_loop : ℕ → ℕ → (ℕ → Round) → Action System (Option (Unit {0}))
dispatch_loop zero global_max_concurrency world s = pure none s
dispatch_loop (suc fuel) global_max_concurrency world s =
    let (job, s') = next_job global_max_concurrency none (world fuel).now (world fuel).clock s in
    let rest = dispatch_loop fuel global_max_concurrency world in
    elim job [ none ↦ pure (some tt) s' | some j ↦ (start_job (world fuel) j >> rest) s' ]

-- The readings of the clock at a recovery, and what the reader threads do at the join.
pub record Rescue : Type 0 where
  pub joined : System → System
  pub stopped_at : Time
  pub now : Time
  pub now' : Time
  pub now'' : Time

unfoldable pub apply_each : (ℕ → Rescue) → List RecoveryAction → Action System (Unit {0})
apply_each rescue [] = pure tt
apply_each rescue (a ∷ as') =
    let rest = apply_each rescue as' in
    apply_recovery (rescue a.job_id).joined a (rescue a.job_id).stopped_at (rescue a.job_id).now
      (rescue a.job_id).now' (rescue a.job_id).now''
    >> rest

unfoldable pub run_watchdog :
    WatchdogConfig → (ℕ → Time) → (ℕ → Time) → (ℕ → Rescue) → Action System (Unit {0})
unfolding apply_each
run_watchdog c clock clock' rescue =
    check_all c clock clock' >>= λ actions. apply_each rescue actions

-- `_running` and `_last_watchdog_check`
pub record Loop : Type 0 where
  pub running : Bool
  pub last_watchdog_check : Time

-- The settings of the planes, and all that the world answers in one tick.
pub record TickInput : Type 0 where
  pub global_max_concurrency : ℕ
  pub watchdog_interval : Time
  pub watchdog : WatchdogConfig
  pub supervisor : SupervisorConfig
  pub kill_clock : ℕ → Time
  pub backoff_clock : ℕ → Time
  pub requeue_clock : ℕ → Time
  pub fuel : ℕ
  pub world : ℕ → Round
  pub now : Time
  pub check_clock : ℕ → Time
  pub handle_clock : ℕ → Time
  pub rescue : ℕ → Rescue
  pub answers : ℕ → Answers

-- The watchdog runs once its interval has passed.
unfoldable pub watchdog_step : TickInput → Loop → Action System Loop
watchdog_step i l =
    if leb (l.last_watchdog_check + i.watchdog_interval) i.now
    then (run_watchdog i.watchdog i.check_clock i.handle_clock i.rescue
        >> pure (record l { last_watchdog_check = i.now }))
    else pure l

unfoldable pub daemon_tick : TickInput → Loop → Action System Loop
unfolding watchdog_step
daemon_tick i l = do
  running ← process_commands i.kill_clock l.running
  drive_recovery i.backoff_clock i.requeue_clock
  dispatch_loop i.fuel i.global_max_concurrency i.world
  l' ← watchdog_step i (record l { running = running })
  modify (tick i.supervisor i.answers)
  pure l'
