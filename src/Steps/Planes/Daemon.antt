-- ===== src/Steps/Planes/Daemon.antt =====
-- `run_job` (lib/runner.py) and a tick of the daemon (lib/daemon.py) as steps.
use claude_discord_agent.Prelude.{
  ℕ, zero, suc, ◌+◌, ◌≡◌, refl, ◌∙◌, Option, none, some, List, [], ◌∷◌, leb, first, Option-cases,
  inl, inr, modify, total, runner_error, os_error, subst, sym,
}
use claude_discord_agent.Prelude.Int.{negsuc}
use claude_discord_agent.Table.{find}
use claude_discord_agent.Db.Lifecycle.{starting, running, failed_retryable, queued}
use claude_discord_agent.Db.Types.{Db, Job, Time, idle, busy}
use claude_discord_agent.Db.Jobs.{repo_is, get_job, transition_job, list_jobs, default_limit}
use claude_discord_agent.Db.Sessions.{
  SessionField, set_state, set_last_heartbeat, set_current_attempt_id, set_pid, update_session,
  list_sessions,
}
use claude_discord_agent.Db.Attempts.{create_attempt, finish_attempt}
use claude_discord_agent.System.{System, on_db, with_db}
use claude_discord_agent.Scheduler.Dispatch.{can_run, runnable, next_job}
use claude_discord_agent.Scheduler.Backoff.{is_backed_off}
use claude_discord_agent.Scheduler.Recovery.{drive_recovery}
use claude_discord_agent.Supervisor.Drive.{tick}
use claude_discord_agent.Watchdog.Check.{RecoveryAction, WatchdogConfig, check_all}
use claude_discord_agent.Watchdog.Recover.{apply_recovery}
use claude_discord_agent.Runner.Run.{
  RunTimes, Start, process, cli_missing, start_failed, check_job_and_repo, prepare_run, undo_run,
  run_job, add_process,
}
use claude_discord_agent.Daemon.Commands.{process_commands}
use claude_discord_agent.Daemon.Dispatch.{
  session_for, Round, start_job, dispatch_loop, Rescue, apply_each, run_watchdog, Loop, TickInput,
  watchdog_step, daemon_tick,
}
use claude_discord_agent.Steps.{
  creates_session, updates_session, creates_attempt, finishes_attempt, perform, Reaches, here, next,
}
use claude_discord_agent.Steps.Stepwise.{
  Reaches-trans, IsStepwise, bind_steps, then_steps, pure_steps, raise_steps, if_steps,
  modify_steps, total_steps, catch_any_steps, on_db_steps, whole, inner,
}
use claude_discord_agent.Steps.Planes.Scheduler.{transition_steps, drive_recovery_steps}
use claude_discord_agent.Steps.Planes.Supervisor.{tick_steps}
use claude_discord_agent.Steps.Planes.Commands.{process_commands_steps}
use claude_discord_agent.Steps.Planes.Check.{check_all_steps}
use claude_discord_agent.Steps.Planes.Watchdog.{apply_recovery_steps}

-- Looking for the next job leaves the database alone.
can_run-db : (g r : ℕ) (now : Time) (s : System) → (can_run g r now s).1.db ≡ s.db
unfolding can_run is_backed_off
can_run-db g r now s = refl

runnable-db :
    (g : ℕ) (clock : ℕ → Time) (js : List Job) (s : System) → (runnable g clock js s).1.db ≡ s.db
unfolding runnable
runnable-db g clock [] s = refl
runnable-db g clock (j ∷ js) s =
    runnable-db g clock js (can_run g j.repo_id (clock j.id) s).1
    ∙ can_run-db g j.repo_id (clock j.id) s

pub next_job-db :
    (g : ℕ) (now : Time) (clock : ℕ → Time) (s : System) → (next_job g none now clock s).1.db ≡ s.db
unfolding next_job
next_job-db g now clock s =
    runnable-db g clock (list_jobs none (some queued) default_limit (some now) s.db) s

session_steps :
    (i : ℕ) (fields : List SessionField) → IsStepwise whole (total (update_session i fields))
unfolding perform
session_steps i fields =
    total_steps whole (update_session i fields) (λ db. next here (updates_session i fields))

session_for-Reaches : (r : ℕ) (now : Time) (db : Db) → Reaches db (session_for r now db).1
unfolding session_for perform
session_for-Reaches r now db = elim (Option-cases (first (list_sessions (some r) (some idle) db))) [
  | inl e ↦ rw (e, session_for) (next here (creates_session r none now))
  | inr (x, e) ↦ rw (e, session_for) here
]

check_job-Reaches : (i : ℕ) (db : Db) → Reaches db (check_job_and_repo i db).1
unfolding check_job_and_repo
check_job-Reaches i db = elim (Option-cases (get_job i db)) [
  | inl e ↦ rw (e, check_job_and_repo) here
  | inr (job, e) ↦ elim (Option-cases (find (repo_is job.repo_id) db.repos.rows)) [
    | inl f ↦ rw (e, f, check_job_and_repo) here
    | inr (repo, f) ↦ rw (e, f, check_job_and_repo) here
  ]
]

attempt_steps : (i : ℕ) (o : Option ℕ) (now : Time) → IsStepwise whole (create_attempt i o now)
unfolding perform
attempt_steps i o now = record { steps = λ db. next here (creates_attempt i o now) }

module _ (i session_id : ℕ) (t : RunTimes) where
  prepare_steps : IsStepwise whole (prepare_run i session_id t)
  unfolding prepare_run
  prepare_steps =
      then_steps whole (check_job_and_repo i) _ (record { steps = check_job-Reaches i })
        (bind_steps whole (create_attempt i (some session_id) t.attempt_at) _
          (attempt_steps i (some session_id) t.attempt_at)
          (λ a.
            then_steps whole (transition_job i starting none t.starting_at) _
              (transition_steps i starting none t.starting_at)
              (then_steps whole
                (total (
                  update_session session_id (
                    set_state busy
                    ∷ set_last_heartbeat t.heartbeat_at
                    ∷ set_current_attempt_id a
                    ∷ [])))
                _ (session_steps session_id _)
                (then_steps whole (transition_job i running none t.running_at) _
                  (transition_steps i running none t.running_at) (pure_steps whole a)))))

  undo_steps : (a : ℕ) → IsStepwise whole (undo_run i session_id a t)
  unfolding undo_run perform
  undo_steps a =
      then_steps whole
        (total (
          finish_attempt a (some (negsuc 0)) (some "Failed to start claude process") t.finished_at))
        _
        (total_steps whole _ (λ db. next here (
          finishes_attempt a (some (negsuc 0)) (some "Failed to start claude process")
            t.finished_at)))
        (then_steps whole (total (update_session session_id (set_state idle ∷ []))) _
          (session_steps session_id (set_state idle ∷ []))
          (then_steps whole (transition_job i failed_retryable none t.failed_at) _
            (transition_steps i failed_retryable none t.failed_at)
            (raise_steps whole runner_error)))

  module _ (early : ℕ → System → System)
      (stepwise : (a : ℕ) (s : System) → Reaches s.db (early a s).db) where
    run_steps : (started : Start) → IsStepwise inner (run_job early i session_id started t)
    unfolding run_job perform
    run_steps cli_missing =
        bind_steps inner (on_db (prepare_run i session_id t)) _
          (on_db_steps (prepare_run i session_id t) prepare_steps)
          (λ a. on_db_steps (undo_run i session_id a t) (undo_steps a))
    run_steps start_failed =
        bind_steps inner (on_db (prepare_run i session_id t)) _
          (on_db_steps (prepare_run i session_id t) prepare_steps) (λ a. raise_steps inner os_error)
    run_steps (process pid) =
        bind_steps inner (on_db (prepare_run i session_id t)) _
          (on_db_steps (prepare_run i session_id t) prepare_steps)
          (λ a. then_steps inner (modify (early a)) _ (modify_steps inner (early a) (stepwise a)) (
            then_steps inner (total (with_db (update_session session_id (set_pid pid ∷ [])))) _
              (total_steps inner _ (λ s. next here (updates_session session_id (set_pid pid ∷ []))))
              (then_steps inner (modify (add_process _)) _ (modify_steps inner _ (λ s. here))
                (pure_steps inner a))))

-- What the reader threads do in a round of the dispatch loop is a sequence of steps.
abbrev pub IsEarlyStepwise : Round → Type 0
IsEarlyStepwise round = (a : ℕ) (s : System) → Reaches s.db (round.early a s).db

pub start_steps :
    (round : Round) (job : Job) → IsEarlyStepwise round → IsStepwise inner (start_job round job)
unfolding start_job
start_steps round job h =
    bind_steps inner (on_db (session_for job.repo_id round.session_at)) _
      (on_db_steps _ (record { steps = session_for-Reaches job.repo_id round.session_at }))
      (λ session_id.
        catch_any_steps inner _ _
          (then_steps inner (run_job round.early job.id session_id round.started round.times) _
            (run_steps job.id session_id round.times round.early h round.started)
            (pure_steps inner tt))
          (pure_steps inner tt))

module _ (g : ℕ) (world : ℕ → Round) (h : (n : ℕ) → IsEarlyStepwise (world n)) where
  dispatch_steps : (fuel : ℕ) (s : System) → Reaches s.db (dispatch_loop fuel g world s).1.db
  unfolding dispatch_loop
  dispatch_steps zero s = here
  dispatch_steps (suc fuel) s =
      let found = next_job g none (world fuel).now (world fuel).clock s in
      let same = next_job-db g (world fuel).now (world fuel).clock s in
      elim (Option-cases found.0) [
        | inl e ↦ rw (e, dispatch_loop) (subst (Reaches s.db) (sym same) here)
        | inr (j, e) ↦
            rw (e, dispatch_loop)
              (Reaches-trans (subst (Reaches s.db) (sym same) here) (
                (then_steps inner (start_job (world fuel) j) (dispatch_loop fuel g world)
                    (start_steps (world fuel) j (h fuel))
                    (record { steps = dispatch_steps fuel })).steps
                  found.1))
      ]

-- What the reader threads do at the join of a recovery is a sequence of steps.
abbrev pub IsJoinStepwise : Rescue → Type 0
IsJoinStepwise rescue = (s : System) → Reaches s.db (rescue.joined s).db

module _ (rescue : ℕ → Rescue) (h : (n : ℕ) → IsJoinStepwise (rescue n)) where
  apply_each_steps : (as' : List RecoveryAction) → IsStepwise inner (apply_each rescue as')
  unfolding apply_each
  apply_each_steps [] = pure_steps inner tt
  apply_each_steps (a ∷ as') =
      let r = rescue a.job_id in
      then_steps inner (apply_recovery r.joined a r.stopped_at r.now r.now' r.now'') _
        (record {
          steps = apply_recovery_steps r.joined (h a.job_id) a r.stopped_at r.now r.now' r.now'';
        })
        (apply_each_steps as')

  run_watchdog_steps :
      (c : WatchdogConfig) (clock clock' : ℕ → Time)
      → IsStepwise inner (run_watchdog c clock clock' rescue)
  unfolding run_watchdog
  run_watchdog_steps c clock clock' =
      bind_steps inner (check_all c clock clock') _ (check_all_steps c clock clock')
        (λ actions. apply_each_steps actions)

-- A tick of the daemon, with its commands, its recovery, its dispatch, its watchdog and its
-- deliveries, changes the database by a sequence of steps only, if what the reader threads do
-- meanwhile is such a sequence.
pub daemon_tick_steps :
    (i : TickInput) (l : Loop)
    → ((n : ℕ) → IsEarlyStepwise (i.world n))
    → ((n : ℕ) → IsJoinStepwise (i.rescue n))
    → IsStepwise inner (daemon_tick i l)
unfolding daemon_tick watchdog_step
daemon_tick_steps i l early joined =
    bind_steps inner (process_commands i.kill_clock l.running) _
      (process_commands_steps i.kill_clock l.running)
      (λ running.
        then_steps inner (drive_recovery i.backoff_clock i.requeue_clock) _
          (drive_recovery_steps i.backoff_clock i.requeue_clock)
          (then_steps inner (dispatch_loop i.fuel i.global_max_concurrency i.world) _
            (record { steps = dispatch_steps i.global_max_concurrency i.world early i.fuel })
            (bind_steps inner (watchdog_step i (record l { running = running })) _
              (if_steps inner (leb (l.last_watchdog_check + i.watchdog_interval) i.now) _ _
                (then_steps inner (run_watchdog i.watchdog i.check_clock i.handle_clock i.rescue) _
                  (run_watchdog_steps i.rescue joined i.watchdog i.check_clock i.handle_clock)
                  (pure_steps inner _))
                (pure_steps inner _))
              (λ l'.
                then_steps inner (modify (tick i.supervisor i.answers)) _
                  (modify_steps inner (tick i.supervisor i.answers)
                    (tick_steps i.supervisor i.answers))
                  (pure_steps inner l')))))
