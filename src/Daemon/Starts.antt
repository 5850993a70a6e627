-- ===== src/Daemon/Starts.antt =====
-- A queued job that the dispatch loop starts (lib/daemon.py, lib/runner.py).
use claude_discord_agent.Prelude.{
  ℕ, ◌+◌, ◌≤◌, ◌<◌, ◌≡◌, refl, Bool, true, none, some, [], ◌∷◌, Action, pure, raise, modify, total,
  ◌>>◌, arith, os_error,
}
use claude_discord_agent.Table.{count, find, exists}
use claude_discord_agent.Db.Lifecycle.{failed_retryable}
use claude_discord_agent.Db.Types.{Time, Job, Repo}
use claude_discord_agent.Db.Jobs.{get_job, job_is, repo_is, moved}
use claude_discord_agent.Db.Sessions.{set_pid, update_session, session_is}
use claude_discord_agent.System.{System, with_db, on_db}
use claude_discord_agent.Runner.Run.{
  RunTimes, Start, process, cli_missing, start_failed, prepare_run, undo_run, run_job, add_process,
}
use claude_discord_agent.Daemon.Draining.{
  is_queued, is_running, waiting, tally, IsDraining, bind-size, bind-IsDraining, pure-IsDraining,
  raise-IsDraining, same-IsDraining, on_db-IsDraining,
}
use claude_discord_agent.Daemon.Prepare.{
  undo_run-IsDraining, prepare_run-waiting, prepare_run-active,
}

-- The number of jobs in the system that pass a test.
abbrev inside : (Job → Bool) → System → ℕ
inside q s = tally q s.db

module _ (at : Time) (k : Job) where
  failed_waits : is_queued (moved failed_retryable none at k) ≡ true → ⊥
  unfolding moved
  failed_waits h = cc

  failed_runs : is_running (moved failed_retryable none at k) ≡ true → ⊥
  unfolding moved
  failed_runs h = cc

module _ (i session_id : ℕ) (t : RunTimes) where
  module _ (early : ℕ → System → System) where
    -- The rest of `run_job`.
    abbrev launch : Start → ℕ → Action System ℕ
    launch cli_missing a = on_db (undo_run i session_id a t)
    launch start_failed a = raise os_error
    launch (process pid) a =
        modify (early a)
        >> (total (with_db (update_session session_id (set_pid pid ∷ [])))
            >> (modify (
                  add_process
                    (record { attempt_id = a; is_alive = true; last_event_time = t.process_at }))
                >> pure a))

    module _ (q : Job → Bool)
        (enters : (j : Job)
          → job_is i j ≡ true
          → q (moved failed_retryable none t.failed_at j) ≡ true
          → q j ≡ true)
        (drains : (a : ℕ) (s : System) → tally q (early a s).db ≤ tally q s.db) where
      launch-IsDraining : (started : Start) (a : ℕ) → IsDraining (inside q) (launch started a)
      unfolding update_session
      launch-IsDraining cli_missing a =
          on_db-IsDraining (tally q) (undo_run i session_id a t)
            (undo_run-IsDraining i session_id t q enters a)
      launch-IsDraining start_failed a = raise-IsDraining (inside q) os_error
      launch-IsDraining (process pid) a =
          let pid_set = total (with_db (update_session session_id (set_pid pid ∷ []))) in
          let entered = modify (
            add_process
              (record { attempt_id = a; is_alive = true; last_event_time = t.process_at })) in
          bind-IsDraining (inside q) (modify (early a)) _ (record { fewer = drains a })
            (λ _.
              bind-IsDraining (inside q) pid_set _ (same-IsDraining (inside q) pid_set (λ s. refl))
                (λ _.
                  bind-IsDraining (inside q) entered _
                    (same-IsDraining (inside q) entered (λ s. refl))
                    (λ _. pure-IsDraining (inside q) a)))

      run_job-tally :
          (started : Start) (s : System)
          → tally q (run_job early i session_id started t s).1.db
            ≤ tally q (prepare_run i session_id t s.db).1
      unfolding run_job
      run_job-tally cli_missing s =
          bind-size (inside q) (on_db (prepare_run i session_id t)) (launch cli_missing) s
            (launch-IsDraining cli_missing)
      run_job-tally start_failed s =
          bind-size (inside q) (on_db (prepare_run i session_id t)) (launch start_failed) s
            (launch-IsDraining start_failed)
      run_job-tally (process pid) s =
          bind-size (inside q) (on_db (prepare_run i session_id t)) (launch (process pid)) s
            (launch-IsDraining (process pid))

    module _ (started : Start) (s : System) (j : Job) (repo : Repo)
        (found : get_job i s.db ≡ some j)
        (known : find (repo_is j.repo_id) s.db.repos.rows ≡ some repo)
        (there : exists (session_is session_id) s.db.sessions.rows ≡ true) where
      pub run_job-waiting :
          ((a : ℕ) (s : System) → waiting (early a s).db ≤ waiting s.db)
          → is_queued j ≡ true
          → waiting (run_job early i session_id started t s).1.db < waiting s.db
      run_job-waiting drains q = omega (
        arith,
        prepare_run-waiting i session_id t s.db j repo found known there q,
        run_job-tally is_queued (λ k _ h. absurd (failed_waits t.failed_at k h)) drains started s,
      )

      pub run_job-active :
          ((a : ℕ) (s : System) → tally is_running (early a s).db ≤ tally is_running s.db)
          → tally is_running (run_job early i session_id started t s).1.db
            ≤ tally is_running s.db + count (job_is i) s.db.jobs.rows
      run_job-active drains = omega (
        arith,
        prepare_run-active i session_id t s.db j repo found known there,
        run_job-tally is_running (λ k _ h. absurd (failed_runs t.failed_at k h)) drains started s,
      )
