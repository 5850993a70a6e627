-- ===== src/Scenarios/Loops.antt =====
-- The dispatch loop at a database with one queued job.
use claude_discord_agent.Prelude.{◌≡◌, ◌≤◌, refl, none, some, ok, arith}
use claude_discord_agent.Table.{count, exists}
use claude_discord_agent.Db.Repos.{create_repo}
use claude_discord_agent.Db.Jobs.{create_job}
use claude_discord_agent.Steps.{here, perform}
use claude_discord_agent.Runner.Run.{process}
use claude_discord_agent.Daemon.Dispatch.{Round, dispatch_loop}
use claude_discord_agent.Daemon.Draining.{waiting}
use claude_discord_agent.Daemon.Ends.{dispatch_loop-ends}
use claude_discord_agent.Daemon.Limits.{dispatch_loop-bound}
use claude_discord_agent.Db.Jobs.{count_running_jobs, is_running_in}
use claude_discord_agent.Scenarios.Store.{queued_db, queued_db-IsConsistent, over}

abbrev pub round : Round
round = record {
  now = 20;
  clock = λ _. 20;
  session_at = 21;
  times = record {
    attempt_at = 22;
    starting_at = 23;
    heartbeat_at = 24;
    running_at = 25;
    process_at = 26;
    finished_at = 27;
    failed_at = 28;
  };
  started = process 4242;
  early = λ _ s. s;
}

one_waiting : waiting queued_db ≡ 1
unfolding count perform create_job exists create_repo
one_waiting = refl

dispatch_loop-ends_example : (dispatch_loop 2 4 (λ _. round) (over queued_db)).0 ≡ ok (some tt)
dispatch_loop-ends_example =
    dispatch_loop-ends 4 (λ _. round) (λ _ _ _. here) (λ _ _ _. omega arith) 2 (over queued_db)
      queued_db-IsConsistent (omega (arith, one_waiting))

none_running : count_running_jobs none queued_db ≡ 0
unfolding count_running_jobs is_running_in count perform create_job exists create_repo
none_running = refl

dispatch_loop-bound_example :
    count_running_jobs none (dispatch_loop 2 4 (λ _. round) (over queued_db)).1.db ≤ 4
dispatch_loop-bound_example =
    dispatch_loop-bound 4 (λ _. round) (λ _ _ _. here) (λ _ _ _. omega arith) 2 (over queued_db)
      queued_db-IsConsistent (omega (arith, none_running))
