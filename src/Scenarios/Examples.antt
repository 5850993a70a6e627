-- ===== src/Scenarios/Examples.antt =====
-- Each theorem at a concrete input.
use claude_discord_agent.Prelude.{
  inl, ◌⊎◌, ℕ, ◌≡◌, refl, ◌≤◌, ◌+◌, ◌*◌, ◌↔◌, none, some, [], ◌∷◌, true, false, ◌&&◌, ◌||◌, not,
  All, length, ok, arith, codes, ◌%◌, ◌==◌,
}
use claude_discord_agent.Prelude.Int.{pos}
use claude_discord_agent.Prelude.Json.{null}
use claude_discord_agent.Table.{find, update, count, exists, select, insert_by, sort_by}
use claude_discord_agent.Db.Lifecycle.{queued, succeeded, timed_out}
use claude_discord_agent.Db.Types.{Db, Job, new_db, fallback}
use claude_discord_agent.Db.Jobs.{
  get_job, transition_job, moved, create_job, is_listed, runs_before, list_jobs, count_running_jobs,
  is_running_in,
}
use claude_discord_agent.Db.Repos.{create_repo, get_backoff}
use claude_discord_agent.Db.Sessions.{list_sessions}
use claude_discord_agent.Db.Delivery.{mark_reported, claim_for_fallback}
use claude_discord_agent.Prelude.{List}
use claude_discord_agent.Db.Report.{
  DeliveryCall, reports, claims, wakes, deliver_all, mark_reported_once, claim_for_fallback_once,
  mark_reported-claim_for_fallback,
}
use claude_discord_agent.Db.Transition.{Transition, transition_job_lem}
use claude_discord_agent.Timeparse.{TimeLib, parse_enqueue_at}
use claude_discord_agent.Timeparse.Relative.{unit_seconds, digits_value, ticks_per_second}
use claude_discord_agent.Timeparse.Meaning.{parse_enqueue_at-relative}
use claude_discord_agent.Notifier.{delivered, http_error, has_token, notify_discord_result}
use claude_discord_agent.Notifier.Token.{EnvFile, Environment, read_secure_env_file, load_token}
use claude_discord_agent.Notifier.Verdict.{
  is_success_code, is_retry_code, notify_discord_result-cases, read_secure_env_file-IsPrivate,
}
use claude_discord_agent.Scheduler.Backoff.{BackoffConfig, load, is_backed_off}
use claude_discord_agent.Scheduler.Dispatch.{get_repo_by_id, has_room, can_run, runnable, next_job}
use claude_discord_agent.Scheduler.Admission.{MayRun, can_run_iff, IsReady, next_job-IsReady}
use claude_discord_agent.Scheduler.Queue.{
  list_jobs-IsQueue, IsQueue, IsWanted, Among, Precedes, list_jobs_complete,
}
use claude_discord_agent.Scheduler.Chain.{Codec, dispatch_chain_next}
use claude_discord_agent.Scheduler.Depth.{dispatch_chain_next-halts}
use claude_discord_agent.Scheduler.RateLimit.{RateLimited, on_rate_limit-cases}
use claude_discord_agent.Supervisor.Pane.{Tmux, sends}
use claude_discord_agent.Supervisor.Fallback.{SupervisorConfig, message_for, claim_and_fallback}
use claude_discord_agent.Supervisor.Drive.{drive_delivery, Answers, tick}
use claude_discord_agent.Supervisor.Typing.{TypesAtMost, drive_delivery_types, tick_types_nothing}
use claude_discord_agent.Supervisor.Delivered.{claim_and_fallback-reports}
use claude_discord_agent.Watchdog.Check.{WatchdogConfig}
use claude_discord_agent.Watchdog.Recover.{
  requeued_for_new_session, mark_old_session_dead, recover_fork,
}
use claude_discord_agent.Watchdog.Forks.{recover_fork-requeues}
use claude_discord_agent.Watchdog.Health.{get_health_report}
use claude_discord_agent.Watchdog.Tally.{is_dead_session, get_health_report-total}
use claude_discord_agent.Runner.Complete.{Ending, EndTimes, on_complete}
use claude_discord_agent.Steps.{perform, Reaches, here, next, marks_reported}
use claude_discord_agent.Steps.Invariant.{IsConsistent}
use claude_discord_agent.Steps.Stepwise.{IsStepwise, inner}
use claude_discord_agent.Steps.Keep.All.{Reaches-IsConsistent, new_db-IsConsistent}
use claude_discord_agent.Steps.Progress.{Follows, Reaches-Follows, Reaches-final}
use claude_discord_agent.Steps.Planes.Complete.{on_complete_steps}
use claude_discord_agent.Steps.Planes.Daemon.{daemon_tick_steps}
use claude_discord_agent.Daemon.Dispatch.{Rescue, Loop, TickInput, daemon_tick}
use claude_discord_agent.Scheduler.Recovery.{requeue_job}
use claude_discord_agent.Scheduler.Retries.{requeue_job_lem}
use claude_discord_agent.Prelude.{if◌then◌else◌, ltb}
use claude_discord_agent.Db.Lifecycle.{failed_permanent}
use claude_discord_agent.Db.Attempts.{get_attempts}
use claude_discord_agent.Db.Commands.{is_pending, enqueue_command, poll_commands}
use claude_discord_agent.Db.Polling.{is_open, poll_commands_once}
use claude_discord_agent.Scenarios.Loops.{round}
use claude_discord_agent.Scenarios.Store.{
  queued_db, running_db, done_db, late_db, queued_path, running_path, done_db-IsConsistent, web,
  job_at, queued_job, done_job, late_job, running_repo, over,
}

Reaches-IsConsistent_example : IsConsistent queued_db
Reaches-IsConsistent_example = Reaches-IsConsistent new_db queued_db queued_path new_db-IsConsistent

Reaches-Follows_example : (j : Job) × (get_job 1 running_db ≡ some j) × Follows queued j.state
Reaches-Follows_example =
    Reaches-Follows queued_db running_db 1 (job_at queued 5 none none) running_path queued_job

Reaches-final_example :
    (j : Job) × (get_job 1 (mark_reported 1 12 done_db).1 ≡ some j) × (j.state ≡ succeeded)
unfolding perform
Reaches-final_example =
    Reaches-final done_db (mark_reported 1 12 done_db).1 1 (job_at succeeded 9 (some "ok") (some 9))
      (next here (marks_reported 1 12)) done_job refl

transition_job_lem_example : Transition 1 succeeded none 11 running_db
transition_job_lem_example = transition_job_lem 1 succeeded none 11 running_db

can_run_iff_example : ((can_run 4 1 10 (over queued_db)).0 ≡ true) ↔ MayRun 4 1 10 queued_db
can_run_iff_example = can_run_iff 4 1 10 (over queued_db)

is_next : (next_job 4 none 10 (λ _. 10) (over queued_db)).0 ≡ some (job_at queued 5 none none)
unfolding next_job runnable can_run has_room is_backed_off load get_repo_by_id count_running_jobs
    list_jobs is_listed select sort_by insert_by count find perform create_repo create_job exists
    get_backoff runs_before is_running_in
is_next = refl

next_job-IsReady_example : IsReady 4 10 (λ _. 10) queued_db (job_at queued 5 none none)
next_job-IsReady_example =
    next_job-IsReady 4 10 (λ _. 10) (over queued_db) (job_at queued 5 none none) is_next

list_jobs-IsQueue_example :
    IsQueue (list_jobs none (some queued) 50 none queued_db)
    × (length (list_jobs none (some queued) 50 none queued_db) ≤ 50)
    × All (IsWanted none (some queued) none) (list_jobs none (some queued) 50 none queued_db)
list_jobs-IsQueue_example = list_jobs-IsQueue none (some queued) 50 none queued_db

only_job : Among (job_at queued 5 none none) queued_db.jobs.rows
unfolding perform create_repo create_job exists
only_job = inl refl

list_jobs_complete_example :
    Among (job_at queued 5 none none) (list_jobs none (some queued) 50 (some 10) queued_db)
    ⊎ (length (list_jobs none (some queued) 50 (some 10) queued_db) ≡ 50)
      × All
          (λ j. Precedes j (job_at queued 5 none none))
          (list_jobs none (some queued) 50 (some 10) queued_db)
list_jobs_complete_example =
    list_jobs_complete none (some queued) 50 (some 10) queued_db (job_at queued 5 none none)
      only_job (tt, refl, omega arith)

abbrev backoff : BackoffConfig
backoff = record { base_delay = 60_000; max_delay = 3_600_000; jitter = 20; draws = 100 }

on_rate_limit-cases_example : RateLimited backoff 1 1 20 50 (over running_db)
on_rate_limit-cases_example =
    on_rate_limit-cases backoff 1 1 20 50 (over running_db) web running_repo

abbrev settings : SupervisorConfig
settings = record {
  wake_grace = 60_000;
  max_wake_attempts = 3;
  auto_wake = false;
  result_preview = true;
  redact = λ s. s;
}

abbrev waking : SupervisorConfig
waking = record settings { auto_wake = true }

claim_and_fallback-reports_example :
    (get_job 1
        (claim_and_fallback settings
          (λ _. delivered)
          (job_at succeeded 9 (some "ok") (some 9))
          30
          (over done_db)).db
      ≡ some (record (job_at succeeded 9 (some "ok") (some 9)) {
        wake_state = some fallback;
        reported_at = some 30;
      }))
    × ((claim_and_fallback settings
          (λ _. delivered)
          (job_at succeeded 9 (some "ok") (some 9))
          30
          (over done_db)).sent
        ≡ message_for settings "42" (job_at succeeded 9 (some "ok") (some 9)) ∷ [])
claim_and_fallback-reports_example =
    claim_and_fallback-reports settings (λ _. delivered) 30
      (job_at succeeded 9 (some "ok") (some 9)) (over done_db) "42"
      done_db-IsConsistent.job_part.keyed done_job refl refl refl refl (λ _. refl)

-- An idle pane.
abbrev idle_tmux : Tmux
idle_tmux = record {
  pane_file = some (codes "%3");
  panes = some (codes "%3" ∷ []);
  pane_mode = some (codes "0");
  capture = some (codes "claude>" ∷ []);
  sends_text = sends;
  sends_enter = true;
}

drive_delivery_types_example :
    TypesAtMost waking idle_tmux
      (λ _. delivered)
      (job_at succeeded 9 (some "ok") (some 9))
      (over done_db)
      (drive_delivery waking idle_tmux
        (λ _. delivered)
        (job_at succeeded 9 (some "ok") (some 9))
        20
        21
        (over done_db))
drive_delivery_types_example =
    drive_delivery_types waking idle_tmux (λ _. delivered) (job_at succeeded 9 (some "ok") (some 9))
      20 21 (over done_db)

abbrev answers : ℕ → Answers
answers _ = record { tmux = idle_tmux; notify = λ _. delivered; now = 20; sent_at = 21 }

tick_types_nothing_example : (tick settings answers (over done_db)).typed_jobs ≡ []
tick_types_nothing_example = tick_types_nothing settings answers (over done_db) refl

abbrev racing : List DeliveryCall
racing = wakes 1 ∷ claims 1 ∷ reports 2 25 ∷ []

mark_reported_once_example :
    ((mark_reported 1 30 done_db).0 ≡ true)
    × ((mark_reported 1 31 (deliver_all racing (mark_reported 1 30 done_db).1)).0 ≡ false)
mark_reported_once_example =
    mark_reported_once 1 30 31 racing done_db (job_at succeeded 9 (some "ok") (some 9))
      done_db-IsConsistent.job_part.keyed done_job refl

claim_for_fallback_once_example :
    ((claim_for_fallback 1 done_db).0 ≡ true)
    × ((claim_for_fallback 1 (deliver_all racing (claim_for_fallback 1 done_db).1)).0 ≡ false)
    × ((claim_for_fallback 1 (deliver_all racing (mark_reported 1 30 done_db).1)).0 ≡ false)
claim_for_fallback_once_example =
    claim_for_fallback_once 1 30 racing done_db (job_at succeeded 9 (some "ok") (some 9))
      done_db-IsConsistent.job_part.keyed done_job refl refl

mark_reported-claim_for_fallback_example :
    (mark_reported 1 30 (claim_for_fallback 1 done_db).1).0 ≡ (mark_reported 1 30 done_db).0
mark_reported-claim_for_fallback_example = mark_reported-claim_for_fallback 1 30 done_db

abbrev watchdog : WatchdogConfig
watchdog = record { heartbeat_timeout = 300_000; job_timeout = 7_200_000; show = λ _. "1" }

known_repo : exists (λ r. r.id == 1) late_db.repos.rows ≡ true
unfolding perform create_repo create_job get_job find exists transition_job moved update
known_repo = refl

recover_fork-requeues_example :
    ((recover_fork (job_at timed_out 9 none none) 20 21 22 late_db).0
      ≡ ok (
          requeued_for_new_session
            (mark_old_session_dead 1 late_db).0
            (mark_old_session_dead 1 late_db).1.sessions.next_id))
    × (get_job 1 (recover_fork (job_at timed_out 9 none none) 20 21 22 late_db).1
        ≡ some (moved queued none 21 (job_at timed_out 9 none none)))
recover_fork-requeues_example =
    recover_fork-requeues (job_at timed_out 9 none none) 20 21 22 late_db late_job refl known_repo

get_health_report-total_example :
    ((get_health_report 300 20 running_db).healthy
        + (get_health_report 300 20 running_db).stale
        + (get_health_report 300 20 running_db).dead_sessions
      ≡ (get_health_report 300 20 running_db).total_sessions)
    × ((get_health_report 300 20 running_db).dead_sessions
        ≡ count is_dead_session (list_sessions none none running_db))
get_health_report-total_example = get_health_report-total 300 20 running_db

abbrev token_file : EnvFile
token_file = record {
  is_symlink = false;
  opens = true;
  is_regular = true;
  is_ours = true;
  mode = 384;
  contents = some (codes "DISCORD_BOT_TOKEN=abc" ∷ []);
}

abbrev environment : Environment
environment = record { variable = none; file = token_file; strip = λ t. t }

notify_discord_result-cases_example :
    ((notify_discord_result environment (http_error 429)).success
      ≡ has_token (load_token environment) && is_success_code (http_error 429))
    × ((notify_discord_result environment (http_error 429)).retry
        ≡ has_token (load_token environment) && is_retry_code (http_error 429))
    × ((notify_discord_result environment (http_error 429)).permanent
        ≡ not (
            has_token (load_token environment)
            && (is_success_code (http_error 429) || is_retry_code (http_error 429))))
notify_discord_result-cases_example = notify_discord_result-cases environment (http_error 429)

token_lines : read_secure_env_file token_file ≡ some (codes "DISCORD_BOT_TOKEN=abc" ∷ [])
unfolding read_secure_env_file
token_lines = refl

read_secure_env_file-IsPrivate_example :
    (token_file.is_symlink ≡ false)
    × (token_file.opens ≡ true)
    × (token_file.is_regular ≡ true)
    × (token_file.is_ours ≡ true)
    × (token_file.mode % 64 ≡ 0)
    × (token_file.contents ≡ some (codes "DISCORD_BOT_TOKEN=abc" ∷ []))
read_secure_env_file-IsPrivate_example =
    read_secure_env_file-IsPrivate token_file (codes "DISCORD_BOT_TOKEN=abc" ∷ []) token_lines

-- Nothing but relative times.
abbrev no_dates : TimeLib
no_dates = record {
  strip = λ t. t;
  to_float = λ _. none;
  strptime_aware = λ _ _. none;
  strptime_naive = λ _ _. none;
}

minutes : unit_seconds b'm' ≡ some 60
unfolding unit_seconds
minutes = refl

parse_enqueue_at-relative_example :
    parse_enqueue_at no_dates (codes "+90m") 7
    ≡ some (7 + digits_value 0 (9 ∷ 0 ∷ []) * (60 * ticks_per_second))
parse_enqueue_at-relative_example =
    parse_enqueue_at-relative no_dates (codes "+90m") 7 9 (0 ∷ []) b'm' 60 refl
      (omega arith, (omega arith, tt)) minutes

abbrev codec : Codec
codec = record {
  loads = λ _. some null;
  dumps = λ _. "null";
  to_str = λ _. "";
  bind_text = λ _. none;
}

dispatch_chain_next-halts_example :
    dispatch_chain_next codec no_dates "null" 50 none 20 21 done_db ≡ (ok none, done_db)
dispatch_chain_next-halts_example =
    dispatch_chain_next-halts codec no_dates "null" 50 none 20 21 done_db (omega arith)

abbrev ending : Ending
ending = record { exit_code = pos 0; result = some "ok"; is_rate_limited = false }

abbrev times : EndTimes
times = record {
  finished_at = 20;
  heartbeat_at = 21;
  moved_at = 22;
  parsed_at = 23;
  created_at = 24;
  draw = 50;
}

on_complete_steps_example :
    Reaches running_db
      (on_complete backoff codec no_dates 1 1 1 1 ending times (over running_db)).1.db
on_complete_steps_example =
    on_complete_steps backoff codec no_dates 1 1 1 1 ending times (over running_db)

abbrev rescue : Rescue
rescue = record { joined = λ s. s; stopped_at = 40; now = 41; now' = 42; now'' = 43 }

abbrev input : TickInput
input = record {
  global_max_concurrency = 4;
  watchdog_interval = 30_000;
  watchdog = watchdog;
  supervisor = waking;
  kill_clock = λ _. 10;
  backoff_clock = λ _. 11;
  requeue_clock = λ _. 12;
  fuel = 10;
  world = λ _. round;
  now = 30_001;
  check_clock = λ _. 31;
  handle_clock = λ _. 32;
  rescue = λ _. rescue;
  answers = answers;
}

abbrev loop : Loop
loop = record { running = true; last_watchdog_check = 0 }

daemon_tick_steps_example : IsStepwise inner (daemon_tick input loop)
daemon_tick_steps_example = daemon_tick_steps input loop (λ _ _ _. here) (λ _ _. here)

requeue_job_lem_example :
    ((requeue_job 1 30 late_db).0 ≡ ok (ltb (length (get_attempts 1 late_db)) 2))
    × (get_job 1 (requeue_job 1 30 late_db).1
        ≡ some (
            if ltb (length (get_attempts 1 late_db)) 2
            then moved queued none 30 (job_at timed_out 9 none none)
            else moved failed_permanent
                (some "Max retries exceeded")
                30
                (job_at timed_out 9 none none)))
requeue_job_lem_example = requeue_job_lem 1 30 late_db (job_at timed_out 9 none none) late_job refl

abbrev told_db : Db
told_db = (enqueue_command "shutdown" none 11 done_db).1

poll_commands_once_example :
    (length (poll_commands 10 told_db).0 ≤ 10)
    × All (λ c. is_pending c ≡ true) (poll_commands 10 told_db).0
    × All
        (λ c. count (is_open c.id) (poll_commands 10 told_db).1.commands.rows ≡ 0)
        (poll_commands 10 told_db).0
poll_commands_once_example = poll_commands_once 10 told_db
