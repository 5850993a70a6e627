-- ===== src/Lib.antt =====
-- claude-discord-agent runs Claude workers for a Discord controller: jobs wait in an SQLite queue,
-- a daemon starts a worker process for each, and the result is reported back to a Discord chat.
--
-- The parts of the program and the files that model them:
-- - Db, Table: lib/db.py. A table is the list of its rows in the order of insertion with the next
--   AUTOINCREMENT key; Table has SELECT, UPDATE, DELETE, COUNT and ORDER BY over such lists, and Db
--   one function for each method of `class Database`, under the method's name. Rows that ORDER BY
--   compares equal keep their order. Db/Lifecycle has the job states and VALID_TRANSITIONS.
-- - Scheduler: lib/scheduler.py. Backoff is `BackoffTracker`, Dispatch `can_run` and `next_job`,
--   Outcome `on_rate_limit` and `on_success`, Chain `_dispatch_chain_next`, Recovery `requeue_job`,
--   `drive_recovery` and `status`.
-- - Supervisor: lib/supervisor.py. Pane tests the controller's tmux pane, Fallback claims and sends,
--   Drive is the delivery state machine of one job and the tick over all of them.
-- - Watchdog: lib/watchdog.py. Check, Recover and Health are `check_all`, `apply_recovery` and
--   `get_health_report`.
-- - Runner: lib/runner.py. Run is `run_job` and the methods on processes, Complete the closures
--   `on_event` and `on_complete`, Output `ClaudeProcess._read_stdout` and `_extract_result`, Limits
--   the test for a rate limit in the output.
-- - Daemon: lib/daemon.py. Commands is `_process_commands` and the kill commands, Dispatch the
--   dispatch loop, the watchdog's turn and `_tick`, Prepare, Starts and Taken what one round of the loop does.
-- - Notifier: lib/notifier.py. Token reads the credentials, the parent reads Discord's answer.
-- - Timeparse: lib/timeparse.py. Relative is the regular expression and the amount.
-- - Results: lib/result_parser.py. Search has `str.find` and `str.rfind`, Schema the records and
--   `_validate_raw`, Parse `parse_result`.
-- - Registry: lib/registry.py. Preflight is `preflight_check`, Repos `register`, `resolve` and
--   `validate`, Exchange the export and the import.
-- - Spec: lib/spec.py. Render is `class Spec`, Load the search for spec files and their reading.
-- - Cli: orchestrator.py. Submit is `cmd_dispatch`, Chain the chain files and `cmd_chain_resume`,
--   Control `cmd_kill` and `cmd_report_done`, Repos `cmd_create_repo` and `cmd_update_repo`, Specs
--   `cmd_run_spec`, Collect `cmd_collect`, Chained the job that follows the first one of a chain.
--   Main has the commands in the table of `main` that write to the database themselves: create-repo,
--   update-repo, dispatch, run-spec, chain-resume, kill and report-done. The value of a command is
--   its exit code, and an exception that it does not catch ends the process with status 1; what it
--   prints is left out, but for the JSON of `collect`.
-- - System is the state that the planes of the daemon share; Steps has the writes to the database as
--   one transition system, with its invariant (Steps/Invariant, Steps/Keep), the moves of one job
--   (Steps/Progress) and the planes of the daemon (Steps/Planes). Scenarios has a small
--   database and the theorems at it. Prelude has what all files share; Prelude/Outcome is a Python
--   call, which returns or raises and keeps what it has written.
--
-- How the program is represented. A time is a whole number of ticks, 1000 to the second, so that
-- comparisons of floats are comparisons of numbers. Each reading of the clock is an argument, or a
-- function of the job at which it is made. The random number of the jitter is `draw / draws`, and
-- the jitter is in hundredths. A numeric column that may hold NULL is an `Option`. A method of one
-- SQL statement, or of one transaction, is one function on the database. Python integers have no
-- bound and neither have the model's. An id that is counted again after a loss of rows does not
-- occur, since the keys are AUTOINCREMENT.
--
-- What is a parameter: `json` and how `sqlite3` binds a value (Codec, JsonLib, LineLib), `str.strip`,
-- `int`, `float` and `strptime` (TimeLib), git, paths and directories (Host), the files of specs,
-- `tomllib` and `string.Template` (SpecHost, SpecLib), the answers of tmux (Tmux), of the file system (EnvFile) and of Discord
-- (Reply), the redaction of a preview, what `Popen` does (Start), and what the reader threads do
-- while the main thread waits (`early`, `joined`). The dispatch loop of the daemon runs on fuel and
-- says whether it has ended by itself.
--
-- Where the model is narrower than the code: the runner has a scheduler, as the daemon gives it one;
-- a digit of a relative time or of a pane's name is an ASCII digit; and reader threads run at the two
-- points above only, where the code waits for them or has just started them. What they write at
-- other moments is a step of Steps like any other. A dict is the list of its keys and values with no
-- key twice. The entries of repos.json have the types that the export writes. `collect --wait` is
-- given the database as it stands at each of its looks, and the reader of a worker's output the lines
-- with whether it is to stop at each.
--
-- Not modelled: the commands that only print (`list-repos`, `list-specs`, `status`, `watch`,
-- `health`), `daemon`, `register-pane` and `clear-session` of orchestrator.py and its `argparse`
-- parser, since they are input and output around the functions above; the start and the signals of a
-- worker process; paths (lib/paths.py), the migration of old databases, pid file, logging and
-- threads.
pub mod Prelude
pub mod Table
pub mod Db
pub mod Timeparse
pub mod System
pub mod Scheduler
pub mod Steps
pub mod Notifier
pub mod Supervisor
pub mod Watchdog
pub mod Runner
pub mod Daemon
pub mod Scenarios
pub mod Results
pub mod Registry
pub mod Cli
pub mod Spec
