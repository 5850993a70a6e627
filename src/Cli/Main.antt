-- ===== src/Cli/Main.antt =====
-- The commands in the table of `main` that may write to the database, but for `daemon`.
use claude_discord_agent.Prelude.{ℕ, Option, String, List, Action}
use claude_discord_agent.Prelude.Int.{ℤ}
use claude_discord_agent.Prelude.Json.{Json}
use claude_discord_agent.Db.Types.{Db, Time}
use claude_discord_agent.Timeparse.{TimeLib}
use claude_discord_agent.Scheduler.Chain.{Codec}
use claude_discord_agent.Registry.Preflight.{Host}
use claude_discord_agent.Registry.Repos.{RegisterOptions}
use claude_discord_agent.Cli.Submit.{DispatchArgs, cmd_dispatch}
use claude_discord_agent.Cli.Chain.{fallback_chat, cmd_dispatch_chain_file, cmd_chain_resume}
use claude_discord_agent.Cli.Specs.{RunSpecArgs, SpecLib, cmd_run_spec}
use claude_discord_agent.Cli.Control.{cmd_kill, cmd_report_done}
use claude_discord_agent.Cli.Repos.{UpdateArgs, cmd_create_repo, cmd_update_repo}

-- One of these commands, with its arguments as `argparse` hands them over; a chain file by the
-- value in it.
pub data WriteCommand : Type 0 where
  create_repo_args : String → String → RegisterOptions → WriteCommand
  update_repo_args : UpdateArgs → WriteCommand
  dispatch_args : DispatchArgs → WriteCommand
  dispatch_chain_args : Option Json → ℤ → Option String → WriteCommand
  chain_resume_args : ℕ → WriteCommand
  run_spec_args : RunSpecArgs → List String → WriteCommand
  kill_args : Option ℕ → String → WriteCommand
  report_done_args : ℕ → WriteCommand

-- The libraries, DISCORD_NOTIFY_CHAT_ID, and the clock in `parse_enqueue_at` and at the write.
pub record World : Type 0 where
  pub host : Host
  pub codec : Codec
  pub time_lib : TimeLib
  pub specs : SpecLib
  pub from_env : Option String
  pub now : Time
  pub now' : Time

unfoldable pub write_command : World → WriteCommand → Action Db ℕ
write_command w (create_repo_args name path o) = cmd_create_repo w.host name path o w.now'
write_command w (update_repo_args args) = cmd_update_repo w.host args
write_command w (dispatch_args args) = cmd_dispatch w.time_lib w.from_env args w.now w.now'
write_command w (dispatch_chain_args file priority chat) =
    cmd_dispatch_chain_file w.codec w.time_lib file priority (fallback_chat chat w.from_env) w.now
      w.now'
write_command w (chain_resume_args job_id) = cmd_chain_resume w.codec w.time_lib job_id w.now w.now'
write_command w (run_spec_args args dirs) =
    cmd_run_spec w.specs w.time_lib w.from_env args dirs w.now w.now'
write_command w (kill_args job_id repo) = cmd_kill job_id repo w.now'
write_command w (report_done_args job_id) = cmd_report_done job_id w.now'
