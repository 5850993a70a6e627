-- ===== src/Cli/Control.antt =====
-- `cmd_kill` and `cmd_report_done`.
use claude_discord_agent.Prelude.{
  ℕ, ◌==◌, Option, none, some, String, if◌then◌else◌, Action, pure, gets, total, ◌>>=◌, ◌>>◌,
}
use claude_discord_agent.Db.Types.{Db, Job, Repo, Time, CommandPayload}
use claude_discord_agent.Db.Jobs.{get_job}
use claude_discord_agent.Db.Delivery.{mark_reported}
use claude_discord_agent.Db.Commands.{enqueue_command}
use claude_discord_agent.Cli.Submit.{with_repo}

-- `args.job_id`, where 0 counts as no id
abbrev pub job_of : Option ℕ → Option ℕ
job_of none = none
job_of (some i) = if i == 0 then none else some i

abbrev pub for_job : ℕ → CommandPayload
for_job i = record { job_id = some i; repo_id = none }

abbrev pub for_repo : ℕ → CommandPayload
for_repo i = record { job_id = none; repo_id = some i }

abbrev pub kill_found : ℕ → Time → Option Job → Action Db ℕ
kill_found job_id now none = pure 1
kill_found job_id now (some j) =
    total (enqueue_command "kill_job" (some (for_job job_id)) now) >> pure 0

unfoldable pub kill_one : ℕ → Time → Action Db ℕ
kill_one job_id now = gets (get_job job_id) >>= kill_found job_id now

abbrev pub kill_all : Time → Repo → Action Db ℕ
kill_all now r = total (enqueue_command "kill_repo" (some (for_repo r.id)) now) >> pure 0

unfoldable pub kill_chosen : String → Time → Option ℕ → Action Db ℕ
unfolding kill_one with_repo
kill_chosen repo now (some i) = kill_one i now
kill_chosen repo now none = with_repo repo (kill_all now)

unfoldable pub cmd_kill : Option ℕ → String → Time → Action Db ℕ
unfolding kill_chosen
cmd_kill job_id repo now = kill_chosen repo now (job_of job_id)

-- What follows where `mark_reported` changed nothing: only a missing job is an error.
unfoldable pub report_refused : ℕ → Action Db ℕ
report_refused job_id =
    gets (get_job job_id) >>= λ job. elim job [ none ↦ pure 1 | some j ↦ pure 0 ]

unfoldable pub cmd_report_done : ℕ → Time → Action Db ℕ
unfolding report_refused
cmd_report_done job_id now = do
  reported ← total (mark_reported job_id now)
  if reported then pure 0 else report_refused job_id
