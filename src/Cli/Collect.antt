-- ===== src/Cli/Collect.antt =====
-- `cmd_collect`, `_collect_wait`, `_collect_show` and the JSON of `_print_job`.
use claude_discord_agent.Prelude.{
  ℕ, Bool, true, false, ◌||◌, Option, none, some, String, List, [], ◌∷◌, Text, codes, take, is_set,
  coalesce, if◌then◌else◌, Result, ok, raised,
}
use claude_discord_agent.Prelude.Json.{Fields}
use claude_discord_agent.Prelude.Returns.{◌>>=◌}
use claude_discord_agent.Table.{select}
use claude_discord_agent.Db.Lifecycle.{
  JobState, queued, succeeded, failed_permanent, failed_retryable, needs_controller, is_active,
  same_state,
}
use claude_discord_agent.Db.Types.{Db, Job, Repo, Time}
use claude_discord_agent.Db.Jobs.{list_jobs, default_limit, get_job}
use claude_discord_agent.Results.Schema.{WorkerResult, to_dict}
use claude_discord_agent.Results.Parse.{JsonLib, parse_result}
use claude_discord_agent.Registry.Repos.{resolve}
use claude_discord_agent.Registry.Preflight.{is_registry_error}
use claude_discord_agent.Cli.Control.{job_of}

-- The object that `_print_job` prints.
pub record Printed : Type 0 where
  pub job_id : ℕ
  pub state : JobState
  pub task : Text
  pub result : String
  pub parsed : Option Fields
  pub enqueue_at : Time
  pub notify_chat_id : Option String

-- The exit code, and what is printed before it.
abbrev pub Shown : Type 0
Shown = Result (ℕ × List Printed)

-- `("succeeded", "failed_permanent", "needs_controller")`
abbrev pub is_awaited : JobState → Bool
is_awaited s =
    same_state s succeeded || same_state s failed_permanent || same_state s needs_controller

abbrev pub is_shown : Job → Bool
is_shown j = is_awaited j.state || same_state j.state failed_retryable

-- `("queued", "starting", "running")`
abbrev pub is_unfinished : Job → Bool
is_unfinished j = same_state j.state queued || is_active j.state

-- `_running = [...]`, `if not running`
abbrev pub none_left : List Job → Bool
none_left [] = true
none_left (j ∷ js) = false

abbrev pub dict_of : Option WorkerResult → Option Fields
dict_of none = none
dict_of (some r) = some (to_dict r)

module _ (lib : JsonLib) where
  -- With `--json`.
  unfoldable pub print_job : Job → Result Printed
  print_job job = do
    parsed ← parse_result lib false (codes (coalesce job.result ""))
    ok record {
      job_id = job.id;
      state = job.state;
      task = take 100 (codes job.task);
      result = if is_set job.result then coalesce job.result "" else "(no result)";
      parsed = dict_of parsed;
      enqueue_at = job.enqueue_at;
      notify_chat_id = job.notify_chat_id;
    }

  unfoldable pub print_jobs : List Job → Result (List Printed)
  unfolding print_job
  print_jobs [] = ok []
  print_jobs (j ∷ js) = do p ← print_job j; ps ← print_jobs js; ok (p ∷ ps)

  abbrev pub show_jobs : List Job → Shown
  show_jobs jobs = print_jobs (take 5 jobs) >>= λ ps. ok (0, ps)

  unfoldable pub collect_show : Repo → Option ℕ → Db → Shown
  unfolding print_jobs
  collect_show repo job_id db = elim (job_of job_id) [
    | none ↦ show_jobs (select is_shown (list_jobs (some repo.id) none default_limit none db))
    | some i ↦ elim (get_job i db) [ none ↦ ok (1, []) | some job ↦ show_jobs (job ∷ []) ]
  ]

  -- One look of the loop: `none` says that it sleeps and looks again.
  unfoldable pub poll_once : Repo → Option ℕ → Db → Option Shown
  unfolding collect_show
  poll_once repo job_id db = elim (job_of job_id) [
    | none ↦
        if none_left (select is_unfinished (list_jobs (some repo.id) none default_limit none db))
        then some (collect_show repo job_id db)
        else none
    | some i ↦ elim (get_job i db) [
      | none ↦ none
      | some job ↦ if is_awaited job.state then some (show_jobs (job ∷ [])) else none
    ]
  ]

  -- The loop, by the database as it stands at each look before the time is up.
  unfoldable pub collect_wait : Repo → Option ℕ → List Db → Shown
  unfolding poll_once
  collect_wait repo job_id [] = ok (1, [])
  collect_wait repo job_id (db ∷ looks) =
      let rest = collect_wait repo job_id looks in
      elim (poll_once repo job_id db) [ none ↦ rest | some shown ↦ shown ]

  -- `looks` is read with `--wait` only.
  unfoldable pub cmd_collect : String → Option ℕ → Bool → Db → List Db → Shown
  unfolding collect_wait collect_show
  cmd_collect name job_id wait db looks = elim (resolve name db) [
    | raised e ↦ if is_registry_error e then ok (1, []) else raised e
    | ok repo ↦ if wait then collect_wait repo job_id looks else collect_show repo job_id db
  ]
