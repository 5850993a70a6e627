-- ===== src/Cli/Submit.antt =====
-- `cmd_dispatch` and `_enqueue_job`. A command's value is its exit code; what it prints is left out.
use claude_discord_agent.Prelude.{
  ℕ, not, ◌||◌, Option, none, some, String, is_set, coalesce, codes, if◌then◌else◌, ok, raised,
  Action, pure, raise, ◌>>◌,
}
use claude_discord_agent.Prelude.Int.{ℤ}
use claude_discord_agent.Db.Types.{Db, Repo, Time}
use claude_discord_agent.Db.Jobs.{JobOptions, default_options, create_job}
use claude_discord_agent.Timeparse.{TimeLib, parse_enqueue_at}
use claude_discord_agent.Registry.Preflight.{is_registry_error}
use claude_discord_agent.Registry.Repos.{resolve}

-- `a + b` for texts
abbrev pub concat : String → String → String
concat String.[] b = b
concat (String.◌∷◌ c a) b = String.◌∷◌ c (concat a b)

-- `args.notify_chat_id or os.environ.get(…)`, and `None` for an empty text
abbrev pub chat_of : Option String → Option String → Option String
chat_of given from_env = if is_set given then given else if is_set from_env then from_env else none

-- `try: repo = registry.resolve(name) except RegistryError: return 1`, and the rest.
unfoldable pub with_repo : String → (Repo → Action Db ℕ) → Action Db ℕ
with_repo name k db = elim (resolve name db) [
  | ok repo ↦ k repo db
  | raised e ↦ if is_registry_error e then pure 1 db else raise e db
]

unfoldable pub enqueue_job : Repo → String → JobOptions → Time → Action Db ℕ
enqueue_job repo task o now = create_job repo.id task o now

pub record DispatchArgs : Type 0 where
  pub repo : Option String
  pub task : Option String
  pub priority : ℤ
  pub notify_chat_id : Option String
  pub enqueue_at : Option String

abbrev pub idempotency_hint : String
idempotency_hint =
    concat "冪等性: 同じ task name の branch (chore/foo-X) が既に存在する場合は git pull で取得して reuse、" (
      concat "commit を amend or 追加。新規 branch を作らない。 push --force-with-lease 可。\n"
        (concat "PR が既に open 状態なら新規 PR を作らず既存に push。" "close されたものは新規 OK。\n---\n"))

module _ (lib : TimeLib) where
  -- The time from which a job may run; `none` is a `ValueError`.
  unfoldable pub schedule : Option String → Time → Option Time
  schedule given now =
      if is_set given then parse_enqueue_at lib (codes (coalesce given "")) now else some 0

  abbrev pub submitted_options : ℤ → Option String → Time → JobOptions
  submitted_options priority notify_chat_id enqueue_at = record default_options {
    priority = priority;
    notify_chat_id = notify_chat_id;
    enqueue_at = enqueue_at;
  }

  -- The rest once the schedule is read.
  unfoldable pub submit : Option Time → Repo → String → ℤ → Option String → Time → Action Db ℕ
  unfolding enqueue_job
  submit none repo task priority chat now = pure 1
  submit (some enqueue_at) repo task priority chat now =
      enqueue_job repo task (submitted_options priority chat enqueue_at) now >> pure 0

  -- Without `--chain-file`. `from_env` is DISCORD_NOTIFY_CHAT_ID; `now` is the clock in
  -- `parse_enqueue_at` and `now'` in `create_job`.
  unfoldable pub cmd_dispatch : Option String → DispatchArgs → Time → Time → Action Db ℕ
  unfolding with_repo schedule submit
  cmd_dispatch from_env args now now' =
      if not (is_set args.repo) || not (is_set args.task)
      then pure 1
      else with_repo (coalesce args.repo "") (λ repo.
        submit (schedule args.enqueue_at now) repo (concat idempotency_hint (coalesce args.task ""))
          args.priority (chat_of args.notify_chat_id from_env) now')
