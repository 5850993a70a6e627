-- ===== src/Scheduler/Dispatch.antt =====
-- Which job runs next: `can_run` and `next_job` of `class Scheduler` (lib/scheduler.py).
use claude_discord_agent.Prelude.{
  ℕ, Bool, false, Option, none, some, List, [], ◌∷◌, ltb, leb, if◌then◌else◌, first,
}
use claude_discord_agent.Table.{find}
use claude_discord_agent.Db.Lifecycle.{queued}
use claude_discord_agent.Db.Types.{Db, Job, Repo, Time}
use claude_discord_agent.Db.Jobs.{repo_is, list_jobs, default_limit, count_running_jobs}
use claude_discord_agent.System.{System}
use claude_discord_agent.Scheduler.Backoff.{is_backed_off}

-- `_get_repo_by_id`
unfoldable pub get_repo_by_id : ℕ → Db → Option Repo
get_repo_by_id repo_id db = find (repo_is repo_id) db.repos.rows

-- The tests of `can_run` that follow the one for backoff.
unfoldable pub has_room : ℕ → ℕ → Db → Bool
unfolding get_repo_by_id
has_room global_max_concurrency repo_id db =
    if leb global_max_concurrency (count_running_jobs none db)
    then false
    else elim (get_repo_by_id repo_id db) [
      | none ↦ false
      | some repo ↦ ltb (count_running_jobs (some repo_id) db) repo.max_concurrency
    ]

unfoldable pub can_run : ℕ → ℕ → Time → System → Bool × System
unfolding has_room
can_run global_max_concurrency repo_id now s =
    let (backed_off, s') = is_backed_off repo_id now s in
    (if backed_off then false else has_room global_max_concurrency repo_id s'.db, s')

-- `[j for j in jobs if self.can_run(j["repo_id"])]`; `clock` is what the clock shows at each job.
unfoldable pub runnable : ℕ → (ℕ → Time) → List Job → System → List Job × System
runnable global_max_concurrency clock [] s = ([], s)
runnable global_max_concurrency clock (j ∷ js) s =
    let (b, s') = can_run global_max_concurrency j.repo_id (clock j.id) s in
    let (rest, s'') = runnable global_max_concurrency clock js s' in
    (if b then j ∷ rest else rest, s'')

unfoldable pub next_job : ℕ → Option ℕ → Time → (ℕ → Time) → System → Option Job × System
next_job global_max_concurrency (some repo_id) now clock s =
    let (b, s') = can_run global_max_concurrency repo_id (clock 0) s in
    (if b then first (list_jobs (some repo_id) (some queued) 1 (some now) s'.db) else none, s')
next_job global_max_concurrency none now clock s =
    let jobs = list_jobs none (some queued) default_limit (some now) s.db in
    let (ready, s') = runnable global_max_concurrency clock jobs s in (first ready, s')
