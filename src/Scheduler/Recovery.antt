-- ===== src/Scheduler/Recovery.antt =====
-- `requeue_job`, `drive_recovery` and `status` of `class Scheduler` (lib/scheduler.py).
use claude_discord_agent.Prelude.{
  ℕ, Bool, true, false, ◌||◌, none, some, String, List, [], ◌∷◌, ◌++◌, leb, ◌==◌, if◌then◌else◌,
  length, Action, pure, gets, modify, total, ◌>>=◌, ◌>>◌,
}
use claude_discord_agent.Db.Lifecycle.{
  queued, failed_permanent, rate_limited, failed_retryable, may_become,
}
use claude_discord_agent.Db.Types.{Db, Job, Repo, Time}
use claude_discord_agent.Db.Jobs.{
  get_job, transition_job, list_jobs, default_limit, count_running_jobs,
}
use claude_discord_agent.Db.Attempts.{get_attempts}
use claude_discord_agent.Db.Repos.{list_repos}
use claude_discord_agent.System.{System, on_db}
use claude_discord_agent.Scheduler.Backoff.{is_backed_off, get_wait_time}
use claude_discord_agent.Scheduler.Outcome.{clear_if_none_limited}

unfoldable pub requeue_job : ℕ → Time → Action Db Bool
requeue_job job_id now db = elim (get_job job_id db) [
  | none ↦ pure false db
  | some job ↦
      if leb job.max_retries (length (get_attempts job_id db))
      then (transition_job job_id failed_permanent (some "Max retries exceeded") now >>= λ _.
            pure false)
          db
      else if may_become job.state queued
      then (transition_job job_id queued none now >>= λ _. pure true) db
      else pure false db
]

-- What `drive_recovery` reports.
pub data Requeued : Type 0 where
  requeue_rate_limited requeue_failed_retryable : ℕ → Requeued

-- Two readings of the clock for each job: in `is_backed_off` and in `transition_job`.
module _ (clock : ℕ → Time) (clock' : ℕ → Time) where
  -- The loop over the rate limited jobs.
  unfoldable pub requeue_limited : List Job → Action System (List Requeued)
  requeue_limited [] = pure []
  requeue_limited (j ∷ js) =
      let rest = requeue_limited js in
      total (is_backed_off j.repo_id (clock j.id)) >>= λ backed_off.
      if backed_off
      then rest
      else (on_db (requeue_job j.id (clock' j.id)) >>= λ done.
          rest >>= λ actions. pure (if done then requeue_rate_limited j.id ∷ actions else actions))

  -- The loop over the jobs that may be retried at once.
  unfoldable pub requeue_failed : List Job → Action System (List Requeued)
  requeue_failed [] = pure []
  requeue_failed (j ∷ js) =
      let rest = requeue_failed js in
      on_db (requeue_job j.id (clock' j.id)) >>= λ done.
      rest >>= λ actions. pure (if done then requeue_failed_retryable j.id ∷ actions else actions)

-- `i in ids`
unfoldable pub holds : List ℕ → ℕ → Bool
holds [] i = false
holds (j ∷ js) i = j == i || holds js i

-- `{j["repo_id"] for j in jobs}`, each repo once.
unfoldable pub repo_ids : List Job → List ℕ
repo_ids [] = []
repo_ids (j ∷ js) =
    let rest = repo_ids js in if holds rest j.repo_id then rest else j.repo_id ∷ rest

-- One transaction for each repo.
unfoldable pub clear_repos : List ℕ → System → System
clear_repos [] s = s
clear_repos (r ∷ rs) s = clear_repos rs (clear_if_none_limited r s)

unfoldable pub drive_recovery : (ℕ → Time) → (ℕ → Time) → Action System (List Requeued)
drive_recovery clock clock' = do
  limited ← gets (λ s. list_jobs none (some rate_limited) default_limit none s.db)
  actions ← requeue_limited clock clock' limited
  modify (clear_repos (repo_ids limited))
  failed ← gets (λ s. list_jobs none (some failed_retryable) default_limit none s.db)
  actions' ← requeue_failed clock clock' failed
  pure (actions ++ actions')

-- One entry of `status()["repos"]`.
pub record RepoStatus : Type 0 where
  pub name : String
  pub running : ℕ
  pub max_concurrency : ℕ
  pub backed_off : Bool
  pub wait : Time

pub record Status : Type 0 where
  pub global_running : ℕ
  pub global_max_concurrency : ℕ
  pub queued_jobs : ℕ
  pub repos : List RepoStatus

unfoldable pub repo_statuses : Time → List Repo → System → List RepoStatus × System
repo_statuses now [] s = ([], s)
repo_statuses now (r ∷ rs) s =
    let (backed_off, s') = is_backed_off r.id now s in
    let (wait, s'') = get_wait_time r.id now s' in
    let (rest, s''') = repo_statuses now rs s'' in
    (
      record {
        name = r.name;
        running = count_running_jobs (some r.id) s.db;
        max_concurrency = r.max_concurrency;
        backed_off = backed_off;
        wait = wait;
      }
          ∷ rest,
      s''',
    )

unfoldable pub status : ℕ → Time → System → Status × System
status global_max_concurrency now s =
    let (repos, s') = repo_statuses now (list_repos s.db) s in
    (
      record {
        global_running = count_running_jobs none s.db;
        global_max_concurrency = global_max_concurrency;
        queued_jobs = length (list_jobs none (some queued) default_limit none s.db);
        repos = repos;
      },
      s',
    )
