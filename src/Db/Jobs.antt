-- ===== src/Db/Jobs.antt =====
-- The job methods of `class Database` (lib/db.py): create, get, transition, list, count.
use claude_discord_agent.Prelude.{
  ℕ, Bool, true, ◌&&◌, ◌||◌, not, Option, none, some, String, List, ltb, leb, ◌==◌, if◌then◌else◌,
  is_none, coalesce, take, Action, pure, raise, job_not_found, invalid_transition, integrity_error,
}
use claude_discord_agent.Prelude.Int.{ℤ, pos, leb_ℤ}
use claude_discord_agent.Table.{insert_row, select, find, update, count, exists, sort_by}
use claude_discord_agent.Db.Lifecycle.{
  JobState, queued, same_state, may_become, is_delivery_terminal, is_active,
}
use claude_discord_agent.Db.Types.{Db, Job, Repo, Time}

abbrev pub job_is : ℕ → Job → Bool
job_is i j = j.id == i

abbrev pub repo_is : ℕ → Repo → Bool
repo_is i r = r.id == i

-- UPDATE jobs SET f WHERE test
abbrev pub update_jobs : (Job → Bool) → (Job → Job) → Db → Db
update_jobs test f db = record db {
  jobs = record { rows = update test f db.jobs.rows; next_id = db.jobs.next_id };
}

-- The keyword arguments of `create_job`.
pub record JobOptions : Type 0 where
  pub priority : ℤ
  pub max_retries : ℕ
  pub notify_chat_id : Option String
  pub next_dispatch_payload : Option String
  pub chain_depth : ℕ
  pub enqueue_at : Time

-- Their defaults.
abbrev pub default_options : JobOptions
default_options = record {
  priority = pos 0;
  max_retries = 2;
  notify_chat_id = none;
  next_dispatch_payload = none;
  chain_depth = 0;
  enqueue_at = 0;
}

abbrev pub new_job : ℕ → String → JobOptions → Time → ℕ → Job
new_job repo_id task o now id = record {
  id = id;
  repo_id = repo_id;
  task = task;
  state = queued;
  priority = o.priority;
  max_retries = o.max_retries;
  created_at = now;
  updated_at = now;
  result = none;
  notify_chat_id = o.notify_chat_id;
  next_dispatch_payload = o.next_dispatch_payload;
  chain_depth = o.chain_depth;
  enqueue_at = o.enqueue_at;
  terminal_at = none;
  wake_state = none;
  wake_attempts = 0;
  reported_at = none;
}

-- The foreign key to `repos` is enforced.
unfoldable pub create_job : ℕ → String → JobOptions → Time → Action Db ℕ
create_job repo_id task o now db =
    if exists (repo_is repo_id) db.repos.rows
    then (let (id, jobs) = insert_row (new_job repo_id task o now) db.jobs in
        pure id (record db { jobs = jobs }))
    else raise integrity_error db

unfoldable pub get_job : ℕ → Db → Option Job
get_job job_id db = find (job_is job_id) db.jobs.rows

-- The columns that the UPDATE of `transition_job` sets.
unfoldable pub moved : JobState → Option String → Time → Job → Job
moved new_state result now j =
    let j' = record j {
      state = new_state;
      updated_at = now;
      result = (if is_none result then j.result else result);
    } in
    if is_delivery_terminal new_state
    then record j' { terminal_at = some (coalesce j.terminal_at now) }
    else if same_state new_state queued
    then record j' { terminal_at = none; wake_state = none; wake_attempts = 0; reported_at = none }
    else j'

unfoldable pub transition_job : ℕ → JobState → Option String → Time → Action Db Bool
transition_job job_id new_state result now db = elim (get_job job_id db) [
  | none ↦ raise job_not_found db
  | some job ↦
      if may_become job.state new_state
      then pure true (update_jobs (job_is job_id) (moved new_state result now) db)
      else raise invalid_transition db
]

-- ORDER BY priority DESC, enqueue_at ASC, created_at ASC
unfoldable pub runs_before : Job → Job → Bool
runs_before a b =
    not (leb_ℤ a.priority b.priority)
    || (leb_ℤ b.priority a.priority
        && (ltb a.enqueue_at b.enqueue_at
            || (a.enqueue_at == b.enqueue_at && leb a.created_at b.created_at)))

-- `x IS the given value`, where no value given means any.
abbrev pub matches {ℓ} : {A : Type ℓ} → (A → Bool) → Option A → Bool
matches test none = true
matches test (some a) = test a

-- The WHERE clause of `list_jobs`.
unfoldable pub is_listed : Option ℕ → Option JobState → Option Time → Job → Bool
is_listed repo_id state now j =
    matches (λ r. j.repo_id == r) repo_id
    && matches (λ s. same_state j.state s) state
    && matches (λ t. leb j.enqueue_at t) now

unfoldable pub list_jobs : Option ℕ → Option JobState → ℕ → Option Time → Db → List Job
list_jobs repo_id state limit now db =
    take limit (sort_by runs_before (select (is_listed repo_id state now) db.jobs.rows))

-- `limit` where the caller gives none
abbrev pub default_limit : ℕ
default_limit = 50

unfoldable pub is_running_in : Option ℕ → Job → Bool
is_running_in repo_id j = is_active j.state && matches (λ r. j.repo_id == r) repo_id

unfoldable pub count_running_jobs : Option ℕ → Db → ℕ
count_running_jobs repo_id db = count (is_running_in repo_id) db.jobs.rows
