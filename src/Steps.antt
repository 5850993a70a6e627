-- ===== src/Steps.antt =====
-- The writes to the database as the steps of one transition system: each method of
-- `class Database` (lib/db.py) that changes rows, and the two transactions in which
-- lib/scheduler.py writes rows itself.
pub mod Invariant
pub mod Change
pub mod Keep
pub mod Stepwise
pub mod Planes
pub mod Moves
pub mod Untouched
pub mod Progress
use claude_discord_agent.Prelude.{ℕ, Option, none, some, String, List, [], ◌∷◌, if◌then◌else◌}
use claude_discord_agent.Prelude.Int.{ℤ}
use claude_discord_agent.Db.Lifecycle.{JobState, rate_limited, succeeded, may_become}
use claude_discord_agent.Db.Types.{Db, Time, CommandPayload}
use claude_discord_agent.Db.Jobs.{JobOptions, create_job, get_job, transition_job}
use claude_discord_agent.Db.Delivery.{
  mark_reported, claim_for_fallback, mark_woken, incr_wake_attempts, set_undeliverable,
}
use claude_discord_agent.Db.Repos.{
  RepoOptions, RepoField, create_repo, update_repo, delete_repo, set_backoff, clear_backoff,
}
use claude_discord_agent.Db.Sessions.{
  SessionField, create_session, update_session, cas_update_session, delete_session,
}
use claude_discord_agent.Db.Attempts.{create_attempt, finish_attempt, add_event}
use claude_discord_agent.Db.Commands.{enqueue_command, poll_commands}
use claude_discord_agent.Scheduler.Outcome.{rate_limit_job, succeed_job}

pub data Op : Type 0 where
  creates_repo : String → String → RepoOptions → Time → Op
  updates_repo : String → List RepoField → Op
  deletes_repo : String → Op
  sets_backoff : ℕ → Time → ℕ → Op
  clears_backoff : ℕ → Op
  creates_session : ℕ → Option ℕ → Time → Op
  updates_session : ℕ → List SessionField → Op
  swaps_session : ℕ → ℕ → List SessionField → Op
  deletes_session : ℕ → Op
  creates_job : ℕ → String → JobOptions → Time → Op
  transitions_job : ℕ → JobState → Option String → Time → Op
  -- the UPDATE of `on_rate_limit` and that of `on_success`, behind their tests
  limits_job : ℕ → Time → Op
  succeeds_job : ℕ → Option String → Time → Op
  creates_attempt : ℕ → Option ℕ → Time → Op
  finishes_attempt : ℕ → Option ℤ → Option String → Time → Op
  adds_event : ℕ → String → Option String → Time → Op
  enqueues_command : String → Option CommandPayload → Time → Op
  polls_commands : ℕ → Op
  marks_reported : ℕ → Time → Op
  claims_fallback : ℕ → Op
  marks_woken : ℕ → Op
  counts_wake : ℕ → Op
  sets_undeliverable : ℕ → Op

-- A write to a job whose state may become the given one.
unfoldable pub if_may_become : ℕ → JobState → (Db → Db) → Db → Db
if_may_become job_id new_state f db = elim (get_job job_id db) [
  | none ↦ db
  | some job ↦ if may_become job.state new_state then f db else db
]

-- The database after a step, whether it returns or raises.
unfoldable pub perform : Op → Db → Db
perform (creates_repo name path o now) db = (create_repo name path o now db).1
perform (updates_repo name fields) db = (update_repo name fields db).1
perform (deletes_repo name) db = (delete_repo name db).1
perform (sets_backoff repo_id until times) db = set_backoff repo_id until times db
perform (clears_backoff repo_id) db = clear_backoff repo_id db
perform (creates_session repo_id pid now) db = (create_session repo_id pid now db).1
perform (updates_session session_id fields) db = (update_session session_id fields db).1
perform (swaps_session session_id attempt_id fields) db =
    (cas_update_session session_id attempt_id fields db).1
perform (deletes_session session_id) db = (delete_session session_id db).1
perform (creates_job repo_id task o now) db = (create_job repo_id task o now db).1
perform (transitions_job job_id new_state result now) db =
    (transition_job job_id new_state result now db).1
perform (limits_job job_id now) db =
    if_may_become job_id rate_limited (rate_limit_job job_id now) db
perform (succeeds_job job_id result now) db =
    if_may_become job_id succeeded (succeed_job job_id result now) db
perform (creates_attempt job_id session_id now) db = (create_attempt job_id session_id now db).1
perform (finishes_attempt attempt_id exit_code error now) db =
    (finish_attempt attempt_id exit_code error now db).1
perform (adds_event attempt_id event_type event_data now) db =
    (add_event attempt_id event_type event_data now db).1
perform (enqueues_command command payload now) db = (enqueue_command command payload now db).1
perform (polls_commands limit) db = (poll_commands limit db).1
perform (marks_reported job_id ts) db = (mark_reported job_id ts db).1
perform (claims_fallback job_id) db = (claim_for_fallback job_id db).1
perform (marks_woken job_id) db = mark_woken job_id db
perform (counts_wake job_id) db = (incr_wake_attempts job_id db).1
perform (sets_undeliverable job_id) db = set_undeliverable job_id db

-- The reflexive and transitive closure.
pub data Reaches (db : Db) : Db → Type 0 where
  here : Reaches db db
  next : {db' : Db} → Reaches db db' → (op : Op) → Reaches db (perform op db')
