-- ===== src/Db/Types.antt =====
-- The rows of the tables of lib/db.py. A time is a whole number of clock ticks, 0 the epoch.
use claude_discord_agent.Prelude.{ℕ, Option, Bool, String, List}
use claude_discord_agent.Prelude.Int.{ℤ}
use claude_discord_agent.Table.{Table, empty}
use claude_discord_agent.Db.Lifecycle.{JobState}

abbrev pub Time : Type 0
Time = ℕ

pub record Repo : Type 0 where
  pub id : ℕ
  pub name : String
  pub path : String
  pub aliases : List String
  pub expected_git_root : Option String
  pub model : String
  pub max_concurrency : ℕ
  pub backoff_until : Time
  pub backoff_count : ℕ
  pub created_at : Time

pub data SessionState : Type 0 where
  idle busy dead : SessionState

pub record Session : Type 0 where
  pub id : ℕ
  pub repo_id : ℕ
  pub pid : Option ℕ
  pub state : SessionState
  pub current_attempt_id : Option ℕ
  pub created_at : Time
  pub last_heartbeat : Option Time

-- NULL is `none`.
pub data WakeState : Type 0 where
  woken fallback undeliverable : WakeState

pub record Job : Type 0 where
  pub id : ℕ
  pub repo_id : ℕ
  pub task : String
  pub state : JobState
  pub priority : ℤ
  pub max_retries : ℕ
  pub created_at : Time
  pub updated_at : Time
  pub result : Option String
  pub notify_chat_id : Option String
  pub next_dispatch_payload : Option String
  pub chain_depth : ℕ
  pub enqueue_at : Time
  pub terminal_at : Option Time
  pub wake_state : Option WakeState
  pub wake_attempts : ℕ
  pub reported_at : Option Time

pub record Attempt : Type 0 where
  pub id : ℕ
  pub job_id : ℕ
  pub session_id : Option ℕ
  pub attempt_num : ℕ
  pub started_at : Time
  pub finished_at : Option Time
  pub exit_code : Option ℤ
  pub error : Option String

pub record Event : Type 0 where
  pub id : ℕ
  pub attempt_id : ℕ
  pub event_type : String
  pub event_data : Option String
  pub timestamp : Time

-- The keys that the daemon reads of a command's JSON payload.
pub record CommandPayload : Type 0 where
  pub job_id : Option ℕ
  pub repo_id : Option ℕ

pub record Command : Type 0 where
  pub id : ℕ
  pub command : String
  pub payload : Option CommandPayload
  pub created_at : Time
  pub processed : Bool

pub record Db : Type 0 where
  pub repos : Table Repo
  pub sessions : Table Session
  pub jobs : Table Job
  pub attempts : Table Attempt
  pub events : Table Event
  pub commands : Table Command

-- The state after `_init_schema` on a new file.
abbrev pub new_db : Db
new_db = record {
  repos = empty;
  sessions = empty;
  jobs = empty;
  attempts = empty;
  events = empty;
  commands = empty;
}
