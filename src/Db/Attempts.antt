-- ===== src/Db/Attempts.antt =====
-- The attempt, event and command methods of `class Database` (lib/db.py).
use Prim.Native.Nat.{max}
use claude_discord_agent.Prelude.{
  ℕ, ◌+◌, Bool, ◌&&◌, Option, none, some, String, List, [], ◌∷◌, leb, ltb, ◌==◌, if◌then◌else◌,
  first, Action, pure, raise, integrity_error,
}
use claude_discord_agent.Prelude.Int.{ℤ}
use claude_discord_agent.Table.{insert_row, select, update, count, exists, sort_by}
use claude_discord_agent.Db.Types.{Db, Attempt, Event, Time}
use claude_discord_agent.Db.Jobs.{job_is}
use claude_discord_agent.Db.Sessions.{session_is}

abbrev pub attempt_is : ℕ → Attempt → Bool
attempt_is i a = a.id == i

abbrev pub is_attempt_of : ℕ → Attempt → Bool
is_attempt_of job_id a = a.job_id == job_id

-- SELECT COALESCE(MAX(attempt_num), 0) WHERE job_id = ?
unfoldable pub max_attempt_num : ℕ → List Attempt → ℕ
max_attempt_num job_id [] = 0
max_attempt_num job_id (a ∷ as') =
    let rest = max_attempt_num job_id as' in
    if is_attempt_of job_id a then max a.attempt_num rest else rest

abbrev pub new_attempt : ℕ → Option ℕ → ℕ → Time → ℕ → Attempt
new_attempt job_id session_id attempt_num now id = record {
  id = id;
  job_id = job_id;
  session_id = session_id;
  attempt_num = attempt_num;
  started_at = now;
  finished_at = none;
  exit_code = none;
  error = none;
}

-- The foreign keys of the new row.
abbrev pub attempt_allowed : ℕ → Option ℕ → Db → Bool
attempt_allowed job_id none db = exists (job_is job_id) db.jobs.rows
attempt_allowed job_id (some s) db =
    exists (job_is job_id) db.jobs.rows && exists (session_is s) db.sessions.rows

unfoldable pub create_attempt : ℕ → Option ℕ → Time → Action Db ℕ
create_attempt job_id session_id now db =
    if attempt_allowed job_id session_id db
    then (let attempt_num = max_attempt_num job_id db.attempts.rows + 1 in
        let (id, attempts) =
          insert_row (new_attempt job_id session_id attempt_num now) db.attempts in
        pure id (record db { attempts = attempts }))
    else raise integrity_error db

unfoldable pub finish_attempt : ℕ → Option ℤ → Option String → Time → Db → Bool × Db
finish_attempt attempt_id exit_code error now db = (
  ltb 0 (count (attempt_is attempt_id) db.attempts.rows),
  record db {
    attempts = record {
      rows =
          update (attempt_is attempt_id)
            (λ a. record a { finished_at = some now; exit_code = exit_code; error = error })
            db.attempts.rows;
      next_id = db.attempts.next_id;
    };
  },
)

-- ORDER BY attempt_num
unfoldable pub get_attempts : ℕ → Db → List Attempt
get_attempts job_id db =
    sort_by (λ a b. leb a.attempt_num b.attempt_num)
      (select (is_attempt_of job_id) db.attempts.rows)

abbrev pub new_event : ℕ → String → Option String → Time → ℕ → Event
new_event attempt_id event_type event_data now id = record {
  id = id;
  attempt_id = attempt_id;
  event_type = event_type;
  event_data = event_data;
  timestamp = now;
}

unfoldable pub add_event : ℕ → String → Option String → Time → Action Db ℕ
add_event attempt_id event_type event_data now db =
    if exists (attempt_is attempt_id) db.attempts.rows
    then (let (id, events) =
          insert_row (new_event attempt_id event_type event_data now) db.events in
        pure id (record db { events = events }))
    else raise integrity_error db

-- ORDER BY timestamp DESC LIMIT 1
unfoldable pub get_latest_event : ℕ → Db → Option Event
get_latest_event attempt_id db = first (
    sort_by (λ a b. leb b.timestamp a.timestamp)
      (select (λ e. e.attempt_id == attempt_id) db.events.rows))
