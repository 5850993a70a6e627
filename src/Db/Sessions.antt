-- ===== src/Db/Sessions.antt =====
-- The session methods of `class Database` (lib/db.py).
use claude_discord_agent.Prelude.{
  ℕ, Bool, true, false, ◌&&◌, Option, none, some, List, [], ◌∷◌, leb, ltb, ◌==◌, if◌then◌else◌,
  Action, pure, raise, integrity_error,
}
use claude_discord_agent.Table.{insert_row, select, find, update, count, exists, delete, sort_by}
use claude_discord_agent.Db.Types.{Db, Session, SessionState, idle, busy, dead, Attempt, Time}
use claude_discord_agent.Db.Jobs.{repo_is, matches}

abbrev pub session_is : ℕ → Session → Bool
session_is i s = s.id == i

abbrev pub same_session_state : SessionState → SessionState → Bool
same_session_state idle idle = true
same_session_state busy busy = true
same_session_state dead dead = true
same_session_state _ _ = false

-- UPDATE sessions SET f WHERE test
abbrev pub update_sessions : (Session → Bool) → (Session → Session) → Db → Db
update_sessions test f db = record db {
  sessions = record { rows = update test f db.sessions.rows; next_id = db.sessions.next_id };
}

abbrev pub new_session : ℕ → Option ℕ → Time → ℕ → Session
new_session repo_id pid now id = record {
  id = id;
  repo_id = repo_id;
  pid = pid;
  state = idle;
  current_attempt_id = none;
  created_at = now;
  last_heartbeat = some now;
}

unfoldable pub create_session : ℕ → Option ℕ → Time → Action Db ℕ
create_session repo_id pid now db =
    if exists (repo_is repo_id) db.repos.rows
    then (let (id, sessions) = insert_row (new_session repo_id pid now) db.sessions in
        pure id (record db { sessions = sessions }))
    else raise integrity_error db

unfoldable pub get_session : ℕ → Db → Option Session
get_session session_id db = find (session_is session_id) db.sessions.rows

abbrev pub is_session_listed : Option ℕ → Option SessionState → Session → Bool
is_session_listed repo_id state s =
    matches (λ r. s.repo_id == r) repo_id && matches (λ t. same_session_state s.state t) state

-- ORDER BY created_at DESC
unfoldable pub list_sessions : Option ℕ → Option SessionState → Db → List Session
list_sessions repo_id state db =
    sort_by (λ a b. leb b.created_at a.created_at)
      (select (is_session_listed repo_id state) db.sessions.rows)

-- One keyword argument of `update_session` and `cas_update_session`.
pub data SessionField : Type 0 where
  set_state : SessionState → SessionField
  set_pid : ℕ → SessionField
  set_last_heartbeat : Time → SessionField
  set_current_attempt_id : ℕ → SessionField

unfoldable pub set_session_field : SessionField → Session → Session
set_session_field (set_state v) s = record s { state = v }
set_session_field (set_pid v) s = record s { pid = some v }
set_session_field (set_last_heartbeat v) s = record s { last_heartbeat = some v }
set_session_field (set_current_attempt_id v) s = record s { current_attempt_id = some v }

unfoldable pub set_session_fields : List SessionField → Session → Session
unfolding set_session_field
set_session_fields [] s = s
set_session_fields (f ∷ fs) s = set_session_fields fs (set_session_field f s)

unfoldable pub update_session : ℕ → List SessionField → Db → Bool × Db
update_session session_id [] db = (true, db)
update_session session_id (f ∷ fs) db = (
  ltb 0 (count (session_is session_id) db.sessions.rows),
  update_sessions (session_is session_id) (set_session_fields (f ∷ fs)) db,
)

-- WHERE id = ? AND current_attempt_id = ?; NULL equals nothing.
abbrev pub is_current : ℕ → ℕ → Session → Bool
is_current session_id attempt_id s =
    session_is session_id s && elim s.current_attempt_id [ none ↦ false | some a ↦ a == attempt_id ]

unfoldable pub cas_update_session : ℕ → ℕ → List SessionField → Db → Bool × Db
cas_update_session session_id attempt_id [] db = (true, db)
cas_update_session session_id attempt_id (f ∷ fs) db = (
  ltb 0 (count (is_current session_id attempt_id) db.sessions.rows),
  update_sessions (is_current session_id attempt_id) (set_session_fields (f ∷ fs)) db,
)

-- The foreign key of `attempts` to this session.
abbrev pub is_used : ℕ → Db → Bool
is_used session_id db =
    exists (λ (a : Attempt). elim a.session_id [ none ↦ false | some i ↦ i == session_id ])
      db.attempts.rows

unfoldable pub delete_session : ℕ → Action Db Bool
delete_session session_id db =
    if exists (session_is session_id) db.sessions.rows && is_used session_id db
    then raise integrity_error db
    else pure (ltb 0 (count (session_is session_id) db.sessions.rows)) (record db {
      sessions = record {
        rows = delete (session_is session_id) db.sessions.rows;
        next_id = db.sessions.next_id;
      };
    })
