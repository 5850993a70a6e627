-- ===== src/System.antt =====
-- The state of the daemon process that its planes share: the database (lib/db.py), the cache of
-- `BackoffTracker` (lib/scheduler.py), the processes of `Runner` (lib/runner.py) and what has been
-- sent to Discord and to tmux.
use claude_discord_agent.Prelude.{
  ℕ, Bool, Option, String, List, [], Result, ok, raised, Action, Error, ◌≡◌, refl, sym, subst,
}
use claude_discord_agent.Db.Types.{Db, Time, new_db}
use claude_discord_agent.Db.Lifecycle.{JobState}

-- A message that the supervisor sends on its own: the text's variable parts.
pub record Message : Type 0 where
  pub chat_id : String
  pub job_id : ℕ
  pub state : JobState
  pub preview : Option String

-- What `Runner` and `Watchdog` read of a `ClaudeProcess`.
pub record Process : Type 0 where
  pub attempt_id : ℕ
  pub is_alive : Bool
  pub last_event_time : Time

pub record System : Type 0 where
  pub db : Db
  -- `BackoffTracker._cache`: repo id, count, until; the newest entry of a repo counts.
  pub cache : List (ℕ × ℕ × Time)
  -- `Runner._processes`
  pub processes : List Process
  -- the messages handed to the notifier, and the jobs whose wake text has reached the tmux pane, the
  -- newest first
  pub sent : List Message
  pub typed_jobs : List ℕ

abbrev pub new_system : System
new_system = record { db = new_db; cache = []; processes = []; sent = []; typed_jobs = [] }

-- A call that changes only the database, and does not raise.
abbrev pub with_db : {A : Type 0} → (Db → A × Db) → System → A × System
with_db f s = let (a, db) = f s.db in (a, record s { db = db })

abbrev pub change_db : (Db → Db) → System → System
change_db f s = record s { db = f s.db }

-- A call that changes only the database.
abbrev pub on_db : {A : Type 0} → Action Db A → Action System A
on_db f s = let (r, db) = f s.db in (r, record s { db = db })

-- `with db.transaction():` rolls the database back, and nothing else, if its body raises.
abbrev pub transaction : {A : Type 0} → Action System A → Action System A
transaction m s =
    let (r, s') = m s in
    elim r [ ok a ↦ (ok a, s') | raised e ↦ (raised e, record s' { db = s.db }) ]

module _ {A : Type 0} (m : Action System A) (s s' : System) where
  pub transaction-ok : (a : A) → m s ≡ (ok a, s') → transaction m s ≡ (ok a, s')
  transaction-ok a h =
      subst
        (λ p.
          elim p.0 as (λ _. Result A × System) [
            | ok x ↦ (ok x, p.1)
            | raised e ↦ (raised e, record p.1 { db = s.db })
          ]
          ≡ (ok a, s'))
        (sym h) refl

  pub transaction-raised :
      (e : Error) → m s ≡ (raised e, s') → transaction m s ≡ (raised e, record s' { db = s.db })
  transaction-raised e h =
      subst
        (λ p.
          elim p.0 as (λ _. Result A × System) [
            | ok x ↦ (ok x, p.1)
            | raised x ↦ (raised x, record p.1 { db = s.db })
          ]
          ≡ (raised e, record s' { db = s.db }))
        (sym h) refl
