-- ===== src/Steps/Invariant.antt =====
-- What holds of the database between two steps: keys and names are unique, every reference leads to
-- a row, and `terminal_at` is set exactly at the states that are to be reported.
use claude_discord_agent.Prelude.{
  ℕ, ◌≤◌, ◌≡◌, Bool, true, not, Option, none, some, String, All, is_none,
}
use claude_discord_agent.Table.{Table, count, exists}
use claude_discord_agent.Table.Keys.{IsKeyed}
use claude_discord_agent.Db.Lifecycle.{is_delivery_terminal}
use claude_discord_agent.Db.Types.{Db, Repo, Session, Job, Attempt, Event, Command}
use claude_discord_agent.Db.Jobs.{repo_is, job_is}
use claude_discord_agent.Db.Repos.{is_named}
use claude_discord_agent.Db.Sessions.{session_is}
use claude_discord_agent.Db.Attempts.{attempt_is}

pub record RepoPart (repos : Table Repo) : Type 0 where
  pub keyed : IsKeyed (λ (r : Repo). r.id) repos
  pub named : (name : String) → count (is_named name) repos.rows ≤ 1

pub record SessionPart (repos : Table Repo) (sessions : Table Session) : Type 0 where
  pub keyed : IsKeyed (λ (s : Session). s.id) sessions
  pub of_repo : All (λ s. exists (repo_is s.repo_id) repos.rows ≡ true) sessions.rows

-- A job has the time of its end exactly while it is in a state that is to be reported.
abbrev pub IsTimed : Job → Type 0
IsTimed j = is_none j.terminal_at ≡ not (is_delivery_terminal j.state)

pub record JobPart (repos : Table Repo) (jobs : Table Job) : Type 0 where
  pub keyed : IsKeyed (λ (j : Job). j.id) jobs
  pub of_repo : All (λ j. exists (repo_is j.repo_id) repos.rows ≡ true) jobs.rows
  pub timed : All IsTimed jobs.rows

-- NULL refers to no row.
abbrev pub has_session : Table Session → Option ℕ → Bool
has_session sessions none = true
has_session sessions (some s) = exists (session_is s) sessions.rows

pub record AttemptPart (jobs : Table Job) (sessions : Table Session) (attempts : Table Attempt)
    : Type 0 where
  pub keyed : IsKeyed (λ (a : Attempt). a.id) attempts
  pub of_job : All (λ a. exists (job_is a.job_id) jobs.rows ≡ true) attempts.rows
  pub of_session : All (λ a. has_session sessions a.session_id ≡ true) attempts.rows

pub record EventPart (attempts : Table Attempt) (events : Table Event) : Type 0 where
  pub keyed : IsKeyed (λ (e : Event). e.id) events
  pub of_attempt : All (λ e. exists (attempt_is e.attempt_id) attempts.rows ≡ true) events.rows

pub record IsConsistent (db : Db) : Type 0 where
  pub repo_part : RepoPart db.repos
  pub session_part : SessionPart db.repos db.sessions
  pub job_part : JobPart db.repos db.jobs
  pub attempt_part : AttemptPart db.jobs db.sessions db.attempts
  pub event_part : EventPart db.attempts db.events
  pub command_keyed : IsKeyed (λ (c : Command). c.id) db.commands
