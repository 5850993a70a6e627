-- ===== src/Steps/Change.antt =====
-- The invariant when one table is replaced: the new table's own part, and that no row to which
-- another table refers has gone.
use claude_discord_agent.Prelude.{ℕ, ◌≡◌, true, All, All-map}
use claude_discord_agent.Table.{Table, exists}
use claude_discord_agent.Table.Keys.{IsKeyed}
use claude_discord_agent.Db.Types.{Db, Repo, Session, Job, Attempt, Event, Command}
use claude_discord_agent.Db.Jobs.{repo_is, job_is}
use claude_discord_agent.Db.Attempts.{attempt_is}
use claude_discord_agent.Steps.Invariant.{
  RepoPart, SessionPart, JobPart, AttemptPart, EventPart, IsConsistent, has_session,
}

module _ (db : Db) (h : IsConsistent db) where
  pub change_repos :
      (repos : Table Repo)
      → RepoPart repos
      → All (λ (s : Session). exists (repo_is s.repo_id) repos.rows ≡ true) db.sessions.rows
      → All (λ (j : Job). exists (repo_is j.repo_id) repos.rows ≡ true) db.jobs.rows
      → IsConsistent (record db { repos = repos })
  change_repos repos part sessions jobs = record {
    repo_part = part;
    session_part = record { keyed = h.session_part.keyed; of_repo = sessions };
    job_part = record { keyed = h.job_part.keyed; of_repo = jobs; timed = h.job_part.timed };
    attempt_part = h.attempt_part;
    event_part = h.event_part;
    command_keyed = h.command_keyed;
  }

  pub change_sessions :
      (sessions : Table Session)
      → SessionPart db.repos sessions
      → All (λ (a : Attempt). has_session sessions a.session_id ≡ true) db.attempts.rows
      → IsConsistent (record db { sessions = sessions })
  change_sessions sessions part attempts = record {
    repo_part = h.repo_part;
    session_part = part;
    job_part = h.job_part;
    attempt_part = record {
      keyed = h.attempt_part.keyed;
      of_job = h.attempt_part.of_job;
      of_session = attempts;
    };
    event_part = h.event_part;
    command_keyed = h.command_keyed;
  }

  pub change_jobs :
      (jobs : Table Job)
      → JobPart db.repos jobs
      → ((i : ℕ) → exists (job_is i) db.jobs.rows ≡ true → exists (job_is i) jobs.rows ≡ true)
      → IsConsistent (record db { jobs = jobs })
  change_jobs jobs part stay = record {
    repo_part = h.repo_part;
    session_part = h.session_part;
    job_part = part;
    attempt_part = record {
      keyed = h.attempt_part.keyed;
      of_job =
          All-map (λ (a : Attempt). exists (job_is a.job_id) db.jobs.rows ≡ true)
            (λ a. exists (job_is a.job_id) jobs.rows ≡ true) db.attempts.rows (λ a. stay a.job_id)
            h.attempt_part.of_job;
      of_session = h.attempt_part.of_session;
    };
    event_part = h.event_part;
    command_keyed = h.command_keyed;
  }

  pub change_attempts :
      (attempts : Table Attempt)
      → AttemptPart db.jobs db.sessions attempts
      → ((i : ℕ)
          → exists (attempt_is i) db.attempts.rows ≡ true
          → exists (attempt_is i) attempts.rows ≡ true)
      → IsConsistent (record db { attempts = attempts })
  change_attempts attempts part stay = record {
    repo_part = h.repo_part;
    session_part = h.session_part;
    job_part = h.job_part;
    attempt_part = part;
    event_part = record {
      keyed = h.event_part.keyed;
      of_attempt =
          All-map (λ (e : Event). exists (attempt_is e.attempt_id) db.attempts.rows ≡ true)
            (λ e. exists (attempt_is e.attempt_id) attempts.rows ≡ true) db.events.rows
            (λ e. stay e.attempt_id) h.event_part.of_attempt;
    };
    command_keyed = h.command_keyed;
  }

  pub change_events :
      (events : Table Event)
      → EventPart db.attempts events
      → IsConsistent (record db { events = events })
  change_events events part = record {
    repo_part = h.repo_part;
    session_part = h.session_part;
    job_part = h.job_part;
    attempt_part = h.attempt_part;
    event_part = part;
    command_keyed = h.command_keyed;
  }

  pub change_commands :
      (commands : Table Command)
      → IsKeyed (λ (c : Command). c.id) commands
      → IsConsistent (record db { commands = commands })
  change_commands commands part = record {
    repo_part = h.repo_part;
    session_part = h.session_part;
    job_part = h.job_part;
    attempt_part = h.attempt_part;
    event_part = h.event_part;
    command_keyed = part;
  }
