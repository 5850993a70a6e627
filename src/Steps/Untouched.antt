-- ===== src/Steps/Untouched.antt =====
-- The jobs under the writes of lib/db.py to the other tables.
use claude_discord_agent.Prelude.{ℕ, ◌≡◌, Option, String, List, arith}
use claude_discord_agent.Prelude.Int.{ℤ}
use claude_discord_agent.Db.Types.{Db, Time, CommandPayload}
use claude_discord_agent.Db.Repos.{
  RepoOptions, RepoField, create_repo, update_repo, delete_repo, set_backoff, clear_backoff,
}
use claude_discord_agent.Db.Sessions.{
  SessionField, create_session, update_session, cas_update_session, delete_session,
}
use claude_discord_agent.Db.Attempts.{create_attempt, finish_attempt, add_event}
use claude_discord_agent.Db.Commands.{enqueue_command, poll_commands}

-- The writes to the other tables.
module _ (db : Db) where
  pub created_repo :
      (name path : String) (o : RepoOptions) (now : Time)
      → (create_repo name path o now db).1.jobs ≡ db.jobs
  unfolding create_repo
  created_repo name path o now = ground arith

  pub updated_repo :
      (name : String) (fields : List RepoField) → (update_repo name fields db).1.jobs ≡ db.jobs
  unfolding update_repo
  updated_repo name fields = ground arith

  pub deleted_repo : (name : String) → (delete_repo name db).1.jobs ≡ db.jobs
  unfolding delete_repo
  deleted_repo name = ground arith

  pub backed_off :
      (r : ℕ) (until : Time) (times : ℕ) → (set_backoff r until times db).jobs ≡ db.jobs
  unfolding set_backoff
  backed_off r until times = ground arith

  pub cleared : (r : ℕ) → (clear_backoff r db).jobs ≡ db.jobs
  unfolding clear_backoff
  cleared r = ground arith

  pub created_session :
      (r : ℕ) (pid : Option ℕ) (now : Time) → (create_session r pid now db).1.jobs ≡ db.jobs
  unfolding create_session
  created_session r pid now = ground arith

  pub updated_session :
      (s : ℕ) (fields : List SessionField) → (update_session s fields db).1.jobs ≡ db.jobs
  unfolding update_session
  updated_session s fields = ground arith

  pub swapped_session :
      (s a : ℕ) (fields : List SessionField) → (cas_update_session s a fields db).1.jobs ≡ db.jobs
  unfolding cas_update_session
  swapped_session s a fields = ground arith

  pub deleted_session : (s : ℕ) → (delete_session s db).1.jobs ≡ db.jobs
  unfolding delete_session
  deleted_session s = ground arith

  pub created_attempt :
      (k : ℕ) (s : Option ℕ) (now : Time) → (create_attempt k s now db).1.jobs ≡ db.jobs
  unfolding create_attempt
  created_attempt k s now = ground arith

  pub finished_attempt :
      (a : ℕ) (code : Option ℤ) (error : Option String) (now : Time)
      → (finish_attempt a code error now db).1.jobs ≡ db.jobs
  unfolding finish_attempt
  finished_attempt a code error now = ground arith

  pub added_event :
      (a : ℕ) (type : String) (d : Option String) (now : Time)
      → (add_event a type d now db).1.jobs ≡ db.jobs
  unfolding add_event
  added_event a type d now = ground arith

  pub enqueued :
      (c : String) (payload : Option CommandPayload) (now : Time)
      → (enqueue_command c payload now db).1.jobs ≡ db.jobs
  unfolding enqueue_command
  enqueued c payload now = ground arith

  pub polled : (limit : ℕ) → (poll_commands limit db).1.jobs ≡ db.jobs
  unfolding poll_commands
  polled limit = ground arith
