-- ===== src/Steps/Keep/All.antt =====
-- The invariant over one step and over any sequence of steps.
use claude_discord_agent.Prelude.{ℕ, arith}
use claude_discord_agent.Table.{empty, count}
use claude_discord_agent.Table.Keys.{IsKeyed}
use claude_discord_agent.Db.Types.{Db, new_db}
use claude_discord_agent.Steps.{
  Op, creates_repo, updates_repo, deletes_repo, sets_backoff, clears_backoff, creates_session,
  updates_session, swaps_session, deletes_session, creates_job, transitions_job, limits_job,
  succeeds_job, creates_attempt, finishes_attempt, adds_event, enqueues_command, polls_commands,
  marks_reported, claims_fallback, marks_woken, counts_wake, sets_undeliverable, perform, Reaches,
  here, next,
}
use claude_discord_agent.Steps.Invariant.{IsConsistent}
use claude_discord_agent.Steps.Keep.Jobs.{
  keep_mark_reported, keep_claim, keep_mark_woken, keep_incr_wake, keep_undeliverable,
  keep_transition, keep_limit, keep_succeed, keep_create_job,
}
use claude_discord_agent.Steps.Keep.Repos.{
  keep_set_backoff, keep_clear_backoff, keep_update_repo, keep_create_repo, keep_delete_repo,
}
use claude_discord_agent.Steps.Keep.Sessions.{
  keep_update_session, keep_cas, keep_create_session, keep_delete_session,
}
use claude_discord_agent.Steps.Keep.Attempts.{
  keep_create_attempt, keep_finish_attempt, keep_add_event, keep_enqueue, keep_poll,
}

-- Every step, whether it returns or raises, keeps the invariant: keys and names stay unique, no
-- reference is left without its row, and a job has a `terminal_at` exactly while its state is to be
-- reported.
perform-IsConsistent : (op : Op) (db : Db) → IsConsistent db → IsConsistent (perform op db)
unfolding perform
perform-IsConsistent (creates_repo name path o now) db h = keep_create_repo db h name path o now
perform-IsConsistent (updates_repo name fields) db h = keep_update_repo db h name fields
perform-IsConsistent (deletes_repo name) db h = keep_delete_repo db h name
perform-IsConsistent (sets_backoff i until times) db h = keep_set_backoff db h i until times
perform-IsConsistent (clears_backoff i) db h = keep_clear_backoff db h i
perform-IsConsistent (creates_session i pid now) db h = keep_create_session db h i pid now
perform-IsConsistent (updates_session i fields) db h = keep_update_session db h i fields
perform-IsConsistent (swaps_session i a fields) db h = keep_cas db h i a fields
perform-IsConsistent (deletes_session i) db h = keep_delete_session db h i
perform-IsConsistent (creates_job i task o now) db h = keep_create_job db h i task o now
perform-IsConsistent (transitions_job i s result now) db h = keep_transition db h i s result now
perform-IsConsistent (limits_job i now) db h = keep_limit db h i now
perform-IsConsistent (succeeds_job i result now) db h = keep_succeed db h i result now
perform-IsConsistent (creates_attempt i s now) db h = keep_create_attempt db h i s now
perform-IsConsistent (finishes_attempt i code error now) db h =
    keep_finish_attempt db h i code error now
perform-IsConsistent (adds_event i type d now) db h = keep_add_event db h i type d now
perform-IsConsistent (enqueues_command c payload now) db h = keep_enqueue db h c payload now
perform-IsConsistent (polls_commands limit) db h = keep_poll db h limit
perform-IsConsistent (marks_reported i ts) db h = keep_mark_reported db h i ts
perform-IsConsistent (claims_fallback i) db h = keep_claim db h i
perform-IsConsistent (marks_woken i) db h = keep_mark_woken db h i
perform-IsConsistent (counts_wake i) db h = keep_incr_wake db h i
perform-IsConsistent (sets_undeliverable i) db h = keep_undeliverable db h i

-- Whatever sequence of steps leads from one database to another keeps the invariant.
pub Reaches-IsConsistent : (db db' : Db) → Reaches db db' → IsConsistent db → IsConsistent db'
Reaches-IsConsistent db _ here h = h
Reaches-IsConsistent db _ (next {db'} r op) h =
    perform-IsConsistent op db' (Reaches-IsConsistent db db' r h)

empty-IsKeyed : {A : Type 0} (key : A → ℕ) → IsKeyed key empty
unfolding count
empty-IsKeyed key = record { fresh = tt; unique = λ i. omega arith }

-- A new database satisfies the invariant.
pub new_db-IsConsistent : IsConsistent new_db
unfolding count
new_db-IsConsistent = record {
  repo_part = record { keyed = empty-IsKeyed _; named = λ n. omega arith };
  session_part = record { keyed = empty-IsKeyed _; of_repo = tt };
  job_part = record { keyed = empty-IsKeyed _; of_repo = tt; timed = tt };
  attempt_part = record { keyed = empty-IsKeyed _; of_job = tt; of_session = tt };
  event_part = record { keyed = empty-IsKeyed _; of_attempt = tt };
  command_keyed = empty-IsKeyed _;
}
