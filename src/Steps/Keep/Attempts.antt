-- ===== src/Steps/Keep/Attempts.antt =====
-- The invariant under the steps that write to attempts, events and commands (lib/db.py).
use claude_discord_agent.Prelude.{
  ℕ, ◌+◌, ◌≡◌, refl, true, Option, none, some, String, List, [], ◌∷◌, arith, All-append, Bool-cases,
  inl, inr,
}
use claude_discord_agent.Prelude.Int.{ℤ}
use claude_discord_agent.Table.{Table, update, exists}
use claude_discord_agent.Table.Rows.{update-All, exists-update, exists-append_left}
use claude_discord_agent.Table.Keys.{IsKeyed, insert_row-IsKeyed, update-IsKeyed}
use claude_discord_agent.Db.Types.{Db, Attempt, Event, Command, CommandPayload, Time}
use claude_discord_agent.Db.Jobs.{job_is}
use claude_discord_agent.Db.Attempts.{
  attempt_is, max_attempt_num, new_attempt, attempt_allowed, create_attempt, finish_attempt,
  new_event, add_event,
}
use claude_discord_agent.Db.Commands.{
  command_is, new_command, enqueue_command, mark_processed, mark_all, pending_commands,
  poll_commands,
}
use claude_discord_agent.Steps.Invariant.{IsConsistent, has_session}
use claude_discord_agent.Steps.Change.{change_attempts, change_events, change_commands}

-- What the foreign keys of a new attempt have been tested for.
allowed_refs :
    (job_id : ℕ) (session_id : Option ℕ) (db : Db)
    → attempt_allowed job_id session_id db ≡ true
    → (exists (job_is job_id) db.jobs.rows ≡ true) × (has_session db.sessions session_id ≡ true)
allowed_refs job_id none db h = (h, refl)
allowed_refs job_id (some s) db h = ground arith

module _ (db : Db) (h : IsConsistent db) where
  pub keep_create_attempt :
      (job_id : ℕ) (session_id : Option ℕ) (now : Time)
      → IsConsistent (create_attempt job_id session_id now db).1
  unfolding create_attempt
  keep_create_attempt job_id session_id now =
      elim (Bool-cases (attempt_allowed job_id session_id db)) [
        | inr e ↦ rw (e, create_attempt) h
        | inl e ↦
            let num = max_attempt_num job_id db.attempts.rows + 1 in
            rw (e, create_attempt)
              (change_attempts db h _
                (record {
                  keyed =
                      insert_row-IsKeyed (λ (a : Attempt). a.id)
                        (new_attempt job_id session_id num now) db.attempts (λ i. refl)
                        h.attempt_part.keyed;
                  of_job =
                      All-append (λ a. exists (job_is a.job_id) db.jobs.rows ≡ true)
                        db.attempts.rows
                        (new_attempt job_id session_id num now db.attempts.next_id ∷ [])
                        h.attempt_part.of_job ((allowed_refs job_id session_id db e).0, tt);
                  of_session =
                      All-append (λ a. has_session db.sessions a.session_id ≡ true) db.attempts.rows
                        (new_attempt job_id session_id num now db.attempts.next_id ∷ [])
                        h.attempt_part.of_session ((allowed_refs job_id session_id db e).1, tt);
                })
                (λ i p. exists-append_left (attempt_is i) db.attempts.rows _ p))
      ]

  pub keep_finish_attempt :
      (i : ℕ) (exit_code : Option ℤ) (error : Option String) (now : Time)
      → IsConsistent (finish_attempt i exit_code error now db).1
  unfolding finish_attempt
  keep_finish_attempt i exit_code error now =
      let f = λ (a : Attempt). record a {
        finished_at = some now;
        exit_code = exit_code;
        error = error;
      } in
      change_attempts db h
        (record { rows = update (attempt_is i) f db.attempts.rows; next_id = db.attempts.next_id })
        (record {
          keyed =
              update-IsKeyed (λ (a : Attempt). a.id) (attempt_is i) f db.attempts (λ a. refl)
                h.attempt_part.keyed;
          of_job =
              update-All (λ a. exists (job_is a.job_id) db.jobs.rows ≡ true) (attempt_is i) f
                db.attempts.rows (λ a _ p. p) h.attempt_part.of_job;
          of_session =
              update-All (λ a. has_session db.sessions a.session_id ≡ true) (attempt_is i) f
                db.attempts.rows (λ a _ p. p) h.attempt_part.of_session;
        })
        (λ k p. rw (exists-update (attempt_is i) (attempt_is k) f db.attempts.rows (λ a. refl)) p)

  pub keep_add_event :
      (i : ℕ) (event_type : String) (event_data : Option String) (now : Time)
      → IsConsistent (add_event i event_type event_data now db).1
  unfolding add_event
  keep_add_event i event_type event_data now =
      elim (Bool-cases (exists (attempt_is i) db.attempts.rows)) [
        | inr e ↦ rw (e, add_event) h
        | inl e ↦
            rw (e, add_event)
              (change_events db h _ (record {
                keyed =
                    insert_row-IsKeyed (λ (e : Event). e.id) (new_event i event_type event_data now)
                      db.events (λ i. refl) h.event_part.keyed;
                of_attempt =
                    All-append (λ e. exists (attempt_is e.attempt_id) db.attempts.rows ≡ true)
                      db.events.rows (new_event i event_type event_data now db.events.next_id ∷ [])
                      h.event_part.of_attempt (e, tt);
              }))
      ]

  pub keep_enqueue :
      (command : String) (payload : Option CommandPayload) (now : Time)
      → IsConsistent (enqueue_command command payload now db).1
  unfolding enqueue_command
  keep_enqueue command payload now = change_commands db h _ (
      insert_row-IsKeyed (λ (c : Command). c.id) (new_command command payload now) db.commands
        (λ i. refl) h.command_keyed)

  mark_all-IsKeyed :
      (cs : List Command) (t : Table Command)
      → IsKeyed (λ (c : Command). c.id) t
      → IsKeyed (λ (c : Command). c.id) (record { rows = mark_all cs t.rows; next_id = t.next_id })
  unfolding mark_all
  mark_all-IsKeyed [] t k = k
  mark_all-IsKeyed (c ∷ cs) t k =
      mark_all-IsKeyed cs (record { rows = mark_processed c.id t.rows; next_id = t.next_id })
        (update-IsKeyed (λ (c : Command). c.id) (command_is c.id)
          (λ c. record c { processed = true }) t (λ c. refl) k)

  pub keep_poll : (limit : ℕ) → IsConsistent (poll_commands limit db).1
  unfolding poll_commands
  keep_poll limit =
      change_commands db h _
        (mark_all-IsKeyed (pending_commands limit db) db.commands h.command_keyed)
