-- ===== src/Steps/Keep/Sessions.antt =====
-- The invariant under the steps that write to the sessions (lib/db.py).
use claude_discord_agent.Prelude.{
  ℕ, ◌≡◌, refl, Bool, true, false, ◌&&◌, Option, none, some, List, [], ◌∷◌, arith, ◌==◌, All-map,
  All-map₂, All-append, All-const, ==_iff, ==_refl, subst, sym, Bool-cases, inl, inr,
}
use claude_discord_agent.Table.{Table, update, exists, delete}
use claude_discord_agent.Table.Rows.{update-All, exists-update, exists-append_left}
use claude_discord_agent.Table.Keys.{insert_row-IsKeyed, update-IsKeyed, delete-IsKeyed}
use claude_discord_agent.Table.Delete.{exists-delete, delete-All, All-exists}
use claude_discord_agent.Db.Types.{Db, Session, Attempt, Time}
use claude_discord_agent.Db.Jobs.{repo_is}
use claude_discord_agent.Db.Sessions.{
  SessionField, set_state, set_pid, set_last_heartbeat, set_current_attempt_id, session_is,
  update_sessions, new_session, create_session, is_current, set_session_fields, update_session,
  cas_update_session, is_used, delete_session,
}
use claude_discord_agent.Steps.Invariant.{SessionPart, IsConsistent, has_session}
use claude_discord_agent.Steps.Change.{change_sessions}

set_session_fields-keys :
    (fs : List SessionField) (s : Session)
    → ((set_session_fields fs s).id ≡ s.id) × ((set_session_fields fs s).repo_id ≡ s.repo_id)
unfolding set_session_fields
set_session_fields-keys [] s = (refl, refl)
set_session_fields-keys (set_state v ∷ fs) s = set_session_fields-keys fs _
set_session_fields-keys (set_pid v ∷ fs) s = set_session_fields-keys fs _
set_session_fields-keys (set_last_heartbeat v ∷ fs) s = set_session_fields-keys fs _
set_session_fields-keys (set_current_attempt_id v ∷ fs) s = set_session_fields-keys fs _

and_true : {a b : Bool} → a ≡ true → b ≡ true → (a && b) ≡ true
and_true p q = rw (p, q)

-- A reference to a session that is still there.
has_session_mono :
    (old new : Table Session) (o : Option ℕ)
    → ((i : ℕ) → exists (session_is i) old.rows ≡ true → exists (session_is i) new.rows ≡ true)
    → has_session old o ≡ true
    → has_session new o ≡ true
has_session_mono old new none stay h = refl
has_session_mono old new (some i) stay h = stay i h

module _ (db : Db) (h : IsConsistent db) where
  -- A new table in which every session is still there.
  keep_all :
      (sessions : Table Session)
      → SessionPart db.repos sessions
      → ((i : ℕ)
          → exists (session_is i) db.sessions.rows ≡ true
          → exists (session_is i) sessions.rows ≡ true)
      → IsConsistent (record db { sessions = sessions })
  keep_all sessions part stay = change_sessions db h sessions part (
      All-map (λ (a : Attempt). has_session db.sessions a.session_id ≡ true) _ db.attempts.rows
        (λ a p. has_session_mono db.sessions sessions a.session_id stay p)
        h.attempt_part.of_session)

  keep_update :
      (test : Session → Bool) (fs : List SessionField)
      → IsConsistent (update_sessions test (set_session_fields fs) db)
  keep_update test fs =
      keep_all
        (record {
          rows = update test (set_session_fields fs) db.sessions.rows;
          next_id = db.sessions.next_id;
        })
        (record {
          keyed =
              update-IsKeyed (λ (s : Session). s.id) test (set_session_fields fs) db.sessions
                (λ s. (set_session_fields-keys fs s).0) h.session_part.keyed;
          of_repo =
              update-All (λ s. exists (repo_is s.repo_id) db.repos.rows ≡ true) test
                (set_session_fields fs) db.sessions.rows
                (λ s _ (p : exists (repo_is s.repo_id) db.repos.rows ≡ true).
                  rw ((set_session_fields-keys fs s).1) p)
                h.session_part.of_repo;
        })
        (λ i p.
          rw
            (exists-update test (session_is i) (set_session_fields fs) db.sessions.rows
              (λ s. rw ((set_session_fields-keys fs s).0)))
            p)

  pub keep_update_session :
      (i : ℕ) (fs : List SessionField) → IsConsistent (update_session i fs db).1
  unfolding update_session
  keep_update_session i [] = h
  keep_update_session i (f ∷ fs) = keep_update (session_is i) (f ∷ fs)

  pub keep_cas : (i a : ℕ) (fs : List SessionField) → IsConsistent (cas_update_session i a fs db).1
  unfolding cas_update_session
  keep_cas i a [] = h
  keep_cas i a (f ∷ fs) = keep_update (is_current i a) (f ∷ fs)

  pub keep_create_session :
      (repo_id : ℕ) (pid : Option ℕ) (now : Time)
      → IsConsistent (create_session repo_id pid now db).1
  unfolding create_session
  keep_create_session repo_id pid now = elim (Bool-cases (exists (repo_is repo_id) db.repos.rows)) [
    | inr e ↦ rw (e, create_session) h
    | inl e ↦
        rw (e, create_session)
          (keep_all _
            (record {
              keyed =
                  insert_row-IsKeyed (λ (s : Session). s.id) (new_session repo_id pid now)
                    db.sessions (λ i. refl) h.session_part.keyed;
              of_repo =
                  All-append (λ s. exists (repo_is s.repo_id) db.repos.rows ≡ true) db.sessions.rows
                    (new_session repo_id pid now db.sessions.next_id ∷ []) h.session_part.of_repo
                    (e, tt);
            })
            (λ i p. exists-append_left (session_is i) db.sessions.rows _ p))
  ]

  -- An attempt's session is not one that `delete_session` deletes.
  session_stays :
      (i : ℕ)
      → (exists (session_is i) db.sessions.rows && is_used i db) ≡ false
      → (a : Attempt) → has_session db.sessions a.session_id ≡ true
      → ((q : Attempt → Bool) → q a ≡ true → exists q db.attempts.rows ≡ true)
      → (o : Option ℕ) → a.session_id ≡ o
      → has_session
          (record { rows = delete (session_is i) db.sessions.rows; next_id = db.sessions.next_id })
          o
        ≡ true
  session_stays i free a p here none e = refl
  session_stays i free a p here (some k) e =
      let there : exists (session_is k) db.sessions.rows ≡ true = rw e at p in
      elim (Bool-cases (k == i)) [
        | inr differ ↦
            exists-delete (session_is k) (session_is i) db.sessions.rows
              (All-map (λ s. exists (session_is k) db.sessions.rows ≡ true) _ db.sessions.rows
                (λ s _ q. ground (arith, differ)) (All-const _ db.sessions.rows there))
              there
        | inl same ↦
            let eq : k ≡ i = (==_iff k i).0 same in
            let used : is_used k db ≡ true =
              here (λ b. elim b.session_id [ none ↦ false | some n ↦ n == k ]) (rw e (==_refl k)) in
            let free' : (exists (session_is k) db.sessions.rows && is_used k db) ≡ false =
              subst (λ n. (exists (session_is n) db.sessions.rows && is_used n db) ≡ false) (sym eq)
                free in
            absurd (cc (free', and_true there used))
      ]

  pub keep_delete_session : (i : ℕ) → IsConsistent (delete_session i db).1
  unfolding delete_session
  keep_delete_session i =
      elim (Bool-cases (exists (session_is i) db.sessions.rows && is_used i db)) [
        | inl e ↦ rw (e, delete_session) h
        | inr e ↦
            rw (e, delete_session)
              (change_sessions db h _
                (record {
                  keyed =
                      delete-IsKeyed (λ (s : Session). s.id) (session_is i) db.sessions
                        h.session_part.keyed;
                  of_repo =
                      delete-All (λ s. exists (repo_is s.repo_id) db.repos.rows ≡ true)
                        (session_is i) db.sessions.rows h.session_part.of_repo;
                })
                (All-map₂ (λ (a : Attempt). has_session db.sessions a.session_id ≡ true)
                  (λ a. (q : Attempt → Bool) → q a ≡ true → exists q db.attempts.rows ≡ true) _
                  db.attempts.rows (λ a p here. session_stays i e a p here a.session_id refl)
                  h.attempt_part.of_session (All-exists db.attempts.rows)))
      ]
