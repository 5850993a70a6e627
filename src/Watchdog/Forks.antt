-- ===== src/Watchdog/Forks.antt =====
-- The recovery that moves a job to a new session (lib/watchdog.py), and the retry limit.
use claude_discord_agent.Prelude.{
  ℕ, ◌≡◌, refl, Option, none, some, Bool, true, arith, Option-cases, inl, inr, ok, last, ◌∙◌,
  bind-ok, caught, Action, pure, catch_value_error, ◌>>◌,
}
use claude_discord_agent.Table.{exists}
use claude_discord_agent.Db.Lifecycle.{queued, failed_permanent, timed_out}
use claude_discord_agent.Db.Types.{Db, Job, Time, dead}
use claude_discord_agent.Db.Jobs.{repo_is, job_is, get_job, moved, update_jobs, transition_job}
use claude_discord_agent.Db.Transition.{accepted, get_job-update_same, moved-id}
use claude_discord_agent.Db.Sessions.{SessionField, set_state, update_session, create_session}
use claude_discord_agent.Db.Attempts.{get_attempts}
use claude_discord_agent.Watchdog.Check.{try_transition}
use claude_discord_agent.Watchdog.Recover.{
  Recovered, failed, requeued_for_new_session, set_session_of, mark_old_session_dead, recover_fork,
}

same_set :
    (o : Option ℕ) (field : SessionField) (db : Db) → (set_session_of o field db).jobs ≡ db.jobs
unfolding set_session_of update_session
same_set none field db = refl
same_set (some s) field db = ground arith

same_set_repos :
    (o : Option ℕ) (field : SessionField) (db : Db) → (set_session_of o field db).repos ≡ db.repos
unfolding set_session_of update_session
same_set_repos none field db = refl
same_set_repos (some s) field db = ground arith

same_dead :
    (i : ℕ) (db : Db)
    → ((mark_old_session_dead i db).1.jobs ≡ db.jobs)
      × ((mark_old_session_dead i db).1.repos ≡ db.repos)
unfolding mark_old_session_dead
same_dead i db = elim (Option-cases (last (get_attempts i db))) [
  | inl e ↦ rw (e, mark_old_session_dead) (refl, refl)
  | inr (a, e) ↦
      rw (e, mark_old_session_dead)
        (same_set a.session_id (set_state dead) db, same_set_repos a.session_id (set_state dead) db)
]

job_of_jobs : (i : ℕ) (db db' : Db) → db'.jobs ≡ db.jobs → get_job i db' ≡ get_job i db
unfolding get_job
job_of_jobs i db db' same = rw same refl

-- A call that is caught, where it is accepted.
catch-ok :
    {A : Type 0} (m : Action Db Bool) (s s' : Db) (b : Bool) (a : A) (h : Action Db A)
    → m s ≡ (ok b, s')
    → catch_value_error (m >> pure a) h s ≡ (ok a, s')
catch-ok m s s' b a h e = caught (m >> pure a) s s' a h (bind-ok m s s' b (λ _. pure a) e)

created :
    (r : ℕ) (now : Time) (db : Db)
    → exists (repo_is r) db.repos.rows ≡ true
    → (create_session r none now db ≡ (ok db.sessions.next_id, (create_session r none now db).1))
      × ((create_session r none now db).1.jobs ≡ db.jobs)
unfolding create_session
created r now db e = rw (e, create_session) (refl, refl)

-- The call, once the session is made and the transition is known to be accepted.
fork_ends :
    (job : Job) (now now' now'' : Time) (db db2 db3 : Db) (id : ℕ)
    → create_session job.repo_id none now (mark_old_session_dead job.id db).1 ≡ (ok id, db2)
    → transition_job job.id queued none now' db2 ≡ (ok true, db3)
    → recover_fork job now now' now'' db
      ≡ (ok (requeued_for_new_session (mark_old_session_dead job.id db).0 id), db3)
unfolding recover_fork
fork_ends job now now' now'' db db2 db3 id made moves =
    bind-ok (create_session job.repo_id none now) (mark_old_session_dead job.id db).1 db2 id
      (λ new.
        catch_value_error
          (transition_job job.id queued none now'
            >> pure (requeued_for_new_session (mark_old_session_dead job.id db).0 new))
          give_up)
      made
    ∙ catch-ok (transition_job job.id queued none now') db2 db3 true
        (requeued_for_new_session (mark_old_session_dead job.id db).0 id) give_up moves
  where
    give_up : Action Db Recovered
    give_up =
        try_transition job.id failed_permanent (some "Max retries exceeded after fork") now''
        >> pure failed

-- A job that has timed out goes back to the queue when it is forked, however many attempts it has
-- had: its `max_retries` is not read.
pub recover_fork-requeues :
    (job : Job) (now now' now'' : Time) (db : Db)
    → get_job job.id db ≡ some job
    → job.state ≡ timed_out
    → exists (repo_is job.repo_id) db.repos.rows ≡ true
    → ((recover_fork job now now' now'' db).0
        ≡ ok (
            requeued_for_new_session
              (mark_old_session_dead job.id db).0
              (mark_old_session_dead job.id db).1.sessions.next_id))
      × (get_job job.id (recover_fork job now now' now'' db).1 ≡ some (moved queued none now' job))
recover_fork-requeues job now now' now'' db found late known =
    rw
      (fork_ends job now now' now'' db db2 db3 db1.sessions.next_id made.0
        (accepted job.id queued none now' db2 job still (rw late refl)))
      (
        refl,
        get_job-update_same (moved queued none now') job.id db2 job (moved-id queued none now')
            still,
      )
  where
    db1 : Db
    db1 = (mark_old_session_dead job.id db).1

    made :
        (create_session job.repo_id none now db1
          ≡ (ok db1.sessions.next_id, (create_session job.repo_id none now db1).1))
        × ((create_session job.repo_id none now db1).1.jobs ≡ db1.jobs)
    made = created job.repo_id now db1 (rw (same_dead job.id db).1 known)

    db2 : Db
    db2 = (create_session job.repo_id none now db1).1

    still : get_job job.id db2 ≡ some job
    still = job_of_jobs job.id db db2 (made.1 ∙ (same_dead job.id db).0) ∙ found

    db3 : Db
    db3 = update_jobs (job_is job.id) (moved queued none now') db2
