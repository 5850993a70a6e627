-- ===== src/Daemon/Prepare.antt =====
-- What the preparation of a run, and its undoing, do to the counts of jobs (lib/runner.py).
use claude_discord_agent.Prelude.{
  subst, sym, ◌||◌, ℕ, ◌+◌, ◌≤◌, ◌<◌, ◌≡◌, refl, ◌∙◌, Bool, true, none, some, List, [], ◌∷◌, ok,
  Action, pure, total, ◌>>=◌, ◌>>◌, arith, bind-ok, runner_error,
}
use claude_discord_agent.Prelude.Int.{negsuc}
use claude_discord_agent.Table.Own.{count-or, exists_of_found}
use claude_discord_agent.Table.{count, find, exists, insert_row}
use claude_discord_agent.Db.Lifecycle.{
  JobState, queued, starting, running, failed_retryable, same_state, may_become,
}
use claude_discord_agent.Db.Types.{Time, Db, Job, Repo, idle, busy}
use claude_discord_agent.Db.Jobs.{get_job, job_is, repo_is, transition_job, moved}
use claude_discord_agent.Db.Sessions.{
  SessionField, set_state, set_last_heartbeat, set_current_attempt_id, update_session, session_is,
}
use claude_discord_agent.Db.Attempts.{create_attempt, finish_attempt, new_attempt, max_attempt_num}
use claude_discord_agent.Runner.Run.{RunTimes, check_job_and_repo, prepare_run, undo_run}
use claude_discord_agent.Daemon.Draining.{
  is_queued, is_running, waiting, tally, IsDraining, bind-size, bind-IsDraining, pure-IsDraining,
  raise-IsDraining, same-IsDraining, transition-IsDraining, transition-waiting,
}

starts : (s : JobState) → same_state s queued ≡ true → may_become s starting ≡ true
starts s h = ground arith

running_waits : (at : Time) (k : Job) → is_queued (moved running none at k) ≡ true → ⊥
unfolding moved
running_waits at k h = cc

module _ (i session_id : ℕ) (t : RunTimes) where
  abbrev busy_fields : ℕ → List SessionField
  busy_fields a = set_state busy ∷ set_last_heartbeat t.heartbeat_at ∷ set_current_attempt_id a ∷ []

  -- What `prepare_run` does once the attempt is made.
  abbrev mark_running : ℕ → Action Db ℕ
  mark_running a =
      total (update_session session_id (busy_fields a))
      >> (transition_job i running none t.running_at >> pure a)

  abbrev enter_job : ℕ → Action Db ℕ
  enter_job a = transition_job i starting none t.starting_at >> mark_running a

  module _ (q : Job → Bool) where
    mark_running-IsDraining :
        ((j : Job) → job_is i j ≡ true → q (moved running none t.running_at j) ≡ true → q j ≡ true)
        → (a : ℕ) → IsDraining (tally q) (mark_running a)
    unfolding update_session
    mark_running-IsDraining enters a =
        let session_busy = total (update_session session_id (busy_fields a)) in
        bind-IsDraining (tally q) session_busy _
          (same-IsDraining (tally q) session_busy (λ db. refl))
          (λ _.
            bind-IsDraining (tally q) (transition_job i running none t.running_at) _
              (transition-IsDraining i running none t.running_at q enters)
              (λ _. pure-IsDraining (tally q) a))

    pub undo_run-IsDraining :
        ((j : Job)
          → job_is i j ≡ true
          → q (moved failed_retryable none t.failed_at j) ≡ true
          → q j ≡ true)
        → (a : ℕ) → IsDraining (tally q) (undo_run i session_id a t)
    unfolding undo_run update_session finish_attempt
    undo_run-IsDraining enters a =
        let failed = total (
          finish_attempt a (some (negsuc 0)) (some "Failed to start claude process")
            t.finished_at) in
        let freed = total (update_session session_id (set_state idle ∷ [])) in
        bind-IsDraining (tally q) failed _ (same-IsDraining (tally q) failed (λ db. refl)) (λ _.
          bind-IsDraining (tally q) freed _ (same-IsDraining (tally q) freed (λ db. refl)) (λ _.
            bind-IsDraining (tally q) (transition_job i failed_retryable none t.failed_at) _
              (transition-IsDraining i failed_retryable none t.failed_at q enters)
              (λ _. raise-IsDraining (tally q) runner_error)))

  -- The database with the attempt.
  abbrev attempted : Db → Db
  attempted db = record db {
    attempts =
        (insert_row
          (new_attempt i (some session_id) (max_attempt_num i db.attempts.rows + 1) t.attempt_at)
          db.attempts).1;
  }

  module _ (db : Db) (j : Job) (repo : Repo) (found : get_job i db ≡ some j)
      (known : find (repo_is j.repo_id) db.repos.rows ≡ some repo)
      (session_there : exists (session_is session_id) db.sessions.rows ≡ true) where
    checked : check_job_and_repo i db ≡ (ok tt, db)
    unfolding check_job_and_repo
    checked = rw (check_job_and_repo, found, known) refl

    made :
        create_attempt i (some session_id) t.attempt_at db ≡ (ok db.attempts.next_id, attempted db)
    unfolding create_attempt get_job
    made = rw (create_attempt, exists_of_found (job_is i) db.jobs.rows j found, session_there) refl

    prepared : prepare_run i session_id t db ≡ enter_job db.attempts.next_id (attempted db)
    unfolding prepare_run
    prepared =
        bind-ok (check_job_and_repo i) db db tt
          (λ _. create_attempt i (some session_id) t.attempt_at >>= enter_job) checked
        ∙ bind-ok (create_attempt i (some session_id) t.attempt_at) db (attempted db)
            db.attempts.next_id enter_job made

    -- The job leaves the queue, whatever follows.
    pub prepare_run-waiting :
        is_queued j ≡ true → waiting (prepare_run i session_id t db).1 < waiting db
    unfolding moved get_job
    prepare_run-waiting q =
        let a = db.attempts.next_id in
        let entered =
          transition-waiting i starting none t.starting_at (attempted db) j (λ k. refl) found q
            (starts j.state q) in
        let rest =
          bind-size waiting (transition_job i starting none t.starting_at) (λ _. mark_running a)
            (attempted db)
            (λ _.
              mark_running-IsDraining is_queued (λ k _ h. absurd (running_waits t.running_at k h))
                a) in
        rw prepared (omega (arith, entered, rest))

    -- At most the job itself is active after it.
    pub prepare_run-active :
        tally is_running (prepare_run i session_id t db).1
        ≤ tally is_running db + count (job_is i) db.jobs.rows
    prepare_run-active =
        let a = db.attempts.next_id in
        let q = λ (k : Job). is_running k || job_is i k in
        let kept : IsDraining (tally q) (enter_job a) =
          bind-IsDraining (tally q) (transition_job i starting none t.starting_at) _
            (transition-IsDraining i starting none t.starting_at q (λ k own _. ground (arith, own)))
            (λ _. mark_running-IsDraining q (λ k own _. ground (arith, own)) a) in
        let entered = kept.fewer (attempted db) in
        let (_, high) = count-or is_running (job_is i) db.jobs.rows in
        let (low, _) = count-or is_running (job_is i) (prepare_run i session_id t db).1.jobs.rows in
        omega (arith, low, high, subst (λ p. tally q p.1 ≤ tally q db) (sym prepared) entered)
