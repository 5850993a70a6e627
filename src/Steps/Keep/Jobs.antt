-- ===== src/Steps/Keep/Jobs.antt =====
-- The invariant under the steps that write to the jobs (lib/db.py).
use claude_discord_agent.Prelude.{
  ℕ, ◌≡◌, refl, Bool, true, Option, some, String, [], ◌∷◌, arith, All, All-append, Bool-cases,
  Option-cases, inl, inr,
}
use claude_discord_agent.Table.{update, exists}
use claude_discord_agent.Table.Rows.{update-All, exists-update, exists-append_left}
use claude_discord_agent.Table.Keys.{insert_row-IsKeyed, update-IsKeyed}
use claude_discord_agent.Table.Unique.{update_found-All}
use claude_discord_agent.Db.Lifecycle.{JobState, may_become, rate_limited, succeeded}
use claude_discord_agent.Db.Types.{Db, Job, Time, fallback}
use claude_discord_agent.Db.Jobs.{
  JobOptions, new_job, repo_is, job_is, update_jobs, create_job, get_job, moved, transition_job,
}
use claude_discord_agent.Db.Transition.{moved-id}
use claude_discord_agent.Db.Delivery.{
  is_unreported, is_claimable, mark_reported, claim_for_fallback, mark_woken, incr_wake_attempts,
  set_undeliverable,
}
use claude_discord_agent.Scheduler.Outcome.{rate_limit_job, succeed_job}
use claude_discord_agent.Steps.{if_may_become}
use claude_discord_agent.Steps.Invariant.{IsTimed, IsConsistent}
use claude_discord_agent.Steps.Change.{change_jobs}

moved-repo_id :
    (s : JobState) (result : Option String) (now : Time) (j : Job)
    → (moved s result now j).repo_id ≡ j.repo_id
unfolding moved
moved-repo_id s result now j = ground arith

-- An allowed transition keeps the time of the end where it belongs.
moved-IsTimed :
    (s : JobState) (result : Option String) (now : Time) (j : Job)
    → may_become j.state s ≡ true
    → IsTimed j
    → IsTimed (moved s result now j)
unfolding moved
moved-IsTimed s result now j m t = ground arith

limited-IsTimed :
    (j : Job) (now : Time)
    → may_become j.state rate_limited ≡ true
    → IsTimed j
    → IsTimed (record j { state = rate_limited; updated_at = now })
limited-IsTimed j now m t = ground arith

module _ (db : Db) (h : IsConsistent db) where
  -- An UPDATE that sets neither `id` nor `repo_id`.
  keep_update :
      (test : Job → Bool) (f : Job → Job)
      → ((j : Job) → (f j).id ≡ j.id)
      → ((j : Job) → (f j).repo_id ≡ j.repo_id)
      → All IsTimed (update test f db.jobs.rows)
      → IsConsistent (update_jobs test f db)
  keep_update test f same same_repo timed =
      change_jobs db h (record { rows = update test f db.jobs.rows; next_id = db.jobs.next_id })
        (record {
          keyed = update-IsKeyed (λ (j : Job). j.id) test f db.jobs same h.job_part.keyed;
          of_repo =
              update-All (λ j. exists (repo_is j.repo_id) db.repos.rows ≡ true) test f db.jobs.rows
                (λ j _ (p : exists (repo_is j.repo_id) db.repos.rows ≡ true). rw (same_repo j) p)
                h.job_part.of_repo;
          timed = timed;
        })
        (λ i p. rw (exists-update test (job_is i) f db.jobs.rows (λ j. rw (same j))) p)

  -- One that leaves the state and the time of the end alone.
  keep_mark :
      (test : Job → Bool) (f : Job → Job)
      → ((j : Job) → (f j).id ≡ j.id)
      → ((j : Job) → (f j).repo_id ≡ j.repo_id)
      → ((j : Job) → IsTimed j → IsTimed (f j))
      → IsConsistent (update_jobs test f db)
  keep_mark test f same same_repo timed =
      keep_update test f same same_repo
        (update-All IsTimed test f db.jobs.rows (λ j _. timed j) h.job_part.timed)

  pub keep_mark_reported : (i : ℕ) (ts : Time) → IsConsistent (mark_reported i ts db).1
  unfolding mark_reported
  keep_mark_reported i ts =
      keep_mark (is_unreported i) (λ j. record j { reported_at = some ts }) (λ j. refl) (λ j. refl)
        (λ j p. p)

  pub keep_claim : (i : ℕ) → IsConsistent (claim_for_fallback i db).1
  unfolding claim_for_fallback
  keep_claim i =
      keep_mark (is_claimable i) (λ j. record j { wake_state = some fallback }) (λ j. refl)
        (λ j. refl) (λ j p. p)

  pub keep_mark_woken : (i : ℕ) → IsConsistent (mark_woken i db)
  unfolding mark_woken
  keep_mark_woken i = keep_mark _ _ (λ j. refl) (λ j. refl) (λ j p. p)

  pub keep_incr_wake : (i : ℕ) → IsConsistent (incr_wake_attempts i db).1
  unfolding incr_wake_attempts
  keep_incr_wake i = keep_mark _ _ (λ j. refl) (λ j. refl) (λ j p. p)

  pub keep_undeliverable : (i : ℕ) → IsConsistent (set_undeliverable i db)
  unfolding set_undeliverable
  keep_undeliverable i = keep_mark _ _ (λ j. refl) (λ j. refl) (λ j p. p)

  -- An UPDATE of the one job with an id.
  keep_found :
      (i : ℕ) (f : Job → Job) (job : Job)
      → get_job i db ≡ some job
      → ((j : Job) → (f j).id ≡ j.id)
      → ((j : Job) → (f j).repo_id ≡ j.repo_id)
      → (IsTimed job → IsTimed (f job))
      → IsConsistent (update_jobs (job_is i) f db)
  unfolding get_job
  keep_found i f job found same same_repo timed = keep_update (job_is i) f same same_repo (
      update_found-All IsTimed (job_is i) f db.jobs.rows job found (h.job_part.keyed.unique i) timed
        h.job_part.timed)

  pub keep_transition :
      (i : ℕ) (s : JobState) (result : Option String) (now : Time)
      → IsConsistent (transition_job i s result now db).1
  unfolding transition_job
  keep_transition i s result now = elim (Option-cases (get_job i db)) [
    | inl e ↦ rw (e, transition_job) h
    | inr (job, e) ↦ elim (Bool-cases (may_become job.state s)) [
      | inl ok_move ↦
          rw (e, ok_move, transition_job)
            (keep_found i (moved s result now) job e (moved-id s result now)
              (moved-repo_id s result now) (moved-IsTimed s result now job ok_move))
      | inr no_move ↦ rw (e, no_move, transition_job) h
    ]
  ]

  -- A write behind a test of the state.
  keep_if_may_become :
      (i : ℕ) (s : JobState) (f : Job → Job)
      → ((j : Job) → (f j).id ≡ j.id)
      → ((j : Job) → (f j).repo_id ≡ j.repo_id)
      → ((j : Job) → may_become j.state s ≡ true → IsTimed j → IsTimed (f j))
      → IsConsistent (if_may_become i s (update_jobs (job_is i) f) db)
  unfolding if_may_become
  keep_if_may_become i s f same same_repo timed = elim (Option-cases (get_job i db)) [
    | inl e ↦ rw (e, if_may_become) h
    | inr (job, e) ↦ elim (Bool-cases (may_become job.state s)) [
      | inl ok_move ↦
          rw (e, ok_move, if_may_become) (keep_found i f job e same same_repo (timed job ok_move))
      | inr no_move ↦ rw (e, no_move, if_may_become) h
    ]
  ]

  pub keep_limit :
      (i : ℕ) (now : Time) → IsConsistent (if_may_become i rate_limited (rate_limit_job i now) db)
  keep_limit i now =
      keep_if_may_become i rate_limited (λ j. record j { state = rate_limited; updated_at = now })
        (λ j. refl) (λ j. refl) (λ j m p. limited-IsTimed j now m p)

  pub keep_succeed :
      (i : ℕ) (result : Option String) (now : Time)
      → IsConsistent (if_may_become i succeeded (succeed_job i result now) db)
  keep_succeed i result now =
      keep_if_may_become i succeeded _ (λ j. refl) (λ j. refl) (λ j m p. refl)

  pub keep_create_job :
      (repo_id : ℕ) (task : String) (o : JobOptions) (now : Time)
      → IsConsistent (create_job repo_id task o now db).1
  unfolding create_job
  keep_create_job repo_id task o now = elim (Bool-cases (exists (repo_is repo_id) db.repos.rows)) [
    | inr e ↦ rw e h
    | inl e ↦ rw e (
        change_jobs db h _
          (record {
            keyed =
                insert_row-IsKeyed (λ (j : Job). j.id) (new_job repo_id task o now) db.jobs
                  (λ i. refl) h.job_part.keyed;
            of_repo =
                All-append (λ j. exists (repo_is j.repo_id) db.repos.rows ≡ true) db.jobs.rows
                  (new_job repo_id task o now db.jobs.next_id ∷ []) h.job_part.of_repo (e, tt);
            timed =
                All-append IsTimed db.jobs.rows (new_job repo_id task o now db.jobs.next_id ∷ [])
                  h.job_part.timed (refl, tt);
          })
          (λ i p.
            exists-append_left (job_is i) db.jobs.rows
              (new_job repo_id task o now db.jobs.next_id ∷ []) p))
  ]
