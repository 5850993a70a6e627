-- ===== src/Steps/Moves.antt =====
-- What one write to the jobs does to the state of a job.
use claude_discord_agent.Prelude.{
  ℕ, ◌≡◌, refl, ◌≢◌, ◌⊎◌, Bool, true, Option, some, String, arith, ◌==◌, if◌then◌else◌, Bool-cases,
  Option-cases, inl, inr, subst,
}
use claude_discord_agent.Table.{exists}
use claude_discord_agent.Table.Rows.{find-append}
use claude_discord_agent.Db.Lifecycle.{JobState, may_become}
use claude_discord_agent.Db.Types.{Db, Job, Time}
use claude_discord_agent.Db.Jobs.{
  job_is, get_job, update_jobs, moved, transition_job, create_job, JobOptions, new_job, repo_is,
}
use claude_discord_agent.Db.Transition.{
  get_job-update_jobs, get_job-update_same, get_job-update_other, refused_missing, refused_invalid,
  done, transition_job_lem,
}
use claude_discord_agent.Db.Delivery.{
  mark_reported, claim_for_fallback, mark_woken, incr_wake_attempts, set_undeliverable,
}
use claude_discord_agent.Steps.{if_may_become}

moved-state :
    (s : JobState) (result : Option String) (now : Time) (j : Job)
    → (moved s result now j).state ≡ s
unfolding moved
moved-state s result now j = ground arith

-- One move of a job's state along the transition map, or none.
abbrev pub Moves : JobState → JobState → Type 0
Moves s t = (t ≡ s) ⊎ (may_become s t ≡ true)

-- What a change of the database may do to a job: it is still there, and its state has moved.
abbrev pub IsKept : ℕ → Job → Db → Type 0
IsKept i j db' = (j' : Job) × (get_job i db' ≡ some j') × Moves j.state j'.state

module _ (i : ℕ) (j : Job) (db : Db) (found : get_job i db ≡ some j) where
  -- Where the jobs do not change.
  pub same_jobs : (db' : Db) → db'.jobs ≡ db.jobs → IsKept i j db'
  unfolding get_job
  same_jobs db' same = (j, rw same found, inl refl)

  -- An UPDATE that does not set the state.
  mark_jobs :
      (test : Job → Bool) (f : Job → Job)
      → ((j : Job) → (f j).id ≡ j.id)
      → ((j : Job) → (f j).state ≡ j.state)
      → IsKept i j (update_jobs test f db)
  mark_jobs test f same same_state = (
    if test j then f j else j,
    rw (get_job-update_jobs test f i db same, found) refl,
    inl (ground (arith, same_state j)),
  )

  -- A change of one job, whose state may become the new one.
  move_to :
      (k : ℕ) (job new : Job) (db' : Db)
      → get_job k db ≡ some job
      → may_become job.state new.state ≡ true
      → get_job k db' ≡ some new
      → (i ≢ k → get_job i db' ≡ get_job i db)
      → IsKept i j db'
  move_to k job new db' e m after other = elim (Bool-cases (i == k)) [
    | inl p ↦
        let here_too : i ≡ k = ground arith in
        let same : job ≡ j = cc in
        (
          new,
          rw here_too after,
          inr (subst (λ (x : Job). may_become x.state new.state ≡ true) same m),
        )
    | inr p ↦ (j, cc (other (λ q. ground arith)), inl refl)
  ]

  -- An UPDATE of the job with an id, whose state may become the new one.
  pub move_job :
      (k : ℕ) (s : JobState) (f : Job → Job)
      → ((j : Job) → (f j).id ≡ j.id)
      → ((j : Job) → (f j).state ≡ s)
      → IsKept i j (if_may_become k s (update_jobs (job_is k) f) db)
  unfolding if_may_become
  move_job k s f same sets = elim (Option-cases (get_job k db)) [
    | inl e ↦ rw (e, if_may_become) (j, found, inl refl)
    | inr (job, e) ↦ elim (Bool-cases (may_become job.state s)) [
      | inr m ↦ rw (e, m, if_may_become) (j, found, inl refl)
      | inl m ↦
          rw (e, m, if_may_become)
            (move_to k job (f job) (update_jobs (job_is k) f db) e (rw (sets job) m)
              (get_job-update_same f k db job same e) (get_job-update_other f k i db same))
    ]
  ]

  pub IsKept-transition :
      (k : ℕ) (s : JobState) (result : Option String) (now : Time)
      → IsKept i j (transition_job k s result now db).1
  IsKept-transition k s result now = elim (transition_job_lem k s result now db) [
    | refused_missing _ e ↦ rw e (j, found, inl refl)
    | refused_invalid _ _ _ e ↦ rw e (j, found, inl refl)
    | done job e m _ after others ↦
        move_to k job (moved s result now job) (transition_job k s result now db).1 e
          (rw (moved-state s result now job) m) after (others i)
  ]

  pub IsKept-create :
      (repo_id : ℕ) (task : String) (o : JobOptions) (now : Time)
      → IsKept i j (create_job repo_id task o now db).1
  unfolding create_job get_job
  IsKept-create repo_id task o now = (
    j,
    elim (Bool-cases (exists (repo_is repo_id) db.repos.rows)) [
      | inr e ↦ rw (e, create_job) found
      | inl e ↦
          rw (e, create_job)
            (rw
              (
                find-append (job_is i) db.jobs.rows (new_job repo_id task o now db.jobs.next_id),
                found,
              )
              refl)
    ],
    inl refl,
  )

  pub IsKept-report : (k : ℕ) (ts : Time) → IsKept i j (mark_reported k ts db).1
  unfolding mark_reported
  IsKept-report k ts = mark_jobs _ _ (λ j. refl) (λ j. refl)

  pub IsKept-claim : (k : ℕ) → IsKept i j (claim_for_fallback k db).1
  unfolding claim_for_fallback
  IsKept-claim k = mark_jobs _ _ (λ j. refl) (λ j. refl)

  pub IsKept-woken : (k : ℕ) → IsKept i j (mark_woken k db)
  unfolding mark_woken
  IsKept-woken k = mark_jobs _ _ (λ j. refl) (λ j. refl)

  pub IsKept-wake : (k : ℕ) → IsKept i j (incr_wake_attempts k db).1
  unfolding incr_wake_attempts
  IsKept-wake k = mark_jobs _ _ (λ j. refl) (λ j. refl)

  pub IsKept-undeliverable : (k : ℕ) → IsKept i j (set_undeliverable k db)
  unfolding set_undeliverable
  IsKept-undeliverable k = mark_jobs _ _ (λ j. refl) (λ j. refl)
