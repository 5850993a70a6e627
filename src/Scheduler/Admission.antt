-- ===== src/Scheduler/Admission.antt =====
-- Which job the scheduler lets run: `can_run` and `next_job` (lib/scheduler.py).
use claude_discord_agent.Prelude.{
  ℕ, ◌≡◌, refl, ◌≤◌, ◌<◌, ◌↔◌, true, false, none, some, List, [], ◌∷◌, arith, if◌then◌else◌,
  Bool-cases, Option-cases, inl, inr, ltb, leb, first, All, subst, some-injective,
}
use claude_discord_agent.Db.Lifecycle.{queued, same_state}
use claude_discord_agent.Db.Types.{Db, Job, Repo, Time}
use claude_discord_agent.Db.Jobs.{is_listed, list_jobs, default_limit, count_running_jobs}
use claude_discord_agent.Db.Repos.{get_backoff}
use claude_discord_agent.System.{System}
use claude_discord_agent.Scheduler.Backoff.{load, is_backed_off}
use claude_discord_agent.Scheduler.Queue.{list_jobs_lem}
use claude_discord_agent.Scheduler.Dispatch.{get_repo_by_id, has_room, can_run, runnable, next_job}

-- What may run: no backoff is in force, and both concurrency limits leave room.
pub record MayRun (global_max_concurrency repo_id : ℕ) (now : Time) (db : Db) : Type 0 where
  pub repo : Repo
  pub known : get_repo_by_id repo_id db ≡ some repo
  pub awake : (get_backoff repo_id db).0 ≤ now
  pub global_room : count_running_jobs none db < global_max_concurrency
  pub repo_room : count_running_jobs (some repo_id) db < repo.max_concurrency

has_room-known :
    (g r : ℕ) (db : Db) (repo : Repo)
    → get_repo_by_id r db ≡ some repo
    → has_room g r db ≡ (
        if leb g (count_running_jobs none db)
        then false
        else ltb (count_running_jobs (some r) db) repo.max_concurrency)
unfolding has_room
has_room-known g r db repo e = rw (e, has_room) refl

has_room-unknown : (g r : ℕ) (db : Db) → get_repo_by_id r db ≡ none → has_room g r db ≡ false
unfolding has_room
has_room-unknown g r db e = elim (Bool-cases (leb g (count_running_jobs none db))) [
  | inl t ↦ rw (e, t, has_room) refl
  | inr t ↦ rw (e, t, has_room) refl
]

can_run-value :
    (g r : ℕ) (now : Time) (s : System)
    → (can_run g r now s).0 ≡ (if ltb now (get_backoff r s.db).0 then false else has_room g r s.db)
unfolding can_run is_backed_off load
can_run-value g r now s = refl

can_run-MayRun :
    (g r : ℕ) (now : Time) (s : System) → (can_run g r now s).0 ≡ true → MayRun g r now s.db
can_run-MayRun g r now s h = elim (Option-cases (get_repo_by_id r s.db)) [
  | inl e ↦ absurd (ground (arith, can_run-value g r now s, has_room-unknown g r s.db e))
  | inr (repo, e) ↦
      let v = can_run-value g r now s in
      let room = has_room-known g r s.db repo e in
      record {
        repo = repo;
        known = e;
        awake = ground arith;
        global_room = ground arith;
        repo_room = ground arith;
      }
]

MayRun-can_run :
    (g r : ℕ) (now : Time) (s : System) → MayRun g r now s.db → (can_run g r now s).0 ≡ true
MayRun-can_run g r now s m =
    let v = can_run-value g r now s in
    let room = has_room-known g r s.db m.repo m.known in
    ground (arith, m.awake, m.global_room, m.repo_room)

-- `can_run` is true exactly where the repo exists, no backoff is in force, fewer jobs than the global
-- limit are active, and fewer jobs of the repo than the repo's limit.
pub can_run_iff :
    (g repo_id : ℕ) (now : Time) (s : System)
    → ((can_run g repo_id now s).0 ≡ true) ↔ MayRun g repo_id now s.db
can_run_iff g repo_id now s = (can_run-MayRun g repo_id now s, MayRun-can_run g repo_id now s)

-- A job that passes the WHERE clause of the queue.
pub record IsReady (g : ℕ) (now : Time) (clock : ℕ → Time) (db : Db) (j : Job) : Type 0 where
  pub in_queue : same_state j.state queued ≡ true
  pub due : j.enqueue_at ≤ now
  pub allowed : MayRun g j.repo_id (clock j.id) db

module _ (g : ℕ) (clock : ℕ → Time) where
  can_run-db : (r : ℕ) (now : Time) (s : System) → (can_run g r now s).1.db ≡ s.db
  unfolding can_run is_backed_off load
  can_run-db r now s = refl

  -- The first job that is left is one of the list for which `can_run` was true.
  pub first-runnable :
      (P : Job → Type 0) (js : List Job) (s : System) (j : Job)
      → All P js
      → first (runnable g clock js s).0 ≡ some j
      → P j × MayRun g j.repo_id (clock j.id) s.db
  unfolding runnable
  first-runnable P [] s j h e = cc
  first-runnable P (x ∷ xs) s j h e = elim (Bool-cases (can_run g x.repo_id (clock x.id) s).0) [
    | inl t ↦
        let same : x ≡ j = some-injective x j (rw t at e) in
        subst (λ y. P y × MayRun g y.repo_id (clock y.id) s.db) same
          (h.0, can_run-MayRun g x.repo_id (clock x.id) s t)
    | inr t ↦
        let (p, m) = first-runnable P xs (can_run g x.repo_id (clock x.id) s).1 j h.1 (rw t at e) in
        (p, subst (MayRun g j.repo_id (clock j.id)) (can_run-db x.repo_id (clock x.id) s) m)
  ]

listed_queued :
    (j : Job) (now : Time)
    → is_listed none (some queued) (some now) j ≡ true
    → same_state j.state queued ≡ true
unfolding is_listed
listed_queued j now h = ground arith

listed_due :
    (j : Job) (now : Time) → is_listed none (some queued) (some now) j ≡ true → j.enqueue_at ≤ now
unfolding is_listed
listed_due j now h = ground arith

-- The job that the daemon's loop takes next is in the queue, is due, and may run.
pub next_job-IsReady :
    (g : ℕ) (now : Time) (clock : ℕ → Time) (s : System) (j : Job)
    → (next_job g none now clock s).0 ≡ some j
    → IsReady g now clock s.db j
unfolding next_job
next_job-IsReady g now clock s j e =
    let listed = list_jobs_lem none (some queued) default_limit (some now) s.db in
    let (p, m) =
      first-runnable g clock (λ j. is_listed none (some queued) (some now) j ≡ true)
        (list_jobs none (some queued) default_limit (some now) s.db) s j listed.2 e in
    record { in_queue = listed_queued j now p; due = listed_due j now p; allowed = m }
