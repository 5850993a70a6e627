-- ===== src/Daemon/Taken.antt =====
-- A round of the dispatch loop in which a job is started (lib/daemon.py).
use claude_discord_agent.Prelude.{
  ℕ, ◌+◌, ◌≤◌, ◌<◌, ◌≡◌, refl, sym, ap, ◌∙◌, true, none, some, List, [], ◌∷◌, ◌++◌, Result, ok,
  raised, Action, pure, catch_any, ◌>>◌, arith, bind-ok, first, All, All-map, take-All,
  Option-cases, inl, inr, subst, some-injective, ==_refl,
}
use claude_discord_agent.Table.{find, exists, count}
use claude_discord_agent.Table.Rows.{select-All}
use claude_discord_agent.Table.Order.{sort_by-All}
use claude_discord_agent.Table.Own.{
  FoundIn, own-found, own-exists, exists_of_found, exists-append_one,
}
use claude_discord_agent.Db.Lifecycle.{queued}
use claude_discord_agent.Db.Types.{Db, Job, Repo, Session, Time, idle}
use claude_discord_agent.Db.Jobs.{
  get_job, job_is, repo_is, list_jobs, is_listed, runs_before, default_limit,
}
use claude_discord_agent.Db.Sessions.{
  session_is, list_sessions, create_session, is_session_listed, new_session,
}
use claude_discord_agent.System.{System, on_db}
use claude_discord_agent.Scheduler.Dispatch.{next_job, get_repo_by_id}
use claude_discord_agent.Scheduler.Admission.{first-runnable, next_job-IsReady}
use claude_discord_agent.Runner.Run.{run_job}
use claude_discord_agent.Steps.{Reaches}
use claude_discord_agent.Steps.Invariant.{IsConsistent}
use claude_discord_agent.Steps.Keep.All.{Reaches-IsConsistent}
use claude_discord_agent.Steps.Planes.Daemon.{IsEarlyStepwise, start_steps, next_job-db}
use claude_discord_agent.Daemon.Dispatch.{session_for, Round, start_job}
use claude_discord_agent.Daemon.Draining.{is_queued, is_running, tally, waiting}
use claude_discord_agent.Daemon.Starts.{run_job-waiting, run_job-active}

first-All : {A : Type 0} (P : A → Type 0) (rs : List A) (x : A) → All P rs → first rs ≡ some x → P x
first-All P [] x h e = absurd (cc)
first-All P (y ∷ rs) x h e = subst P (some-injective y x e) h.0

-- The session of a job in a repo that is there.
record HasSession (r : ℕ) (now : Time) (db : Db) : Type 0 where
  session_id : ℕ
  db' : Db
  found : session_for r now db ≡ (ok session_id, db')
  same_jobs : db'.jobs ≡ db.jobs
  same_repos : db'.repos ≡ db.repos
  there : exists (session_is session_id) db'.sessions.rows ≡ true

session_for_lem :
    (r : ℕ) (now : Time) (db : Db) (repo : Repo)
    → find (repo_is r) db.repos.rows ≡ some repo
    → HasSession r now db
unfolding session_for create_session list_sessions
session_for_lem r now db repo known =
    elim (Option-cases (first (list_sessions (some r) (some idle) db))) [
      | inl e ↦ record {
        session_id = db.sessions.next_id;
        db' = record db {
          sessions = record {
            rows = db.sessions.rows ++ new_session r none now db.sessions.next_id ∷ [];
            next_id = db.sessions.next_id + 1;
          };
        };
        found =
            rw
              (session_for, e, create_session, exists_of_found (repo_is r) db.repos.rows repo known)
              refl;
        same_jobs = refl;
        same_repos = refl;
        there =
            exists-append_one (session_is db.sessions.next_id) db.sessions.rows
              (new_session r none now db.sessions.next_id) (==_refl db.sessions.next_id);
      }
      | inr (x, e) ↦ record {
        session_id = x.id;
        db' = db;
        found = rw (session_for, e) refl;
        same_jobs = refl;
        same_repos = refl;
        there =
            first-All (λ (y : Session). exists (session_is y.id) db.sessions.rows ≡ true) _ x
              (sort_by-All _ _ _ (
                select-All _ (is_session_listed (some r) (some idle)) db.sessions.rows
                  (own-exists (λ (y : Session). y.id) db.sessions.rows)))
              e;
      }
    ]

-- Every exception of `run_job` is caught.
caught_unit :
    {A : Type 0} (m : Action System A) (s : System)
    → catch_any (m >> pure tt) (pure tt) s ≡ (ok tt, (m s).1)
caught_unit m s = branch (m s).0 (m s).1
  where
    branch :
        {A : Type 0} (r : Result A) (s' : System)
        → catch_any ((λ (t : System). (r, s')) >> pure tt) (pure tt) s' ≡ (ok tt, s')
    branch (ok a) s' = refl
    branch (raised e) s' = refl

-- A call of `start_job`: no exception leaves it.
record Begun (round : Round) (j : Job) (s : System) : Type 0 where
  session_id : ℕ
  before : System
  begun :
      start_job round j s
      ≡ (ok tt, (run_job round.early j.id session_id round.started round.times before).1)
  same_jobs : before.db.jobs ≡ s.db.jobs
  same_repos : before.db.repos ≡ s.db.repos
  there : exists (session_is session_id) before.db.sessions.rows ≡ true

start_job_lem :
    (round : Round) (j : Job) (repo : Repo) (s : System)
    → find (repo_is j.repo_id) s.db.repos.rows ≡ some repo
    → Begun round j s
unfolding start_job
start_job_lem round j repo s known =
    let h = session_for_lem j.repo_id round.session_at s.db repo known in
    let before = record s { db = h.db' } in
    record {
      session_id = h.session_id;
      before = before;
      begun =
          bind-ok (on_db (session_for j.repo_id round.session_at)) s before h.session_id
            (λ sid.
              catch_any (run_job round.early j.id sid round.started round.times >> pure tt)
                (pure tt))
            (ap (λ (p : Result ℕ × Db). (p.0, record s { db = p.1 })) h.found)
          ∙ caught_unit (run_job round.early j.id h.session_id round.started round.times) before;
      same_jobs = h.same_jobs;
      same_repos = h.same_repos;
      there = h.there;
    }

-- The job that is taken is the row with its id.
taken_row :
    (g : ℕ) (now : Time) (clock : ℕ → Time) (s : System) (j : Job)
    → IsConsistent s.db
    → (next_job g none now clock s).0 ≡ some j
    → get_job j.id s.db ≡ some j
unfolding next_job list_jobs get_job
taken_row g now clock s j whole e =
    let rows = s.db.jobs.rows in
    let own : All (λ (r : Job). find (job_is r.id) rows ≡ some r) rows =
      All-map (FoundIn (λ (x : Job). x.id) rows) (λ (r : Job). find (job_is r.id) rows ≡ some r)
        rows (λ r h. h (whole.job_part.keyed.unique r.id)) (own-found (λ (x : Job). x.id) rows) in
    (first-runnable g clock (λ r. find (job_is r.id) rows ≡ some r)
      (list_jobs none (some queued) default_limit (some now) s.db) s j
      (take-All _ default_limit _ (
        sort_by-All runs_before _ _
          (select-All _ (is_listed none (some queued) (some now)) rows own)))
      e).0

-- A round that takes a job: what it leaves, and how far the queue and the running jobs change.
pub record Taken (g : ℕ) (round : Round) (s : System) (j : Job) : Type 0 where
  pub after : System
  pub begun : start_job round j (next_job g none round.now round.clock s).1 ≡ (ok tt, after)
  pub consistent : IsConsistent after.db
  pub fewer_wait :
      ((a : ℕ) (s : System) → waiting (round.early a s).db ≤ waiting s.db)
      → waiting after.db < waiting s.db
  pub one_more_runs :
      ((a : ℕ) (s : System) → tally is_running (round.early a s).db ≤ tally is_running s.db)
      → tally is_running after.db ≤ tally is_running s.db + 1

pub round_lem :
    (g : ℕ) (round : Round) (s : System) (j : Job)
    → IsEarlyStepwise round
    → IsConsistent s.db
    → (next_job g none round.now round.clock s).0 ≡ some j
    → Taken g round s j
unfolding get_repo_by_id get_job
round_lem g round s j stepwise whole e =
    let s' = (next_job g none round.now round.clock s).1 in
    let same = next_job-db g round.now round.clock s in
    let ready = next_job-IsReady g round.now round.clock s j e in
    let repo = ready.allowed.repo in
    let h = start_job_lem round j repo s' (
      subst (λ (db : Db). find (repo_is j.repo_id) db.repos.rows ≡ some repo) (sym same)
        ready.allowed.known) in
    let after = (run_job round.early j.id h.session_id round.started round.times h.before).1 in
    let jobs : h.before.db.jobs ≡ s.db.jobs = h.same_jobs ∙ ap (λ (db : Db). db.jobs) same in
    let repos : h.before.db.repos ≡ s.db.repos = h.same_repos ∙ ap (λ (db : Db). db.repos) same in
    let found =
      subst (λ t. find (job_is j.id) t.rows ≡ some j) (sym jobs)
        (taken_row g round.now round.clock s j whole e) in
    let known =
      subst (λ t. find (repo_is j.repo_id) t.rows ≡ some repo) (sym repos) ready.allowed.known in
    let unique = whole.job_part.keyed.unique j.id in
    record {
      after = after;
      begun = h.begun;
      consistent =
          Reaches-IsConsistent s'.db after.db
            (subst (λ (t : System). Reaches s'.db t.db) (ap (λ p. p.1) h.begun)
              ((start_steps round j stepwise).steps s'))
            (subst IsConsistent (sym same) whole);
      fewer_wait = λ drains.
          subst (λ t. waiting after.db < count is_queued t.rows) jobs
            (run_job-waiting j.id h.session_id round.times round.early round.started h.before j repo
              found known h.there drains ready.in_queue);
      one_more_runs = λ drains.
          let more =
            subst
              (λ t.
                tally is_running after.db ≤ count is_running t.rows + count (job_is j.id) t.rows)
              jobs
              (run_job-active j.id h.session_id round.times round.early round.started h.before j
                repo found known h.there drains) in
          omega (arith, more, unique);
    }
