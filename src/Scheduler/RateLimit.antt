-- ===== src/Scheduler/RateLimit.antt =====
-- What `on_rate_limit` (lib/scheduler.py) does to the job and to its repo.
use claude_discord_agent.Prelude.{
  ℕ, ◌+◌, ◌≡◌, refl, none, some, true, false, Option-cases, Bool-cases, inl, inr, ok, raised, Error,
  Action, modify, pure, ◌>>◌, bind-ok, bind-raised, total, job_not_found, invalid_transition, ap,
}
use claude_discord_agent.Table.Rows.{find-update, find-test}
use claude_discord_agent.Db.Lifecycle.{rate_limited, may_become}
use claude_discord_agent.Db.Types.{Db, Job, Repo, Time}
use claude_discord_agent.Db.Jobs.{repo_is, get_job}
use claude_discord_agent.Db.Transition.{get_job-update_same}
use claude_discord_agent.Db.Repos.{get_backoff, set_backoff}
use claude_discord_agent.System.{System, transaction, transaction-ok, transaction-raised}
use claude_discord_agent.Scheduler.Backoff.{BackoffConfig, remember, load, capped_delay, jittered}
use claude_discord_agent.Scheduler.Dispatch.{get_repo_by_id}
use claude_discord_agent.Scheduler.Outcome.{
  rate_limit_job, check_rate_limit, write_rate_limit, rate_limit_body, on_rate_limit,
}

-- A backoff that is set is the one that is read.
get_backoff-set_backoff :
    (r : ℕ) (until : Time) (times : ℕ) (db : Db) (repo : Repo)
    → get_repo_by_id r db ≡ some repo
    → get_backoff r (set_backoff r until times db) ≡ (until, times)
unfolding get_repo_by_id get_backoff set_backoff
get_backoff-set_backoff r until times db repo e =
    rw
      (
        find-update (repo_is r) (repo_is r)
            (λ x. record x { backoff_until = until; backoff_count = times }) db.repos.rows
            (λ x. refl),
        e,
        find-test (repo_is r) db.repos.rows repo e,
        get_backoff,
      )
      refl

module _ (c : BackoffConfig) (repo_id job_id : ℕ) (now : Time) (draw : ℕ) (s : System) where
  -- The end of the backoff that the next rate limit sets.
  abbrev pub next_until : Time
  next_until = now + jittered c (capped_delay c ((get_backoff repo_id s.db).1 + 1)) draw

  -- How a call of `on_rate_limit` may end.
  pub data RateLimited : Type 0 where
    refused_missing :
        get_job job_id s.db ≡ none
        → (on_rate_limit c repo_id job_id now draw s).0 ≡ raised job_not_found
        → (on_rate_limit c repo_id job_id now draw s).1.db ≡ s.db
        → RateLimited
    refused_invalid :
        (j : Job)
        → get_job job_id s.db ≡ some j
        → may_become j.state rate_limited ≡ false
        → (on_rate_limit c repo_id job_id now draw s).0 ≡ raised invalid_transition
        → (on_rate_limit c repo_id job_id now draw s).1.db ≡ s.db
        → RateLimited
    limited :
        (j : Job)
        → get_job job_id s.db ≡ some j
        → may_become j.state rate_limited ≡ true
        → (on_rate_limit c repo_id job_id now draw s).0 ≡ ok next_until
        → get_job job_id (on_rate_limit c repo_id job_id now draw s).1.db
          ≡ some (record j { state = rate_limited; updated_at = now })
        → get_backoff repo_id (on_rate_limit c repo_id job_id now draw s).1.db
          ≡ (next_until, (get_backoff repo_id s.db).1 + 1)
        → RateLimited

  -- What follows the transaction.
  abbrev pub after : ℕ × Time → Action System Time
  after r = modify (remember repo_id r.0 r.1) >> pure r.1

  -- A refused test ends the call, with the database as it was.
  ended_refused :
      (e : Error)
      → check_rate_limit job_id s ≡ (raised e, s)
      → on_rate_limit c repo_id job_id now draw s ≡ (raised e, s)
  unfolding on_rate_limit rate_limit_body
  ended_refused e h =
      bind-raised (transaction (rate_limit_body c repo_id job_id now draw)) s s e after (
        transaction-raised (rate_limit_body c repo_id job_id now draw) s s e (
          bind-raised (check_rate_limit job_id) s s e
            (λ _. total (write_rate_limit c repo_id job_id now draw)) h))

  ended_missing :
      get_job job_id s.db ≡ none
      → on_rate_limit c repo_id job_id now draw s ≡ (raised job_not_found, s)
  unfolding check_rate_limit
  ended_missing e = ended_refused job_not_found (rw (e, check_rate_limit) refl)

  ended_invalid :
      (j : Job)
      → get_job job_id s.db ≡ some j
      → may_become j.state rate_limited ≡ false
      → on_rate_limit c repo_id job_id now draw s ≡ (raised invalid_transition, s)
  unfolding check_rate_limit
  ended_invalid j e m = ended_refused invalid_transition (rw (e, m, check_rate_limit) refl)

  -- The database after the writes.
  abbrev pub limited_db : Db
  limited_db =
      set_backoff repo_id next_until ((get_backoff repo_id s.db).1 + 1)
        (rate_limit_job job_id now s.db)

  -- Accepted by its test, the call makes its writes.
  ended_written :
      check_rate_limit job_id s ≡ (ok tt, s)
      → on_rate_limit c repo_id job_id now draw s ≡ (
        ok (write_rate_limit c repo_id job_id now draw s).0.1,
        remember repo_id
            (write_rate_limit c repo_id job_id now draw s).0.0
            (write_rate_limit c repo_id job_id now draw s).0.1
            (write_rate_limit c repo_id job_id now draw s).1,
      )
  unfolding on_rate_limit rate_limit_body
  ended_written h =
      let w = write_rate_limit c repo_id job_id now draw s in
      bind-ok (transaction (rate_limit_body c repo_id job_id now draw)) s w.1 w.0 after (
        transaction-ok (rate_limit_body c repo_id job_id now draw) s w.1 w.0 (
          bind-ok (check_rate_limit job_id) s s tt
            (λ _. total (write_rate_limit c repo_id job_id now draw)) h))

  written :
      ((write_rate_limit c repo_id job_id now draw s).0.1 ≡ next_until)
      × ((write_rate_limit c repo_id job_id now draw s).1.db ≡ limited_db)
  unfolding write_rate_limit load get_backoff
  written = (refl, refl)

  ended_limited :
      (j : Job)
      → get_job job_id s.db ≡ some j
      → may_become j.state rate_limited ≡ true
      → ((on_rate_limit c repo_id job_id now draw s).0 ≡ ok next_until)
        × ((on_rate_limit c repo_id job_id now draw s).1.db ≡ limited_db)
  unfolding check_rate_limit
  ended_limited j e m =
      let h = ended_written (rw (e, m, check_rate_limit) refl) in
      (rw h (ap ok written.0), rw h written.1)

  limited_job :
      (j : Job)
      → get_job job_id s.db ≡ some j
      → get_job job_id limited_db ≡ some (record j { state = rate_limited; updated_at = now })
  unfolding set_backoff get_job
  limited_job j e =
      get_job-update_same (λ j. record j { state = rate_limited; updated_at = now }) job_id s.db j
        (λ j. refl) e

-- A rate limit raises and leaves the database as it was where there is no such job or the job is not
-- running, and otherwise puts the job into `rate_limited` and the repo into a backoff that is one
-- step longer, both together.
pub on_rate_limit-cases :
    (c : BackoffConfig) (repo_id job_id : ℕ) (now : Time) (draw : ℕ) (s : System) (repo : Repo)
    → get_repo_by_id repo_id s.db ≡ some repo
    → RateLimited c repo_id job_id now draw s
unfolding get_repo_by_id
on_rate_limit-cases c r i now draw s repo known = elim (Option-cases (get_job i s.db)) [
  | inl e ↦
      let h = ended_missing c r i now draw s e in
      refused_missing e (ap (λ p. p.0) h) (ap (λ p. p.1.db) h)
  | inr (j, e) ↦ elim (Bool-cases (may_become j.state rate_limited)) [
    | inr m ↦
        let h = ended_invalid c r i now draw s j e m in
        refused_invalid j e m (ap (λ p. p.0) h) (ap (λ p. p.1.db) h)
    | inl m ↦
        let (a, b) = ended_limited c r i now draw s j e m in
        limited j e m a (rw b (limited_job c r i now draw s j e)) (
          rw b (
            get_backoff-set_backoff r (next_until c r i now draw s) ((get_backoff r s.db).1 + 1)
              (rate_limit_job i now s.db) repo known))
  ]
]
