-- ===== src/Steps/Planes/RateLimit.antt =====
-- `on_rate_limit` (lib/scheduler.py) as steps.
use claude_discord_agent.Prelude.{
  ℕ, ◌≡◌, true, false, none, some, Bool-cases, Option-cases, inl, inr, subst, sym, Result, raise,
  modify, total, ok, raised, job_not_found, invalid_transition,
}
use claude_discord_agent.Db.Lifecycle.{rate_limited, may_become}
use claude_discord_agent.Db.Types.{Db, Job, Time}
use claude_discord_agent.Db.Jobs.{get_job}
use claude_discord_agent.System.{System, transaction}
use claude_discord_agent.Scheduler.Backoff.{BackoffConfig, load, remember}
use claude_discord_agent.Scheduler.Outcome.{
  rate_limit_job, check_rate_limit, rate_limit_body, write_rate_limit, on_rate_limit,
}
use claude_discord_agent.Steps.{
  limits_job, sets_backoff, perform, if_may_become, Reaches, here, next,
}
use claude_discord_agent.Steps.Stepwise.{
  IsStepwise, bind_steps, then_steps, pure_steps, modify_steps, transaction_steps, inner,
}

-- What the tests of `on_rate_limit` do.
check_limit_missing :
    (i : ℕ) (s : System) → get_job i s.db ≡ none → check_rate_limit i s ≡ (raised job_not_found, s)
unfolding check_rate_limit
check_limit_missing i s e = rw (e, check_rate_limit)

check_limit_refused :
    (i : ℕ) (s : System) (job : Job)
    → get_job i s.db ≡ some job
    → may_become job.state rate_limited ≡ false
    → check_rate_limit i s ≡ (raised invalid_transition, s)
unfolding check_rate_limit
check_limit_refused i s job e m = rw (e, m, check_rate_limit)

check_limit_passed :
    (i : ℕ) (s : System) (job : Job)
    → get_job i s.db ≡ some job
    → may_become job.state rate_limited ≡ true
    → check_rate_limit i s ≡ (ok tt, s)
unfolding check_rate_limit
check_limit_passed i s job e m = rw (e, m, check_rate_limit)

limits :
    (i : ℕ) (now : Time) (db : Db) (job : Job)
    → get_job i db ≡ some job
    → may_become job.state rate_limited ≡ true
    → perform (limits_job i now) db ≡ rate_limit_job i now db
unfolding perform if_may_become
limits i now db job e m = rw (e, m, if_may_become)

-- The body of the transaction of `on_rate_limit`.
body_steps :
    (c : BackoffConfig) (r i : ℕ) (now : Time) (draw : ℕ) (s : System)
    → Reaches s.db (rate_limit_body c r i now draw s).1.db
unfolding rate_limit_body perform load
body_steps c r i now draw s = elim (Option-cases (get_job i s.db)) [
  | inl e ↦ subst Done (sym (check_limit_missing i s e)) here
  | inr (job, e) ↦ elim (Bool-cases (may_become job.state rate_limited)) [
    | inr m ↦ subst Done (sym (check_limit_refused i s job e m)) here
    | inl m ↦
        let one : Reaches s.db (rate_limit_job i now s.db) =
          subst (Reaches s.db) (limits i now s.db job e m) (next here (limits_job i now)) in
        subst Done (sym (check_limit_passed i s job e m)) (next one (sets_backoff r _ _))
  ]
]
  where
    Done : Result (Unit {0}) × System → Type 0
    Done p =
        Reaches s.db
          (elim p.0 as (λ _. Result (ℕ × Time) × System) [
            | ok a ↦ total (write_rate_limit c r i now draw) p.1
            | raised x ↦ raise x p.1
          ]).1.db

pub on_rate_limit_steps :
    (c : BackoffConfig) (r i : ℕ) (now : Time) (draw : ℕ)
    → IsStepwise inner (on_rate_limit c r i now draw)
unfolding on_rate_limit
on_rate_limit_steps c r i now draw =
    bind_steps inner (transaction (rate_limit_body c r i now draw)) _
      (transaction_steps (rate_limit_body c r i now draw)
        (record { steps = body_steps c r i now draw }))
      (λ p.
        then_steps inner (modify (remember r p.0 p.1)) _
          (modify_steps inner (remember r p.0 p.1) (λ s. here)) (pure_steps inner p.1))
