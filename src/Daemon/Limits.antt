-- ===== src/Daemon/Limits.antt =====
-- The limit on running jobs in the dispatch loop (lib/daemon.py, lib/scheduler.py).
use claude_discord_agent.Prelude.{
  ℕ, zero, suc, ◌≤◌, ◌≡◌, refl, none, [], ◌∷◌, List, arith, bind-ok, Option-cases, inl, inr, subst,
  sym,
}
use claude_discord_agent.Table.{count}
use claude_discord_agent.Db.Types.{Db, Job}
use claude_discord_agent.Db.Jobs.{is_running_in, count_running_jobs}
use claude_discord_agent.System.{System}
use claude_discord_agent.Scheduler.Dispatch.{next_job}
use claude_discord_agent.Scheduler.Admission.{next_job-IsReady}
use claude_discord_agent.Steps.Invariant.{IsConsistent}
use claude_discord_agent.Steps.Planes.Daemon.{IsEarlyStepwise, next_job-db}
use claude_discord_agent.Daemon.Dispatch.{Round, start_job, dispatch_loop}
use claude_discord_agent.Daemon.Draining.{is_running, tally}
use claude_discord_agent.Daemon.Taken.{round_lem}

running_rows : (rows : List Job) → count is_running rows ≡ count (is_running_in none) rows
unfolding count is_running_in
running_rows [] = refl
running_rows (j ∷ rows) = ground (arith, running_rows rows)

tally-is_running : (db : Db) → tally is_running db ≡ count_running_jobs none db
unfolding count_running_jobs
tally-is_running db = running_rows db.jobs.rows

module _ (g : ℕ) (world : ℕ → Round) (stepwise : (n : ℕ) → IsEarlyStepwise (world n))
    (starts_none : (n a : ℕ) (s : System)
      → count_running_jobs none ((world n).early a s).db ≤ count_running_jobs none s.db) where
  -- The dispatch loop, however long it runs, leaves at most the global limit of jobs starting or
  -- running in a consistent database that has no more before it, if what the reader threads do
  -- meanwhile is a sequence of steps that does not raise that number.
  pub dispatch_loop-bound :
      (fuel : ℕ) (s : System)
      → IsConsistent s.db
      → count_running_jobs none s.db ≤ g
      → count_running_jobs none (dispatch_loop fuel g world s).1.db ≤ g
  unfolding dispatch_loop
  dispatch_loop-bound zero s whole within = within
  dispatch_loop-bound (suc fuel) s whole within =
      let round = world fuel in
      let found = next_job g none round.now round.clock s in
      elim (Option-cases found.0) [
        | inl e ↦
            rw (dispatch_loop, e)
              (subst (λ db. count_running_jobs none db ≤ g)
                (sym (next_job-db g round.now round.clock s)) within)
        | inr (j, e) ↦
            let h = round_lem g round s j (stepwise fuel) whole e in
            let room = (next_job-IsReady g round.now round.clock s j e).allowed.global_room in
            let more = h.one_more_runs (λ a t. omega (
              arith,
              tally-is_running (round.early a t).db,
              tally-is_running t.db,
              starts_none fuel a t,
            )) in
            rw (dispatch_loop, e)
              (subst (λ p. count_running_jobs none p.1.db ≤ g)
                (sym (
                  bind-ok (start_job round j) found.1 h.after tt (λ _. dispatch_loop fuel g world)
                    h.begun))
                (dispatch_loop-bound fuel h.after h.consistent
                  (omega (arith, more, room, tally-is_running h.after.db, tally-is_running s.db))))
      ]
