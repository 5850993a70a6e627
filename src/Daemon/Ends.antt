-- ===== src/Daemon/Ends.antt =====
-- The end of the dispatch loop (`_dispatch_queued_jobs`, lib/daemon.py).
use claude_discord_agent.Prelude.{
  ℕ, zero, suc, ◌≤◌, ◌<◌, ◌≡◌, refl, ap, ◌∙◌, none, some, ok, arith, bind-ok, Option-cases, inl,
  inr,
}
use claude_discord_agent.System.{System}
use claude_discord_agent.Scheduler.Dispatch.{next_job}
use claude_discord_agent.Steps.Invariant.{IsConsistent}
use claude_discord_agent.Steps.Planes.Daemon.{IsEarlyStepwise}
use claude_discord_agent.Daemon.Dispatch.{Round, start_job, dispatch_loop}
use claude_discord_agent.Daemon.Draining.{waiting}
use claude_discord_agent.Daemon.Taken.{round_lem}

module _ (g : ℕ) (world : ℕ → Round) (stepwise : (n : ℕ) → IsEarlyStepwise (world n))
    (drains : (n a : ℕ) (s : System) → waiting ((world n).early a s).db ≤ waiting s.db) where
  -- The dispatch loop ends by itself, with any fuel above the number of queued jobs, in a consistent
  -- database, if what the reader threads do meanwhile is a sequence of steps that queues no job.
  pub dispatch_loop-ends :
      (fuel : ℕ) (s : System)
      → IsConsistent s.db
      → waiting s.db < fuel
      → (dispatch_loop fuel g world s).0 ≡ ok (some tt)
  unfolding dispatch_loop
  dispatch_loop-ends zero s whole enough = absurd (omega (arith, enough))
  dispatch_loop-ends (suc fuel) s whole enough =
      let round = world fuel in
      let found = next_job g none round.now round.clock s in
      elim (Option-cases found.0) [
        | inl e ↦ rw (dispatch_loop, e) refl
        | inr (j, e) ↦
            let h = round_lem g round s j (stepwise fuel) whole e in
            rw (dispatch_loop, e)
              (ap (λ p. p.0)
                  (bind-ok (start_job round j) found.1 h.after tt (λ _. dispatch_loop fuel g world)
                    h.begun)
                ∙ dispatch_loop-ends fuel h.after h.consistent
                    (omega (arith, h.fewer_wait (drains fuel), enough)))
      ]
