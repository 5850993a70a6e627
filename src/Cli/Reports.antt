-- ===== src/Cli/Reports.antt =====
-- `cmd_report_done` and the supervisor's claim.
use claude_discord_agent.Prelude.{
  ℕ, ◌≡◌, refl, ap, Bool, true, false, Option, none, some, if◌then◌else◌, ◌==◌, Action, pure, arith,
}
use claude_discord_agent.Table.Unique.{count-update_done}
use claude_discord_agent.Db.Types.{Db, Job, Time}
use claude_discord_agent.Db.Jobs.{get_job}
use claude_discord_agent.Db.Delivery.{
  mark_reported, claim_for_fallback, is_unreported, is_claimable,
}
use claude_discord_agent.Cli.Control.{cmd_report_done, report_refused}

refused-db : (i : ℕ) (db : Db) → (report_refused i db).1 ≡ db
unfolding report_refused
refused-db i db = looked (get_job i db) db
  where
    looked :
        (o : Option Job) (db : Db)
        → ((elim o as (λ _. Action Db ℕ) [ none ↦ pure 1 | some j ↦ pure 0 ]) db).1 ≡ db
    looked none db = refl
    looked (some j) db = refl

-- The command leaves the database as `mark_reported` does.
report_done-db :
    (i : ℕ) (now : Time) (db : Db) → (cmd_report_done i now db).1 ≡ (mark_reported i now db).1
unfolding cmd_report_done
report_done-db i now db = branch (mark_reported i now db).0 (mark_reported i now db).1
  where
    branch : (b : Bool) (s : Db) → ((if b then pure 0 else report_refused i) s).1 ≡ s
    branch true s = refl
    branch false s = refused-db i s

-- In the database that `report-done` of a job leaves, no claim of that job for a fallback succeeds,
-- whatever state the job is in.
pub cmd_report_done_blocks :
    (i : ℕ) (now : Time) (db : Db) → (claim_for_fallback i (cmd_report_done i now db).1).0 ≡ false
unfolding claim_for_fallback mark_reported
cmd_report_done_blocks i now db = rw (report_done-db i now db) (
    ap (λ n. n == 1)
      (count-update_done (is_unreported i) (is_claimable i)
        (λ j. record j { reported_at = some now }) db.jobs.rows (λ j t. ground arith)
        (λ j t. ground arith)))
