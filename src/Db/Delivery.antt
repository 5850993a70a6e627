-- ===== src/Db/Delivery.antt =====
-- The delivery columns of a job (lib/db.py): who has the right to report a finished job.
use claude_discord_agent.Prelude.{
  ℕ, ◌+◌, Bool, true, false, ◌&&◌, not, Option, none, some, List, leb, ◌==◌, is_none, coalesce,
}
use claude_discord_agent.Table.{select, find, count, sort_by}
use claude_discord_agent.Db.Lifecycle.{is_delivery_terminal}
use claude_discord_agent.Db.Types.{Db, Job, Time, WakeState, woken, fallback, undeliverable}
use claude_discord_agent.Db.Jobs.{job_is, update_jobs}

abbrev pub is_fallback : Option WakeState → Bool
is_fallback (some fallback) = true
is_fallback _ = false

-- WHERE id = ? AND reported_at IS NULL
abbrev pub is_unreported : ℕ → Job → Bool
is_unreported i j = job_is i j && is_none j.reported_at

-- A BEGIN IMMEDIATE transaction: the test and the write are one step. The result is
-- `rowcount == 1`.
unfoldable pub mark_reported : ℕ → Time → Db → Bool × Db
mark_reported job_id ts db = (
  count (is_unreported job_id) db.jobs.rows == 1,
  update_jobs (is_unreported job_id) (λ j. record j { reported_at = some ts }) db,
)

-- WHERE id = ? AND reported_at IS NULL AND (wake_state IS NULL OR wake_state != 'fallback')
abbrev pub is_claimable : ℕ → Job → Bool
is_claimable i j = is_unreported i j && not (is_fallback j.wake_state)

unfoldable pub claim_for_fallback : ℕ → Db → Bool × Db
claim_for_fallback job_id db = (
  count (is_claimable job_id) db.jobs.rows == 1,
  update_jobs (is_claimable job_id) (λ j. record j { wake_state = some fallback }) db,
)

unfoldable pub mark_woken : ℕ → Db → Db
mark_woken job_id =
    update_jobs (λ j. job_is job_id j && is_none j.wake_state)
      (λ j. record j { wake_state = some woken })

unfoldable pub incr_wake_attempts : ℕ → Db → ℕ × Db
incr_wake_attempts job_id db =
    let db' =
      update_jobs (job_is job_id) (λ j. record j { wake_attempts = j.wake_attempts + 1 }) db in
    (elim (find (job_is job_id) db'.jobs.rows) [ none ↦ 0 | some j ↦ j.wake_attempts ], db')

unfoldable pub set_undeliverable : ℕ → Db → Db
set_undeliverable job_id =
    update_jobs (job_is job_id) (λ j. record j { wake_state = some undeliverable })

-- ORDER BY COALESCE(terminal_at, updated_at) ASC
abbrev pub finished_before : Job → Job → Bool
finished_before a b =
    leb (coalesce a.terminal_at a.updated_at) (coalesce b.terminal_at b.updated_at)

abbrev pub is_undelivered : Job → Bool
is_undelivered j = is_delivery_terminal j.state && is_none j.reported_at

unfoldable pub list_undelivered_terminal_jobs : Db → List Job
list_undelivered_terminal_jobs db = sort_by finished_before (select is_undelivered db.jobs.rows)
