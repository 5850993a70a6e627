-- ===== src/Db/Report.antt =====
-- Who may report a finished job: `mark_reported` and `claim_for_fallback` (lib/db.py) as tests that
-- set what they test.
use claude_discord_agent.Prelude.{
  ℕ, ◌≤◌, List, [], ◌∷◌, ◌≡◌, refl, ap, Bool, true, false, none, some, arith, ◌==◌, if◌then◌else◌,
  is_none, not, ◌&&◌,
}
use claude_discord_agent.Table.{count}
use claude_discord_agent.Table.Rows.{count-update, find-test}
use claude_discord_agent.Table.Keys.{IsKeyed}
use claude_discord_agent.Table.Own.{count-update-le}
use claude_discord_agent.Table.Unique.{count-update_done, count_of_found}
use claude_discord_agent.Db.Types.{Db, Job, Time, fallback}
use claude_discord_agent.Db.Jobs.{job_is, get_job}
use claude_discord_agent.Db.Delivery.{
  is_fallback, is_unreported, is_claimable, mark_reported, claim_for_fallback, mark_woken,
  incr_wake_attempts,
}

module _ (i : ℕ) (db : Db) (job : Job) (keyed : IsKeyed (λ (j : Job). j.id) db.jobs)
    (found : get_job i db ≡ some job) where
  found_id : job_is i job ≡ true
  unfolding get_job
  found_id = find-test (job_is i) db.jobs.rows job found

  -- A test of one job by its id counts that job or none.
  count_job :
      (q : Job → Bool)
      → ((j : Job) → q j ≡ true → job_is i j ≡ true)
      → count q db.jobs.rows ≡ (if q job then 1 else 0)
  unfolding get_job
  count_job q narrow = count_of_found (job_is i) q db.jobs.rows job narrow found (keyed.unique i)

  mark_reported-open : (ts : Time) → (mark_reported i ts db).0 ≡ is_none job.reported_at
  unfolding mark_reported
  mark_reported-open ts =
      ground (arith, found_id, count_job (is_unreported i) (λ j p. ground arith))

  pub claim_for_fallback-open :
      (claim_for_fallback i db).0 ≡ is_none job.reported_at && not (is_fallback job.wake_state)
  unfolding claim_for_fallback
  claim_for_fallback-open =
      ground (arith, found_id, count_job (is_claimable i) (λ j p. ground arith))

-- A call that the controller or the supervisor makes for the delivery of some job.
pub data DeliveryCall : Type 0 where
  reports : ℕ → Time → DeliveryCall
  claims wakes counts : ℕ → DeliveryCall

abbrev pub deliver : DeliveryCall → Db → Db
deliver (reports k ts) db = (mark_reported k ts db).1
deliver (claims k) db = (claim_for_fallback k db).1
deliver (wakes k) db = mark_woken k db
deliver (counts k) db = (incr_wake_attempts k db).1

unfoldable pub deliver_all : List DeliveryCall → Db → Db
deliver_all [] db = db
deliver_all (c ∷ cs) db = deliver_all cs (deliver c db)

-- No such call makes a job open to a report again,
stays_reported :
    (i : ℕ) (c : DeliveryCall) (db : Db)
    → count (is_unreported i) (deliver c db).jobs.rows ≤ count (is_unreported i) db.jobs.rows
unfolding mark_reported claim_for_fallback mark_woken incr_wake_attempts
stays_reported i (reports k ts) db =
    count-update-le (is_unreported k) (is_unreported i) _ db.jobs.rows (λ r t p. ground (arith, p))
stays_reported i (claims k) db =
    count-update-le (is_claimable k) (is_unreported i) _ db.jobs.rows (λ r t p. p)
stays_reported i (wakes k) db =
    count-update-le (λ j. job_is k j && is_none j.wake_state) (is_unreported i) _ db.jobs.rows
      (λ r t p. p)
stays_reported i (counts k) db =
    count-update-le (job_is k) (is_unreported i) _ db.jobs.rows (λ r t p. p)

-- nor to a claim.
stays_claimed :
    (i : ℕ) (c : DeliveryCall) (db : Db)
    → count (is_claimable i) (deliver c db).jobs.rows ≤ count (is_claimable i) db.jobs.rows
unfolding mark_reported claim_for_fallback mark_woken incr_wake_attempts
stays_claimed i (reports k ts) db =
    count-update-le (is_unreported k) (is_claimable i) _ db.jobs.rows (λ r t p. ground (arith, p))
stays_claimed i (claims k) db =
    count-update-le (is_claimable k) (is_claimable i) _ db.jobs.rows (λ r t p. ground (arith, p))
stays_claimed i (wakes k) db =
    count-update-le (λ j. job_is k j && is_none j.wake_state) (is_claimable i) _ db.jobs.rows
      (λ r t p. ground (arith, t, p))
stays_claimed i (counts k) db =
    count-update-le (job_is k) (is_claimable i) _ db.jobs.rows (λ r t p. p)

-- A test that no job passes stays so over any calls.
closed :
    (q : Job → Bool)
    → ((c : DeliveryCall) (db : Db) → count q (deliver c db).jobs.rows ≤ count q db.jobs.rows)
    → (cs : List DeliveryCall) (db : Db) → count q db.jobs.rows ≡ 0
    → (count q (deliver_all cs db).jobs.rows == 1) ≡ false
unfolding deliver_all
closed q stays [] db none_left = rw none_left refl
closed q stays (c ∷ cs) db none_left =
    closed q stays cs (deliver c db) (omega (arith, stays c db, none_left))

-- The report of a job that is not reported succeeds, and a later report of it fails, whatever
-- reports, claims and wakes of any jobs are made in between.
pub mark_reported_once :
    (i : ℕ) (ts ts' : Time) (cs : List DeliveryCall) (db : Db) (job : Job)
    → IsKeyed (λ (j : Job). j.id) db.jobs
    → get_job i db ≡ some job
    → job.reported_at ≡ none
    → ((mark_reported i ts db).0 ≡ true)
      × ((mark_reported i ts' (deliver_all cs (mark_reported i ts db).1)).0 ≡ false)
unfolding mark_reported
mark_reported_once i ts ts' cs db job keyed found unreported = (
  ground (arith, mark_reported-open i db job keyed found ts),
  closed (is_unreported i) (stays_reported i) cs (mark_reported i ts db).1 (
      count-update_done (is_unreported i) (is_unreported i)
        (λ j. record j { reported_at = some ts }) db.jobs.rows (λ r p. p) (λ r p. ground arith)),
)

-- The supervisor's claim of a job that is neither reported nor claimed succeeds. After it, and after
-- a report of the job, a later claim of it fails, whatever reports, claims and wakes of any jobs are
-- made in between.
pub claim_for_fallback_once :
    (i : ℕ) (ts : Time) (cs : List DeliveryCall) (db : Db) (job : Job)
    → IsKeyed (λ (j : Job). j.id) db.jobs
    → get_job i db ≡ some job
    → job.reported_at ≡ none
    → is_fallback job.wake_state ≡ false
    → ((claim_for_fallback i db).0 ≡ true)
      × ((claim_for_fallback i (deliver_all cs (claim_for_fallback i db).1)).0 ≡ false)
      × ((claim_for_fallback i (deliver_all cs (mark_reported i ts db).1)).0 ≡ false)
unfolding claim_for_fallback mark_reported
claim_for_fallback_once i ts cs db job keyed found unreported unclaimed = (
  ground (arith, claim_for_fallback-open i db job keyed found),
  closed (is_claimable i) (stays_claimed i) cs (claim_for_fallback i db).1 (
      count-update_done (is_claimable i) (is_claimable i)
        (λ j. record j { wake_state = some fallback }) db.jobs.rows (λ r p. p)
        (λ r p. ground arith)),
  closed (is_claimable i) (stays_claimed i) cs (mark_reported i ts db).1 (
      count-update_done (is_unreported i) (is_claimable i) (λ j. record j { reported_at = some ts })
        db.jobs.rows (λ r p. ground arith) (λ r p. ground arith)),
)

-- A claim by the supervisor does not take the right to report away from the controller: whatever
-- `mark_reported` would have answered before the claim, it answers after it.
pub mark_reported-claim_for_fallback :
    (i : ℕ) (ts : Time) (db : Db)
    → (mark_reported i ts (claim_for_fallback i db).1).0 ≡ (mark_reported i ts db).0
unfolding claim_for_fallback mark_reported
mark_reported-claim_for_fallback i ts db =
    ap (λ n. n == 1)
      (count-update (is_claimable i) (is_unreported i)
        (λ j. record j { wake_state = some fallback }) db.jobs.rows (λ j. refl))
