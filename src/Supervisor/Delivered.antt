-- ===== src/Supervisor/Delivered.antt =====
-- The report of a finished job by the fallback (lib/supervisor.py).
use claude_discord_agent.Prelude.{
  ℕ, ◌≡◌, refl, none, some, String, true, false, ◌∷◌, arith, is_set, ==_refl, ap, ◌∙◌,
}
use claude_discord_agent.Table.Keys.{IsKeyed}
use claude_discord_agent.Db.Types.{Db, Job, Time, fallback}
use claude_discord_agent.Db.Jobs.{get_job}
use claude_discord_agent.Db.Transition.{get_job-update_jobs, get_job-id}
use claude_discord_agent.Db.Delivery.{
  is_fallback, is_unreported, is_claimable, mark_reported, claim_for_fallback,
}
use claude_discord_agent.Db.Report.{claim_for_fallback-open}
use claude_discord_agent.System.{System, Message}
use claude_discord_agent.Notifier.{NotifyResult, delivered}
use claude_discord_agent.Supervisor.Fallback.{
  SupervisorConfig, preview_of, message_for, record_answer, attempt_fallback_notify,
  claim_and_fallback,
}

module _ (i : ℕ) (db : Db) (job : Job) (found : get_job i db ≡ some job)
    (open_job : job.reported_at ≡ none) where
  claimed_job :
      is_fallback job.wake_state ≡ false
      → get_job i (claim_for_fallback i db).1 ≡ some (record job { wake_state = some fallback })
  unfolding claim_for_fallback
  claimed_job unclaimed =
      let yes : is_claimable i job ≡ true = ground (arith, get_job-id i db job found, ==_refl i) in
      rw
        (
          get_job-update_jobs (is_claimable i) (λ j. record j { wake_state = some fallback }) i db
              (λ j. refl),
          found,
          yes,
        )
        refl

  reported_job :
      (ts : Time)
      → get_job i (mark_reported i ts db).1 ≡ some (record job { reported_at = some ts })
  unfolding mark_reported
  reported_job ts =
      let yes : is_unreported i job ≡ true = ground (arith, get_job-id i db job found, ==_refl i) in
      rw
        (
          get_job-update_jobs (is_unreported i) (λ j. record j { reported_at = some ts }) i db
              (λ j. refl),
          found,
          yes,
        )
        refl

module _ (c : SupervisorConfig) (notify : Message → NotifyResult) (now : Time) where
  -- A job that has a chat, when Discord takes its message.
  attempted :
      (job : Job) (s : System) (chat : String)
      → job.notify_chat_id ≡ some chat
      → is_set (some chat) ≡ true
      → notify (message_for c chat job) ≡ delivered
      → (attempt_fallback_notify c notify job now s).db ≡ (mark_reported job.id now s.db).1
        × ((attempt_fallback_notify c notify job now s).sent ≡ message_for c chat job ∷ s.sent)
  unfolding attempt_fallback_notify record_answer
  attempted job s chat e t taken =
      rw (e, t, taken, attempt_fallback_notify, record_answer) (refl, refl)

  -- A claim that succeeds goes on with the row as the claim left it.
  claimed_run :
      (job job' : Job) (s : System)
      → (claim_for_fallback job.id s.db).0 ≡ true
      → get_job job.id (claim_for_fallback job.id s.db).1 ≡ some job'
      → claim_and_fallback c notify job now s
        ≡ attempt_fallback_notify c notify job' now
            (record s { db = (claim_for_fallback job.id s.db).1 })
  unfolding claim_and_fallback
  claimed_run job job' s t e = rw (t, e, claim_and_fallback) refl

same_message :
    (c : SupervisorConfig) (chat : String) (job : Job)
    → message_for c chat (record job { wake_state = some fallback }) ≡ message_for c chat job
unfolding message_for preview_of
same_message c chat job = refl

-- The claim of a finished job that nobody has reported or claimed, and that has a chat, sends one
-- message to that chat and records the report, if Discord takes the message.
pub claim_and_fallback-reports :
    (c : SupervisorConfig) (notify : Message → NotifyResult) (now : Time) (job : Job) (s : System)
    (chat : String)
    → IsKeyed (λ (j : Job). j.id) s.db.jobs
    → get_job job.id s.db ≡ some job
    → job.reported_at ≡ none
    → is_fallback job.wake_state ≡ false
    → job.notify_chat_id ≡ some chat
    → is_set (some chat) ≡ true
    → ((m : Message) → notify m ≡ delivered)
    → (get_job job.id (claim_and_fallback c notify job now s).db
        ≡ some (record job { wake_state = some fallback; reported_at = some now }))
      × ((claim_and_fallback c notify job now s).sent ≡ message_for c chat job ∷ s.sent)
claim_and_fallback-reports c notify now job s chat keyed found unreported unclaimed e t taken =
    let db = (claim_for_fallback job.id s.db).1 in
    let job' : Job = record job { wake_state = some fallback } in
    let row = claimed_job job.id s.db job found unreported unclaimed in
    let won : (claim_for_fallback job.id s.db).0 ≡ true =
      ground (arith, claim_for_fallback-open job.id s.db job keyed found) in
    let run = claimed_run c notify now job job' s won row in
    let (written, sent) =
      attempted c notify now job' (record s { db = db }) chat e t
        (taken (message_for c chat job')) in
    (
      ap (λ (x : System). get_job job.id x.db) run
          ∙ ap (get_job job.id) written
          ∙ reported_job job.id db job' row unreported now,
      ap (λ (x : System). x.sent) run ∙ sent ∙ ap (λ m. m ∷ s.sent) (same_message c chat job),
    )
