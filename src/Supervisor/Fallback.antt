-- ===== src/Supervisor/Fallback.antt =====
-- The fallback delivery of lib/supervisor.py: claim the right to report a job, and report it.
use claude_discord_agent.Prelude.{
  ℕ, Bool, Option, none, some, String, ◌∷◌, if◌then◌else◌, is_set, coalesce,
}
use claude_discord_agent.Db.Types.{Job, Time}
use claude_discord_agent.Db.Jobs.{get_job}
use claude_discord_agent.Db.Delivery.{claim_for_fallback, mark_reported, set_undeliverable}
use claude_discord_agent.System.{System, Message, with_db, change_db}
use claude_discord_agent.Notifier.{NotifyResult}

-- `wake_grace_seconds`, `max_wake_attempts`, `auto_wake`, `fallback_result_preview`, and the
-- redaction of the preview, which is three calls of Python's `re`.
pub record SupervisorConfig : Type 0 where
  pub wake_grace : Time
  pub max_wake_attempts : ℕ
  pub auto_wake : Bool
  pub result_preview : Bool
  pub redact : String → String

module _ (c : SupervisorConfig) where
  -- `result_short`, which is in the message where it is not empty.
  unfoldable pub preview_of : Job → Option String
  preview_of job =
      let short : String = c.redact (coalesce job.result "") in
      if c.result_preview then (if is_set (some short) then some short else none) else none

  unfoldable pub message_for : String → Job → Message
  unfolding preview_of
  message_for chat_id job = record {
    chat_id = chat_id;
    job_id = job.id;
    state = job.state;
    preview = preview_of job;
  }

  -- What follows the answer of `notify_discord_result`; `now` is the time of the report.
  unfoldable pub record_answer : Job → NotifyResult → Time → System → System
  record_answer job answer now s =
      if answer.success
      then (with_db (mark_reported job.id now) s).1
      else if answer.permanent
      then change_db (set_undeliverable job.id) s
      else s

  -- `notify` gives the notifier's answer to a message; every message it is asked about is sent.
  unfoldable pub attempt_fallback_notify : (Message → NotifyResult) → Job → Time → System → System
  unfolding record_answer message_for
  attempt_fallback_notify notify job now s = elim job.notify_chat_id [
    | none ↦ change_db (set_undeliverable job.id) s
    | some chat_id ↦
        if is_set (some chat_id)
        then (let m = message_for chat_id job in
            record_answer job (notify m) now (record s { sent = m ∷ s.sent }))
        else change_db (set_undeliverable job.id) s
  ]

  unfoldable pub claim_and_fallback : (Message → NotifyResult) → Job → Time → System → System
  unfolding attempt_fallback_notify
  claim_and_fallback notify job now s =
      let (claimed, s') = with_db (claim_for_fallback job.id) s in
      if claimed
      then attempt_fallback_notify notify (coalesce (get_job job.id s'.db) job) now s'
      else s'
