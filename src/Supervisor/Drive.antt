-- ===== src/Supervisor/Drive.antt =====
-- The delivery state machine of one job, and the supervisor's tick (lib/supervisor.py).
use claude_discord_agent.Prelude.{
  ℕ, ◌+◌, Bool, true, false, ◌&&◌, not, Option, none, some, List, [], ◌∷◌, ltb, if◌then◌else◌,
  is_none, time_or,
}
use claude_discord_agent.Db.Types.{Job, Time, WakeState, woken, fallback, undeliverable}
use claude_discord_agent.Db.Delivery.{
  mark_woken, incr_wake_attempts, list_undelivered_terminal_jobs,
}
use claude_discord_agent.System.{System, Message, with_db, change_db}
use claude_discord_agent.Notifier.{NotifyResult}
use claude_discord_agent.Supervisor.Pane.{
  Tmux, reaches_pane, is_sent, load_pane, pane_exists, is_pane_busy,
}
use claude_discord_agent.Supervisor.Fallback.{
  SupervisorConfig, attempt_fallback_notify, claim_and_fallback,
}

-- `tmux`, `notify` and `sent_at` are what tmux, Discord and the clock (at the report) answer.
module _ (c : SupervisorConfig) (tmux : Tmux) (notify : Message → NotifyResult) where
  -- The text, then Enter: both `send-keys` commands have to succeed before the wake is recorded, but
  -- a text that has reached the pane stays there.
  unfoldable pub send_wake : Job → System → Bool × System
  send_wake job s =
      let s' =
        if reaches_pane tmux.sends_text
        then record s { typed_jobs = job.id ∷ s.typed_jobs }
        else s in
      if is_sent tmux.sends_text && tmux.sends_enter
      then (true, change_db (mark_woken job.id) (with_db (incr_wake_attempts job.id) s').1)
      else (false, s')

  unfoldable pub try_wake : Job → Time → System → Bool × System
  unfolding send_wake
  try_wake job sent_at s = if not c.auto_wake then (false, s) else elim (load_pane tmux) [
    | none ↦ (false, claim_and_fallback c notify job sent_at s)
    | some pane ↦
        if not (pane_exists tmux pane)
        then (false, claim_and_fallback c notify job sent_at s)
        else if is_pane_busy tmux
        then (false, s)
        else send_wake job s
  ]

  -- The part of `_drive_delivery` for a job that nobody has claimed.
  unfoldable pub drive_unclaimed : Job → Time → Time → System → System
  drive_unclaimed job now sent_at s =
      if not c.auto_wake
      then claim_and_fallback c notify job sent_at s
      else if ltb (time_or job.terminal_at job.updated_at + c.wake_grace) now
      then claim_and_fallback c notify job sent_at s
      else if ltb job.wake_attempts c.max_wake_attempts
      then (try_wake job sent_at s).1
      else s

  -- By the job's `wake_state`.
  unfoldable pub drive_by_state : Option WakeState → Job → Time → Time → System → System
  unfolding drive_unclaimed
  drive_by_state (some undeliverable) job now sent_at s = s
  drive_by_state (some fallback) job now sent_at s = attempt_fallback_notify c notify job sent_at s
  drive_by_state (some woken) job now sent_at s = drive_unclaimed job now sent_at s
  drive_by_state none job now sent_at s = drive_unclaimed job now sent_at s

  unfoldable pub drive_delivery : Job → Time → Time → System → System
  unfolding drive_by_state
  drive_delivery job now sent_at s =
      if is_none job.reported_at then drive_by_state job.wake_state job now sent_at s else s

-- What tmux, Discord and the clock answer while the job with this id is handled.
pub record Answers : Type 0 where
  pub tmux : Tmux
  pub notify : Message → NotifyResult
  pub now : Time
  pub sent_at : Time

module _ (c : SupervisorConfig) (answers : ℕ → Answers) where
  unfoldable pub drive_all : List Job → System → System
  drive_all [] s = s
  drive_all (j ∷ js) s = drive_all js (
      drive_delivery c (answers j.id).tmux (answers j.id).notify j (answers j.id).now
        (answers j.id).sent_at s)

  unfoldable pub tick : System → System
  unfolding drive_all
  tick s = drive_all (list_undelivered_terminal_jobs s.db) s
