-- ===== src/Steps/Planes/Supervisor.antt =====
-- The deliveries of lib/supervisor.py as steps.
use claude_discord_agent.Prelude.{
  Bool, true, false, if◌then◌else◌, ℕ, ◌+◌, ◌&&◌, Option, none, some, List, [], ◌∷◌, ltb, is_none,
  is_set, coalesce, time_or, Bool-cases, Option-cases, inl, inr,
}
use claude_discord_agent.Db.Types.{Job, Time, WakeState, woken, fallback, undeliverable}
use claude_discord_agent.Db.Jobs.{get_job}
use claude_discord_agent.Db.Delivery.{claim_for_fallback, list_undelivered_terminal_jobs}
use claude_discord_agent.Db.Delivery.{mark_woken, incr_wake_attempts}
use claude_discord_agent.System.{change_db, with_db, System, Message}
use claude_discord_agent.Notifier.{NotifyResult}
use claude_discord_agent.Supervisor.Pane.{
  Tmux, Sending, sends, sends_nothing, sends_and_raises, reaches_pane, is_sent, Tmux, load_pane,
  pane_exists, is_pane_busy,
}
use claude_discord_agent.Supervisor.Fallback.{
  SupervisorConfig, message_for, record_answer, attempt_fallback_notify, claim_and_fallback,
}
use claude_discord_agent.Supervisor.Drive.{
  send_wake, try_wake, drive_unclaimed, drive_by_state, drive_delivery, Answers, drive_all, tick,
}
use claude_discord_agent.Steps.{
  marks_reported, claims_fallback, marks_woken, counts_wake, sets_undeliverable, perform, Reaches,
  here, next,
}
use claude_discord_agent.Steps.Stepwise.{Reaches-trans}

module _ (c : SupervisorConfig) where
  record_answer_steps :
      (job : Job) (answer : NotifyResult) (now : Time) (s : System)
      → Reaches s.db (record_answer c job answer now s).db
  unfolding record_answer perform
  record_answer_steps job answer now s = elim (Bool-cases answer.success) [
    | inl e ↦ rw (e, record_answer) (next here (marks_reported job.id now))
    | inr e ↦ elim (Bool-cases answer.permanent) [
      | inl p ↦ rw (e, p, record_answer) (next here (sets_undeliverable job.id))
      | inr p ↦ rw (e, p, record_answer) here
    ]
  ]

  notify_steps :
      (notify : Message → NotifyResult) (job : Job) (now : Time) (s : System)
      → Reaches s.db (attempt_fallback_notify c notify job now s).db
  unfolding attempt_fallback_notify perform
  notify_steps notify job now s = elim (Option-cases job.notify_chat_id) [
    | inl e ↦ rw (e, attempt_fallback_notify) (next here (sets_undeliverable job.id))
    | inr (chat, e) ↦ elim (Bool-cases (is_set (some chat))) [
      | inl p ↦
          rw (e, p, attempt_fallback_notify)
            (record_answer_steps job (notify (message_for c chat job)) now
              (record s { sent = message_for c chat job ∷ s.sent }))
      | inr p ↦ rw (e, p, attempt_fallback_notify) (next here (sets_undeliverable job.id))
    ]
  ]

  claim_steps :
      (notify : Message → NotifyResult) (job : Job) (now : Time) (s : System)
      → Reaches s.db (claim_and_fallback c notify job now s).db
  unfolding claim_and_fallback perform
  claim_steps notify job now s =
      let db = (claim_for_fallback job.id s.db).1 in
      let claim : Reaches s.db db = next here (claims_fallback job.id) in
      elim (Bool-cases (claim_for_fallback job.id s.db).0) [
        | inl e ↦
            rw (e, claim_and_fallback)
              (Reaches-trans claim
                (notify_steps notify (coalesce (get_job job.id db) job) now (record s { db = db })))
        | inr e ↦ rw (e, claim_and_fallback) claim
      ]

  module _ (tmux : Tmux) (notify : Message → NotifyResult) where
    send_steps : (job : Job) (s : System) → Reaches s.db (send_wake c tmux notify job s).1.db
    unfolding send_wake perform
    send_steps job s = by_keys tmux.sends_text tmux.sends_enter
      where
        by_keys :
            (k : Sending) (b : Bool)
            → (let s' =
                  if reaches_pane k then record s { typed_jobs = job.id ∷ s.typed_jobs } else s in
                let r : Bool × System =
                  if is_sent k && b
                  then (
                    true,
                    change_db (mark_woken job.id) (with_db (incr_wake_attempts job.id) s').1,
                  )
                  else (false, s') in
                Reaches s.db r.1.db)
        by_keys sends true = next (next here (counts_wake job.id)) (marks_woken job.id)
        by_keys sends false = here
        by_keys sends_nothing b = here
        by_keys sends_and_raises b = here

    wake_steps :
        (job : Job) (sent_at : Time) (s : System)
        → Reaches s.db (try_wake c tmux notify job sent_at s).1.db
    unfolding try_wake
    wake_steps job sent_at s = elim (Bool-cases c.auto_wake) [
      | inr off ↦ rw (off, try_wake) here
      | inl on ↦ elim (Option-cases (load_pane tmux)) [
        | inl e ↦ rw (on, e, try_wake) (claim_steps notify job sent_at s)
        | inr (pane, e) ↦ elim (Bool-cases (pane_exists tmux pane)) [
          | inr gone ↦ rw (on, e, gone, try_wake) (claim_steps notify job sent_at s)
          | inl there ↦ elim (Bool-cases (is_pane_busy tmux)) [
            | inl busy ↦ rw (on, e, there, busy, try_wake) here
            | inr free ↦ rw (on, e, there, free, try_wake) (send_steps job s)
          ]
        ]
      ]
    ]

    unclaimed_steps :
        (job : Job) (now sent_at : Time) (s : System)
        → Reaches s.db (drive_unclaimed c tmux notify job now sent_at s).db
    unfolding drive_unclaimed
    unclaimed_steps job now sent_at s = elim (Bool-cases c.auto_wake) [
      | inr off ↦ simp (off, drive_unclaimed) (claim_steps notify job sent_at s)
      | inl on ↦
          elim (Bool-cases (ltb (time_or job.terminal_at job.updated_at + c.wake_grace) now)) [
            | inl late ↦ simp (on, late, drive_unclaimed) (claim_steps notify job sent_at s)
            | inr early ↦ elim (Bool-cases (ltb job.wake_attempts c.max_wake_attempts)) [
              | inl more ↦ simp (on, early, more, drive_unclaimed) (wake_steps job sent_at s)
              | inr done ↦ simp (on, early, done, drive_unclaimed) here
            ]
          ]
    ]

    by_state_steps :
        (o : Option WakeState) (job : Job) (now sent_at : Time) (s : System)
        → Reaches s.db (drive_by_state c tmux notify o job now sent_at s).db
    unfolding drive_by_state
    by_state_steps (some undeliverable) job now sent_at s = here
    by_state_steps (some fallback) job now sent_at s = notify_steps notify job sent_at s
    by_state_steps (some woken) job now sent_at s = unclaimed_steps job now sent_at s
    by_state_steps none job now sent_at s = unclaimed_steps job now sent_at s

    delivery_steps :
        (job : Job) (now sent_at : Time) (s : System)
        → Reaches s.db (drive_delivery c tmux notify job now sent_at s).db
    unfolding drive_delivery
    delivery_steps job now sent_at s = elim (Bool-cases (is_none job.reported_at)) [
      | inl e ↦ rw (e, drive_delivery) (by_state_steps job.wake_state job now sent_at s)
      | inr e ↦ rw (e, drive_delivery) here
    ]

  module _ (answers : ℕ → Answers) where
    drive_all_steps : (js : List Job) (s : System) → Reaches s.db (drive_all c answers js s).db
    unfolding drive_all
    drive_all_steps [] s = here
    drive_all_steps (j ∷ js) s =
        let a = answers j.id in
        Reaches-trans (delivery_steps a.tmux a.notify j a.now a.sent_at s)
          (drive_all_steps js (drive_delivery c a.tmux a.notify j a.now a.sent_at s))

    -- A tick of the supervisor changes the database by a sequence of steps only, whatever tmux and
    -- Discord answer.
    pub tick_steps : (s : System) → Reaches s.db (tick c answers s).db
    unfolding tick
    tick_steps s = drive_all_steps (list_undelivered_terminal_jobs s.db) s
