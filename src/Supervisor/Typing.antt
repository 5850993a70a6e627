-- ===== src/Supervisor/Typing.antt =====
-- When the supervisor types into the controller's tmux pane (lib/supervisor.py), and when it sends
-- a message instead.
use claude_discord_agent.Prelude.{
  if◌then◌else◌, Bool, ℕ, ◌≡◌, refl, ◌⊎◌, ◌+◌, true, false, ◌&&◌, Option, none, some, List, [], ◌∷◌,
  arith, Bool-cases, Option-cases, inl, inr, coalesce, is_none, is_set, ltb, time_or, Text, ◌∙◌,
}
use claude_discord_agent.Db.Types.{Db, Job, Time, WakeState, woken, fallback, undeliverable}
use claude_discord_agent.Db.Jobs.{get_job}
use claude_discord_agent.Db.Delivery.{
  mark_woken, incr_wake_attempts, claim_for_fallback, list_undelivered_terminal_jobs,
}
use claude_discord_agent.System.{System, Message, with_db, change_db}
use claude_discord_agent.Notifier.{NotifyResult}
use claude_discord_agent.Supervisor.Pane.{
  Tmux, Sending, sends, sends_nothing, sends_and_raises, reaches_pane, is_sent, load_pane,
  pane_exists, is_pane_busy,
}
use claude_discord_agent.Supervisor.Fallback.{
  SupervisorConfig, message_for, record_answer, attempt_fallback_notify, claim_and_fallback,
}
use claude_discord_agent.Supervisor.Drive.{
  send_wake, try_wake, drive_unclaimed, drive_by_state, drive_delivery, Answers, drive_all, tick,
}

map_right : {A B C : Type 0} → (B → C) → A ⊎ B → A ⊎ C
map_right f (inl a) = inl a
map_right f (inr b) = inr (f b)

-- A call that types nothing.
abbrev pub IsQuiet : System → System → Type 0
IsQuiet s s' = s'.typed_jobs ≡ s.typed_jobs

-- The database after the two `send-keys` commands.
abbrev pub marked : Tmux → Job → Db → Db
marked tmux job db =
    if is_sent tmux.sends_text && tmux.sends_enter
    then mark_woken job.id (incr_wake_attempts job.id db).1
    else db

-- A call that types one wake message, into an idle pane that tmux knows, sends nothing, and records
-- the wake where both commands succeed.
pub record IsTyped (c : SupervisorConfig) (tmux : Tmux) (job : Job) (s s' : System) : Type 0 where
  pub pane : Text
  pub enabled : c.auto_wake ≡ true
  pub registered : load_pane tmux ≡ some pane
  pub alive : pane_exists tmux pane ≡ true
  pub idle_pane : is_pane_busy tmux ≡ false
  pub unsent : s'.sent ≡ s.sent
  pub typed : s'.typed_jobs ≡ job.id ∷ s.typed_jobs
  pub recorded : s'.db ≡ marked tmux job s.db

module _ (c : SupervisorConfig) (tmux : Tmux) (notify : Message → NotifyResult) where
  record_answer-IsQuiet :
      (job : Job) (answer : NotifyResult) (now : Time) (s : System)
      → IsQuiet s (record_answer c job answer now s)
  unfolding record_answer
  record_answer-IsQuiet job answer now s = ground arith

  attempt-IsQuiet :
      (job : Job) (now : Time) (s : System) → IsQuiet s (attempt_fallback_notify c notify job now s)
  unfolding attempt_fallback_notify
  attempt-IsQuiet job now s = elim (Option-cases job.notify_chat_id) [
    | inl e ↦ rw (e, attempt_fallback_notify) refl
    | inr (chat, e) ↦ elim (Bool-cases (is_set (some chat))) [
      | inl t ↦
          rw (e, t, attempt_fallback_notify)
            (record_answer-IsQuiet job (notify (message_for c chat job)) now
              (record s { sent = message_for c chat job ∷ s.sent }))
      | inr t ↦ rw (e, t, attempt_fallback_notify) refl
    ]
  ]

  claim-IsQuiet :
      (job : Job) (now : Time) (s : System) → IsQuiet s (claim_and_fallback c notify job now s)
  unfolding claim_and_fallback
  claim-IsQuiet job now s = elim (Bool-cases (claim_for_fallback job.id s.db).0) [
    | inl t ↦
        let db = (claim_for_fallback job.id s.db).1 in
        rw (t, claim_and_fallback)
          (attempt-IsQuiet (coalesce (get_job job.id db) job) now (record s { db = db }))
    | inr t ↦ rw (t, claim_and_fallback) refl
  ]

  send_cases :
      (job : Job) (s : System)
      → IsQuiet s (send_wake c tmux notify job s).1
        ⊎ ((send_wake c tmux notify job s).1.sent ≡ s.sent)
          × ((send_wake c tmux notify job s).1.typed_jobs ≡ job.id ∷ s.typed_jobs)
          × ((send_wake c tmux notify job s).1.db ≡ marked tmux job s.db)
  unfolding send_wake
  send_cases job s = by_keys tmux.sends_text tmux.sends_enter
    where
      by_keys :
          (k : Sending) (b : Bool)
          → (let s' =
                if reaches_pane k then record s { typed_jobs = job.id ∷ s.typed_jobs } else s in
              let r : Bool × System =
                if is_sent k && b
                then (
                  true,
                  change_db (mark_woken job.id) (with_db (incr_wake_attempts job.id) s').1,
                )
                else (false, s') in
              IsQuiet s r.1
              ⊎ (r.1.sent ≡ s.sent)
                × (r.1.typed_jobs ≡ job.id ∷ s.typed_jobs)
                × (r.1.db ≡ (
                    if is_sent k && b
                    then mark_woken job.id (incr_wake_attempts job.id s.db).1
                    else s.db)))
      by_keys sends true = inr (refl, refl, refl)
      by_keys sends false = inr (refl, refl, refl)
      by_keys sends_nothing b = inl refl
      by_keys sends_and_raises b = inr (refl, refl, refl)

  wake_cases :
      (job : Job) (sent_at : Time) (s : System)
      → IsQuiet s (try_wake c tmux notify job sent_at s).1
        ⊎ IsTyped c tmux job s (try_wake c tmux notify job sent_at s).1
  unfolding try_wake
  wake_cases job sent_at s = elim (Bool-cases c.auto_wake) [
    | inr off ↦ rw (off, try_wake) (inl refl)
    | inl on ↦ elim (Option-cases (load_pane tmux)) [
      | inl e ↦ rw (on, e, try_wake) (inl (claim-IsQuiet job sent_at s))
      | inr (pane, e) ↦ elim (Bool-cases (pane_exists tmux pane)) [
        | inr gone ↦ rw (on, e, gone, try_wake) (inl (claim-IsQuiet job sent_at s))
        | inl there ↦ elim (Bool-cases (is_pane_busy tmux)) [
          | inl busy ↦ rw (on, e, there, busy, try_wake) (inl refl)
          | inr free ↦
              simp (on, e, there, free, try_wake)
                (map_right
                  (λ q. record {
                    pane = pane;
                    enabled = on;
                    registered = e;
                    alive = there;
                    idle_pane = free;
                    unsent = q.0;
                    typed = q.1;
                    recorded = q.2;
                  })
                  (send_cases job s))
        ]
      ]
    ]
  ]

  -- How the delivery of one job may touch the pane.
  abbrev pub TypesAtMost : Job → System → System → Type 0
  TypesAtMost job s s' =
      IsQuiet s s' ⊎ (ltb job.wake_attempts c.max_wake_attempts ≡ true) × IsTyped c tmux job s s'

  unclaimed_cases :
      (job : Job) (now sent_at : Time) (s : System)
      → TypesAtMost job s (drive_unclaimed c tmux notify job now sent_at s)
  unfolding drive_unclaimed
  unclaimed_cases job now sent_at s = elim (Bool-cases c.auto_wake) [
    | inr off ↦ simp (off, drive_unclaimed) (inl (claim-IsQuiet job sent_at s))
    | inl on ↦ elim (Bool-cases (ltb (time_or job.terminal_at job.updated_at + c.wake_grace) now)) [
      | inl late ↦ simp (on, late, drive_unclaimed) (inl (claim-IsQuiet job sent_at s))
      | inr early ↦ elim (Bool-cases (ltb job.wake_attempts c.max_wake_attempts)) [
        | inl more ↦
            simp (on, early, more, drive_unclaimed)
              (map_right (λ t. (refl, t)) (wake_cases job sent_at s))
        | inr all_used ↦ simp (on, early, all_used, drive_unclaimed) (inl refl)
      ]
    ]
  ]

  by_state_cases :
      (o : Option WakeState) (job : Job) (now sent_at : Time) (s : System)
      → TypesAtMost job s (drive_by_state c tmux notify o job now sent_at s)
  unfolding drive_by_state
  by_state_cases (some undeliverable) job now sent_at s = inl refl
  by_state_cases (some fallback) job now sent_at s = inl (attempt-IsQuiet job sent_at s)
  by_state_cases (some woken) job now sent_at s = unclaimed_cases job now sent_at s
  by_state_cases none job now sent_at s = unclaimed_cases job now sent_at s

  -- The delivery of a job types nothing, or, for a job with a wake attempt left and with automatic
  -- waking on, it types that job's wake message into a pane that is registered, alive and idle, and
  -- then sends no message of its own; the wake is recorded if Enter is sent too, and otherwise the
  -- database stays as it is.
  pub drive_delivery_types :
      (job : Job) (now sent_at : Time) (s : System)
      → TypesAtMost job s (drive_delivery c tmux notify job now sent_at s)
  unfolding drive_delivery
  drive_delivery_types job now sent_at s = elim (Bool-cases (is_none job.reported_at)) [
    | inl e ↦ rw (e, drive_delivery) (by_state_cases job.wake_state job now sent_at s)
    | inr e ↦ rw (e, drive_delivery) (inl refl)
  ]

module _ (c : SupervisorConfig) (answers : ℕ → Answers) (off : c.auto_wake ≡ false) where
  silent_drive :
      (job : Job) (now sent_at : Time) (tmux : Tmux) (notify : Message → NotifyResult) (s : System)
      → IsQuiet s (drive_delivery c tmux notify job now sent_at s)
  silent_drive job now sent_at tmux notify s =
      elim (drive_delivery_types c tmux notify job now sent_at s) [
        | inl q ↦ q
        | inr (_, t) ↦ absurd (cc (off, t.enabled))
      ]

  silent_all : (js : List Job) (s : System) → IsQuiet s (drive_all c answers js s)
  unfolding drive_all
  silent_all [] s = refl
  silent_all (j ∷ js) s =
      let a = answers j.id in
      silent_all js (drive_delivery c a.tmux a.notify j a.now a.sent_at s)
      ∙ silent_drive j a.now a.sent_at a.tmux a.notify s

-- With automatic waking off, a tick of the supervisor types nothing into tmux, whatever jobs there
-- are and whatever tmux and Discord answer.
pub tick_types_nothing :
    (c : SupervisorConfig) (answers : ℕ → Answers) (s : System)
    → c.auto_wake ≡ false
    → (tick c answers s).typed_jobs ≡ s.typed_jobs
unfolding tick
tick_types_nothing c answers s off =
    silent_all c answers off (list_undelivered_terminal_jobs s.db) s
