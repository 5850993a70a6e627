-- ===== src/Steps/Planes/Success.antt =====
-- `on_success` and the chain behind it (lib/scheduler.py) as steps.
use claude_discord_agent.Prelude.{
  ℕ, ◌+◌, ◌≡◌, true, ◌||◌, not, Option, none, some, String, ltb, is_set, Bool-cases, Option-cases,
  inl, inr, subst, pure, total, interface_error, integrity_error, attribute_error,
}
use claude_discord_agent.Prelude.Json.{
  Json, null, bool, int, float, str, arr, obj, Fields, truthy, get, or_text,
}
use claude_discord_agent.Db.Lifecycle.{succeeded, may_become}
use claude_discord_agent.Db.Types.{Db, Job, Repo, Time}
use claude_discord_agent.Db.Jobs.{JobOptions, create_job, get_job}
use claude_discord_agent.Db.Repos.{get_repo, get_repo_by_alias}
use claude_discord_agent.System.{System, change_db}
use claude_discord_agent.Timeparse.{TimeLib}
use claude_discord_agent.Scheduler.Chain.{
  Codec, unbound, bound, bind, chain_enqueue_at, create_chain_job, find_repo, enqueue_next,
  dispatch_fields, dispatch_payload, dispatch_chain_next, max_chain_depth, Bound, create_bound,
  find_bound, next_options, enqueue_scheduled, dispatch_value,
}
use claude_discord_agent.Scheduler.Outcome.{
  succeed_job, record_success, on_success, continue_chain, after_success,
}
use claude_discord_agent.Steps.{
  creates_job, succeeds_job, perform, if_may_become, Reaches, here, next,
}
use claude_discord_agent.Steps.Stepwise.{
  Reaches-trans, IsStepwise, bind_steps, pure_steps, raise_steps, if_steps, catch_any_steps,
  gets_steps, total_steps, on_db_steps, whole, inner,
}
use claude_discord_agent.Steps.Planes.Scheduler.{clear_limited_steps}

-- The guarded writes where their tests pass.
succeeds :
    (i : ℕ) (result : Option String) (now : Time) (db : Db) (job : Job)
    → get_job i db ≡ some job
    → may_become job.state succeeded ≡ true
    → perform (succeeds_job i result now) db ≡ succeed_job i result now db
unfolding perform if_may_become
succeeds i result now db job e m = rw (e, m, if_may_become)

module _ (c : Codec) (lib : TimeLib) where
  pub create_steps :
      (i : ℕ) (t : String) (o : JobOptions) (now : Time) → IsStepwise whole (create_job i t o now)
  unfolding perform
  create_steps i t o now = record { steps = λ db. next here (creates_job i t o now) }

  pub bound_steps :
      (i : ℕ) (task : Bound) (o : JobOptions) (chat : Bound) (now : Time)
      → IsStepwise whole (create_bound c lib i task o chat now)
  unfolding create_bound
  bound_steps i unbound o chat now = raise_steps whole interface_error
  bound_steps i (bound task) o unbound now = raise_steps whole interface_error
  bound_steps i (bound none) o (bound chat) now = raise_steps whole integrity_error
  bound_steps i (bound (some t)) o (bound chat) now =
      create_steps i t (record o { notify_chat_id = chat }) now

  scheduled_steps :
      (at : Option Time) (i : ℕ) (p : Fields) (depth : ℕ) (chat : Option String) (now : Time)
      → IsStepwise whole (enqueue_scheduled c lib at i p depth chat now)
  unfolding enqueue_scheduled
  scheduled_steps none i p depth chat now = pure_steps whole none
  scheduled_steps (some at) i p depth chat now =
      catch_any_steps whole _ _
        (bind_steps whole
          (create_chain_job c lib i (get "task" p) (next_options c lib p depth at)
            (or_text (get "notify_chat_id" p) chat) now)
          (λ id. pure (some id))
          (bound_steps i (bind c lib (get "task" p)) (next_options c lib p depth at)
            (bind c lib (or_text (get "notify_chat_id" p) chat)) now)
          (λ id. pure_steps whole (some id)))
        (pure_steps whole none)

  next_steps :
      (p : Fields) (depth : ℕ) (chat : Option String) (now now' : Time) (r : Option Repo)
      → IsStepwise whole (enqueue_next c lib p depth chat now now' r)
  unfolding enqueue_next
  next_steps p depth chat now now' none = pure_steps whole none
  next_steps p depth chat now now' (some r) =
      scheduled_steps (chain_enqueue_at c lib (get "enqueue_at" p) now) r.id p depth chat now'

  find_bound_steps : (t : Option String) → IsStepwise whole (find_bound c lib t)
  unfolding find_bound
  find_bound_steps none = raise_steps whole interface_error
  find_bound_steps (some t) = gets_steps whole (get_repo t)

  pub find_steps : (v : Json) → IsStepwise whole (find_repo c lib v)
  unfolding find_repo
  find_steps (str s) = gets_steps whole (get_repo_by_alias s)
  find_steps null = find_bound_steps (c.bind_text null)
  find_steps (bool b) = find_bound_steps (c.bind_text (bool b))
  find_steps (int n) = find_bound_steps (c.bind_text (int n))
  find_steps (float t) = find_bound_steps (c.bind_text (float t))
  find_steps (arr xs) = find_bound_steps (c.bind_text (arr xs))
  find_steps (obj fs) = find_bound_steps (c.bind_text (obj fs))

  fields_steps :
      (p : Fields) (depth : ℕ) (chat : Option String) (now now' : Time)
      → IsStepwise whole (dispatch_fields c lib p depth chat now now')
  unfolding dispatch_fields
  fields_steps p depth chat now now' =
      if_steps whole (not (truthy (get "repo" p)) || not (truthy (get "task" p))) _ _
        (pure_steps whole none)
        (bind_steps whole (find_repo c lib (get "repo" p))
          (enqueue_next c lib p depth chat now now') (find_steps (get "repo" p))
          (next_steps p depth chat now now'))

  value_steps :
      (v : Json) (depth : ℕ) (chat : Option String) (now now' : Time)
      → IsStepwise whole (dispatch_value c lib v depth chat now now')
  unfolding dispatch_value
  value_steps (obj p) depth chat now now' = fields_steps p depth chat now now'
  value_steps _ depth chat now now' = raise_steps whole attribute_error

  payload_steps :
      (v : Option Json) (depth : ℕ) (chat : Option String) (now now' : Time)
      → IsStepwise whole (dispatch_payload c lib v depth chat now now')
  unfolding dispatch_payload
  payload_steps none depth chat now now' = pure_steps whole none
  payload_steps (some v) depth chat now now' =
      if_steps whole (ltb max_chain_depth (depth + 1)) _ _ (pure_steps whole none)
        (value_steps v (depth + 1) chat now now')

  chain_steps :
      (depth : ℕ) (chat payload : Option String) (now now' : Time)
      → IsStepwise inner (continue_chain c lib depth chat payload now now')
  unfolding continue_chain dispatch_chain_next
  chain_steps depth chat none now now' = pure_steps inner none
  chain_steps depth chat (some payload) now now' =
      if_steps inner (is_set (some payload)) _ _
        (on_db_steps (dispatch_chain_next c lib payload depth chat now now')
          (payload_steps (c.loads payload) depth chat now now'))
        (pure_steps inner none)

  after_steps :
      (now now' : Time) (job : Option Job) → IsStepwise inner (after_success c lib now now' job)
  unfolding after_success
  after_steps now now' none = pure_steps inner none
  after_steps now now' (some job) =
      chain_steps job.chain_depth job.notify_chat_id job.next_dispatch_payload now now'

  record_success_steps :
      (r i : ℕ) (result : Option String) (now : Time) (s : System)
      → Reaches s.db (record_success r i result now s).1.db
  unfolding record_success perform if_may_become
  record_success_steps r i result now s = elim (Option-cases (get_job i s.db)) [
    | inl e ↦ rw (e, record_success) here
    | inr (job, e) ↦ elim (Bool-cases (may_become job.state succeeded)) [
      | inr m ↦ rw (e, m, record_success) here
      | inl m ↦
          let one : Reaches s.db (succeed_job i result now s.db) =
            subst (Reaches s.db) (succeeds i result now s.db job e m)
              (next here (succeeds_job i result now)) in
          rw (e, m, record_success)
            (Reaches-trans one (clear_limited_steps r (change_db (succeed_job i result now) s)))
    ]
  ]

  pub on_success_steps :
      (r i : ℕ) (result : Option String) (now now' now'' : Time)
      → IsStepwise inner (on_success c lib r i result now now' now'')
  unfolding on_success
  on_success_steps r i result now now' now'' =
      bind_steps inner (total (record_success r i result now)) (after_success c lib now' now'')
        (total_steps inner (record_success r i result now) (record_success_steps r i result now))
        (after_steps now' now'')
