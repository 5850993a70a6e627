-- ===== src/Db/Lifecycle.antt =====
-- The job states and the transition map of lib/db.py.
use claude_discord_agent.Prelude.{Bool, true, false, List, [], ◌∷◌}

-- JOB_STATES
pub data JobState : Type 0 where
  queued starting running succeeded failed_retryable failed_permanent rate_limited : JobState
  needs_controller timed_out lost : JobState

-- `s == t` on the names of the states.
abbrev pub same_state : JobState → JobState → Bool
same_state queued queued = true
same_state starting starting = true
same_state running running = true
same_state succeeded succeeded = true
same_state failed_retryable failed_retryable = true
same_state failed_permanent failed_permanent = true
same_state rate_limited rate_limited = true
same_state needs_controller needs_controller = true
same_state timed_out timed_out = true
same_state lost lost = true
same_state _ _ = false

abbrev pub is_member : JobState → List JobState → Bool
is_member s [] = false
is_member s (t ∷ ts) =
    let rest = is_member s ts in elim (same_state s t) [ true ↦ true | false ↦ rest ]

-- VALID_TRANSITIONS
abbrev pub valid_transitions : JobState → List JobState
valid_transitions queued = starting ∷ failed_permanent ∷ []
valid_transitions starting = running ∷ failed_retryable ∷ failed_permanent ∷ timed_out ∷ lost ∷ []
valid_transitions running =
    succeeded ∷ failed_retryable ∷ failed_permanent ∷ rate_limited ∷ needs_controller ∷ timed_out
    ∷ lost ∷ []
valid_transitions rate_limited = queued ∷ failed_permanent ∷ []
valid_transitions failed_retryable = queued ∷ failed_permanent ∷ []
valid_transitions timed_out = queued ∷ failed_permanent ∷ []
valid_transitions lost = queued ∷ failed_permanent ∷ []
valid_transitions needs_controller = queued ∷ failed_permanent ∷ succeeded ∷ []
valid_transitions succeeded = []
valid_transitions failed_permanent = []

-- `new_state in VALID_TRANSITIONS.get(current, set())`
abbrev pub may_become : JobState → JobState → Bool
may_become current new_state = is_member new_state (valid_transitions current)

-- `state in DELIVERY_TERMINAL_STATES`
abbrev pub is_delivery_terminal : JobState → Bool
is_delivery_terminal succeeded = true
is_delivery_terminal failed_permanent = true
is_delivery_terminal needs_controller = true
is_delivery_terminal _ = false

-- `state IN ('starting', 'running')`
abbrev pub is_active : JobState → Bool
is_active starting = true
is_active running = true
is_active _ = false
