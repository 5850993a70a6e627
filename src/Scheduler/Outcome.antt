-- ===== src/Scheduler/Outcome.antt =====
-- How a finished attempt ends its job: `on_rate_limit` and `on_success` of `class Scheduler`
-- (lib/scheduler.py).
use claude_discord_agent.Prelude.{
  ℕ, ◌+◌, Bool, ◌&&◌, Option, none, some, String, ◌==◌, if◌then◌else◌, is_set, coalesce, Action,
  pure, raise, modify, total, ◌>>=◌, ◌>>◌, job_not_found, invalid_transition,
}
use claude_discord_agent.Table.{count}
use claude_discord_agent.Db.Lifecycle.{rate_limited, succeeded, may_become, same_state}
use claude_discord_agent.Db.Types.{Db, Job, Time}
use claude_discord_agent.Db.Jobs.{job_is, update_jobs, get_job}
use claude_discord_agent.Db.Repos.{set_backoff, clear_backoff}
use claude_discord_agent.System.{System, change_db, on_db, transaction}
use claude_discord_agent.Timeparse.{TimeLib}
use claude_discord_agent.Scheduler.Backoff.{BackoffConfig, load, remember, capped_delay, jittered}
use claude_discord_agent.Scheduler.Chain.{Codec, dispatch_chain_next}

-- The UPDATE of `on_rate_limit`.
abbrev pub rate_limit_job : ℕ → Time → Db → Db
rate_limit_job job_id now =
    update_jobs (job_is job_id) (λ j. record j { state = rate_limited; updated_at = now })

-- The two tests that raise `ValueError`.
unfoldable pub check_rate_limit : ℕ → Action System (Unit {0})
check_rate_limit job_id s = elim (get_job job_id s.db) [
  | none ↦ raise job_not_found s
  | some job ↦ if may_become job.state rate_limited then pure tt s else raise invalid_transition s
]

module _ (c : BackoffConfig) where
  -- The writes of the transaction: the job's new state, then the repo's backoff. The result is the
  -- pair (count, next_available).
  unfoldable pub write_rate_limit : ℕ → ℕ → Time → ℕ → System → (ℕ × Time) × System
  write_rate_limit repo_id job_id now draw s =
      let ((times, _), s') = load repo_id (change_db (rate_limit_job job_id now) s) in
      let next_available = now + jittered c (capped_delay c (times + 1)) draw in
      ((times + 1, next_available), change_db (set_backoff repo_id next_available (times + 1)) s')

  unfoldable pub rate_limit_body : ℕ → ℕ → Time → ℕ → Action System (ℕ × Time)
  unfolding write_rate_limit
  rate_limit_body repo_id job_id now draw =
      check_rate_limit job_id >> total (write_rate_limit repo_id job_id now draw)

  unfoldable pub on_rate_limit : ℕ → ℕ → Time → ℕ → Action System Time
  unfolding rate_limit_body
  on_rate_limit repo_id job_id now draw = do
    r ← transaction (rate_limit_body repo_id job_id now draw)
    modify (remember repo_id r.0 r.1)
    pure r.1

-- WHERE repo_id = ? AND state = 'rate_limited'
abbrev pub is_rate_limited_in : ℕ → Job → Bool
is_rate_limited_in repo_id j = j.repo_id == repo_id && same_state j.state rate_limited

-- The backoff is cleared where no job of the repo is still rate limited.
unfoldable pub clear_if_none_limited : ℕ → System → System
clear_if_none_limited repo_id s =
    if count (is_rate_limited_in repo_id) s.db.jobs.rows == 0
    then remember repo_id 0 0 (change_db (clear_backoff repo_id) s)
    else s

-- The UPDATE of `on_success`.
abbrev pub succeed_job : ℕ → Option String → Time → Db → Db
succeed_job job_id result now = update_jobs (job_is job_id) (λ j. record j {
  state = succeeded;
  updated_at = now;
  result = result;
  terminal_at = some (coalesce j.terminal_at now);
})

-- The transaction of `on_success`: the job as it was, if it has succeeded now.
unfoldable pub record_success : ℕ → ℕ → Option String → Time → System → Option Job × System
unfolding clear_if_none_limited
record_success repo_id job_id result now s = elim (get_job job_id s.db) [
  | none ↦ (none, s)
  | some job ↦
      if may_become job.state succeeded
      then (some job, clear_if_none_limited repo_id (change_db (succeed_job job_id result now) s))
      else (none, s)
]

module _ (codec : Codec) (lib : TimeLib) where
  -- The chain goes on outside of the transaction, where there is a payload that is not empty.
  unfoldable pub continue_chain :
      ℕ → Option String → Option String → Time → Time → Action System (Option ℕ)
  continue_chain depth chat_id none now now' = pure none
  continue_chain depth chat_id (some payload) now now' =
      if is_set (some payload)
      then on_db (dispatch_chain_next codec lib payload depth chat_id now now')
      else pure none

  unfoldable pub after_success : Time → Time → Option Job → Action System (Option ℕ)
  unfolding continue_chain
  after_success now now' none = pure none
  after_success now now' (some job) =
      continue_chain job.chain_depth job.notify_chat_id job.next_dispatch_payload now now'

  -- The three times are the clock's readings in the transaction, in `parse_enqueue_at` and in
  -- `create_job`.
  unfoldable pub on_success : ℕ → ℕ → Option String → Time → Time → Time → Action System (Option ℕ)
  unfolding record_success after_success
  on_success repo_id job_id result now now' now'' =
      total (record_success repo_id job_id result now) >>= after_success now' now''
