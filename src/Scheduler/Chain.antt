-- ===== src/Scheduler/Chain.antt =====
-- `_dispatch_chain_next` of `class Scheduler` (lib/scheduler.py): the job that follows in a chain.
use claude_discord_agent.Prelude.{
  ℕ, ◌+◌, ◌||◌, not, Option, none, some, String, ltb, if◌then◌else◌, codes, Action, pure, raise,
  gets, catch_any, ◌>>=◌, attribute_error, interface_error, integrity_error,
}
use claude_discord_agent.Prelude.Json.{Json, null, str, obj, Fields, truthy, get, or_text}
use claude_discord_agent.Db.Types.{Db, Repo, Time}
use claude_discord_agent.Db.Jobs.{JobOptions, default_options, create_job}
use claude_discord_agent.Db.Repos.{get_repo, get_repo_by_alias}
use claude_discord_agent.Timeparse.{TimeLib, parse_enqueue_at}

-- MAX_CHAIN_DEPTH
abbrev pub max_chain_depth : ℕ
max_chain_depth = 50

-- The `json` module, Python's `str`, and how `sqlite3` stores a value in a TEXT column (`none`: it
-- cannot, and raises `InterfaceError`).
pub record Codec : Type 0 where
  pub loads : String → Option Json
  pub dumps : Json → String
  pub to_str : Json → String
  pub bind_text : Json → Option String

-- NULL, or a text.
pub data Bound : Type 0 where
  unbound : Bound
  bound : Option String → Bound

module _ (c : Codec) (lib : TimeLib) where
  -- A query parameter: `None` is NULL.
  unfoldable pub bind : Json → Bound
  bind null = bound none
  bind v = elim (c.bind_text v) [ none ↦ unbound | some t ↦ bound (some t) ]

  -- `json.dumps(next_next) if next_next else None`
  unfoldable pub next_payload : Json → Option String
  next_payload v = if truthy v then some (c.dumps v) else none

  -- The schedule of the next job; `none` is a `ValueError`.
  unfoldable pub chain_enqueue_at : Json → Time → Option Time
  chain_enqueue_at v now =
      if truthy v then parse_enqueue_at lib (codes (c.to_str v)) now else some 0

  -- `self._db.create_job(…)`: the parameters are bound, and `task` is NOT NULL.
  unfoldable pub create_bound : ℕ → Bound → JobOptions → Bound → Time → Action Db ℕ
  create_bound repo_id unbound o chat now = raise interface_error
  create_bound repo_id (bound task) o unbound now = raise interface_error
  create_bound repo_id (bound none) o (bound chat) now = raise integrity_error
  create_bound repo_id (bound (some task)) o (bound chat) now =
      create_job repo_id task (record o { notify_chat_id = chat }) now

  unfoldable pub create_chain_job : ℕ → Json → JobOptions → Json → Time → Action Db ℕ
  unfolding create_bound
  create_chain_job repo_id task o chat now = create_bound repo_id (bind task) o (bind chat) now

  -- `self._db.get_repo_by_alias(repo_name)`: a text may be a name or an alias; another value that
  -- SQLite converts to a text can only equal a name.
  unfoldable pub find_bound : Option String → Action Db (Option Repo)
  find_bound none = raise interface_error
  find_bound (some t) = gets (get_repo t)

  unfoldable pub find_repo : Json → Action Db (Option Repo)
  unfolding find_bound
  find_repo (str s) = gets (get_repo_by_alias s)
  find_repo v = find_bound (c.bind_text v)

  -- The options of the next job.
  unfoldable pub next_options : Fields → ℕ → Time → JobOptions
  next_options payload new_depth enqueue_at = record default_options {
    next_dispatch_payload = next_payload (get "next_dispatch_payload" payload);
    chain_depth = new_depth;
    enqueue_at = enqueue_at;
  }

  -- The rest once the schedule is read. The result is the new job, or `none` if the chain halts,
  -- which is only logged; a failure to create the job is caught.
  unfoldable pub enqueue_scheduled :
      Option Time → ℕ → Fields → ℕ → Option String → Time → Action Db (Option ℕ)
  unfolding create_chain_job next_options
  enqueue_scheduled none repo_id payload new_depth fallback_chat_id now = pure none
  enqueue_scheduled (some enqueue_at) repo_id payload new_depth fallback_chat_id now =
      catch_any
        (create_chain_job repo_id (get "task" payload) (next_options payload new_depth enqueue_at)
            (or_text (get "notify_chat_id" payload) fallback_chat_id) now
          >>= λ id. pure (some id))
        (pure none)

  -- The rest once the repo is looked up. `now` is the clock in `parse_enqueue_at`, `now'` in
  -- `create_job`.
  unfoldable pub enqueue_next :
      Fields → ℕ → Option String → Time → Time → Option Repo → Action Db (Option ℕ)
  unfolding enqueue_scheduled
  enqueue_next payload new_depth fallback_chat_id now now' none = pure none
  enqueue_next payload new_depth fallback_chat_id now now' (some repo) =
      enqueue_scheduled (chain_enqueue_at (get "enqueue_at" payload) now) repo.id payload new_depth
        fallback_chat_id now'

  -- A payload that is an object.
  unfoldable pub dispatch_fields : Fields → ℕ → Option String → Time → Time → Action Db (Option ℕ)
  unfolding enqueue_next find_repo
  dispatch_fields payload new_depth fallback_chat_id now now' =
      if not (truthy (get "repo" payload)) || not (truthy (get "task" payload))
      then pure none
      else (find_repo (get "repo" payload)
          >>= enqueue_next payload new_depth fallback_chat_id now now')

  -- `payload.get` of what is no object raises.
  unfoldable pub dispatch_value : Json → ℕ → Option String → Time → Time → Action Db (Option ℕ)
  unfolding dispatch_fields
  dispatch_value (obj payload) new_depth fallback_chat_id now now' =
      dispatch_fields payload new_depth fallback_chat_id now now'
  dispatch_value _ new_depth fallback_chat_id now now' = raise attribute_error

  -- The decoded payload, or `none` for a `JSONDecodeError`, and the depth of the job that has ended.
  unfoldable pub dispatch_payload :
      Option Json → ℕ → Option String → Time → Time → Action Db (Option ℕ)
  unfolding dispatch_value
  dispatch_payload none current_depth fallback_chat_id now now' = pure none
  dispatch_payload (some v) current_depth fallback_chat_id now now' =
      if ltb max_chain_depth (current_depth + 1)
      then pure none
      else dispatch_value v (current_depth + 1) fallback_chat_id now now'

  unfoldable pub dispatch_chain_next :
      String → ℕ → Option String → Time → Time → Action Db (Option ℕ)
  unfolding dispatch_payload
  dispatch_chain_next payload_str = dispatch_payload (c.loads payload_str)
