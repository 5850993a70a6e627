-- ===== src/Cli/Chain.antt =====
-- `_build_chain_payload`, `_cmd_dispatch_chain_file` and `cmd_chain_resume`.
use claude_discord_agent.Prelude.{
  ℕ, ◌+◌, not, ◌||◌, Option, none, some, String, List, [], ◌∷◌, str_eq, is_set, coalesce,
  if◌then◌else◌, Action, pure, raise, gets, ◌>>=◌, ◌>>◌, attribute_error,
}
use claude_discord_agent.Prelude.Int.{ℤ, pos}
use claude_discord_agent.Prelude.Json.{
  Json, null, bool, int, float, str, arr, obj, Items, nil, cons, Fields, end, field, truthy, get,
}
use claude_discord_agent.Db.Types.{Db, Job, Repo, Time}
use claude_discord_agent.Db.Jobs.{get_job}
use claude_discord_agent.Timeparse.{TimeLib}
use claude_discord_agent.Scheduler.Chain.{
  Codec, find_repo, chain_enqueue_at, create_chain_job, next_options,
}

-- `d[k] = v`
abbrev pub set_key : String → Json → Fields → Fields
set_key k v end = field k v end
set_key k v (field j w fs) =
    let rest = set_key k v fs in if str_eq j k then field j v fs else field j w rest

abbrev pub payload_key : String
payload_key = "next_dispatch_payload"

-- The last entry leads to `None`, and every other one to the entries behind it.
unfoldable pub build_chain_payload : List Fields → Option Fields
build_chain_payload [] = none
build_chain_payload (e ∷ []) = some (set_key payload_key null e)
build_chain_payload (e ∷ e' ∷ es) = elim (build_chain_payload (e' ∷ es)) [
  | none ↦ some (set_key payload_key null e)
  | some tail ↦ some (set_key payload_key (obj tail) e)
]

abbrev pub chat_json : Option String → Json
chat_json none = null
chat_json (some s) = str s

-- `if not entry.get("notify_chat_id"): entry["notify_chat_id"] = fallback`
abbrev pub with_chat : Option String → Fields → Fields
with_chat fallback entry =
    if truthy (get "notify_chat_id" entry)
    then entry
    else set_key "notify_chat_id" (chat_json fallback) entry

-- `args.notify_chat_id or os.environ.get("DISCORD_NOTIFY_CHAT_ID")`
abbrev pub fallback_chat : Option String → Option String → Option String
fallback_chat given from_env = if is_set given then given else from_env

-- The loop over the entries: `entry.get` of what is no object raises.
unfoldable pub entries_with_chat : Option String → Items → Option (List Fields)
entries_with_chat fallback nil = some []
entries_with_chat fallback (cons v vs) =
    let rest = entries_with_chat fallback vs in
    elim v [
      | obj fs ↦ elim rest [ none ↦ none | some es ↦ some (with_chat fallback fs ∷ es) ]
      | null ↦ none
      | bool b ↦ none
      | int n ↦ none
      | float t ↦ none
      | str s ↦ none
      | arr xs ↦ none
    ]

module _ (c : Codec) (lib : TimeLib) where
  -- The rest once the schedule is read; `none` is a `ValueError`.
  unfoldable pub create_scheduled : Option Time → ℕ → Fields → ℤ → ℕ → Time → Action Db ℕ
  create_scheduled none repo_id payload priority depth now = pure 1
  create_scheduled (some enqueue_at) repo_id payload priority depth now =
      create_chain_job c lib repo_id (get "task" payload)
        (record (next_options c lib payload depth enqueue_at) { priority = priority })
        (get "notify_chat_id" payload) now
      >> pure 0

  -- The rest once the repo is looked up.
  unfoldable pub create_in : Fields → ℤ → ℕ → Time → Time → Option Repo → Action Db ℕ
  unfolding create_scheduled
  create_in payload priority depth now now' none = pure 1
  create_in payload priority depth now now' (some repo) =
      create_scheduled (chain_enqueue_at c lib (get "enqueue_at" payload) now) repo.id payload
        priority depth now'

  -- A job from a payload: what the two commands share.
  unfoldable pub create_from_payload : Fields → ℤ → ℕ → Time → Time → Action Db ℕ
  unfolding create_in
  create_from_payload payload priority depth now now' =
      if not (truthy (get "repo" payload)) || not (truthy (get "task" payload))
      then pure 1
      else (find_repo c lib (get "repo" payload) >>= create_in payload priority depth now now')

  abbrev pub dispatch_head : ℤ → Time → Time → Option Fields → Action Db ℕ
  dispatch_head priority now now' none = pure 1
  dispatch_head priority now now' (some chain_head) =
      create_from_payload chain_head priority 0 now now'

  -- The entries with their chat ids, or `none` if one is no object.
  abbrev pub dispatch_entries : ℤ → Time → Time → Option (List Fields) → Action Db ℕ
  dispatch_entries priority now now' none = raise attribute_error
  dispatch_entries priority now now' (some entries) =
      dispatch_head priority now now' (build_chain_payload entries)

  -- The value in the chain file, or `none` where it is missing, unreadable or no JSON. `fallback` is
  -- `args.notify_chat_id` or the environment's.
  unfoldable pub cmd_dispatch_chain_file :
      Option Json → ℤ → Option String → Time → Time → Action Db ℕ
  unfolding create_from_payload build_chain_payload entries_with_chat
  cmd_dispatch_chain_file none priority fallback now now' = pure 1
  cmd_dispatch_chain_file (some (arr (cons v vs))) priority fallback now now' =
      dispatch_entries priority now now' (entries_with_chat fallback (cons v vs))
  cmd_dispatch_chain_file (some other) priority fallback now now' = pure 1

  -- A payload that is no object has no `get`.
  abbrev pub resume_payload : Option Json → ℕ → Time → Time → Action Db ℕ
  resume_payload none depth now now' = pure 1
  resume_payload (some (obj payload)) depth now now' =
      create_from_payload payload (pos 0) (depth + 1) now now'
  resume_payload (some other) depth now now' = raise attribute_error

  abbrev pub resume_job : Option Job → Time → Time → Action Db ℕ
  resume_job none now now' = pure 1
  resume_job (some job) now now' =
      if is_set job.next_dispatch_payload
      then resume_payload (c.loads (coalesce job.next_dispatch_payload "")) job.chain_depth now now'
      else pure 1

  unfoldable pub cmd_chain_resume : ℕ → Time → Time → Action Db ℕ
  unfolding create_from_payload
  cmd_chain_resume job_id now now' = gets (get_job job_id) >>= λ job. resume_job job now now'
