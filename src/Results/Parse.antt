-- ===== src/Results/Parse.antt =====
-- `parse_result`. `str.strip`, `json.loads` and `int` of a text or a float are Python's.
use claude_discord_agent.Prelude.{
  ◌+◌, Bool, true, false, ◌&&◌, Option, none, some, List, [], ◌∷◌, String, Text, codes, length,
  if◌then◌else◌, Result, ok, raised, value_error, type_error, Error, json_decode_error,
}
use claude_discord_agent.Prelude.Json.{
  Json, null, bool, int, float, str, arr, obj, Items, nil, cons, Fields, get, get_or, as_object,
  as_list, items_or_none,
}
use claude_discord_agent.Prelude.Int.{ℤ, pos}
use claude_discord_agent.Results.Search.{find, rfind, before, after}
use claude_discord_agent.Results.Schema.{AdvisorRound, WorkerResult, Violation, validate_raw}
use claude_discord_agent.Prelude.Returns.{◌>>=◌}

pub record JsonLib : Type 0 where
  pub strip : Text → Text
  -- A JSONDecodeError, and a ValueError where an integer has too many digits.
  pub loads : Text → Result Json
  -- `int(x)` for a float, by its `repr`, and for a text
  pub int_of_float : String → Result ℤ
  pub int_of_text : String → Result ℤ

abbrev pub delimiter_open : Text
delimiter_open = codes "<<<DISCORD_AGENT_RESULT>>>"

abbrev pub delimiter_close : Text
delimiter_close = codes "<<<END>>>"

-- `except json.JSONDecodeError`
abbrev pub is_json_error : Error → Bool
is_json_error json_decode_error = true
is_json_error e = false

-- `_to_list`
abbrev pub to_list : Json → Items
to_list val = elim (as_list val) [ some xs ↦ xs | none ↦ nil ]

abbrev pub is_blank : Text → Bool
is_blank [] = true
is_blank (c ∷ text) = false

abbrev pub has_violations : List Violation → Bool
has_violations [] = false
has_violations (v ∷ vs) = true

-- `after_open`, cut at the first closing delimiter.
abbrev pub cut_block : Text → Text
cut_block after_open = elim (find delimiter_close after_open) [
  | none ↦ after_open
  | some close_pos ↦ before close_pos after_open
]

-- What stands between the last opening delimiter and the next closing one.
unfoldable pub block_of : Text → Option Text
unfolding rfind
block_of text = elim (rfind delimiter_open text) [
  | none ↦ none
  | some open_pos ↦ some (cut_block (after (open_pos + length delimiter_open) text))
]

module _ (lib : JsonLib) where
  -- `int(v)`
  abbrev pub to_int : Json → Result ℤ
  to_int null = raised type_error
  to_int (bool b) = ok (pos (if b then 1 else 0))
  to_int (int n) = ok n
  to_int (float t) = lib.int_of_float t
  to_int (str s) = lib.int_of_text s
  to_int (arr xs) = raised type_error
  to_int (obj fs) = raised type_error

  abbrev pub parse_round : Fields → Result AdvisorRound
  parse_round item = do
    round ← to_int (get_or "round" (int (pos 0)) item)
    findings ← items_or_none (get "key_findings" item)
    ok record {
      round = round;
      verdict = get_or "verdict" (str "approved") item;
      key_findings = findings;
    }

  -- The loop over the rounds; what is no object is left out.
  abbrev pub parse_rounds : Items → Result (List AdvisorRound)
  parse_rounds nil = ok []
  parse_rounds (cons v vs) =
      let rest = parse_rounds vs in
      elim (as_object v) [
        | none ↦ rest
        | some item ↦ parse_round item >>= λ r. rest >>= λ rs. ok (r ∷ rs)
      ]

  abbrev pub build_result : Fields → Result (Option WorkerResult)
  build_result raw = do
    items ← items_or_none (get "advisor_rounds" raw)
    rounds ← parse_rounds items
    ok (
        some record {
          status = get_or "status" (str "") raw;
          merge_sha = get "merge_sha" raw;
          pr_url = get "pr_url" raw;
          files_changed = to_list (get "files_changed" raw);
          advisor_rounds = rounds;
          next_action_hint = get "next_action_hint" raw;
          unresolved = to_list (get "unresolved" raw);
          error_summary = get "error_summary" raw;
        })

  unfoldable pub parse_object : Bool → Fields → Result (Option WorkerResult)
  unfolding validate_raw
  parse_object strict raw = do
    errors ← validate_raw raw
    if has_violations errors && strict then raised value_error else build_result raw

  -- A block that is no result: strict parsing raises.
  abbrev pub no_result : Bool → Result (Option WorkerResult)
  no_result strict = if strict then raised value_error else ok none

  -- The block once it is read as JSON.
  abbrev pub parse_loaded : Bool → Result Json → Result (Option WorkerResult)
  parse_loaded strict (raised e) = if is_json_error e then no_result strict else raised e
  parse_loaded strict (ok v) = elim (as_object v) [
    | none ↦ no_result strict
    | some raw ↦ parse_object strict raw
  ]

  abbrev pub parse_block : Bool → Text → Result (Option WorkerResult)
  parse_block strict block =
      let json_text = lib.strip block in
      if is_blank json_text then no_result strict else parse_loaded strict (lib.loads json_text)

  unfoldable pub parse_result : Bool → Text → Result (Option WorkerResult)
  unfolding block_of parse_object
  parse_result strict text = elim (block_of text) [
    | none ↦ ok none
    | some block ↦ parse_block strict block
  ]
