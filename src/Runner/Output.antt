-- ===== src/Runner/Output.antt =====
-- `ClaudeProcess._read_stdout` and what it calls (lib/runner.py): the lines of a worker's output.
use mathlib.Core.List.{reverse}
use claude_discord_agent.Prelude.{
  Bool, Option, none, some, List, [], ◌∷◌, ◌++◌, Text, if◌then◌else◌, Result, ok, raised,
  attribute_error,
}
use claude_discord_agent.Prelude.Json.{Json, str, Fields, truthy, get, get_or, as_object, is_text}
use claude_discord_agent.Prelude.Returns.{◌>>=◌}
use claude_discord_agent.Results.Parse.{is_json_error, is_blank}
use claude_discord_agent.Runner.Limits.{check_rate_limit}

-- `output_lines`, the events handed to `on_event`, and `result_text`, each oldest first. A result
-- need not be a text: it is what the event holds.
pub record Output : Type 0 where
  pub output_lines : List Text
  pub events : List Fields
  pub result_text : Json

abbrev pub new_output : Output
new_output = record { output_lines = []; events = []; result_text = str "" }

-- Python's `str.strip`, `str.lower` and `json.loads`.
pub record LineLib : Type 0 where
  pub strip : Text → Text
  pub lower : Text → Text
  pub loads : Text → Result Json

-- `event.get("type") == "result"`
abbrev pub is_result : Fields → Bool
is_result event = is_text "result" (get "type" event)

-- The arguments of `on_complete` but the exit code; `None` is `none`.
pub record Completion : Type 0 where
  pub result : Option Json
  pub is_rate_limited : Bool

module _ (lib : LineLib) where
  -- An event that is an object.
  abbrev pub take_event : Output → Fields → Output
  take_event out event = record {
    output_lines = out.output_lines;
    events = out.events ++ event ∷ [];
    result_text = if is_result event then get_or "result" (str "") event else out.result_text;
  }

  -- What the `try` block makes of a line. `on_event` and the code itself call `event.get`.
  abbrev pub take_loaded : Output → Result Json → Result Output
  take_loaded out (raised e) = if is_json_error e then ok out else raised e
  take_loaded out (ok v) = elim (as_object v) [
    | none ↦ raised attribute_error
    | some event ↦ ok (take_event out event)
  ]

  unfoldable pub read_line : Output → Text → Result Output
  read_line out line =
      let stripped = lib.strip line in
      if is_blank stripped
      then ok out
      else take_loaded (record out { output_lines = out.output_lines ++ stripped ∷ [] })
          (lib.loads stripped)

  -- The loop; each line comes with whether `_stop_event` is set when it is read.
  unfoldable pub read_lines : Output → List (Bool × Text) → Result Output
  unfolding read_line
  read_lines out [] = ok out
  read_lines out ((stopped, line) ∷ lines) =
      if stopped then ok out else (read_line out line >>= λ out'. read_lines out' lines)

  -- One round of `_extract_result`: the result of the event, or what the other lines give.
  abbrev pub examine : Result Json → Result Json → Result Json
  examine (raised e) rest = if is_json_error e then rest else raised e
  examine (ok v) rest = elim (as_object v) [
    | none ↦ raised attribute_error
    | some event ↦ if is_result event then ok (get_or "result" (str "") event) else rest
  ]

  -- `_extract_result` on the lines, the last one first.
  unfoldable pub find_result : Json → List Text → Result Json
  find_result found [] = ok found
  find_result found (line ∷ lines) =
      let rest = find_result found lines in examine (lib.loads line) rest

  unfoldable pub extract_result : Output → Result Json
  unfolding find_result
  extract_result out =
      if truthy out.result_text
      then ok out.result_text
      else find_result out.result_text (reverse out.output_lines)

  -- `_read_stdout` up to the call of `on_complete`; `stderr_lines` as they stand after the join.
  unfoldable pub read_stdout : List (Bool × Text) → List Text → Result Completion
  unfolding read_lines extract_result
  read_stdout lines stderr_lines = do
    out ← read_lines new_output lines
    result ← extract_result out
    ok record {
      result = if truthy result then some result else none;
      is_rate_limited = check_rate_limit lib.lower stderr_lines out.output_lines;
    }
