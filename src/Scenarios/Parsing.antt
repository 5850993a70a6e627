-- ===== src/Scenarios/Parsing.antt =====
-- The theorems on results, worker output and specs at concrete texts.
use claude_discord_agent.Prelude.{
  ◌≡◌, refl, ◌↔◌, true, false, none, some, String, [], ◌∷◌, ◌++◌, Text, codes, Result, ok, raised,
  attribute_error, json_decode_error, inl, inr, if◌then◌else◌, ◌==◌,
}
use claude_discord_agent.Prelude.Int.{pos}
use claude_discord_agent.Prelude.Json.{Json, null, int, str, obj, nil, cons, end, field}
use claude_discord_agent.Results.Search.{find, rfind}
use claude_discord_agent.Results.Schema.{WorkerResult, to_dict, validate, validate_raw}
use claude_discord_agent.Results.Parse.{
  JsonLib, delimiter_open, delimiter_close, block_of, parse_result, parse_object,
}
use claude_discord_agent.Results.Roundtrip.{parse_result-to_dict}
use claude_discord_agent.Results.Strict.{parse_result_strict}
use claude_discord_agent.Runner.Output.{LineLib, Completion, read_stdout}
use claude_discord_agent.Runner.Lines.{read_stdout-total, read_stdout-raised}
use claude_discord_agent.Spec.Render.{
  Spec, Vars, Substitute, render, all_given, filled_vars, has_placeholder, lookup,
}
use claude_discord_agent.Spec.Variables.{render_lem, else_in, is_optional}

abbrev halted : WorkerResult
halted = record {
  status = str "halt";
  merge_sha = null;
  pr_url = str "u";
  files_changed = cons (str "a.py") nil;
  advisor_rounds =
      record { round = pos 1; verdict = str "approved"; key_findings = cons (str "x") nil } ∷ [];
  next_action_hint = null;
  unresolved = nil;
  error_summary = str "e";
}

-- The JSON library where every text is the dict of that result.
abbrev fixed : JsonLib
fixed = record {
  strip = λ t. t;
  loads = λ _. ok (obj (to_dict halted));
  int_of_float = λ _. ok (pos 0);
  int_of_text = λ _. ok (pos 0);
}

halted-valid : validate halted ≡ ok []
unfolding validate validate_raw to_dict
halted-valid = refl

no_opener : find delimiter_open (codes "{}") ≡ none
unfolding find
no_opener = refl

no_closer : find delimiter_close (codes "{}") ≡ none
unfolding find
no_closer = refl

nothing_more : rfind delimiter_open (codes " bye") ≡ none
unfolding rfind
nothing_more = refl

abbrev written : Text
written =
    codes "as in <<<END>>> "
    ++ (delimiter_open ++ (codes "{}" ++ (delimiter_close ++ codes " bye")))

parse_result-to_dict_example : parse_result fixed true written ≡ ok (some halted)
parse_result-to_dict_example =
    parse_result-to_dict fixed true halted (codes "as in <<<END>>> ") (codes "{}") (codes " bye")
      halted-valid refl refl no_opener no_closer nothing_more

read_strictly : parse_result fixed true written ≡ ok (some halted)
unfolding parse_result block_of parse_object find rfind validate_raw to_dict
read_strictly = refl

parse_result_strict_example :
    (validate halted ≡ ok []) × (parse_result fixed false written ≡ ok (some halted))
parse_result_strict_example = parse_result_strict fixed written halted read_strictly

abbrev event_line : Text
event_line = codes "{"

abbrev first_loaded : Text → Result Json
first_loaded [] = raised json_decode_error
first_loaded (c ∷ t) =
    if c == b'{' then ok (obj (field "type" (str "system") end)) else ok (int (pos 7))

-- A line that begins with a brace is an event, and any other one a number.
abbrev lines_lib : LineLib
lines_lib = record { strip = λ t. t; lower = λ t. t; loads = first_loaded }

read_stdout-total_example :
    (done : Completion) × (read_stdout lines_lib ((false, event_line) ∷ (false, []) ∷ []) []
      ≡ ok done)
read_stdout-total_example =
    read_stdout-total lines_lib ((false, event_line) ∷ (false, []) ∷ []) []
      (inr (field "type" (str "system") end, refl), (inl refl, tt))

read_stdout-raised_example :
    read_stdout lines_lib ((false, event_line) ∷ (false, codes "7") ∷ (false, event_line) ∷ []) []
    ≡ raised attribute_error
read_stdout-raised_example =
    read_stdout-raised lines_lib ((false, event_line) ∷ []) ((false, event_line) ∷ []) (codes "7")
      (int (pos 7)) [] ((refl, inr (field "type" (str "system") end, refl)), tt) refl refl refl

abbrev pr_spec : Spec
pr_spec = record {
  id = "pr";
  description = "a request";
  task_template = codes "do ${branch}";
  required_vars = "branch" ∷ [];
  optional_vars = "note" ∷ [];
}

abbrev branch_only : Vars
branch_only = ("branch", codes "main") ∷ []

abbrev to_main : Substitute
to_main template vars = some (codes "do main")

render_lem_example :
    ((render to_main pr_spec branch_only ≡ ok (codes "do main")) ↔ (
      (all_given pr_spec.required_vars branch_only ≡ true)
      × (to_main pr_spec.task_template (filled_vars pr_spec branch_only) ≡ some (codes "do main"))
      × (has_placeholder (codes "do main") ≡ false)))
    × ((k : String)
        → lookup k (filled_vars pr_spec branch_only)
          ≡ else_in
              (lookup k branch_only)
              (if is_optional k pr_spec.optional_vars then some [] else none))
render_lem_example = render_lem to_main pr_spec branch_only (codes "do main") (refl, tt)
