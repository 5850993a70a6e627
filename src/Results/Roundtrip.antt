-- ===== src/Results/Roundtrip.antt =====
-- A result printed as a dict and parsed again.
use claude_discord_agent.Prelude.{◌≡◌, refl, some, none, List, [], ◌∷◌, ◌++◌, Text, Bool, false, ok}
use claude_discord_agent.Prelude.Json.{obj, items_or_none_arr}
use claude_discord_agent.Results.Search.{find, rfind}
use claude_discord_agent.Results.Schema.{
  AdvisorRound, WorkerResult, round_to_dict, rounds_to_dicts, to_dict, validate,
}
use claude_discord_agent.Results.Delimited.{block_of-closed}
use claude_discord_agent.Results.Parse.{
  JsonLib, delimiter_open, delimiter_close, parse_result, parse_object, parse_rounds, parse_round,
  build_result, is_blank,
}

module _ (lib : JsonLib) where
  parse_round-round_to_dict : (r : AdvisorRound) → parse_round lib (round_to_dict r) ≡ ok r
  parse_round-round_to_dict r = rw (items_or_none_arr r.key_findings) refl

  parse_rounds-rounds_to_dicts :
      (rs : List AdvisorRound) → parse_rounds lib (rounds_to_dicts rs) ≡ ok rs
  parse_rounds-rounds_to_dicts [] = refl
  parse_rounds-rounds_to_dicts (r ∷ rs) =
      rw (parse_round-round_to_dict r, parse_rounds-rounds_to_dicts rs) refl

  build_result-to_dict : (r : WorkerResult) → build_result lib (to_dict r) ≡ ok (some r)
  unfolding to_dict
  build_result-to_dict r =
      rw
        (
          items_or_none_arr (rounds_to_dicts r.advisor_rounds),
          parse_rounds-rounds_to_dicts r.advisor_rounds,
        )
        refl

  -- The object of a result without violations is parsed back, strictly or not.
  parse_object-to_dict :
      (strict : Bool) (r : WorkerResult)
      → validate r ≡ ok []
      → parse_object lib strict (to_dict r) ≡ ok (some r)
  unfolding validate parse_object
  parse_object-to_dict strict r valid = rw valid (build_result-to_dict r)

  -- A text that a worker writes around the JSON of a result is parsed to that result, strictly or
  -- not: whatever prose stands before it, even with delimiters, and whatever text without an opener
  -- after it, if the result has no violation, its JSON text loads as its dict and is not blank, and
  -- holds no delimiter.
  pub parse_result-to_dict :
      (strict : Bool) (r : WorkerResult) (prose block rest : Text)
      → validate r ≡ ok []
      → is_blank (lib.strip block) ≡ false
      → lib.loads (lib.strip block) ≡ ok (obj (to_dict r))
      → find delimiter_open block ≡ none
      → find delimiter_close block ≡ none
      → rfind delimiter_open rest ≡ none
      → parse_result lib strict (prose ++ (delimiter_open ++ (block ++ (delimiter_close ++ rest))))
        ≡ ok (some r)
  unfolding parse_result
  parse_result-to_dict strict r prose block rest valid full loaded ho hc hr =
      rw (parse_result, block_of-closed prose block rest ho hc hr, full, loaded)
        (parse_object-to_dict strict r valid)
