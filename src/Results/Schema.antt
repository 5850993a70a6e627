-- ===== src/Results/Schema.antt =====
-- `_validate_raw` and the records of a result.
use claude_discord_agent.Prelude.{
  ℕ, suc, Bool, ◌||◌, none, some, List, [], ◌∷◌, ◌++◌, String, str_eq, if◌then◌else◌, Result, ok,
  raised, type_error,
}
use claude_discord_agent.Prelude.Json.{
  Json, null, bool, int, float, str, arr, obj, Items, nil, cons, Fields, end, field, get, get_or,
  has_key, as_object, as_list, is_text, is_null, items_or_none,
}
use claude_discord_agent.Prelude.Int.{ℤ}
use claude_discord_agent.Prelude.Returns.{◌>>=◌}

pub record AdvisorRound : Type 0 where
  pub round : ℤ
  pub verdict : Json
  pub key_findings : Items

-- The types that the source notes on the fields are not enforced by it.
pub record WorkerResult : Type 0 where
  pub status : Json
  pub merge_sha : Json
  pub pr_url : Json
  pub files_changed : Items
  pub advisor_rounds : List AdvisorRound
  pub next_action_hint : Json
  pub unresolved : Items
  pub error_summary : Json

-- `asdict(self)`
abbrev pub round_to_dict : AdvisorRound → Fields
round_to_dict r =
    field "round" (int r.round)
      (field "verdict" r.verdict (field "key_findings" (arr r.key_findings) end))

abbrev pub rounds_to_dicts : List AdvisorRound → Items
rounds_to_dicts [] = nil
rounds_to_dicts (r ∷ rs) = cons (obj (round_to_dict r)) (rounds_to_dicts rs)

unfoldable pub to_dict : WorkerResult → Fields
to_dict r = field "status" r.status (
    field "merge_sha" r.merge_sha (
      field "pr_url" r.pr_url (
        field "files_changed" (arr r.files_changed) (
          field "advisor_rounds" (arr (rounds_to_dicts r.advisor_rounds)) (
            field "next_action_hint" r.next_action_hint (
              field "unresolved" (arr r.unresolved)
                (field "error_summary" r.error_summary end)))))))

-- The messages of `_validate_raw`, each with what it names.
pub data Violation : Type 0 where
  missing_field : String → Violation
  invalid_status : Json → Violation
  must_be_list : String → Violation
  must_be_object : ℕ → Violation
  missing_round : ℕ → Violation
  invalid_verdict : ℕ → Json → Violation

-- `_REQUIRED_KEYS`, sorted
abbrev pub required_keys : List String
required_keys =
    "advisor_rounds" ∷ "error_summary" ∷ "files_changed" ∷ "merge_sha" ∷ "next_action_hint"
    ∷ "pr_url" ∷ "status" ∷ "unresolved" ∷ []

abbrev pub missing_fields : List String → Fields → List Violation
missing_fields [] raw = []
missing_fields (k ∷ ks) raw =
    let rest = missing_fields ks raw in if has_key k raw then rest else missing_field k ∷ rest

-- `_VALID_STATUSES`
abbrev pub is_valid_status : String → Bool
is_valid_status s = str_eq s "succeeded" || str_eq s "halt" || str_eq s "needs_controller"

-- Membership in a set hashes the value: a list and a dict have no hash.
abbrev pub status_violations : Json → Result (List Violation)
status_violations null = ok (invalid_status null ∷ [])
status_violations (bool b) = ok (invalid_status (bool b) ∷ [])
status_violations (int n) = ok (invalid_status (int n) ∷ [])
status_violations (float t) = ok (invalid_status (float t) ∷ [])
status_violations (str s) = ok (if is_valid_status s then [] else invalid_status (str s) ∷ [])
status_violations (arr xs) = raised type_error
status_violations (obj fs) = raised type_error

abbrev pub list_violation : String → Json → List Violation
list_violation k val = elim (as_list val) [
  | some xs ↦ []
  | none ↦ if is_null val then [] else must_be_list k ∷ []
]

abbrev pub is_verdict : Json → Bool
is_verdict v = is_text "approved" v || is_text "with_changes" v

abbrev pub round_violations : ℕ → Json → List Violation
round_violations i v = elim (as_object v) [
  | none ↦ must_be_object i ∷ []
  | some ar ↦
      (if has_key "round" ar then [] else missing_round i ∷ [])
      ++ (if is_verdict (get "verdict" ar) then [] else invalid_verdict i (get "verdict" ar) ∷ [])
]

-- The loop over the rounds, from index `i` on.
abbrev pub rounds_violations : ℕ → Items → List Violation
rounds_violations i nil = []
rounds_violations i (cons v vs) = round_violations i v ++ rounds_violations (suc i) vs

-- _validate_raw
unfoldable pub validate_raw : Fields → Result (List Violation)
validate_raw raw = do
  status ← status_violations (get_or "status" (str "") raw)
  rounds ← items_or_none (get "advisor_rounds" raw)
  ok (
      missing_fields required_keys raw
      ++ (status
          ++ (list_violation "files_changed" (get "files_changed" raw)
              ++ (list_violation "advisor_rounds" (get "advisor_rounds" raw)
                  ++ (list_violation "unresolved" (get "unresolved" raw)
                      ++ rounds_violations 0 rounds)))))

unfoldable pub validate : WorkerResult → Result (List Violation)
unfolding validate_raw to_dict
validate result = validate_raw (to_dict result)
