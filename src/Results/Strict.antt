-- ===== src/Results/Strict.antt =====
-- `parse_result` with and without `strict`, and what a strict result promises.
use claude_discord_agent.Prelude.{
  ℕ, suc, ◌≡◌, refl, ap, sym, ◌∙◌, some, none, List, [], ◌∷◌, ◌++◌, Text, Option, Bool, true, false,
  ◌&&◌, Result, ok, raised, value_error, if◌then◌else◌, String, str_eq, subst,
}
use claude_discord_agent.Prelude.Json.{
  Json, null, bool, int, float, str, obj, arr, Items, nil, cons, Fields, end, field, get, get_or,
  has_key, as_object, items_or_none, items_or_none_arr,
}
use claude_discord_agent.Prelude.Returns.{◌>>=◌, bind_inversion, ok-injective}
use claude_discord_agent.Prelude.Int.{ℤ, pos}
use claude_discord_agent.Results.Schema.{
  AdvisorRound, WorkerResult, Violation, round_to_dict, rounds_to_dicts, to_dict, validate,
  validate_raw, rounds_violations, round_violations, is_verdict, status_violations, missing_fields,
  list_violation, required_keys, missing_round,
}
use claude_discord_agent.Results.Parse.{
  JsonLib, parse_result, parse_object, parse_loaded, parse_block, parse_rounds, parse_round, to_int,
  build_result, has_violations, block_of, is_blank, is_json_error, no_result,
}

append_empty : {A : Type 0} (xs ys : List A) → xs ++ ys ≡ [] → (xs ≡ []) × (ys ≡ [])
append_empty [] ys h = (refl, h)
append_empty (x ∷ xs) ys h = absurd (cc)

guard_inversion :
    (errors : List Violation) (k : Result (Option WorkerResult)) (r : Option WorkerResult)
    → (if has_violations errors && true then raised value_error else k) ≡ ok r
    → (errors ≡ []) × (k ≡ ok r)
guard_inversion [] k r h = (refl, h)
guard_inversion (v ∷ vs) k r h = absurd (cc)

module _ (lib : JsonLib) where
  -- A strict parse of an object that returns has found no violation.
  strict_inversion :
      (raw : Fields) (r : Option WorkerResult)
      → parse_object lib true raw ≡ ok r
      → (validate_raw raw ≡ ok []) × (build_result lib raw ≡ ok r)
  unfolding parse_object
  strict_inversion raw r h =
      let (errors, e, k) = bind_inversion (validate_raw raw) _ r h in
      let (none_found, built) = guard_inversion errors _ r k in (e ∙ ap ok none_found, built)

  agree-object :
      (raw : Fields) (r : Option WorkerResult)
      → parse_object lib true raw ≡ ok r
      → parse_object lib false raw ≡ ok r
  unfolding parse_object
  agree-object raw r h =
      let (valid, built) = strict_inversion raw r h in rw (parse_object, valid) built

  agree-branch :
      (b : Bool) (k k' : Result (Option WorkerResult)) (r : Option WorkerResult)
      → (k ≡ ok r → k' ≡ ok r)
      → (if b then raised value_error else k) ≡ ok r
      → (if b then ok none else k') ≡ ok r
  agree-branch true k k' r f h = absurd (cc)
  agree-branch false k k' r f h = f h

  agree-fields :
      (o : Option Fields) (r : Option WorkerResult)
      → (elim o [ none ↦ no_result lib true | some raw ↦ parse_object lib true raw ]) ≡ ok r
      → (elim o [ none ↦ no_result lib false | some raw ↦ parse_object lib false raw ]) ≡ ok r
  agree-fields none r h = absurd (cc)
  agree-fields (some raw) r h = agree-object raw r h

  agree-loaded :
      (v : Result Json) (r : Option WorkerResult)
      → parse_loaded lib true v ≡ ok r
      → parse_loaded lib false v ≡ ok r
  agree-loaded (raised e) r h = agree-branch (is_json_error e) (raised e) (raised e) r (λ k. k) h
  agree-loaded (ok v) r h = agree-fields (as_object v) r h

  agree-block :
      (o : Option Text) (r : Option WorkerResult)
      → (elim o [ none ↦ ok none | some block ↦ parse_block lib true block ]) ≡ ok r
      → (elim o [ none ↦ ok none | some block ↦ parse_block lib false block ]) ≡ ok r
  agree-block none r h = h
  agree-block (some block) r h =
      let v = lib.loads (lib.strip block) in
      agree-branch (is_blank (lib.strip block)) (parse_loaded lib true v) (parse_loaded lib false v)
        r (agree-loaded v r) h

  parse_result_agree :
      (text : Text) (r : Option WorkerResult)
      → parse_result lib true text ≡ ok r
      → parse_result lib false text ≡ ok r
  unfolding parse_result
  parse_result_agree text r h = agree-block (block_of text) r h

is_verdict-get_or :
    (k : String) (fs : Fields)
    → is_verdict (get k fs) ≡ true
    → is_verdict (get_or k (str "approved") fs) ≡ true
is_verdict-get_or k end h = refl
is_verdict-get_or k (field j v fs) h = field_case (str_eq j k) (is_verdict-get_or k fs) h
  where
    field_case :
        (b : Bool)
        → (is_verdict (get k fs) ≡ true → is_verdict (get_or k (str "approved") fs) ≡ true)
        → is_verdict (if b then v else get k fs) ≡ true
        → is_verdict (if b then v else get_or k (str "approved") fs) ≡ true
    field_case true ih h = h
    field_case false ih h = ih h

no_violation : (b : Bool) (v : Violation) → (if b then [] else v ∷ []) ≡ [] → b ≡ true
no_violation true v h = refl
no_violation false v h = absurd (cc)

ok_some-injective : {A : Type 0} (a b : A) → ok (some a) ≡ ok (some b) → a ≡ b
ok_some-injective a b h = cc

round_verdict :
    (n : Result ℤ) (found : Result Items) (w : Json) (r : AdvisorRound)
    → (n >>= λ x. found >>= λ xs. ok record { round = x; verdict = w; key_findings = xs }) ≡ ok r
    → w ≡ r.verdict
round_verdict (ok x) (ok xs) w r h =
    ap (λ (q : AdvisorRound). q.verdict)
      (ok-injective record { round = x; verdict = w; key_findings = xs } r h)
round_verdict (ok x) (raised e) w r h = absurd (cc)
round_verdict (raised e) found w r h = absurd (cc)

module _ (lib : JsonLib) where
  -- A round without violation is built as one without violation.
  round_kept :
      (i j : ℕ) (item : Fields) (r : AdvisorRound)
      → round_violations i (obj item) ≡ []
      → parse_round lib item ≡ ok r
      → round_violations j (obj (round_to_dict r)) ≡ []
  round_kept i j item r valid parsed =
      let named =
        append_empty (if has_key "round" item then [] else missing_round i ∷ []) _ valid in
      let given : is_verdict (get "verdict" item) ≡ true =
        no_violation (is_verdict (get "verdict" item)) _ named.1 in
      let same =
        round_verdict (to_int lib (get_or "round" (int (pos 0)) item))
          (items_or_none (get "key_findings" item)) (get_or "verdict" (str "approved") item) r
          parsed in
      let known : is_verdict r.verdict ≡ true =
        subst (λ w. is_verdict w ≡ true) same (is_verdict-get_or "verdict" item given) in
      rw known refl

  rounds_kept :
      (i j : ℕ) (items : Items) (rs : List AdvisorRound)
      → rounds_violations i items ≡ []
      → parse_rounds lib items ≡ ok rs
      → rounds_violations j (rounds_to_dicts rs) ≡ []
  rounds_kept i j nil rs valid parsed =
      subst (λ l. rounds_violations j (rounds_to_dicts l) ≡ []) (ok-injective [] rs parsed) refl
  rounds_kept i j (cons null vs) rs valid parsed = absurd (cc)
  rounds_kept i j (cons (bool b) vs) rs valid parsed = absurd (cc)
  rounds_kept i j (cons (int n) vs) rs valid parsed = absurd (cc)
  rounds_kept i j (cons (float t) vs) rs valid parsed = absurd (cc)
  rounds_kept i j (cons (str s) vs) rs valid parsed = absurd (cc)
  rounds_kept i j (cons (arr xs) vs) rs valid parsed = absurd (cc)
  rounds_kept i j (cons (obj item) vs) rs valid parsed =
      let parts = append_empty (round_violations i (obj item)) _ valid in
      let (r, e, k) =
        bind_inversion (parse_round lib item) (λ r. parse_rounds lib vs >>= λ l. ok (r ∷ l)) rs
          parsed in
      let (l, e', k') = bind_inversion (parse_rounds lib vs) (λ l. ok (r ∷ l)) rs k in
      subst (λ l. rounds_violations j (rounds_to_dicts l) ≡ []) (ok-injective (r ∷ l) rs k')
        (rw (round_kept i j item r parts.0 e) (rounds_kept (suc i) (suc j) vs l parts.1 e'))

  -- What `validate_raw` found none of, apart.
  valid_inversion :
      (raw : Fields)
      → validate_raw raw ≡ ok []
      → (status_violations (get_or "status" (str "") raw) ≡ ok [])
        × (items : Items) × (items_or_none (get "advisor_rounds" raw) ≡ ok items)
        × (rounds_violations 0 items ≡ [])
  unfolding validate_raw
  valid_inversion raw h =
      let (status, e, k) =
        bind_inversion (status_violations (get_or "status" (str "") raw)) _ [] h in
      let (items, e', k') = bind_inversion (items_or_none (get "advisor_rounds" raw)) _ [] k in
      let all_empty = ok-injective _ [] k' in
      let after_missing = append_empty (missing_fields required_keys raw) _ all_empty in
      let after_status = append_empty status _ after_missing.1 in
      let after_files =
        append_empty (list_violation "files_changed" (get "files_changed" raw)) _ after_status.1 in
      let after_rounds =
        append_empty (list_violation "advisor_rounds" (get "advisor_rounds" raw)) _ after_files.1 in
      let after_unresolved =
        append_empty (list_violation "unresolved" (get "unresolved" raw)) _ after_rounds.1 in
      (e ∙ ap ok after_status.0, items, e', after_unresolved.1)

  -- The result of a strict parse has no violation.
  built-valid :
      (raw : Fields) (r : WorkerResult)
      → validate_raw raw ≡ ok []
      → build_result lib raw ≡ ok (some r)
      → validate r ≡ ok []
  unfolding validate validate_raw to_dict
  built-valid raw r valid built =
      let (status_valid, items, e, rounds_valid) = valid_inversion raw valid in
      let (items', e', k) =
        bind_inversion (items_or_none (get "advisor_rounds" raw)) _ (some r) built in
      let (rounds, parsed, k') = bind_inversion (parse_rounds lib items') _ (some r) k in
      let same : items ≡ items' = ok-injective items items' (sym e ∙ e') in
      let kept =
        rounds_kept 0 0 items' rounds (subst (λ l. rounds_violations 0 l ≡ []) same rounds_valid)
          parsed in
      subst (λ q. validate q ≡ ok []) (ok_some-injective _ r k')
        (rw (validate, validate_raw, status_valid, items_or_none_arr (rounds_to_dicts rounds), kept)
          refl)

  fields_valid :
      (o : Option Fields) (r : WorkerResult)
      → (elim o [ none ↦ no_result lib true | some raw ↦ parse_object lib true raw ]) ≡ ok (some r)
      → validate r ≡ ok []
  fields_valid none r h = absurd (cc)
  fields_valid (some raw) r h =
      let (valid, built) = strict_inversion lib raw (some r) h in built-valid raw r valid built

  loaded_valid :
      (v : Result Json) (r : WorkerResult)
      → parse_loaded lib true v ≡ ok (some r)
      → validate r ≡ ok []
  loaded_valid (raised e) r h = branch (is_json_error e) h
    where
      branch :
          (b : Bool)
          → (if b then no_result lib true else raised e) ≡ ok (some r)
          → validate r ≡ ok []
      branch true k = absurd (cc)
      branch false k = absurd (cc)
  loaded_valid (ok v) r h = fields_valid (as_object v) r h

  block_valid :
      (o : Option Text) (r : WorkerResult)
      → (elim o [ none ↦ ok none | some block ↦ parse_block lib true block ]) ≡ ok (some r)
      → validate r ≡ ok []
  block_valid none r h = absurd (cc)
  block_valid (some block) r h = filled (is_blank (lib.strip block)) h
    where
      filled :
          (b : Bool)
          → (if b then no_result lib true else parse_loaded lib true (lib.loads (lib.strip block)))
            ≡ ok (some r)
          → validate r ≡ ok []
      filled true k = absurd (cc)
      filled false k = loaded_valid (lib.loads (lib.strip block)) r k

  -- A result that a strict parse returns has no violation, and a parse that is not strict returns
  -- the same result.
  pub parse_result_strict :
      (text : Text) (r : WorkerResult)
      → parse_result lib true text ≡ ok (some r)
      → (validate r ≡ ok []) × (parse_result lib false text ≡ ok (some r))
  unfolding parse_result
  parse_result_strict text r h =
      (block_valid (block_of text) r h, parse_result_agree lib text (some r) h)
