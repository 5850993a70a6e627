-- ===== src/Runner/Lines.antt =====
-- Which lines let `ClaudeProcess._read_stdout` reach the call of `on_complete`.
use mathlib.Core.List.{reverse, reverse_aux}
use claude_discord_agent.Prelude.{
  ◌≡◌, refl, sym, Bool, true, false, none, some, List, [], ◌∷◌, ◌++◌, Text, if◌then◌else◌, Result,
  ok, raised, attribute_error, All, All-append, Bool-cases, inl, inr, ◌⊎◌, subst,
}
use claude_discord_agent.Prelude.Json.{Json, Fields, as_object, get_or, str, truthy}
use claude_discord_agent.Results.Parse.{is_json_error, is_blank}
use claude_discord_agent.Runner.Limits.{check_rate_limit}
use claude_discord_agent.Runner.Output.{
  Output, new_output, LineLib, Completion, take_event, take_loaded, read_line, read_lines,
  find_result, examine, extract_result, read_stdout, is_result,
}

-- A line is no JSON, or it is a JSON object.
abbrev pub IsEvent : Result Json → Type 0
IsEvent (raised e) = is_json_error e ≡ true
IsEvent (ok v) = (fs : Fields) × (as_object v ≡ some fs)

abbrev pub IsEventLine : LineLib → Text → Type 0
IsEventLine lib line = IsEvent (lib.loads line)

-- A line of the pipe, once stripped: empty, or as above.
abbrev pub IsLine : LineLib → Bool × Text → Type 0
IsLine lib l = (is_blank (lib.strip l.1) ≡ true) ⊎ IsEventLine lib (lib.strip l.1)

reverse_aux-All :
    {A : Type 0} (P : A → Type 0) (xs acc : List A)
    → All P xs
    → All P acc
    → All P (reverse_aux xs acc)
reverse_aux-All P [] acc h k = k
reverse_aux-All P (x ∷ xs) acc h k = reverse_aux-All P xs (x ∷ acc) h.1 (h.0, k)

module _ (lib : LineLib) where
  examine-total :
      (r rest : Result Json) (v : Json)
      → IsEvent r
      → rest ≡ ok v
      → (w : Json) × (examine lib r rest ≡ ok w)
  examine-total (raised e) rest v h same = (v, rw h same)
  examine-total (ok x) rest v (fs, object) same = elim (Bool-cases (is_result fs)) [
    | inl t ↦ (get_or "result" (str "") fs, rw (examine, object, t) refl)
    | inr t ↦ (v, rw (examine, object, t) same)
  ]

  find_result-total :
      (found : Json) (lines : List Text)
      → All (IsEventLine lib) lines
      → (v : Json) × (find_result lib found lines ≡ ok v)
  unfolding find_result
  find_result-total found [] h = (found, refl)
  find_result-total found (line ∷ lines) h =
      let (v, same) = find_result-total found lines h.1 in
      examine-total (lib.loads line) (find_result lib found lines) v h.0 same

  -- A line as above is taken, and only it is added to the lines.
  take-total :
      (out : Output) (r : Result Json)
      → IsEvent r
      → (out' : Output) × (take_loaded lib out r ≡ ok out') × (out'.output_lines ≡ out.output_lines)
  take-total out (raised e) h = (out, rw h refl, refl)
  take-total out (ok v) (fs, object) = (take_event lib out fs, rw (take_loaded, object) refl, refl)

  read_line-total :
      (out : Output) (l : Bool × Text)
      → All (IsEventLine lib) out.output_lines
      → IsLine lib l
      → (out' : Output) × (read_line lib out l.1 ≡ ok out')
        × All (IsEventLine lib) out'.output_lines
  unfolding read_line
  read_line-total out l kept (inl blank) = (out, rw (read_line, blank) refl, kept)
  read_line-total out l kept (inr h) =
      let stripped = lib.strip l.1 in
      let longer = out.output_lines ++ stripped ∷ [] in
      let all_kept : All (IsEventLine lib) longer =
        All-append (IsEventLine lib) out.output_lines (stripped ∷ []) kept (h, tt) in
      elim (Bool-cases (is_blank stripped)) [
        | inl t ↦ (out, rw (read_line, t) refl, kept)
        | inr t ↦
            let (out', taken, same) =
              take-total (record out { output_lines = longer }) (lib.loads stripped) h in
            (out', rw (read_line, t) taken, subst (All (IsEventLine lib)) (sym same) all_kept)
      ]

  read_lines-total :
      (out : Output) (lines : List (Bool × Text))
      → All (IsEventLine lib) out.output_lines
      → All (IsLine lib) lines
      → (out' : Output) × (read_lines lib out lines ≡ ok out')
        × All (IsEventLine lib) out'.output_lines
  unfolding read_lines
  read_lines-total out [] kept h = (out, refl, kept)
  read_lines-total out ((true, line) ∷ lines) kept h = (out, refl, kept)
  read_lines-total out ((false, line) ∷ lines) kept h =
      let (out', taken, kept') = read_line-total out (false, line) kept h.0 in
      let (out'', rest, kept'') = read_lines-total out' lines kept' h.1 in
      (out'', rw taken rest, kept'')

  extract_result-total :
      (out : Output)
      → All (IsEventLine lib) out.output_lines
      → (v : Json) × (extract_result lib out ≡ ok v)
  unfolding extract_result
  extract_result-total out kept = elim (Bool-cases (truthy out.result_text)) [
    | inl t ↦ (out.result_text, rw (extract_result, t) refl)
    | inr t ↦
        let (v, same) =
          find_result-total out.result_text (reverse out.output_lines)
            (reverse_aux-All (IsEventLine lib) out.output_lines [] kept tt) in
        (v, rw (extract_result, t) same)
  ]

  -- If every line of the worker is empty, no JSON or a JSON object, the reader thread comes to its
  -- call of `on_complete`, wherever it is stopped.
  pub read_stdout-total :
      (lines : List (Bool × Text)) (stderr_lines : List Text)
      → All (IsLine lib) lines
      → (done : Completion) × (read_stdout lib lines stderr_lines ≡ ok done)
  unfolding read_stdout
  read_stdout-total lines stderr_lines h =
      let (out, taken, kept) = read_lines-total new_output lines tt h in
      let (v, found) = extract_result-total out kept in
      (
        record {
          result = if truthy v then some v else none;
          is_rate_limited = check_rate_limit lib.lower stderr_lines out.output_lines;
        },
        rw (read_stdout, taken, found) refl,
      )

  read_lines-raised :
      (out : Output) (before lines : List (Bool × Text)) (line : Text) (v : Json)
      → All (λ (l : Bool × Text). (l.0 ≡ false) × IsLine lib l) before
      → All (IsEventLine lib) out.output_lines
      → is_blank (lib.strip line) ≡ false
      → lib.loads (lib.strip line) ≡ ok v
      → as_object v ≡ none
      → read_lines lib out (before ++ (false, line) ∷ lines) ≡ raised attribute_error
  unfolding read_lines read_line
  read_lines-raised out [] lines line v h kept full loaded other =
      rw (read_lines, read_line, full, loaded, take_loaded, other) refl
  read_lines-raised out ((true, l) ∷ before) lines line v h kept full loaded other =
      absurd (cc (h.0.0))
  read_lines-raised out ((false, l) ∷ before) lines line v h kept full loaded other =
      let (out', taken, kept') = read_line-total out (false, l) kept h.0.1 in
      rw taken (read_lines-raised out' before lines line v h.1 kept' full loaded other)

  -- A line that is JSON but no object ends the reader thread with an exception: `on_complete` is
  -- never called, whatever comes behind that line. The lines before it are empty, no JSON or JSON
  -- objects, and the thread is not stopped.
  pub read_stdout-raised :
      (before lines : List (Bool × Text)) (line : Text) (v : Json) (stderr_lines : List Text)
      → All (λ (l : Bool × Text). (l.0 ≡ false) × IsLine lib l) before
      → is_blank (lib.strip line) ≡ false
      → lib.loads (lib.strip line) ≡ ok v
      → as_object v ≡ none
      → read_stdout lib (before ++ (false, line) ∷ lines) stderr_lines ≡ raised attribute_error
  unfolding read_stdout
  read_stdout-raised before lines line v stderr_lines h full loaded other =
      rw (read_stdout, read_lines-raised new_output before lines line v h tt full loaded other) refl
