-- ===== src/Spec/Load.antt =====
-- `_parse_spec_file`, `load_spec` and `list_specs`. Files, the pattern of the frontmatter, `str.strip`
-- and `tomllib` are parameters.
use claude_discord_agent.Prelude.{
  Bool, Option, none, some, String, List, [], ◌∷◌, ◌++◌, Text, if◌then◌else◌, Result, ok, raised,
  spec_error,
}
use claude_discord_agent.Spec.Render.{Spec, Names, validated}

-- What `tomllib.loads` gives for the keys that are read; a missing key has the default there.
pub record Meta : Type 0 where
  pub id : String
  pub description : String
  pub required_vars : Names
  pub optional_vars : Names

-- The text of a file, or `none` for an OSError; the two groups of the frontmatter; the table, or
-- `none` for any exception; the paths of `<dir>/<id>.md` and `<dir>/<id>`, and the sorted `*.md`.
pub record SpecHost : Type 0 where
  pub read_text : String → Option Text
  pub match_frontmatter : Text → Option (Text × Text)
  pub strip : Text → Text
  pub toml_loads : Text → Option Meta
  pub exists : String → Bool
  pub is_absolute : String → Bool
  pub md_path : String → String → String
  pub plain_path : String → String → String
  pub sorted_md : String → List String

-- One line of `list_specs`.
pub record Listed : Type 0 where
  pub id : String
  pub description : String
  pub file : String

module _ (h : SpecHost) where
  abbrev pub read_meta : Text → Option Meta → Result Spec
  read_meta body none = raised spec_error
  read_meta body (some meta) =
      validated meta.id meta.description (h.strip body) meta.required_vars meta.optional_vars

  abbrev pub read_matched : Option (Text × Text) → Result Spec
  read_matched none = raised spec_error
  read_matched (some (toml_src, body)) = read_meta body (h.toml_loads toml_src)

  unfoldable pub parse_spec_file : String → Result Spec
  unfolding validated
  parse_spec_file path = elim (h.read_text path) [
    | none ↦ raised spec_error
    | some raw ↦ read_matched (h.match_frontmatter raw)
  ]

  -- The first candidate that exists.
  unfoldable pub first_spec : List String → Result Spec
  unfolding parse_spec_file
  first_spec [] = raised spec_error
  first_spec (c ∷ cs) = let rest = first_spec cs in if h.exists c then parse_spec_file c else rest

  unfoldable pub candidates : String → List String → List String
  candidates spec_id [] = []
  candidates spec_id (d ∷ dirs) =
      h.md_path d spec_id ∷ h.plain_path d spec_id ∷ candidates spec_id dirs

  unfoldable pub load_spec : String → List String → Result Spec
  unfolding parse_spec_file first_spec candidates
  load_spec spec_id dirs =
      if h.is_absolute spec_id
      then parse_spec_file spec_id
      else first_spec (candidates spec_id dirs)

  -- A file that is no spec is left out.
  unfoldable pub listed_files : List String → List Listed
  unfolding parse_spec_file
  listed_files [] = []
  listed_files (p ∷ ps) =
      let rest = listed_files ps in
      elim (parse_spec_file p) [
        | raised e ↦ rest
        | ok spec ↦ record { id = spec.id; description = spec.description; file = p } ∷ rest
      ]

  unfoldable pub list_specs : List String → List Listed
  unfolding listed_files
  list_specs [] = []
  list_specs (d ∷ dirs) =
      let rest = list_specs dirs in
      if h.exists d then listed_files (h.sorted_md d) ++ rest else rest
