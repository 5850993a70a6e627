-- ===== src/Spec/Render.antt =====
-- `class Spec`. `string.Template.substitute` is Python's.
use claude_discord_agent.Prelude.{
  Bool, true, false, ◌&&◌, ◌||◌, ◌==◌, Option, none, some, String, List, [], ◌∷◌, Text, str_eq,
  is_empty, if◌then◌else◌, Result, ok, raised, spec_error, coalesce,
}
use claude_discord_agent.Prelude.Returns.{◌>>=◌}

-- A dict of texts.
abbrev pub Vars : Type 0
Vars = List (String × Text)

abbrev pub lookup : String → Vars → Option Text
lookup k [] = none
lookup k ((j, v) ∷ vs) = let rest = lookup k vs in if str_eq j k then some v else rest

-- `d[k] = v`
abbrev pub set_var : String → Text → Vars → Vars
set_var k v [] = (k, v) ∷ []
set_var k v ((j, w) ∷ vs) =
    let rest = set_var k v vs in if str_eq j k then (j, v) ∷ vs else (j, w) ∷ rest

abbrev pub is_given : String → Vars → Bool
is_given k vs = elim (lookup k vs) [ none ↦ false | some v ↦ true ]

-- The lists of names are what the TOML holds: a list of texts, or another value.
pub data Names : Type 0 where
  names : List String → Names
  no_list : Names

pub record Spec : Type 0 where
  pub id : String
  pub description : String
  pub task_template : Text
  pub required_vars : List String
  pub optional_vars : List String

-- `all(v in vars for v in required_vars)`
unfoldable pub all_given : List String → Vars → Bool
all_given [] vars = true
all_given (v ∷ vs) vars = is_given v vars && all_given vs vars

-- `for v in self.optional_vars: filled[v] = vars.get(v, "")`
unfoldable pub fill_optional : List String → Vars → Vars → Vars
fill_optional [] vars filled = filled
fill_optional (v ∷ vs) vars filled =
    fill_optional vs vars (set_var v (coalesce (lookup v vars) []) filled)

-- `filled.update(vars)`
unfoldable pub update_vars : Vars → Vars → Vars
update_vars filled [] = filled
update_vars filled ((k, v) ∷ vars) = update_vars (set_var k v filled) vars

unfoldable pub filled_vars : Spec → Vars → Vars
unfolding fill_optional update_vars
filled_vars spec vars = update_vars (fill_optional spec.optional_vars vars []) vars

-- The rest of `\{[^}]+\}` behind the brace: `seen` says that a character stands between the braces.
abbrev pub closes : Bool → Text → Bool
closes seen [] = false
closes seen (c ∷ text) = let rest = closes true text in if c == b'}' then seen else rest

-- `re.findall(r"\$\{[^}]+\}", result)` is not empty.
abbrev pub opens_here : Text → Bool
opens_here [] = false
opens_here (c ∷ []) = false
opens_here (c ∷ d ∷ text) = c == b'$' && (d == b'{' && closes false text)

unfoldable pub has_placeholder : Text → Bool
has_placeholder [] = false
has_placeholder (c ∷ text) = opens_here (c ∷ text) || has_placeholder text

-- `none` is a KeyError or a ValueError.
abbrev pub Substitute : Type 0
Substitute = Text → Vars → Option Text

abbrev pub checked : Option Text → Result Text
checked none = raised spec_error
checked (some result) = if has_placeholder result then raised spec_error else ok result

unfoldable pub render : Substitute → Spec → Vars → Result Text
unfolding all_given filled_vars has_placeholder
render substitute spec vars =
    if all_given spec.required_vars vars
    then checked (substitute spec.task_template (filled_vars spec vars))
    else raised spec_error

abbrev pub is_no_text : Text → Bool
is_no_text [] = true
is_no_text (c ∷ text) = false

abbrev pub as_names : Names → Result (List String)
as_names (names vs) = ok vs
as_names no_list = raised spec_error

-- `validate` on the values of the fields, which gives the spec where it does not raise.
unfoldable pub validated : String → String → Text → Names → Names → Result Spec
validated id description body required optional =
    if is_empty id
    then raised spec_error
    else if is_empty description
    then raised spec_error
    else if is_no_text body
    then raised spec_error
    else (as_names required >>= λ required_vars. as_names optional >>= λ optional_vars. ok record {
      id = id;
      description = description;
      task_template = body;
      required_vars = required_vars;
      optional_vars = optional_vars;
    })
