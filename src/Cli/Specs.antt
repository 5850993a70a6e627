-- ===== src/Cli/Specs.antt =====
-- `cmd_run_spec`.
use Prim.Native.Char.{code}
use claude_discord_agent.Prelude.{
  ℕ, Option, none, some, String, List, [], ◌∷◌, ◌++◌, Text, codes, ◌==◌, if◌then◌else◌, Result, ok,
  raised, Error, spec_error, Action, pure, raise,
}
use claude_discord_agent.Prelude.Int.{ℤ}
use claude_discord_agent.Db.Types.{Db, Time}
use claude_discord_agent.Timeparse.{TimeLib}
use claude_discord_agent.Spec.Render.{Vars, is_given, Spec, Substitute, render}
use claude_discord_agent.Spec.Load.{SpecHost, load_spec}
use claude_discord_agent.Cli.Submit.{with_repo, submit, schedule, chat_of}

-- `kv.split("=", 1)`, or `none` where there is no `=`.
abbrev pub split_pair : String → Option (String × String)
split_pair String.[] = none
split_pair (String.◌∷◌ c s) =
    let rest = split_pair s in
    if code c == b'='
    then some (String.[], s)
    else elim rest [ none ↦ none | some p ↦ some (String.◌∷◌ c p.0, p.1) ]

abbrev pub add_pair : Vars → Option (String × String) → Option Vars
add_pair vars none = none
add_pair vars (some (k, v)) = if is_given k vars then none else some (vars ++ (k, codes v) ∷ [])

-- The loop over `--var`: `none` for a pair without `=` or a key that is given twice.
unfoldable pub parse_pairs : List String → Vars → Option Vars
parse_pairs [] vars = some vars
parse_pairs (kv ∷ kvs) vars = elim (add_pair vars (split_pair kv)) [
  | none ↦ none
  | some vars' ↦ parse_pairs kvs vars'
]

pub record RunSpecArgs : Type 0 where
  pub spec_id : String
  pub repo : String
  pub pairs : List String
  pub priority : ℤ
  pub notify_chat_id : Option String
  pub enqueue_at : Option String

-- `string.Template.substitute`, and a text from its code points.
pub record SpecLib : Type 0 where
  pub host : SpecHost
  pub substitute : Substitute
  pub from_codes : Text → String

-- `except SpecError: return 1`
abbrev pub spec_exit : Error → Action Db ℕ
spec_exit spec_error = pure 1
spec_exit e = raise e

module _ (specs : SpecLib) (lib : TimeLib) where
  -- The rest once the task is rendered.
  abbrev pub submit_rendered : Option String → RunSpecArgs → Time → Time → Result Text → Action Db ℕ
  submit_rendered from_env args now now' (raised e) = spec_exit e
  submit_rendered from_env args now now' (ok task) = with_repo args.repo (λ repo.
      submit lib (schedule lib args.enqueue_at now) repo (specs.from_codes task) args.priority
        (chat_of args.notify_chat_id from_env) now')

  abbrev pub render_loaded :
      Option String → RunSpecArgs → Time → Time → Vars → Result Spec → Action Db ℕ
  render_loaded from_env args now now' vars (raised e) = spec_exit e
  render_loaded from_env args now now' vars (ok spec) =
      submit_rendered from_env args now now' (render specs.substitute spec vars)

  abbrev pub run_with :
      Option String → RunSpecArgs → List String → Time → Time → Option Vars → Action Db ℕ
  run_with from_env args dirs now now' none = pure 1
  run_with from_env args dirs now now' (some vars) =
      render_loaded from_env args now now' vars (load_spec specs.host args.spec_id dirs)

  -- `dirs` are the directories that `--spec-dir` or the package name.
  unfoldable pub cmd_run_spec :
      Option String → RunSpecArgs → List String → Time → Time → Action Db ℕ
  unfolding with_repo submit schedule render load_spec parse_pairs
  cmd_run_spec from_env args dirs now now' =
      run_with from_env args dirs now now' (parse_pairs args.pairs [])
