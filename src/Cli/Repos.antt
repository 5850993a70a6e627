-- ===== src/Cli/Repos.antt =====
-- `cmd_create_repo` and `cmd_update_repo`.
use claude_discord_agent.Prelude.{
  ℕ, Bool, Option, none, some, String, List, [], ◌∷◌, ◌++◌, if◌then◌else◌, Result, ok, raised,
  Error, Action, os_error, pure, raise, total, ◌>>◌,
}
use claude_discord_agent.Db.Types.{Db, Time}
use claude_discord_agent.Db.Repos.{
  RepoField, set_path, set_expected_git_root, set_model, set_max_concurrency, update_repo,
}
use claude_discord_agent.Registry.Preflight.{Host, preflight_check, is_registry_error}
use claude_discord_agent.Registry.Repos.{RegisterOptions, register, resolve}
use claude_discord_agent.Cli.Submit.{with_repo}

pub record UpdateArgs : Type 0 where
  pub name : String
  pub path : Option String
  pub expected_git_root : Option String
  pub model : Option String
  pub max_concurrency : Option ℕ
  pub skip_preflight : Bool

-- A keyword argument that is there where a value is given.
abbrev pub given : {A : Type 0} → (A → RepoField) → Option A → List RepoField
given make none = []
given make (some v) = make v ∷ []

-- The lookup once the repo is changed; a `RegistryError` is not caught here.
unfoldable pub show_updated : String → Action Db ℕ
show_updated name db = elim (resolve name db) [ ok repo ↦ pure 0 db | raised e ↦ raise e db ]

-- `registry.export_json()`: it reads the database, and an `OSError` of its file is not caught here.
unfoldable pub save_export : Host → Action Db (Unit {0})
save_export h = if h.saves_export then pure tt else raise os_error

unfoldable pub write_update : Host → String → List RepoField → Action Db ℕ
unfolding show_updated save_export
write_update h name [] = pure 1
write_update h name (f ∷ fs) =
    total (update_repo name (f ∷ fs)) >> (save_export h >> show_updated name)

-- `except RegistryError: return 1`
abbrev pub registry_exit : Error → Action Db ℕ
registry_exit e = if is_registry_error e then pure 1 else raise e

-- The rest once the fields of the place are known.
unfoldable pub write_placed : Host → UpdateArgs → Result (List RepoField) → Action Db ℕ
unfolding write_update
write_placed h args (raised e) = registry_exit e
write_placed h args (ok fields) =
    write_update h args.name
      (fields ++ (given set_model args.model ++ given set_max_concurrency args.max_concurrency))

module _ (h : Host) where
  unfoldable pub cmd_create_repo : String → String → RegisterOptions → Time → Action Db ℕ
  unfolding save_export
  cmd_create_repo name path o now db =
      let (r, db') = register h name path o now db in
      elim r [ ok registered ↦ (save_export h >> pure 0) db' | raised e ↦ registry_exit e db' ]

  -- What `--expected-git-root` sets, else what the check has found.
  abbrev pub root_fields : Option String → Option String → List RepoField
  root_fields (some root) found = set_expected_git_root (some (h.resolve_path root)) ∷ []
  root_fields none none = []
  root_fields none (some root) = set_expected_git_root (some root) ∷ []

  -- The fields of a new path; `--expected-git-root` is read only beside one.
  unfoldable pub path_fields : UpdateArgs → String → Result (List RepoField)
  path_fields args path =
      let resolved = h.resolve_path path in
      if args.skip_preflight
      then ok (set_path resolved ∷ root_fields args.expected_git_root none)
      else elim (preflight_check h resolved none) [
        | raised e ↦ raised e
        | ok check ↦
            ok (set_path resolved ∷ root_fields args.expected_git_root (some check.git_root))
      ]

  unfoldable pub place_fields : UpdateArgs → Result (List RepoField)
  unfolding path_fields
  place_fields args = elim args.path [ none ↦ ok [] | some path ↦ path_fields args path ]

  unfoldable pub cmd_update_repo : UpdateArgs → Action Db ℕ
  unfolding place_fields write_placed with_repo
  cmd_update_repo args = with_repo args.name (λ repo. write_placed h args (place_fields args))
