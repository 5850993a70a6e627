-- ===== src/Registry/Repos.antt =====
-- `register`, `resolve`, `unregister` and `validate` of `class Registry`.
use claude_discord_agent.Prelude.{
  ℕ, Bool, true, false, Option, none, some, String, List, Result, ok, raised, registry_error,
  Action, pure, raise, ◌>>=◌,
}
use claude_discord_agent.Db.Types.{Db, Repo, Time}
use claude_discord_agent.Db.Repos.{
  create_repo, get_repo, get_repo_by_alias, delete_repo, list_repos,
}
use claude_discord_agent.Registry.Preflight.{Host, Preflight, preflight_check}

-- The arguments of `register` behind its `*`.
pub record RegisterOptions : Type 0 where
  pub aliases : List String
  pub model : String
  pub max_concurrency : ℕ
  pub skip_preflight : Bool

-- What `register` returns.
pub record Registered : Type 0 where
  pub id : ℕ
  pub path : String
  pub git_root : Option String

-- A call that reads no state, among those that do.
abbrev pub lift : {A : Type 0} → Result A → Action Db A
lift r db = (r, db)

unfoldable pub resolve : String → Db → Result Repo
resolve name_or_alias db = elim (get_repo_by_alias name_or_alias db) [
  | none ↦ raised registry_error
  | some repo ↦ ok repo
]

unfoldable pub unregister : String → Action Db Bool
unregister name = delete_repo name

unfoldable pub list_all : Db → List Repo
list_all db = list_repos db

module _ (h : Host) where
  abbrev pub git_root_of : String → Bool → Result (Option String)
  git_root_of resolved true = ok none
  git_root_of resolved false = elim (preflight_check h resolved none) [
    | raised e ↦ raised e
    | ok check ↦ ok (some check.git_root)
  ]

  unfoldable pub insert_registered :
      String → String → RegisterOptions → Time → Option String → Action Db Registered
  insert_registered name resolved o now git_root = do
    repo_id ←
        create_repo name resolved
          record {
            aliases = o.aliases;
            expected_git_root = git_root;
            model = o.model;
            max_concurrency = o.max_concurrency;
          }
          now
    pure record { id = repo_id; path = resolved; git_root = git_root }

  -- The rest once the name is free.
  unfoldable pub register_new : String → String → RegisterOptions → Time → Action Db Registered
  unfolding insert_registered
  register_new name resolved o now =
      lift (git_root_of resolved o.skip_preflight) >>= insert_registered name resolved o now

  unfoldable pub register : String → String → RegisterOptions → Time → Action Db Registered
  unfolding register_new
  register name path o now db = elim (get_repo name db) [
    | some existing ↦ raise registry_error db
    | none ↦ register_new name (h.resolve_path path) o now db
  ]

  unfoldable pub validate : String → Db → Result Preflight
  unfolding resolve
  validate name db = elim (resolve name db) [
    | raised e ↦ raised e
    | ok repo ↦ preflight_check h repo.path repo.expected_git_root
  ]
