-- ===== src/Registry/Exchange.antt =====
-- `export_json` and `import_json` of `class Registry`: the dict that is written and read.
use claude_discord_agent.Prelude.{
  ℕ, ◌+◌, Option, none, some, String, List, [], ◌∷◌, map, coalesce, registry_error, key_error,
  Action, pure, raise, ◌>>=◌, ◌>>◌,
}
use claude_discord_agent.Db.Types.{Db, Repo, Time}
use claude_discord_agent.Db.Repos.{RepoOptions, create_repo, get_repo}
use claude_discord_agent.Registry.Repos.{list_all}

-- One value of the dict; `none` is a missing key.
pub record RepoInfo : Type 0 where
  pub path : Option String
  pub aliases : Option (List String)
  pub model : Option String
  pub max_concurrency : Option ℕ
  pub expected_git_root : Option String

abbrev pub repo_info : Repo → RepoInfo
repo_info r = record {
  path = some r.path;
  aliases = some r.aliases;
  model = some r.model;
  max_concurrency = some r.max_concurrency;
  expected_git_root = r.expected_git_root;
}

-- `data[r["name"]] = {…}`
abbrev pub entry_of : Repo → String × RepoInfo
entry_of r = (r.name, repo_info r)

unfoldable pub export_json : Db → List (String × RepoInfo)
unfolding list_all
export_json db = map entry_of (list_all db)

abbrev pub imported_options : RepoInfo → RepoOptions
imported_options info = record {
  aliases = coalesce info.aliases [];
  expected_git_root = info.expected_git_root;
  model = coalesce info.model "sonnet";
  max_concurrency = coalesce info.max_concurrency 1;
}

-- `info["path"]` of an entry that has none raises.
unfoldable pub import_entry : String → RepoInfo → Time → Action Db ℕ
import_entry name info now = elim info.path [
  | none ↦ raise key_error
  | some path ↦ create_repo name path (imported_options info) now
]

-- The loop over the entries: the number of repos made. `clock` is read once for each name.
unfoldable pub import_entries : (String → Time) → List (String × RepoInfo) → Action Db ℕ
unfolding import_entry
import_entries clock [] = pure 0
import_entries clock ((name, info) ∷ entries) =
    let rest = import_entries clock entries in
    λ db. elim (get_repo name db) [
      | some existing ↦ rest db
      | none ↦ (import_entry name info (clock name) >> (rest >>= λ count. pure (count + 1))) db
    ]

-- The file at the path that is chosen, or `none` if there is no file.
unfoldable pub import_json : (String → Time) → Option (List (String × RepoInfo)) → Action Db ℕ
unfolding import_entries
import_json clock none = raise registry_error
import_json clock (some entries) = import_entries clock entries
