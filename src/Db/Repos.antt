-- ===== src/Db/Repos.antt =====
-- The repo and backoff methods of `class Database` (lib/db.py).
use Prim.Native.String.{compare}
use text.Mathlib.Text.{is_le}
use claude_discord_agent.Prelude.{
  ℕ, Bool, true, false, ◌||◌, Option, none, some, String, List, [], ◌∷◌, ltb, ◌==◌, if◌then◌else◌,
  str_eq, Action, pure, raise, integrity_error,
}
use claude_discord_agent.Table.{insert_row, find, update, count, exists, delete, sort_by}
use claude_discord_agent.Db.Types.{Db, Repo, Job, Session, Time}
use claude_discord_agent.Db.Jobs.{repo_is}

abbrev pub is_named : String → Repo → Bool
is_named name r = str_eq r.name name

-- UPDATE repos SET f WHERE test
abbrev pub update_repos : (Repo → Bool) → (Repo → Repo) → Db → Db
update_repos test f db = record db {
  repos = record { rows = update test f db.repos.rows; next_id = db.repos.next_id };
}

-- The keyword arguments of `create_repo`.
pub record RepoOptions : Type 0 where
  pub aliases : List String
  pub expected_git_root : Option String
  pub model : String
  pub max_concurrency : ℕ

abbrev pub new_repo : String → String → RepoOptions → Time → ℕ → Repo
new_repo name path o now id = record {
  id = id;
  name = name;
  path = path;
  aliases = o.aliases;
  expected_git_root = o.expected_git_root;
  model = o.model;
  max_concurrency = o.max_concurrency;
  backoff_until = 0;
  backoff_count = 0;
  created_at = now;
}

-- The column `name` is UNIQUE.
unfoldable pub create_repo : String → String → RepoOptions → Time → Action Db ℕ
create_repo name path o now db =
    if exists (is_named name) db.repos.rows
    then raise integrity_error db
    else (let (id, repos) = insert_row (new_repo name path o now) db.repos in
        pure id (record db { repos = repos }))

unfoldable pub get_repo : String → Db → Option Repo
get_repo name db = find (is_named name) db.repos.rows

-- `name in names`
unfoldable pub names_contain : String → List String → Bool
names_contain name [] = false
names_contain name (n ∷ ns) = str_eq n name || names_contain name ns

abbrev pub has_alias : String → Repo → Bool
has_alias name r = names_contain name r.aliases

unfoldable pub get_repo_by_alias : String → Db → Option Repo
get_repo_by_alias name db = elim (get_repo name db) [
  | some r ↦ some r
  | none ↦ find (has_alias name) db.repos.rows
]

-- ORDER BY name
abbrev pub name_before : Repo → Repo → Bool
name_before a b = is_le (compare a.name b.name)

unfoldable pub list_repos : Db → List Repo
list_repos db = sort_by name_before db.repos.rows

-- One keyword argument of `update_repo`.
pub data RepoField : Type 0 where
  set_path set_model : String → RepoField
  set_aliases : List String → RepoField
  set_expected_git_root : Option String → RepoField
  set_max_concurrency : ℕ → RepoField

unfoldable pub set_repo_field : RepoField → Repo → Repo
set_repo_field (set_path v) r = record r { path = v }
set_repo_field (set_model v) r = record r { model = v }
set_repo_field (set_aliases v) r = record r { aliases = v }
set_repo_field (set_expected_git_root v) r = record r { expected_git_root = v }
set_repo_field (set_max_concurrency v) r = record r { max_concurrency = v }

unfoldable pub set_repo_fields : List RepoField → Repo → Repo
unfolding set_repo_field
set_repo_fields [] r = r
set_repo_fields (f ∷ fs) r = set_repo_fields fs (set_repo_field f r)

unfoldable pub update_repo : String → List RepoField → Db → Bool × Db
update_repo name [] db = elim (get_repo name db) [ none ↦ (false, db) | some r ↦ (true, db) ]
update_repo name (f ∷ fs) db = elim (get_repo name db) [
  | none ↦ (false, db)
  | some r ↦ (true, update_repos (is_named name) (set_repo_fields (f ∷ fs)) db)
]

-- The foreign keys of `sessions` and `jobs` to this repo.
abbrev pub is_referenced : ℕ → Db → Bool
is_referenced repo_id db =
    exists (λ (s : Session). s.repo_id == repo_id) db.sessions.rows
    || exists (λ (j : Job). j.repo_id == repo_id) db.jobs.rows

abbrev pub is_blocked : String → Db → Repo → Bool
is_blocked name db r = if is_named name r then is_referenced r.id db else false

unfoldable pub delete_repo : String → Action Db Bool
delete_repo name db =
    if exists (is_blocked name db) db.repos.rows
    then raise integrity_error db
    else pure (ltb 0 (count (is_named name) db.repos.rows)) (record db {
      repos = record { rows = delete (is_named name) db.repos.rows; next_id = db.repos.next_id };
    })

unfoldable pub set_backoff : ℕ → Time → ℕ → Db → Db
set_backoff repo_id until times =
    update_repos (repo_is repo_id) (λ r. record r { backoff_until = until; backoff_count = times })

unfoldable pub clear_backoff : ℕ → Db → Db
clear_backoff repo_id =
    update_repos (repo_is repo_id) (λ r. record r { backoff_until = 0; backoff_count = 0 })

-- The pair (backoff_until, backoff_count); `x or 0` is `x`.
unfoldable pub get_backoff : ℕ → Db → Time × ℕ
get_backoff repo_id db = elim (find (repo_is repo_id) db.repos.rows) [
  | none ↦ (0, 0)
  | some r ↦ (r.backoff_until, r.backoff_count)
]
