-- ===== src/Cli/Aliases.antt =====
-- `cmd_update_repo` of a name that is only an alias.
use mathlib.Core.Option
use claude_discord_agent.Prelude.{
  Option-cases, Bool-cases, inl, inr, raised, os_error, if◌then◌else◌, str_eq, subst, sym, ◌>>◌, [],
  ◌≡◌, refl, ap, ◌∙◌, none, String, List, ◌∷◌, ◌++◌, ok, Action, bind-ok, total, Bool, false, ℕ,
}
use claude_discord_agent.Db.Types.{Db, Repo}
use claude_discord_agent.Db.Repos.{
  RepoField, set_path, set_model, set_aliases, set_expected_git_root, set_max_concurrency,
  set_repo_fields, set_repo_field, is_named, update_repo, get_repo, get_repo_by_alias,
}
use claude_discord_agent.Table.Rows.{find-update}
use claude_discord_agent.Registry.Preflight.{Host}
use claude_discord_agent.Registry.Repos.{resolve}
use claude_discord_agent.Cli.Submit.{with_repo}
use claude_discord_agent.Cli.Repos.{
  UpdateArgs, cmd_update_repo, save_export, write_update, write_placed, show_updated, place_fields,
  given,
}

with_repo_found :
    (name : String) (k : Repo → Action Db ℕ) (repo : Repo) (db : Db)
    → resolve name db ≡ ok repo
    → with_repo name k db ≡ k repo db
unfolding with_repo
with_repo_found name k repo db found = rw (with_repo, found) refl

updates_nothing :
    (name : String) (f : RepoField) (fs : List RepoField) (db : Db)
    → get_repo name db ≡ none
    → update_repo name (f ∷ fs) db ≡ (false, db)
unfolding update_repo
updates_nothing name f fs db unnamed = rw (update_repo, unnamed) refl

kept_name : (fs : List RepoField) (r : Repo) → (set_repo_fields fs r).name ≡ r.name
unfolding set_repo_fields set_repo_field
kept_name [] r = refl
kept_name (set_path v ∷ fs) r = kept_name fs (record r { path = v })
kept_name (set_model v ∷ fs) r = kept_name fs (record r { model = v })
kept_name (set_aliases v ∷ fs) r = kept_name fs (record r { aliases = v })
kept_name (set_expected_git_root v ∷ fs) r = kept_name fs (record r { expected_git_root = v })
kept_name (set_max_concurrency v ∷ fs) r = kept_name fs (record r { max_concurrency = v })

-- A name that stands for a repo still does after an update under that name.
still_resolves :
    (name : String) (f : RepoField) (fs : List RepoField) (repo : Repo) (db : Db)
    → resolve name db ≡ ok repo
    → (r : Repo) × (resolve name (update_repo name (f ∷ fs) db).1 ≡ ok r)
unfolding update_repo resolve get_repo_by_alias get_repo
still_resolves name f fs repo db found = elim (Option-cases (get_repo name db)) [
  | inl e ↦ (
    repo,
    subst (λ (p : Bool × Db). resolve name p.1 ≡ ok repo) (sym (updates_nothing name f fs db e))
        found,
  )
  | inr (r, e) ↦
      let set = set_repo_fields (f ∷ fs) in
      let after =
        find-update (is_named name) (is_named name) set db.repos.rows
          (λ x. ap (λ n. str_eq n name) (kept_name (f ∷ fs) x))
        ∙ ap (Option.map (λ (x : Repo). if is_named name x then set x else x)) e in
      (if is_named name r then set r else r, rw (update_repo, e, resolve, after) refl)
]

-- What `update-repo` does once there is something to set.
pub write_update_lem :
    (h : Host) (name : String) (f : RepoField) (fs : List RepoField) (repo : Repo) (db : Db)
    → resolve name db ≡ ok repo
    → write_update h name (f ∷ fs) db
      ≡ (if h.saves_export then ok 0 else raised os_error, (update_repo name (f ∷ fs) db).1)
unfolding write_update show_updated save_export
write_update_lem h name f fs repo db found =
    let (b, db') = update_repo name (f ∷ fs) db in
    let (r, shown) = still_resolves name f fs repo db found in
    bind-ok (total (update_repo name (f ∷ fs))) db db' b (λ _. save_export h >> show_updated name)
      refl
    ∙ elim (Bool-cases h.saves_export) [
      | inl t ↦ rw (save_export, t, show_updated, shown) refl
      | inr t ↦ rw (save_export, t) refl
    ]

write_by_alias :
    (h : Host) (name : String) (f : RepoField) (fs : List RepoField) (repo : Repo) (db : Db)
    → get_repo name db ≡ none
    → resolve name db ≡ ok repo
    → write_update h name (f ∷ fs) db ≡ (if h.saves_export then ok 0 else raised os_error, db)
write_by_alias h name f fs repo db unnamed found =
    write_update_lem h name f fs repo db found
    ∙ ap (λ (p : Bool × Db). (if h.saves_export then ok 0 else raised os_error, p.1))
        (updates_nothing name f fs db unnamed)

-- `update-repo` of an alias, where the checks pass and something is to be set, changes nothing, and
-- ends with exit code 0 unless repos.json cannot be written.
pub cmd_update_repo-alias :
    (h : Host) (args : UpdateArgs) (fields fs : List RepoField) (f : RepoField) (repo : Repo)
    (db : Db)
    → get_repo args.name db ≡ none
    → resolve args.name db ≡ ok repo
    → place_fields h args ≡ ok fields
    → fields ++ (given set_model args.model ++ given set_max_concurrency args.max_concurrency)
      ≡ f ∷ fs
    → cmd_update_repo h args db ≡ (if h.saves_export then ok 0 else raised os_error, db)
unfolding cmd_update_repo write_placed
cmd_update_repo-alias h args fields fs f repo db unnamed found placed listed =
    with_repo_found args.name (λ r. write_placed h args (place_fields h args)) repo db found
    ∙ (ap (λ p. write_placed h args p db) placed
        ∙ (ap (λ l. write_update h args.name l db) listed
            ∙ write_by_alias h args.name f fs repo db unnamed found))
