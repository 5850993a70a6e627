-- ===== src/Registry/Registration.antt =====
-- A registration and the lookup after it.
use claude_discord_agent.Prelude.{
  ℕ, ◌≡◌, refl, ap, ◌∙◌, Bool, Option, none, some, String, eq_iff, ok, raised, registry_error,
  bind-ok, bind-raised, Option-cases, inl, inr, pure, List, [], ◌∷◌, arith, false, Error,
}
use claude_discord_agent.Prelude.Returns.{Result-cases}
use claude_discord_agent.Table.{find, exists, insert_row}
use claude_discord_agent.Table.Rows.{find-append}
use claude_discord_agent.Db.Types.{Db, Repo, Time}
use claude_discord_agent.Db.Repos.{
  RepoOptions, create_repo, new_repo, get_repo, get_repo_by_alias, is_named,
}
use claude_discord_agent.Registry.Preflight.{Host}
use claude_discord_agent.Registry.Repos.{
  RegisterOptions, register, register_new, resolve, git_root_of, lift, insert_registered,
}

exists_of_find-none :
    {A : Type 0} (q : A → Bool) (rs : List A) → find q rs ≡ none → exists q rs ≡ false
unfolding find exists
exists_of_find-none q [] h = refl
exists_of_find-none q (x ∷ rs) h = ground (arith, exists_of_find-none q rs)

module _ (h : Host) (name path : String) (o : RegisterOptions) (now : Time) where
  -- The columns of the repo that a registration makes.
  abbrev pub registered_options : Option String → RepoOptions
  registered_options git_root = record {
    aliases = o.aliases;
    expected_git_root = git_root;
    model = o.model;
    max_concurrency = o.max_concurrency;
  }

  abbrev pub registered_repo : Option String → ℕ → Repo
  registered_repo git_root = new_repo name (h.resolve_path path) (registered_options git_root) now

  -- A free name is registered if the checks pass.
  abbrev with_registered : Option String → Db → Db
  with_registered git_root db = record db {
    repos = (insert_row (registered_repo git_root) db.repos).1;
  }

  create_free :
      (git_root : Option String) (db : Db)
      → get_repo name db ≡ none
      → create_repo name (h.resolve_path path) (registered_options git_root) now db
        ≡ (ok db.repos.next_id, with_registered git_root db)
  unfolding create_repo get_repo
  create_free git_root db free =
      rw (create_repo, exists_of_find-none (is_named name) db.repos.rows free) refl

  resolve_made :
      (git_root : Option String) (db : Db)
      → get_repo name db ≡ none
      → resolve name (with_registered git_root db) ≡ ok (registered_repo git_root db.repos.next_id)
  unfolding resolve get_repo_by_alias get_repo
  resolve_made git_root db free =
      rw
        (
          resolve,
          get_repo_by_alias,
          get_repo,
          find-append (is_named name) db.repos.rows (registered_repo git_root db.repos.next_id),
          free,
          (eq_iff name name).1 refl,
        )
        refl

  returned :
      (git_root : Option String) (db : Db)
      → get_repo name db ≡ none
      → git_root_of h (h.resolve_path path) o.skip_preflight ≡ ok git_root
      → register h name path o now db ≡ (
        ok record { id = db.repos.next_id; path = h.resolve_path path; git_root = git_root },
        with_registered git_root db,
      )
  unfolding register register_new insert_registered
  returned git_root db free passed =
      rw (register, free)
        (bind-ok (lift (git_root_of h (h.resolve_path path) o.skip_preflight)) db db git_root
            (insert_registered h name (h.resolve_path path) o now) (ap (λ r. (r, db)) passed)
          ∙ bind-ok (create_repo name (h.resolve_path path) (registered_options git_root) now) db
              (with_registered git_root db) db.repos.next_id
              (λ id. pure record { id = id; path = h.resolve_path path; git_root = git_root })
              (create_free git_root db free))

  -- How a registration may end.
  pub data Registration (db : Db) : Type 0 where
    refused_taken :
        (existing : Repo)
        → get_repo name db ≡ some existing
        → register h name path o now db ≡ (raised registry_error, db)
        → Registration db
    refused_check :
        (e : Error)
        → get_repo name db ≡ none
        → git_root_of h (h.resolve_path path) o.skip_preflight ≡ raised e
        → register h name path o now db ≡ (raised e, db)
        → Registration db
    done :
        (git_root : Option String)
        → get_repo name db ≡ none
        → git_root_of h (h.resolve_path path) o.skip_preflight ≡ ok git_root
        → (register h name path o now db).0
          ≡ ok record { id = db.repos.next_id; path = h.resolve_path path; git_root = git_root }
        → resolve name (register h name path o now db).1
          ≡ ok (registered_repo git_root db.repos.next_id)
        → Registration db

  -- `register` raises and changes nothing where the name is taken or a check of the path fails, and
  -- otherwise makes the repo that its name then stands for, with the settings given.
  pub register_lem : (db : Db) → Registration db
  unfolding register register_new
  register_lem db = elim (Option-cases (get_repo name db)) [
    | inr (existing, taken) ↦ refused_taken existing taken (rw (register, taken) refl)
    | inl free ↦ elim (Result-cases (git_root_of h (h.resolve_path path) o.skip_preflight)) [
      | inr (e, failed) ↦ refused_check e free failed (
          rw (register, free)
            (bind-raised (lift (git_root_of h (h.resolve_path path) o.skip_preflight)) db db e
              (insert_registered h name (h.resolve_path path) o now) (ap (λ r. (r, db)) failed)))
      | inl (git_root, passed) ↦
          done git_root free passed (rw (returned git_root db free passed) refl)
            (rw (returned git_root db free passed) (resolve_made git_root db free))
    ]
  ]
