-- ===== src/Registry/Roundtrip.antt =====
-- Export and import of the repos, and a repo looked up after its registration.
use mathlib.Core.List.{append_assoc, append-nil}
use claude_discord_agent.Prelude.{
  ◌+◌, ◌≤◌, ◌≡◌, refl, sym, ap, ◌∙◌, Bool, false, none, some, String, List, [], ◌∷◌, ◌++◌, map,
  eq_iff, arith, length, if◌then◌else◌, ok, bind-ok, pure, ◌>>=◌,
}
use claude_discord_agent.Table.{count, exists, find, sort_by, insert_by, insert_row}
use claude_discord_agent.Table.Rows.{count-append_one}
use claude_discord_agent.Db.Types.{Db, Repo, Time, new_db}
use claude_discord_agent.Db.Repos.{
  create_repo, new_repo, get_repo, is_named, list_repos, name_before,
}
use claude_discord_agent.Registry.Repos.{list_all}
use claude_discord_agent.Steps.Invariant.{IsConsistent}
use claude_discord_agent.Registry.Exchange.{
  entry_of, export_json, import_entries, import_entry, import_json, imported_options, repo_info,
}

module _ {A : Type 0} where
  find_of_count_zero : (q : A → Bool) (rs : List A) → count q rs ≡ 0 → find q rs ≡ none
  unfolding count find
  find_of_count_zero q [] h = refl
  find_of_count_zero q (x ∷ rs) h = ground (arith, find_of_count_zero q rs)

  exists_of_count_zero : (q : A → Bool) (rs : List A) → count q rs ≡ 0 → exists q rs ≡ false
  unfolding count exists
  exists_of_count_zero q [] h = refl
  exists_of_count_zero q (x ∷ rs) h = ground (arith, exists_of_count_zero q rs)

  count-insert_by :
      (le : A → A → Bool) (q : A → Bool) (x : A) (xs : List A)
      → count q (insert_by le x xs) ≡ (if q x then 1 else 0) + count q xs
  unfolding count insert_by
  count-insert_by le q x [] = refl
  count-insert_by le q x (y ∷ ys) = ground (arith, count-insert_by le q x ys)

  count-sort_by :
      (le : A → A → Bool) (q : A → Bool) (xs : List A) → count q (sort_by le xs) ≡ count q xs
  unfolding count sort_by
  count-sort_by le q [] = refl
  count-sort_by le q (x ∷ xs) =
      omega (arith, count-insert_by le q x (sort_by le xs), count-sort_by le q xs)

map-append : {A B : Type 0} (f : A → B) (xs ys : List A) → map f (xs ++ ys) ≡ map f xs ++ map f ys
map-append f [] ys = refl
map-append f (x ∷ xs) ys = ap (λ l. f x ∷ l) (map-append f xs ys)

-- Every name is free for the repos that are still to be made.
abbrev AreFree : List Repo → Db → Type 0
AreFree rs db = (n : String) → count (is_named n) db.repos.rows + count (is_named n) rs ≤ 1

-- The database once the repo of an entry is made anew.
abbrev remade : Repo → Time → Db → Db
remade r now db = record db {
  repos = (insert_row (new_repo r.name r.path (imported_options (repo_info r)) now) db.repos).1;
}

head_free :
    (r : Repo) (rs : List Repo) (db : Db)
    → AreFree (r ∷ rs) db
    → count (is_named r.name) db.repos.rows ≡ 0
unfolding count
head_free r rs db free = ground (arith, (eq_iff r.name r.name).1 refl, free r.name)

rest_free :
    (r : Repo) (rs : List Repo) (now : Time) (db : Db)
    → AreFree (r ∷ rs) db
    → AreFree rs (remade r now db)
unfolding count
rest_free r rs now db free n = ground (
  arith,
  count-append_one (is_named n) db.repos.rows
      (new_repo r.name r.path (imported_options (repo_info r)) now db.repos.next_id),
  free n,
)

create_free :
    (r : Repo) (now : Time) (db : Db)
    → count (is_named r.name) db.repos.rows ≡ 0
    → create_repo r.name r.path (imported_options (repo_info r)) now db
      ≡ (ok db.repos.next_id, remade r now db)
unfolding create_repo
create_free r now db zero =
    rw (create_repo, exists_of_count_zero (is_named r.name) db.repos.rows zero) refl

module _ (clock : String → Time) where
  import_step :
      (r : Repo) (rs : List Repo) (db : Db)
      → count (is_named r.name) db.repos.rows ≡ 0
      → import_entries clock (map entry_of (r ∷ rs)) db
        ≡ (import_entries clock (map entry_of rs) >>= λ n. pure (n + 1))
            (remade r (clock r.name) db)
  unfolding import_entries import_entry get_repo
  import_step r rs db zero =
      rw (import_entries, find_of_count_zero (is_named r.name) db.repos.rows zero)
        (bind-ok (import_entry r.name (repo_info r) (clock r.name)) db (remade r (clock r.name) db)
          db.repos.next_id (λ _. import_entries clock (map entry_of rs) >>= λ n. pure (n + 1))
          (create_free r (clock r.name) db zero))

  -- Entries with names that are free and differ from each other are all imported, in their order.
  import_entries_lem :
      (rs : List Repo) (db : Db)
      → AreFree rs db
      → (db' : Db) × (import_entries clock (map entry_of rs) db ≡ (ok (length rs), db'))
        × (map entry_of db'.repos.rows ≡ map entry_of db.repos.rows ++ map entry_of rs)
  unfolding import_entries
  import_entries_lem [] db free = (db, refl, sym (append-nil (map entry_of db.repos.rows)))
  import_entries_lem (r ∷ rs) db free =
      let zero = head_free r rs db free in
      let made = remade r (clock r.name) db in
      let (db', e, same) = import_entries_lem rs made (rest_free r rs (clock r.name) db free) in
      (
        db',
        import_step r rs db zero
            ∙ (bind-ok (import_entries clock (map entry_of rs)) made db' (length rs)
                  (λ n. pure (n + 1)) e
                ∙ ap (λ n. (ok n, db')) (omega arith)),
        same
            ∙ (ap (λ l. l ++ map entry_of rs)
                  (map-append entry_of db.repos.rows (
                    new_repo r.name r.path (imported_options (repo_info r)) (clock r.name)
                      db.repos.next_id
                    ∷ []))
                ∙ append_assoc (map entry_of db.repos.rows) (entry_of r ∷ []) (map entry_of rs)),
      )

  -- What a consistent database exports, an empty one imports: every entry becomes a repo.
  pub import_json-export_json :
      (db : Db)
      → IsConsistent db
      → ((import_json clock (some (export_json db)) new_db).0 ≡ ok (length (list_all db)))
        × (map entry_of (import_json clock (some (export_json db)) new_db).1.repos.rows
            ≡ export_json db)
  unfolding import_json export_json list_all list_repos count
  import_json-export_json db whole =
      let sorted = sort_by name_before db.repos.rows in
      let free : AreFree sorted new_db = λ n.
        omega
          (arith, count-sort_by name_before (is_named n) db.repos.rows, whole.repo_part.named n) in
      let (db', e, same) = import_entries_lem sorted new_db free in rw e (refl, same)
