-- ===== src/Steps/Keep/Repos.antt =====
-- The invariant under the steps that write to the repos (lib/db.py).
use claude_discord_agent.Prelude.{
  ℕ, ◌≤◌, ◌≡◌, refl, Bool, true, false, not, String, List, [], ◌∷◌, ◌++◌, arith, ◌==◌, All, All-map,
  All-map₂, ==_iff, Bool-cases, Option-cases, inl, inr, str_eq, eq_iff, ==_refl,
}
use claude_discord_agent.Table.{update, count, exists, delete}
use claude_discord_agent.Table.Rows.{
  count-update, count-append_one, exists-update, exists-append_left,
}
use claude_discord_agent.Table.Keys.{
  insert_row-IsKeyed, update-IsKeyed, delete-IsKeyed, count-select-le, count-zero_of_not-exists,
}
use claude_discord_agent.Table.Delete.{exists-delete, All-of_not-exists, All-exists}
use claude_discord_agent.Db.Types.{Db, Repo, Session, Job, Time}
use claude_discord_agent.Db.Jobs.{repo_is}
use claude_discord_agent.Db.Repos.{
  RepoOptions, RepoField, set_path, set_model, set_aliases, set_expected_git_root,
  set_max_concurrency, is_named, new_repo, update_repos, create_repo, get_repo, set_repo_fields,
  update_repo, is_referenced, is_blocked, delete_repo, set_backoff, clear_backoff,
}
use claude_discord_agent.Steps.Invariant.{IsConsistent}
use claude_discord_agent.Steps.Change.{change_repos}

set_repo_fields-id : (fs : List RepoField) (r : Repo) → (set_repo_fields fs r).id ≡ r.id
unfolding set_repo_fields
set_repo_fields-id [] r = refl
set_repo_fields-id (set_path v ∷ fs) r = set_repo_fields-id fs _
set_repo_fields-id (set_model v ∷ fs) r = set_repo_fields-id fs _
set_repo_fields-id (set_aliases v ∷ fs) r = set_repo_fields-id fs _
set_repo_fields-id (set_expected_git_root v ∷ fs) r = set_repo_fields-id fs _
set_repo_fields-id (set_max_concurrency v ∷ fs) r = set_repo_fields-id fs _

set_repo_fields-name : (fs : List RepoField) (r : Repo) → (set_repo_fields fs r).name ≡ r.name
unfolding set_repo_fields
set_repo_fields-name [] r = refl
set_repo_fields-name (set_path v ∷ fs) r = set_repo_fields-name fs _
set_repo_fields-name (set_model v ∷ fs) r = set_repo_fields-name fs _
set_repo_fields-name (set_aliases v ∷ fs) r = set_repo_fields-name fs _
set_repo_fields-name (set_expected_git_root v ∷ fs) r = set_repo_fields-name fs _
set_repo_fields-name (set_max_concurrency v ∷ fs) r = set_repo_fields-name fs _

-- A repo to which something refers is not one that `delete_repo` deletes.
spared :
    (name : String) (db : Db)
    → exists (is_blocked name db) db.repos.rows ≡ false
    → (i : ℕ) → is_referenced i db ≡ true
    → All (λ r. repo_is i r ≡ true → is_named name r ≡ false) db.repos.rows
spared name db free i used =
    All-map (λ r. is_blocked name db r ≡ false) (λ r. repo_is i r ≡ true → is_named name r ≡ false)
      db.repos.rows (λ r f p. spare r f p)
      (All-of_not-exists (is_blocked name db) db.repos.rows free)
  where
    spare : (r : Repo) → is_blocked name db r ≡ false → repo_is i r ≡ true → is_named name r ≡ false
    spare r f p =
        let same : r.id ≡ i = (==_iff r.id i).0 p in
        elim (Bool-cases (is_named name r)) [
          | inr n ↦ n
          | inl n ↦ absurd (cc (rw (n, same, used) at f))
        ]

module _ (db : Db) (h : IsConsistent db) where
  keep_update :
      (test : Repo → Bool) (f : Repo → Repo)
      → ((r : Repo) → (f r).id ≡ r.id)
      → ((r : Repo) → (f r).name ≡ r.name)
      → IsConsistent (update_repos test f db)
  keep_update test f same same_name =
      change_repos db h (record { rows = update test f db.repos.rows; next_id = db.repos.next_id })
        (record {
          keyed = update-IsKeyed (λ (r : Repo). r.id) test f db.repos same h.repo_part.keyed;
          named = λ name. omega (
            arith,
            count-update test (is_named name) f db.repos.rows (λ r. rw (same_name r)),
            h.repo_part.named name,
          );
        })
        (All-map (λ (s : Session). exists (repo_is s.repo_id) db.repos.rows ≡ true) _
          db.sessions.rows
          (λ s p. rw (exists-update test (repo_is s.repo_id) f db.repos.rows (λ r. rw (same r))) p)
          h.session_part.of_repo)
        (All-map (λ (j : Job). exists (repo_is j.repo_id) db.repos.rows ≡ true) _ db.jobs.rows
          (λ j p. rw (exists-update test (repo_is j.repo_id) f db.repos.rows (λ r. rw (same r))) p)
          h.job_part.of_repo)

  pub keep_set_backoff :
      (i : ℕ) (until : Time) (times : ℕ) → IsConsistent (set_backoff i until times db)
  unfolding set_backoff
  keep_set_backoff i until times = keep_update _ _ (λ r. refl) (λ r. refl)

  pub keep_clear_backoff : (i : ℕ) → IsConsistent (clear_backoff i db)
  unfolding clear_backoff
  keep_clear_backoff i = keep_update _ _ (λ r. refl) (λ r. refl)

  pub keep_update_repo :
      (name : String) (fs : List RepoField) → IsConsistent (update_repo name fs db).1
  unfolding update_repo
  keep_update_repo name [] = elim (Option-cases (get_repo name db)) [
    | inl e ↦ rw (e, update_repo) h
    | inr (r, e) ↦ rw (e, update_repo) h
  ]
  keep_update_repo name (f ∷ fs) = elim (Option-cases (get_repo name db)) [
    | inl e ↦ rw (e, update_repo) h
    | inr (r, e) ↦
        rw (e, update_repo)
          (keep_update (is_named name) (set_repo_fields (f ∷ fs)) (set_repo_fields-id (f ∷ fs))
            (set_repo_fields-name (f ∷ fs)))
  ]

  -- The new name was not there.
  one_name :
      (name : String) (r : Repo)
      → exists (is_named r.name) db.repos.rows ≡ false
      → count (is_named name) (db.repos.rows ++ r ∷ []) ≤ 1
  one_name name r absent = elim (Bool-cases (str_eq r.name name)) [
    | inl e ↦
        let same : r.name ≡ name = (eq_iff r.name name).0 e in
        let none_named : count (is_named name) db.repos.rows ≡ 0 =
          rw same at (count-zero_of_not-exists (is_named r.name) db.repos.rows absent) in
        rw (count-append_one (is_named name) db.repos.rows r, e) (omega (arith, none_named))
    | inr e ↦
        rw (count-append_one (is_named name) db.repos.rows r, e)
          (omega (arith, h.repo_part.named name))
  ]

  pub keep_create_repo :
      (name path : String) (o : RepoOptions) (now : Time)
      → IsConsistent (create_repo name path o now db).1
  unfolding create_repo
  keep_create_repo name path o now =
      let r = new_repo name path o now db.repos.next_id in
      elim (Bool-cases (exists (is_named name) db.repos.rows)) [
        | inl e ↦ rw (e, create_repo) h
        | inr e ↦
            rw (e, create_repo)
              (change_repos db h _
                (record {
                  keyed =
                      insert_row-IsKeyed (λ (r : Repo). r.id) (new_repo name path o now) db.repos
                        (λ i. refl) h.repo_part.keyed;
                  named = λ n. one_name n (new_repo name path o now db.repos.next_id) e;
                })
                (All-map (λ (s : Session). exists (repo_is s.repo_id) db.repos.rows ≡ true) _
                  db.sessions.rows (λ s p. exists-append_left (repo_is s.repo_id) db.repos.rows _ p)
                  h.session_part.of_repo)
                (All-map (λ (j : Job). exists (repo_is j.repo_id) db.repos.rows ≡ true) _
                  db.jobs.rows (λ j p. exists-append_left (repo_is j.repo_id) db.repos.rows _ p)
                  h.job_part.of_repo))
      ]

  named_left : (name n : String) → count (is_named n) (delete (is_named name) db.repos.rows) ≤ 1
  unfolding delete
  named_left name n = omega (
    arith,
    count-select-le (is_named n) (λ r. not (is_named name r)) db.repos.rows,
    h.repo_part.named n,
  )

  stays :
      (name : String)
      → exists (is_blocked name db) db.repos.rows ≡ false
      → (i : ℕ) → is_referenced i db ≡ true
      → exists (repo_is i) db.repos.rows ≡ true
      → exists (repo_is i) (delete (is_named name) db.repos.rows) ≡ true
  stays name free i used p =
      exists-delete (repo_is i) (is_named name) db.repos.rows (spared name db free i used) p

  used_by_session :
      (s : Session)
      → ((q : Session → Bool) → q s ≡ true → exists q db.sessions.rows ≡ true)
      → is_referenced s.repo_id db ≡ true
  used_by_session s here = rw (here (λ t. t.repo_id == s.repo_id) (==_refl s.repo_id))

  used_by_job :
      (j : Job)
      → ((q : Job → Bool) → q j ≡ true → exists q db.jobs.rows ≡ true)
      → is_referenced j.repo_id db ≡ true
  used_by_job j here = ground (arith, here (λ k. k.repo_id == j.repo_id) (==_refl j.repo_id))

  pub keep_delete_repo : (name : String) → IsConsistent (delete_repo name db).1
  unfolding delete_repo
  keep_delete_repo name = elim (Bool-cases (exists (is_blocked name db) db.repos.rows)) [
    | inl e ↦ rw (e, delete_repo) h
    | inr e ↦
        rw (e, delete_repo)
          (change_repos db h _
            (record {
              keyed =
                  delete-IsKeyed (λ (r : Repo). r.id) (is_named name) db.repos h.repo_part.keyed;
              named = λ n. named_left name n;
            })
            (All-map₂ (λ (s : Session). exists (repo_is s.repo_id) db.repos.rows ≡ true)
              (λ s. (q : Session → Bool) → q s ≡ true → exists q db.sessions.rows ≡ true) _
              db.sessions.rows (λ s p here. stays name e s.repo_id (used_by_session s here) p)
              h.session_part.of_repo (All-exists db.sessions.rows))
            (All-map₂ (λ (j : Job). exists (repo_is j.repo_id) db.repos.rows ≡ true)
              (λ j. (q : Job → Bool) → q j ≡ true → exists q db.jobs.rows ≡ true) _ db.jobs.rows
              (λ j p here. stays name e j.repo_id (used_by_job j here) p) h.job_part.of_repo
              (All-exists db.jobs.rows)))
  ]
