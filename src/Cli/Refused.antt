-- ===== src/Cli/Refused.antt =====
-- The commands of orchestrator.py that submit jobs, where they end with status 1.
use claude_discord_agent.Prelude.{
  ℕ, ◌+◌, ◌≡◌, refl, not, ◌||◌, Option, none, some, String, List, if◌then◌else◌, Result, ok, raised,
  Error, Action, pure, raise, gets, job_not_found, invalid_transition, integrity_error,
  interface_error, attribute_error, runner_error, os_error, value_error, json_decode_error,
  type_error, overflow_error, registry_error, spec_error, key_error, is_set, coalesce, inl, inr,
  Bool-cases,
}
use claude_discord_agent.Prelude.Int.{ℤ, pos}
use claude_discord_agent.Prelude.Json.{
  Json, null, bool, int, float, str, arr, obj, nil, cons, Fields, truthy, get,
}
use claude_discord_agent.Db.Types.{Db, Job, Repo, Time}
use claude_discord_agent.Db.Jobs.{get_job}
use claude_discord_agent.Timeparse.{TimeLib}
use claude_discord_agent.Scheduler.Chain.{
  Codec, Bound, unbound, bound, bind, create_bound, create_chain_job, next_options, find_repo,
  find_bound, chain_enqueue_at,
}
use claude_discord_agent.Registry.Preflight.{is_registry_error}
use claude_discord_agent.Registry.Repos.{resolve}
use claude_discord_agent.Cli.Refusals.{
  exit_code, Refuses, IsRefusing, IsAtomic, pure-IsRefusing, raise-IsRefusing, raise-IsAtomic,
  done-IsRefusing, read-IsRefusing, if_IsRefusing,
}
use claude_discord_agent.Table.{exists}
use claude_discord_agent.Db.Jobs.{JobOptions, create_job, repo_is}
use claude_discord_agent.Cli.Specs.{spec_exit}
use claude_discord_agent.Cli.Submit.{
  with_repo, submit, enqueue_job, submitted_options, cmd_dispatch, DispatchArgs, schedule,
}
use claude_discord_agent.Cli.Chain.{
  create_scheduled, create_in, create_from_payload, cmd_dispatch_chain_file, cmd_chain_resume,
  dispatch_head, dispatch_entries, build_chain_payload, entries_with_chat, resume_payload,
  resume_job,
}
use claude_discord_agent.Cli.Repos.{registry_exit}

pub exit-IsRefusing : (e : Error) → IsRefusing (registry_exit e)
exit-IsRefusing e =
    if_IsRefusing (is_registry_error e) (pure 1) (raise e) (pure-IsRefusing 1) (raise-IsRefusing e)

-- An exit for an exception leaves the database alone.
pub spec_exit-db : (e : Error) (db : Db) → (spec_exit e db).1 ≡ db
spec_exit-db job_not_found db = refl
spec_exit-db invalid_transition db = refl
spec_exit-db integrity_error db = refl
spec_exit-db interface_error db = refl
spec_exit-db attribute_error db = refl
spec_exit-db runner_error db = refl
spec_exit-db os_error db = refl
spec_exit-db value_error db = refl
spec_exit-db json_decode_error db = refl
spec_exit-db type_error db = refl
spec_exit-db overflow_error db = refl
spec_exit-db registry_error db = refl
spec_exit-db spec_error db = refl
spec_exit-db key_error db = refl

pub with_repo-Refuses :
    (name : String) (k : Repo → Action Db ℕ) (db : Db)
    → ((r : Repo) → resolve name db ≡ ok r → Refuses (k r) db)
    → Refuses (with_repo name k) db
unfolding with_repo
with_repo-Refuses name k db hk = looked_up (resolve name db) hk
  where
    looked_up :
        (r : Result Repo)
        → ((repo : Repo) → r ≡ ok repo → Refuses (k repo) db)
        → exit_code
            (elim r as (λ _. Result ℕ × Db) [
              | ok repo ↦ k repo db
              | raised e ↦ if is_registry_error e then pure 1 db else raise e db
            ]).0
          ≡ 1
        → (elim r as (λ _. Result ℕ × Db) [
          | ok repo ↦ k repo db
          | raised e ↦ if is_registry_error e then pure 1 db else raise e db
        ]).1
          ≡ db
    looked_up (ok repo) hk h = hk repo refl h
    looked_up (raised e) hk h = elim (Bool-cases (is_registry_error e)) [
      | inl t ↦ rw t refl
      | inr t ↦ rw t refl
    ]

pub with_repo-IsRefusing :
    (name : String) (k : Repo → Action Db ℕ)
    → ((r : Repo) → IsRefusing (k r))
    → IsRefusing (with_repo name k)
with_repo-IsRefusing name k hk = record {
  unchanged = λ db. with_repo-Refuses name k db (λ r _. (hk r).unchanged db);
}

create_job-IsAtomic :
    (repo_id : ℕ) (task : String) (o : JobOptions) (now : Time)
    → IsAtomic (create_job repo_id task o now)
unfolding create_job
create_job-IsAtomic repo_id task o now = record {
  undone = λ db e h. elim (Bool-cases (exists (repo_is repo_id) db.repos.rows)) [
    | inl t ↦ absurd (cc (rw (create_job, t) at h))
    | inr t ↦ rw (create_job, t) refl
  ];
}

bound-IsAtomic :
    (c : Codec) (lib : TimeLib) (repo_id : ℕ) (task : Bound) (o : JobOptions) (chat : Bound)
    (now : Time)
    → IsAtomic (create_bound c lib repo_id task o chat now)
unfolding create_bound
bound-IsAtomic c lib repo_id unbound o chat now = raise-IsAtomic interface_error
bound-IsAtomic c lib repo_id (bound task) o unbound now = raise-IsAtomic interface_error
bound-IsAtomic c lib repo_id (bound none) o (bound chat) now = raise-IsAtomic integrity_error
bound-IsAtomic c lib repo_id (bound (some task)) o (bound chat) now =
    create_job-IsAtomic repo_id task (record o { notify_chat_id = chat }) now

module _ (lib : TimeLib) where
  pub submit-IsRefusing :
      (at : Option Time) (r : Repo) (task : String) (priority : ℤ) (chat : Option String)
      (now : Time)
      → IsRefusing (submit lib at r task priority chat now)
  unfolding submit enqueue_job
  submit-IsRefusing none r task priority chat now = pure-IsRefusing 1
  submit-IsRefusing (some at) r task priority chat now =
      done-IsRefusing (enqueue_job r task (submitted_options lib priority chat at) now)
        (create_job-IsAtomic r.id task (submitted_options lib priority chat at) now)

  pub dispatch-IsRefusing :
      (env : Option String) (args : DispatchArgs) (now now' : Time)
      → IsRefusing (cmd_dispatch lib env args now now')
  unfolding cmd_dispatch
  dispatch-IsRefusing env args now now' =
      if_IsRefusing (not (is_set args.repo) || not (is_set args.task)) (pure 1) _
        (pure-IsRefusing 1)
        (with_repo-IsRefusing (coalesce args.repo "") _
          (λ r. submit-IsRefusing (schedule lib args.enqueue_at now) r _ args.priority _ now'))

  module _ (c : Codec) where
    find_bound-reads : (o : Option String) (db : Db) → (find_bound c lib o db).1 ≡ db
    unfolding find_bound
    find_bound-reads none db = refl
    find_bound-reads (some t) db = refl

    pub find_repo-reads : (v : Json) (db : Db) → (find_repo c lib v db).1 ≡ db
    unfolding find_repo
    find_repo-reads null db = find_bound-reads (c.bind_text null) db
    find_repo-reads (bool b) db = find_bound-reads (c.bind_text (bool b)) db
    find_repo-reads (int n) db = find_bound-reads (c.bind_text (int n)) db
    find_repo-reads (float t) db = find_bound-reads (c.bind_text (float t)) db
    find_repo-reads (str s) db = refl
    find_repo-reads (arr xs) db = find_bound-reads (c.bind_text (arr xs)) db
    find_repo-reads (obj fs) db = find_bound-reads (c.bind_text (obj fs)) db

    scheduled-IsRefusing :
        (at : Option Time) (i : ℕ) (p : Fields) (priority : ℤ) (depth : ℕ) (now : Time)
        → IsRefusing (create_scheduled c lib at i p priority depth now)
    unfolding create_scheduled create_chain_job
    scheduled-IsRefusing none i p priority depth now = pure-IsRefusing 1
    scheduled-IsRefusing (some at) i p priority depth now =
        done-IsRefusing
          (create_chain_job c lib i (get "task" p)
            (record (next_options c lib p depth at) { priority = priority })
            (get "notify_chat_id" p) now)
          (bound-IsAtomic c lib i (bind c lib (get "task" p))
            (record (next_options c lib p depth at) { priority = priority })
            (bind c lib (get "notify_chat_id" p)) now)

    in-IsRefusing :
        (p : Fields) (priority : ℤ) (depth : ℕ) (now now' : Time) (r : Option Repo)
        → IsRefusing (create_in c lib p priority depth now now' r)
    unfolding create_in
    in-IsRefusing p priority depth now now' none = pure-IsRefusing 1
    in-IsRefusing p priority depth now now' (some r) =
        scheduled-IsRefusing (chain_enqueue_at c lib (get "enqueue_at" p) now) r.id p priority depth
          now'

    payload-IsRefusing :
        (p : Fields) (priority : ℤ) (depth : ℕ) (now now' : Time)
        → IsRefusing (create_from_payload c lib p priority depth now now')
    unfolding create_from_payload
    payload-IsRefusing p priority depth now now' =
        if_IsRefusing (not (truthy (get "repo" p)) || not (truthy (get "task" p))) (pure 1) _
          (pure-IsRefusing 1)
          (read-IsRefusing (find_repo c lib (get "repo" p))
            (create_in c lib p priority depth now now') (find_repo-reads (get "repo" p))
            (in-IsRefusing p priority depth now now'))

    head-IsRefusing :
        (priority : ℤ) (now now' : Time) (o : Option Fields)
        → IsRefusing (dispatch_head c lib priority now now' o)
    head-IsRefusing priority now now' none = pure-IsRefusing 1
    head-IsRefusing priority now now' (some p) = payload-IsRefusing p priority 0 now now'

    entries-IsRefusing :
        (priority : ℤ) (now now' : Time) (o : Option (List Fields))
        → IsRefusing (dispatch_entries c lib priority now now' o)
    entries-IsRefusing priority now now' none = raise-IsRefusing attribute_error
    entries-IsRefusing priority now now' (some es) =
        head-IsRefusing priority now now' (build_chain_payload es)

    pub chain-IsRefusing :
        (file : Option Json) (priority : ℤ) (chat : Option String) (now now' : Time)
        → IsRefusing (cmd_dispatch_chain_file c lib file priority chat now now')
    unfolding cmd_dispatch_chain_file
    chain-IsRefusing none priority chat now now' = pure-IsRefusing 1
    chain-IsRefusing (some null) priority chat now now' = pure-IsRefusing 1
    chain-IsRefusing (some (bool b)) priority chat now now' = pure-IsRefusing 1
    chain-IsRefusing (some (int n)) priority chat now now' = pure-IsRefusing 1
    chain-IsRefusing (some (float t)) priority chat now now' = pure-IsRefusing 1
    chain-IsRefusing (some (str s)) priority chat now now' = pure-IsRefusing 1
    chain-IsRefusing (some (arr nil)) priority chat now now' = pure-IsRefusing 1
    chain-IsRefusing (some (arr (cons v vs))) priority chat now now' =
        entries-IsRefusing priority now now' (entries_with_chat chat (cons v vs))
    chain-IsRefusing (some (obj fs)) priority chat now now' = pure-IsRefusing 1

    resume_payload-IsRefusing :
        (v : Option Json) (depth : ℕ) (now now' : Time)
        → IsRefusing (resume_payload c lib v depth now now')
    resume_payload-IsRefusing none depth now now' = pure-IsRefusing 1
    resume_payload-IsRefusing (some null) depth now now' = raise-IsRefusing attribute_error
    resume_payload-IsRefusing (some (bool b)) depth now now' = raise-IsRefusing attribute_error
    resume_payload-IsRefusing (some (int n)) depth now now' = raise-IsRefusing attribute_error
    resume_payload-IsRefusing (some (float t)) depth now now' = raise-IsRefusing attribute_error
    resume_payload-IsRefusing (some (str s)) depth now now' = raise-IsRefusing attribute_error
    resume_payload-IsRefusing (some (arr xs)) depth now now' = raise-IsRefusing attribute_error
    resume_payload-IsRefusing (some (obj p)) depth now now' =
        payload-IsRefusing p (pos 0) (depth + 1) now now'

    resume_job-IsRefusing :
        (o : Option Job) (now now' : Time) → IsRefusing (resume_job c lib o now now')
    resume_job-IsRefusing none now now' = pure-IsRefusing 1
    resume_job-IsRefusing (some job) now now' =
        if_IsRefusing (is_set job.next_dispatch_payload) _ (pure 1)
          (resume_payload-IsRefusing (c.loads (coalesce job.next_dispatch_payload ""))
            job.chain_depth now now')
          (pure-IsRefusing 1)

    pub resume-IsRefusing :
        (i : ℕ) (now now' : Time) → IsRefusing (cmd_chain_resume c lib i now now')
    unfolding cmd_chain_resume
    resume-IsRefusing i now now' =
        read-IsRefusing (gets (get_job i)) (λ job. resume_job c lib job now now') (λ db. refl)
          (λ job. resume_job-IsRefusing job now now')
