-- ===== src/Steps/Progress.antt =====
-- How the state of one job moves under the steps (lib/db.py).
use claude_discord_agent.Prelude.{
  ℕ, ◌≡◌, refl, Bool, true, false, some, arith, inl, inr, subst, sym,
}
use claude_discord_agent.Db.Lifecycle.{
  JobState, succeeded, failed_permanent, may_become, rate_limited,
}
use claude_discord_agent.Db.Types.{Db, Job}
use claude_discord_agent.Db.Jobs.{get_job}
use claude_discord_agent.Steps.{
  Op, creates_repo, updates_repo, deletes_repo, sets_backoff, clears_backoff, creates_session,
  updates_session, swaps_session, deletes_session, creates_job, transitions_job, limits_job,
  succeeds_job, creates_attempt, finishes_attempt, adds_event, enqueues_command, polls_commands,
  marks_reported, claims_fallback, marks_woken, counts_wake, sets_undeliverable, perform, Reaches,
  here, next,
}
use claude_discord_agent.Steps.Moves.{
  Moves, IsKept, same_jobs, move_job, IsKept-transition, IsKept-create, IsKept-report, IsKept-claim,
  IsKept-woken, IsKept-wake, IsKept-undeliverable,
}
use claude_discord_agent.Steps.Untouched.{
  created_repo, updated_repo, deleted_repo, backed_off, cleared, created_session, updated_session,
  swapped_session, deleted_session, created_attempt, finished_attempt, added_event, enqueued,
  polled,
}

-- Any number of moves.
pub data Follows (s : JobState) : JobState → Type 0 where
  stays : Follows s s
  moves : {t u : JobState} → Follows s t → may_become t u ≡ true → Follows s u

-- Every step keeps each job, and its state stays or makes one move that the transition map allows.
perform-Moves :
    (op : Op) (i : ℕ) (j : Job) (db : Db) → get_job i db ≡ some j → IsKept i j (perform op db)
unfolding perform
perform-Moves (creates_repo name path o now) i j db e =
    same_jobs i j db e _ (created_repo db name path o now)
perform-Moves (updates_repo name fields) i j db e =
    same_jobs i j db e _ (updated_repo db name fields)
perform-Moves (deletes_repo name) i j db e = same_jobs i j db e _ (deleted_repo db name)
perform-Moves (sets_backoff r until times) i j db e =
    same_jobs i j db e _ (backed_off db r until times)
perform-Moves (clears_backoff r) i j db e = same_jobs i j db e _ (cleared db r)
perform-Moves (creates_session r pid now) i j db e =
    same_jobs i j db e _ (created_session db r pid now)
perform-Moves (updates_session s fields) i j db e =
    same_jobs i j db e _ (updated_session db s fields)
perform-Moves (swaps_session s a fields) i j db e =
    same_jobs i j db e _ (swapped_session db s a fields)
perform-Moves (deletes_session s) i j db e = same_jobs i j db e _ (deleted_session db s)
perform-Moves (creates_job r task o now) i j db e = IsKept-create i j db e r task o now
perform-Moves (transitions_job k s result now) i j db e = IsKept-transition i j db e k s result now
perform-Moves (limits_job k now) i j db e =
    move_job i j db e k rate_limited _ (λ j. refl) (λ j. refl)
perform-Moves (succeeds_job k result now) i j db e =
    move_job i j db e k succeeded _ (λ j. refl) (λ j. refl)
perform-Moves (creates_attempt k s now) i j db e = same_jobs i j db e _ (created_attempt db k s now)
perform-Moves (finishes_attempt a code error now) i j db e =
    same_jobs i j db e _ (finished_attempt db a code error now)
perform-Moves (adds_event a type d now) i j db e =
    same_jobs i j db e _ (added_event db a type d now)
perform-Moves (enqueues_command c payload now) i j db e =
    same_jobs i j db e _ (enqueued db c payload now)
perform-Moves (polls_commands limit) i j db e = same_jobs i j db e _ (polled db limit)
perform-Moves (marks_reported k ts) i j db e = IsKept-report i j db e k ts
perform-Moves (claims_fallback k) i j db e = IsKept-claim i j db e k
perform-Moves (marks_woken k) i j db e = IsKept-woken i j db e k
perform-Moves (counts_wake k) i j db e = IsKept-wake i j db e k
perform-Moves (sets_undeliverable k) i j db e = IsKept-undeliverable i j db e k

-- Whatever sequence of steps is taken, every job stays in the database, and its state moves along
-- the transition map.
pub Reaches-Follows :
    (db db' : Db) (i : ℕ) (j : Job)
    → Reaches db db'
    → get_job i db ≡ some j
    → (j' : Job) × (get_job i db' ≡ some j') × Follows j.state j'.state
Reaches-Follows db _ i j here e = (j, e, stays)
Reaches-Follows db _ i j (next {db'} r op) e =
    let (j', e', path) = Reaches-Follows db db' i j r e in
    let (j'', e'', move) = perform-Moves op i j' db' e' in (j'', e'', extend path move)
  where
    extend : {s t u : JobState} → Follows s t → Moves t u → Follows s u
    extend {s} path (inl same) = subst (λ u. Follows s u) (sym same) path
    extend path (inr m) = moves path m

abbrev pub is_final : JobState → Bool
is_final succeeded = true
is_final failed_permanent = true
is_final _ = false

final_stays : (s t : JobState) → is_final s ≡ true → Follows s t → t ≡ s
final_stays s _ h stays = refl
final_stays s _ h (moves {t} {u} path m) =
    stuck s u h (subst (λ v. may_become v u ≡ true) (final_stays s t h path) m)
  where
    stuck : (s u : JobState) → is_final s ≡ true → may_become s u ≡ true → u ≡ s
    stuck s u h m = ground arith

-- A job that has succeeded or failed for good stays so, whatever sequence of steps is taken.
pub Reaches-final :
    (db db' : Db) (i : ℕ) (j : Job)
    → Reaches db db'
    → get_job i db ≡ some j
    → is_final j.state ≡ true
    → (j' : Job) × (get_job i db' ≡ some j') × (j'.state ≡ j.state)
Reaches-final db db' i j r e h =
    let (j', e', path) = Reaches-Follows db db' i j r e in
    (j', e', final_stays j.state j'.state h path)
