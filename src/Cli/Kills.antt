-- ===== src/Cli/Kills.antt =====
-- `cmd_kill`, and the daemon's reading of its command (lib/daemon.py).
use mathlib.Core.List.{reverse}
use claude_discord_agent.Prelude.{
  ℕ, ◌≡◌, ◌≢◌, refl, sym, ap, ◌∙◌, Bool, true, Option, some, String, List, [], ◌∷◌, ◌++◌, Result,
  ok, raised, pure, ◌>>=◌, ◌>>◌, arith, bind-ok, caught, subst,
}
use claude_discord_agent.Table.{select, sort_by, insert_by}
use claude_discord_agent.Db.Lifecycle.{failed_permanent, may_become}
use claude_discord_agent.Db.Types.{Db, Job, Command, Time}
use claude_discord_agent.Db.Jobs.{get_job, job_is, update_jobs, transition_job, moved}
use claude_discord_agent.Db.Attempts.{get_attempts}
use claude_discord_agent.Db.Commands.{
  enqueue_command, poll_commands, pending_commands, is_pending, new_command,
}
use claude_discord_agent.Db.Transition.{accepted, get_job-update_same, moved-id}
use claude_discord_agent.System.{System, on_db}
use claude_discord_agent.Watchdog.Check.{try_transition}
use claude_discord_agent.Steps.Planes.Commands.{stop_newest-db}
use claude_discord_agent.Daemon.Commands.{kill_job, process_command, process_each, process_commands}
use claude_discord_agent.Cli.Control.{cmd_kill, kill_one, kill_chosen, kill_found, for_job, job_of}

abbrev pub killed : Time → Job → Job
killed now job = moved failed_permanent (some "Killed by user") now job

try_fails :
    (i : ℕ) (now : Time) (db : Db) (job : Job)
    → get_job i db ≡ some job
    → may_become job.state failed_permanent ≡ true
    → get_job i (try_transition i failed_permanent (some "Killed by user") now db).1
      ≡ some (killed now job)
unfolding try_transition
try_fails i now db job e m =
    let why : Option String = some "Killed by user" in
    let db' = update_jobs (job_is i) (moved failed_permanent why now) db in
    let done = caught (transition_job i failed_permanent why now >> pure tt) db db' tt (pure tt) (
      bind-ok (transition_job i failed_permanent why now) db db' true (λ _. pure tt)
        (accepted i failed_permanent why now db job e m)) in
    rw (try_transition, done)
      (get_job-update_same (moved failed_permanent why now) i db job
        (moved-id failed_permanent why now) e)

-- The daemon's kill of a job that may fail.
kill_job_fails :
    (i : ℕ) (now : Time) (s : System) (job : Job)
    → get_job i s.db ≡ some job
    → may_become job.state failed_permanent ≡ true
    → get_job i (kill_job i now s).1.db ≡ some (killed now job)
unfolding kill_job
kill_job_fails i now s job e m =
    let same = stop_newest-db (reverse (get_attempts i s.db)) s in
    subst
      (λ db.
        get_job i (try_transition i failed_permanent (some "Killed by user") now db).1
        ≡ some (killed now job))
      (sym same) (try_fails i now s.db job e m)

select-append_one :
    {A : Type 0} (q : A → Bool) (rs : List A) (x : A)
    → select q rs ≡ []
    → q x ≡ true
    → select q (rs ++ x ∷ []) ≡ x ∷ []
unfolding select
select-append_one q [] x h t = rw t refl
select-append_one q (y ∷ rs) x h t = ground (arith, select-append_one q rs x)

module _ (i : ℕ) (now : Time) where
  abbrev kill_command : Db → Command
  kill_command db = new_command "kill_job" (some (for_job i)) now db.commands.next_id

  pending_kill :
      (db : Db)
      → select is_pending db.commands.rows ≡ []
      → pending_commands 10 (enqueue_command "kill_job" (some (for_job i)) now db).1
        ≡ kill_command db ∷ []
  unfolding pending_commands enqueue_command sort_by insert_by
  pending_kill db h =
      rw (pending_commands, select-append_one is_pending db.commands.rows (kill_command db) h refl)
        refl

  -- The database once the command is sent, and once it is polled.
  kill_one_sent :
      (db : Db) (job : Job)
      → get_job i db ≡ some job
      → kill_one i now db ≡ (ok 0, (enqueue_command "kill_job" (some (for_job i)) now db).1)
  unfolding kill_one
  kill_one_sent db job e = ap (λ o. kill_found i now o db) e

-- What runs behind a kill does not touch the database.
tail-db :
    (r : Result (Unit {0})) (s : System) (running : Bool)
    → ((((λ (t : System). (r, s)) >> pure running) >>= λ b. pure b) s).1 ≡ s
tail-db (ok u) s running = refl
tail-db (raised e) s running = refl

process_kill :
    (i : ℕ) (now : Time) (clock : ℕ → Time) (running : Bool) (db : Db) (s : System) (job : Job)
    → get_job i s.db ≡ some job
    → may_become job.state failed_permanent ≡ true
    → get_job i (process_each clock (kill_command i now db ∷ []) running s).1.db
      ≡ some (killed (clock i) job)
unfolding process_each process_command
process_kill i now clock running db s job e m =
    let (r, s') = kill_job i (clock i) s in
    ap (λ (t : System). get_job i t.db) (tail-db r s' running)
    ∙ kill_job_fails i (clock i) s job e m

job_of_nonzero : (i : ℕ) → i ≢ 0 → job_of (some i) ≡ some i
job_of_nonzero i h = ground (arith, h)

-- `kill --job-id` of a job that may fail, and the next poll of the daemon while no other command is
-- pending: the job has failed for good.
pub cmd_kill-process_commands :
    (i : ℕ) (repo : String) (now : Time) (clock : ℕ → Time) (running : Bool) (s : System)
    (job : Job)
    → i ≢ 0
    → get_job i s.db ≡ some job
    → may_become job.state failed_permanent ≡ true
    → select is_pending s.db.commands.rows ≡ []
    → (cmd_kill (some i) repo now s.db).0 ≡ ok 0
      × get_job i (process_commands clock running (on_db (cmd_kill (some i) repo now) s).1).1.db
        ≡ some (killed (clock i) job)
unfolding cmd_kill kill_chosen process_commands poll_commands enqueue_command get_job
cmd_kill-process_commands i repo now clock running s job nonzero e m quiet =
    let sent : cmd_kill (some i) repo now s.db
        ≡ (ok 0, (enqueue_command "kill_job" (some (for_job i)) now s.db).1) =
      ap (λ o. kill_chosen repo now o s.db) (job_of_nonzero i nonzero)
      ∙ kill_one_sent i now s.db job e in
    let polled = poll_commands 10 (enqueue_command "kill_job" (some (for_job i)) now s.db).1 in
    let s' = record s { db = polled.1 } in
    let kept : get_job i s'.db ≡ some job = e in
    rw sent (
      refl,
      subst (λ cs. get_job i (process_each clock cs running s').1.db ≡ some (killed (clock i) job))
          (sym (pending_kill i now s.db quiet))
          (process_kill i now clock running s.db s' job kept m),
    )
