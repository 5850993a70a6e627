-- ===== src/Steps/Planes/Commands.antt =====
-- The commands to the daemon (lib/daemon.py) as steps.
use mathlib.Core.List.{reverse}
use claude_discord_agent.Prelude.{
  ℕ, ◌≡◌, refl, Bool, false, Option, none, some, List, [], ◌∷◌, str_eq, Bool-cases, Option-cases,
  inl, inr, Action, pure, gets, modify, total, ◌>>◌, subst, sym, ◌∙◌,
}
use claude_discord_agent.Db.Lifecycle.{failed_permanent}
use claude_discord_agent.Db.Types.{Db, Job, Attempt, Command, Time}
use claude_discord_agent.Db.Jobs.{list_jobs, default_limit}
use claude_discord_agent.Db.Attempts.{get_attempts}
use claude_discord_agent.Db.Commands.{poll_commands}
use claude_discord_agent.System.{System, with_db}
use claude_discord_agent.Watchdog.Check.{get_process, try_transition}
use claude_discord_agent.Runner.Run.{stop_job}
use claude_discord_agent.Daemon.Commands.{
  stop_newest, kill_job, is_killable, kill_each, kill_repo, payload_job, payload_repo,
  process_command, process_each, process_commands,
}
use claude_discord_agent.Steps.{polls_commands, perform, Reaches, here, next}
use claude_discord_agent.Steps.Stepwise.{
  IsStepwise, bind_steps, then_steps, pure_steps, if_steps, gets_steps, modify_steps, total_steps,
  on_db_steps, inner,
}
use claude_discord_agent.Steps.Planes.Complete.{try_steps}

-- A process that is stopped leaves the database alone.
stop_job-db : (i : ℕ) (s : System) → (stop_job i s).1.db ≡ s.db
unfolding stop_job
stop_job-db i s = elim (Option-cases (get_process i s)) [
  | inl e ↦ rw (e, stop_job) refl
  | inr (p, e) ↦ rw (e, stop_job) refl
]

pub stop_newest-db : (as' : List Attempt) (s : System) → (stop_newest as' s).db ≡ s.db
unfolding stop_newest
stop_newest-db [] s = refl
stop_newest-db (a ∷ as') s = elim (Bool-cases (stop_job a.id s).0) [
  | inl t ↦ rw (t, stop_newest) (stop_job-db a.id s)
  | inr t ↦ rw (t, stop_newest) (stop_newest-db as' (stop_job a.id s).1 ∙ stop_job-db a.id s)
]

same_steps : (db db' : Db) → db' ≡ db → Reaches db db'
same_steps db db' same = subst (Reaches db) (sym same) here

kill_steps : (i : ℕ) (now : Time) → IsStepwise inner (kill_job i now)
unfolding kill_job
kill_steps i now =
    bind_steps inner (gets (λ s. get_attempts i s.db)) _ (gets_steps inner _) (λ attempts.
      then_steps inner (modify (stop_newest (reverse attempts))) _
        (modify_steps inner (stop_newest (reverse attempts)) (λ s.
          same_steps s.db (stop_newest (reverse attempts) s).db
            (stop_newest-db (reverse attempts) s)))
        (on_db_steps (try_transition i failed_permanent (some "Killed by user") now)
          (try_steps i failed_permanent (some "Killed by user") now)))

module _ (clock : ℕ → Time) where
  kill_each_steps : (js : List Job) → IsStepwise inner (kill_each clock js)
  unfolding kill_each
  kill_each_steps [] = pure_steps inner tt
  kill_each_steps (j ∷ js) =
      if_steps inner (is_killable j.state) _ _
        (then_steps inner (kill_job j.id (clock j.id)) _ (kill_steps j.id (clock j.id))
          (kill_each_steps js))
        (kill_each_steps js)

  kill_repo_steps : (r : ℕ) → IsStepwise inner (kill_repo r clock)
  unfolding kill_repo
  kill_repo_steps r = record {
    steps = λ s. (kill_each_steps (list_jobs (some r) none default_limit none s.db)).steps s;
  }

  one_kill_steps :
      (o : Option ℕ) (running : Bool)
      → IsStepwise inner (elim o as (λ _. Action System Bool) [
        | none ↦ pure running
        | some i ↦ kill_job i (clock i) >> pure running
      ])
  one_kill_steps none running = pure_steps inner running
  one_kill_steps (some i) running =
      then_steps inner (kill_job i (clock i)) _ (kill_steps i (clock i)) (pure_steps inner running)

  repo_kill_steps :
      (o : Option ℕ) (running : Bool)
      → IsStepwise inner (elim o as (λ _. Action System Bool) [
        | none ↦ pure running
        | some r ↦ kill_repo r clock >> pure running
      ])
  repo_kill_steps none running = pure_steps inner running
  repo_kill_steps (some r) running =
      then_steps inner (kill_repo r clock) _ (kill_repo_steps r) (pure_steps inner running)

  command_steps :
      (c : Command) (running : Bool) → IsStepwise inner (process_command clock c running)
  unfolding process_command
  command_steps c running =
      if_steps inner (str_eq c.command "kill_job") _ _
        (one_kill_steps (payload_job c.payload) running)
        (if_steps inner (str_eq c.command "kill_repo") _ _
          (repo_kill_steps (payload_repo c.payload) running)
          (if_steps inner (str_eq c.command "shutdown") _ _ (pure_steps inner false)
            (pure_steps inner running)))

  process_each_steps :
      (cs : List Command) (running : Bool) → IsStepwise inner (process_each clock cs running)
  unfolding process_each
  process_each_steps [] running = pure_steps inner running
  process_each_steps (c ∷ cs) running =
      bind_steps inner (process_command clock c running) _ (command_steps c running)
        (λ running'. process_each_steps cs running')

  -- The commands change the database by a sequence of steps only.
  pub process_commands_steps : (running : Bool) → IsStepwise inner (process_commands clock running)
  unfolding process_commands perform
  process_commands_steps running =
      bind_steps inner (total (with_db (poll_commands 10))) _
        (total_steps inner (with_db (poll_commands 10)) (λ s. next here (polls_commands 10)))
        (λ commands. process_each_steps commands running)
