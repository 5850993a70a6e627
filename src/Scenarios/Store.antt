-- ===== src/Scenarios/Store.antt =====
-- The databases of the examples, each made by steps from a new one.
use claude_discord_agent.Prelude.{◌≡◌, refl, Option, none, some, String, []}
use claude_discord_agent.Prelude.Int.{pos}
use claude_discord_agent.Table.{find, update, exists}
use claude_discord_agent.Db.Lifecycle.{JobState, queued, starting, running, succeeded, timed_out}
use claude_discord_agent.Db.Types.{Db, Job, Repo, Time, new_db}
use claude_discord_agent.Db.Jobs.{
  JobOptions, default_options, create_job, get_job, transition_job, moved,
}
use claude_discord_agent.Db.Repos.{RepoOptions, create_repo}
use claude_discord_agent.System.{System, new_system}
use claude_discord_agent.Scheduler.Dispatch.{get_repo_by_id}
use claude_discord_agent.Steps.{
  creates_repo, creates_job, transitions_job, perform, Reaches, here, next,
}
use claude_discord_agent.Steps.Invariant.{IsConsistent}
use claude_discord_agent.Steps.Keep.All.{Reaches-IsConsistent, new_db-IsConsistent}

abbrev repo_options : RepoOptions
repo_options = record {
  aliases = [];
  expected_git_root = none;
  model = "sonnet";
  max_concurrency = 2;
}

abbrev job_options : JobOptions
job_options = record default_options { notify_chat_id = some "42" }

abbrev pub queued_db : Db
queued_db =
    perform (creates_job 1 "build" job_options 5)
      (perform (creates_repo "web" "/srv/web" repo_options 1) new_db)

abbrev pub running_db : Db
running_db =
    perform (transitions_job 1 running none 7)
      (perform (transitions_job 1 starting none 6) queued_db)

abbrev pub done_db : Db
done_db = perform (transitions_job 1 succeeded (some "ok") 9) running_db

abbrev pub late_db : Db
late_db = perform (transitions_job 1 timed_out none 9) running_db

pub queued_path : Reaches new_db queued_db
queued_path =
    next (next here (creates_repo "web" "/srv/web" repo_options 1))
      (creates_job 1 "build" job_options 5)

pub running_path : Reaches queued_db running_db
running_path =
    next (next here (transitions_job 1 starting none 6)) (transitions_job 1 running none 7)

pub queued_db-IsConsistent : IsConsistent queued_db
queued_db-IsConsistent = Reaches-IsConsistent new_db queued_db queued_path new_db-IsConsistent

running_db-IsConsistent : IsConsistent running_db
running_db-IsConsistent =
    Reaches-IsConsistent queued_db running_db running_path queued_db-IsConsistent

pub done_db-IsConsistent : IsConsistent done_db
done_db-IsConsistent =
    Reaches-IsConsistent running_db done_db (next here (transitions_job 1 succeeded (some "ok") 9))
      running_db-IsConsistent

abbrev pub web : Repo
web = record {
  id = 1;
  name = "web";
  path = "/srv/web";
  aliases = [];
  expected_git_root = none;
  model = "sonnet";
  max_concurrency = 2;
  backoff_until = 0;
  backoff_count = 0;
  created_at = 1;
}

-- The job in each of the databases.
abbrev pub job_at : JobState → Time → Option String → Option Time → Job
job_at state updated_at result terminal_at = record {
  id = 1;
  repo_id = 1;
  task = "build";
  state = state;
  priority = pos 0;
  max_retries = 2;
  created_at = 5;
  updated_at = updated_at;
  result = result;
  notify_chat_id = some "42";
  next_dispatch_payload = none;
  chain_depth = 0;
  enqueue_at = 0;
  terminal_at = terminal_at;
  wake_state = none;
  wake_attempts = 0;
  reported_at = none;
}

pub queued_job : get_job 1 queued_db ≡ some (job_at queued 5 none none)
unfolding perform create_repo create_job get_job find exists
queued_job = refl

pub done_job : get_job 1 done_db ≡ some (job_at succeeded 9 (some "ok") (some 9))
unfolding perform create_repo create_job get_job find exists transition_job moved update
done_job = refl

pub late_job : get_job 1 late_db ≡ some (job_at timed_out 9 none none)
unfolding perform create_repo create_job get_job find exists transition_job moved update
late_job = refl

pub running_repo : get_repo_by_id 1 running_db ≡ some web
unfolding perform create_repo create_job get_job find exists transition_job moved update
    get_repo_by_id
running_repo = refl

abbrev pub over : Db → System
over db = record new_system { db = db }
