-- ===== src/Cli/Chained.antt =====
-- The job that follows the first one of a chain file (orchestrator.py, lib/scheduler.py).
use claude_discord_agent.Prelude.{ℕ, Option, String}
use claude_discord_agent.Prelude.Json.{Json, Fields, get}
use claude_discord_agent.Table.{insert_row}
use claude_discord_agent.Db.Types.{Db, Job, Repo, Time}
use claude_discord_agent.Db.Jobs.{default_options, new_job}
use claude_discord_agent.Timeparse.{TimeLib}
use claude_discord_agent.Scheduler.Chain.{Codec, next_payload}
use claude_discord_agent.Cli.Chain.{payload_key}

-- The database with one more job.
abbrev with_job : (ℕ → Job) → Db → Db
with_job make db = record db { jobs = (insert_row make db.jobs).1 }

-- The row of the job that an entry stands for, by its id.
abbrev pub chained_job :
    Codec → TimeLib → Fields → Repo → String → Time → Option String → ℕ → Time → ℕ → Job
chained_job c lib q repo task at chat depth now =
    new_job repo.id task
      (record default_options {
        notify_chat_id = chat;
        next_dispatch_payload = next_payload c lib (get payload_key q);
        chain_depth = depth;
        enqueue_at = at;
      })
      now
