-- ===== src/Cli/Exits.antt =====
-- The commands of orchestrator.py that end with status 1, and the database after them.
use claude_discord_agent.Db.Types.{Db}
use claude_discord_agent.Spec.Render.{Spec}
