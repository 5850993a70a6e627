-- ===== src/Watchdog/Health.antt =====
-- `get_health_report` of `class Watchdog` (lib/watchdog.py).
use claude_discord_agent.Prelude.{ℕ, ◌+◌, none, List, [], ◌∷◌, ltb, if◌then◌else◌, length, time_or}
use claude_discord_agent.Db.Types.{Db, Session, SessionState, idle, busy, dead, Time}
use claude_discord_agent.Db.Jobs.{count_running_jobs}
use claude_discord_agent.Db.Sessions.{list_sessions}

pub record HealthReport : Type 0 where
  pub total_sessions : ℕ
  pub healthy : ℕ
  pub stale : ℕ
  pub dead_sessions : ℕ
  pub running_jobs : ℕ
  pub timestamp : Time

pub data Health : Type 0 where
  is_healthy is_stale is_dead : Health

-- A busy session is stale once its heartbeat is older than the timeout.
unfoldable pub session_health : Time → Time → SessionState → Session → Health
session_health heartbeat_timeout now dead s = is_dead
session_health heartbeat_timeout now idle s = is_healthy
session_health heartbeat_timeout now busy s =
    if ltb (time_or s.last_heartbeat s.created_at + heartbeat_timeout) now
    then is_stale
    else is_healthy

-- The three counters: healthy, stale, dead.
pub record Tally : Type 0 where
  pub healthy : ℕ
  pub stale : ℕ
  pub dead_sessions : ℕ

unfoldable pub add_health : Health → Tally → Tally
add_health is_healthy t = record t { healthy = t.healthy + 1 }
add_health is_stale t = record t { stale = t.stale + 1 }
add_health is_dead t = record t { dead_sessions = t.dead_sessions + 1 }

unfoldable pub tally_sessions : Time → Time → List Session → Tally → Tally
unfolding add_health session_health
tally_sessions heartbeat_timeout now [] t = t
tally_sessions heartbeat_timeout now (s ∷ ss) t =
    tally_sessions heartbeat_timeout now ss
      (add_health (session_health heartbeat_timeout now s.state s) t)

unfoldable pub get_health_report : Time → Time → Db → HealthReport
unfolding tally_sessions
get_health_report heartbeat_timeout now db =
    let sessions = list_sessions none none db in
    let t : Tally =
      tally_sessions heartbeat_timeout now sessions
        (record { healthy = 0; stale = 0; dead_sessions = 0 }) in
    record {
      total_sessions = length sessions;
      healthy = t.healthy;
      stale = t.stale;
      dead_sessions = t.dead_sessions;
      running_jobs = count_running_jobs none db;
      timestamp = now;
    }
