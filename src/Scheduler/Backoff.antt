-- ===== src/Scheduler/Backoff.antt =====
-- `class BackoffTracker` (lib/scheduler.py), over a database.
use claude_discord_agent.Prelude.{
  ℕ, ◌+◌, ◌-◌, ◌*◌, ◌/◌, ◌^◌, Bool, false, ◌||◌, List, [], ◌∷◌, ltb, ◌==◌, if◌then◌else◌, min,
}
use claude_discord_agent.Db.Types.{Time}
use claude_discord_agent.Db.Repos.{get_backoff, set_backoff}
use claude_discord_agent.System.{System, change_db}

-- `random.random()` is `draw / draws` for a natural number `draw` below `draws`, and the jitter is
-- in hundredths.
pub record BackoffConfig : Type 0 where
  pub base_delay : Time
  pub max_delay : Time
  pub jitter : ℕ
  pub draws : ℕ

-- `_cache[repo_id] = (count, until)`
abbrev pub remember : ℕ → ℕ → Time → System → System
remember repo_id times until s = record s { cache = (repo_id, times, until) ∷ s.cache }

-- `_load`: the pair (count, until)
unfoldable pub load : ℕ → System → (ℕ × Time) × System
load repo_id s =
    let (until, times) = get_backoff repo_id s.db in
    ((times, until), remember repo_id times until s)

-- `_save`
unfoldable pub save : ℕ → ℕ → Time → System → System
save repo_id times until s =
    change_db (set_backoff repo_id until times) (remember repo_id times until s)

module _ (c : BackoffConfig) where
  -- `min(base_delay * (2 ** (count - 1)), max_delay)`
  unfoldable pub capped_delay : ℕ → Time
  capped_delay times = min (c.base_delay * 2 ^ (times - 1)) c.max_delay

  -- `delay + delay * jitter * (2 * random.random() - 1)`, rounded down to a whole tick.
  unfoldable pub jittered : Time → ℕ → Time
  jittered delay draw =
      delay * (100 * c.draws + 2 * c.jitter * draw - c.jitter * c.draws) / (100 * c.draws)

  unfoldable pub record_rate_limit : ℕ → Time → ℕ → System → Time × System
  record_rate_limit repo_id now draw s =
      let ((times, _), s') = load repo_id s in
      let next_available = now + jittered (capped_delay (times + 1)) draw in
      (next_available, save repo_id (times + 1) next_available s')

unfoldable pub is_backed_off : ℕ → Time → System → Bool × System
unfolding load
is_backed_off repo_id now s = let ((_, until), s') = load repo_id s in (ltb now until, s')

-- `max(0.0, until - time.time())`
unfoldable pub get_wait_time : ℕ → Time → System → Time × System
unfolding load
get_wait_time repo_id now s = let ((_, until), s') = load repo_id s in (until - now, s')

unfoldable pub clear : ℕ → System → System
unfolding save
clear repo_id = save repo_id 0 0

-- `list(self._cache)`: each repo that has an entry, by its newest one.
unfoldable pub is_cached : ℕ → List (ℕ × ℕ × Time) → Bool
is_cached repo_id [] = false
is_cached repo_id ((r, _, _) ∷ es) = r == repo_id || is_cached repo_id es

unfoldable pub clear_each : List (ℕ × ℕ × Time) → System → System
clear_each [] s = s
clear_each ((r, _, _) ∷ es) s = clear_each es (if is_cached r es then s else clear r s)

unfoldable pub clear_all : System → System
clear_all s = clear_each s.cache s
