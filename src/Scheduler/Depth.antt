-- ===== src/Scheduler/Depth.antt =====
-- The depth limit of `_dispatch_chain_next` (lib/scheduler.py).
use claude_discord_agent.Prelude.{
  ℕ, ◌+◌, ◌≡◌, refl, ◌≤◌, Option, none, some, String, arith, lt→ltb, ok,
}
use claude_discord_agent.Prelude.Json.{Json}
use claude_discord_agent.Db.Types.{Db, Time}
use claude_discord_agent.Timeparse.{TimeLib}
use claude_discord_agent.Scheduler.Chain.{
  max_chain_depth, Codec, dispatch_payload, dispatch_chain_next,
}

halts :
    (c : Codec) (lib : TimeLib) (o : Option Json) (depth : ℕ) (chat_id : Option String)
    (now now' : Time) (db : Db)
    → max_chain_depth ≤ depth
    → dispatch_payload c lib o depth chat_id now now' db ≡ (ok none, db)
unfolding dispatch_payload
halts c lib none depth chat_id now now' db h = refl
halts c lib (some v) depth chat_id now now' db h =
    rw (lt→ltb max_chain_depth (depth + 1) (omega arith)) refl

-- A chain that has reached the limit halts: whatever the payload, no job is created and nothing is
-- raised.
pub dispatch_chain_next-halts :
    (c : Codec) (lib : TimeLib) (payload : String) (depth : ℕ) (chat_id : Option String)
    (now now' : Time) (db : Db)
    → max_chain_depth ≤ depth
    → dispatch_chain_next c lib payload depth chat_id now now' db ≡ (ok none, db)
unfolding dispatch_chain_next
dispatch_chain_next-halts c lib payload depth chat_id now now' db h =
    halts c lib (c.loads payload) depth chat_id now now' db h
