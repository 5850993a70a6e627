-- ===== src/Watchdog/Tally.antt =====
-- What the numbers of the health report add up to (lib/watchdog.py).
use claude_discord_agent.Prelude.{
  ◌≡◌, ◌+◌, Bool, true, false, none, List, [], ◌∷◌, arith, length, if◌then◌else◌,
}
use claude_discord_agent.Table.{count}
use claude_discord_agent.Db.Types.{Db, Session, idle, busy, dead, Time}
use claude_discord_agent.Db.Sessions.{list_sessions}
use claude_discord_agent.Watchdog.Health.{
  Health, is_healthy, is_stale, is_dead, session_health, Tally, add_health, tally_sessions,
  get_health_report,
}

abbrev pub is_dead_session : Session → Bool
is_dead_session s = elim s.state [ idle ↦ false | busy ↦ false | dead ↦ true ]

module _ (timeout now : Time) where
  add_sum :
      (h : Health) (t : Tally)
      → (add_health h t).healthy + (add_health h t).stale + (add_health h t).dead_sessions
        ≡ t.healthy + t.stale + t.dead_sessions + 1
  unfolding add_health
  add_sum is_healthy t = omega arith
  add_sum is_stale t = omega arith
  add_sum is_dead t = omega arith

  tally_sum :
      (ss : List Session) (t : Tally)
      → (tally_sessions timeout now ss t).healthy
          + (tally_sessions timeout now ss t).stale
          + (tally_sessions timeout now ss t).dead_sessions
        ≡ t.healthy + t.stale + t.dead_sessions + length ss
  unfolding tally_sessions
  tally_sum [] t = omega arith
  tally_sum (s ∷ ss) t =
      let h = session_health timeout now s.state s in
      omega (arith, tally_sum ss (add_health h t), add_sum h t)

  add_dead :
      (s : Session) (t : Tally)
      → (add_health (session_health timeout now s.state s) t).dead_sessions
        ≡ t.dead_sessions + (if is_dead_session s then 1 else 0)
  unfolding add_health session_health
  add_dead s t = ground arith

  tally_dead :
      (ss : List Session) (t : Tally)
      → (tally_sessions timeout now ss t).dead_sessions ≡ t.dead_sessions + count is_dead_session ss
  unfolding tally_sessions count
  tally_dead [] t = omega arith
  tally_dead (s ∷ ss) t =
      omega
        (arith, tally_dead ss (add_health (session_health timeout now s.state s) t), add_dead s t)

-- Every session that `list_sessions` gives is counted once in the health report, as healthy, stale or
-- dead, and the dead ones are those in the state `dead`.
pub get_health_report-total :
    (timeout now : Time) (db : Db)
    → ((get_health_report timeout now db).healthy
          + (get_health_report timeout now db).stale
          + (get_health_report timeout now db).dead_sessions
        ≡ (get_health_report timeout now db).total_sessions)
      × ((get_health_report timeout now db).dead_sessions
          ≡ count is_dead_session (list_sessions none none db))
unfolding get_health_report
get_health_report-total timeout now db =
    let zero_tally : Tally = record { healthy = 0; stale = 0; dead_sessions = 0 } in
    (
      omega (arith, tally_sum timeout now (list_sessions none none db) zero_tally),
      omega (arith, tally_dead timeout now (list_sessions none none db) zero_tally),
    )
