-- ===== src/Db/Polling.antt =====
-- `poll_commands` (lib/db.py): who gets a command.
use claude_discord_agent.Prelude.{
  ℕ, ◌≡◌, ◌≤◌, Bool, true, ◌&&◌, List, [], ◌∷◌, arith, All, take-All, length, length-take-le,
}
use claude_discord_agent.Table.{select, update, count}
use claude_discord_agent.Table.Rows.{select-test}
use claude_discord_agent.Table.Order.{sort_by-All}
use claude_discord_agent.Table.Unique.{count-update_done}
use claude_discord_agent.Db.Types.{Db, Command}
use claude_discord_agent.Db.Commands.{
  command_is, is_pending, mark_processed, mark_all, pending_commands, poll_commands,
}

-- A row with this id that may still be handed out.
abbrev pub is_open : ℕ → Command → Bool
is_open i c = command_is i c && is_pending c

-- An UPDATE after which a row passes a test only if it did before does not raise a count.
count-update_le :
    {A : Type 0} (test q : A → Bool) (f : A → A) (rs : List A)
    → ((r : A) → q (f r) ≡ true → q r ≡ true)
    → count q (update test f rs) ≤ count q rs
unfolding count update
count-update_le test q f [] keep = omega arith
count-update_le test q f (x ∷ rs) keep = ground (arith, keep x, count-update_le test q f rs keep)

mark_all-le :
    (i : ℕ) (cs rows : List Command) → count (is_open i) (mark_all cs rows) ≤ count (is_open i) rows
unfolding mark_all
mark_all-le i [] rows = omega arith
mark_all-le i (c ∷ cs) rows = omega (
  arith,
  mark_all-le i cs (mark_processed c.id rows),
  count-update_le (command_is c.id) (is_open i) (λ c. record c { processed = true }) rows
      (λ r p. ground arith),
)

mark_all-done : (cs rows : List Command) → All (λ c. count (is_open c.id) (mark_all cs rows) ≡ 0) cs
unfolding mark_all
mark_all-done [] rows = tt
mark_all-done (c ∷ cs) rows = (
  omega (
    arith,
    mark_all-le c.id cs (mark_processed c.id rows),
    count-update_done (command_is c.id) (is_open c.id) (λ c. record c { processed = true }) rows
        (λ r p. ground arith) (λ r p. ground arith),
  ),
  mark_all-done cs (mark_processed c.id rows),
)

-- A poll returns at most `limit` commands, each of which was pending, and afterwards no pending
-- command has the id of one that was returned: no later poll hands it out again.
pub poll_commands_once :
    (limit : ℕ) (db : Db)
    → (length (poll_commands limit db).0 ≤ limit)
      × All (λ c. is_pending c ≡ true) (poll_commands limit db).0
      × All
          (λ c. count (is_open c.id) (poll_commands limit db).1.commands.rows ≡ 0)
          (poll_commands limit db).0
unfolding poll_commands pending_commands
poll_commands_once limit db = (
  length-take-le limit _,
  take-All (λ c. is_pending c ≡ true) limit _
      (sort_by-All _ (λ c. is_pending c ≡ true) (select is_pending db.commands.rows)
        (select-test is_pending db.commands.rows)),
  mark_all-done (pending_commands limit db) db.commands.rows,
)
