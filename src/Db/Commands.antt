-- ===== src/Db/Commands.antt =====
-- The queue of commands to the daemon (lib/db.py).
use claude_discord_agent.Prelude.{
  ℕ, Bool, true, false, not, Option, String, List, [], ◌∷◌, leb, ◌==◌, take,
}
use claude_discord_agent.Table.{insert_row, select, update, sort_by}
use claude_discord_agent.Db.Types.{Db, Command, CommandPayload, Time}

abbrev pub command_is : ℕ → Command → Bool
command_is i c = c.id == i

abbrev pub is_pending : Command → Bool
is_pending c = not c.processed

abbrev pub new_command : String → Option CommandPayload → Time → ℕ → Command
new_command command payload now id = record {
  id = id;
  command = command;
  payload = payload;
  created_at = now;
  processed = false;
}

unfoldable pub enqueue_command : String → Option CommandPayload → Time → Db → ℕ × Db
enqueue_command command payload now db =
    let (id, commands) = insert_row (new_command command payload now) db.commands in
    (id, record db { commands = commands })

-- UPDATE daemon_commands SET processed = 1 WHERE id = ?
abbrev pub mark_processed : ℕ → List Command → List Command
mark_processed i = update (command_is i) (λ c. record c { processed = true })

-- The loop of `poll_commands` over the rows that it has read.
unfoldable pub mark_all : List Command → List Command → List Command
mark_all [] rows = rows
mark_all (c ∷ cs) rows = mark_all cs (mark_processed c.id rows)

-- SELECT * WHERE processed = 0 ORDER BY created_at LIMIT ?
unfoldable pub pending_commands : ℕ → Db → List Command
pending_commands limit db =
    take limit (sort_by (λ a b. leb a.created_at b.created_at) (select is_pending db.commands.rows))

unfoldable pub poll_commands : ℕ → Db → List Command × Db
poll_commands limit db =
    let cs = pending_commands limit db in
    (
      cs,
      record db {
        commands = record { rows = mark_all cs db.commands.rows; next_id = db.commands.next_id };
      },
    )
