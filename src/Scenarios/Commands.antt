-- ===== src/Scenarios/Commands.antt =====
-- The theorems on the registry and the command line at a small database.
use claude_discord_agent.Prelude.{
  ◌≡◌, refl, ℕ, ◌≤◌, true, false, none, some, [], ◌∷◌, length, ok, arith, map,
}
use claude_discord_agent.Prelude.Int.{pos}
use claude_discord_agent.Prelude.Json.{null, str, obj, Fields, end, field}
use claude_discord_agent.Table.{find, exists, select}
use claude_discord_agent.Db.Lifecycle.{queued}
use claude_discord_agent.Db.Types.{Db, Repo, new_db}
use claude_discord_agent.Db.Jobs.{get_job, create_job}
use claude_discord_agent.Db.Repos.{
  RepoOptions, set_model, create_repo, get_repo, get_repo_by_alias, names_contain,
}
use claude_discord_agent.Db.Commands.{is_pending}
use claude_discord_agent.Db.Delivery.{claim_for_fallback}
use claude_discord_agent.System.{on_db}
use claude_discord_agent.Timeparse.{TimeLib}
use claude_discord_agent.Scheduler.Chain.{Codec}
use claude_discord_agent.Steps.{creates_repo, perform}
use claude_discord_agent.Daemon.Commands.{process_commands}
use claude_discord_agent.Registry.Preflight.{Host}
use claude_discord_agent.Registry.Repos.{RegisterOptions, resolve, list_all}
use claude_discord_agent.Registry.Exchange.{import_json, export_json, entry_of}
use claude_discord_agent.Registry.Roundtrip.{import_json-export_json}
use claude_discord_agent.Registry.Registration.{Registration, register_lem}
use claude_discord_agent.Cli.Chain.{build_chain_payload, payload_key, set_key}
use claude_discord_agent.Cli.Control.{cmd_kill, cmd_report_done}
use claude_discord_agent.Cli.Repos.{UpdateArgs, cmd_update_repo, place_fields}
use claude_discord_agent.Cli.Main.{World}
use claude_discord_agent.Cli.Kills.{killed, cmd_kill-process_commands}
use claude_discord_agent.Cli.Reports.{cmd_report_done_blocks}
use claude_discord_agent.Cli.Unroll.{unroll, unroll-build_chain_payload}
use claude_discord_agent.Cli.Aliases.{cmd_update_repo-alias}
use claude_discord_agent.Scenarios.Store.{
  queued_db, done_db, done_db-IsConsistent, queued_job, job_at, web, over,
}

-- A host where every path is a directory at the root of a work tree.
abbrev host : Host
host = record {
  exists = λ _. true;
  is_dir = λ _. true;
  resolve_path = λ p. p;
  strip = λ s. s;
  git = λ _ _. ok (record { returncode = pos 0; stdout = "/srv/api" });
  saves_export = true;
}

abbrev settings : RegisterOptions
settings = record { aliases = []; model = "opus"; max_concurrency = 3; skip_preflight = false }

register_lem_example : Registration host "api" "/srv/api" settings 20 queued_db
register_lem_example = register_lem host "api" "/srv/api" settings 20 queued_db

import_json-export_json_example :
    ((import_json (λ _. 30) (some (export_json done_db)) new_db).0 ≡ ok (length (list_all done_db)))
    × (map entry_of (import_json (λ _. 30) (some (export_json done_db)) new_db).1.repos.rows
        ≡ export_json done_db)
import_json-export_json_example = import_json-export_json (λ _. 30) done_db done_db-IsConsistent

abbrev no_dates : TimeLib
no_dates = record {
  strip = λ t. t;
  to_float = λ _. none;
  strptime_aware = λ _ _. none;
  strptime_naive = λ _ _. none;
}

-- The first entry of a chain, and the second.
abbrev build_first : Fields
build_first = field "repo" (str "web") (field "task" (str "build") end)

abbrev then_ship : Fields
then_ship = field "repo" (str "web") (field "task" (str "ship") end)

abbrev shipped : Fields
shipped = set_key payload_key null then_ship

abbrev codec : Codec
codec = record {
  loads = λ _. some (obj shipped);
  dumps = λ _. "the rest";
  to_str = λ _. "";
  bind_text = λ _. some "ship";
}

abbrev world : World
world = record {
  host = host;
  codec = codec;
  time_lib = no_dates;
  specs = record {
    host = record {
      read_text = λ _. none;
      match_frontmatter = λ _. none;
      strip = λ t. t;
      toml_loads = λ _. none;
      exists = λ _. false;
      is_absolute = λ _. false;
      md_path = λ d i. i;
      plain_path = λ d i. i;
      sorted_md = λ _. [];
    };
    substitute = λ t _. some t;
    from_codes = λ _. "";
  };
  from_env = none;
  now = 10;
  now' = 10;
}

quiet : select is_pending queued_db.commands.rows ≡ []
unfolding select perform create_repo create_job exists
quiet = refl

cmd_kill-process_commands_example :
    ((cmd_kill (some 1) "web" 10 queued_db).0 ≡ ok 0)
    × (get_job 1
          (process_commands
            (λ _. 11)
            true
            (on_db (cmd_kill (some 1) "web" 10) (over queued_db)).1).1.db
        ≡ some (killed 11 (job_at queued 5 none none)))
cmd_kill-process_commands_example =
    cmd_kill-process_commands 1 "web" 10 (λ _. 11) true (over queued_db) (job_at queued 5 none none)
      (omega arith) queued_job refl quiet

cmd_report_done_blocks_example : (claim_for_fallback 1 (cmd_report_done 1 10 queued_db).1).0 ≡ false
cmd_report_done_blocks_example = cmd_report_done_blocks 1 10 queued_db

unroll-build_chain_payload_example :
    (p : Fields) × (build_chain_payload (build_first ∷ then_ship ∷ []) ≡ some p)
    × ((n : ℕ)
        → length (build_first ∷ then_ship ∷ []) ≤ n
        → unroll n p ≡ build_first ∷ then_ship ∷ [])
unroll-build_chain_payload_example =
    unroll-build_chain_payload build_first (then_ship ∷ []) (refl, (refl, tt))

abbrev nicknamed : RepoOptions
nicknamed = record {
  aliases = "w" ∷ [];
  expected_git_root = none;
  model = "sonnet";
  max_concurrency = 2;
}

abbrev nicknamed_db : Db
nicknamed_db = perform (creates_repo "web" "/srv/web" nicknamed 1) new_db

abbrev nicknamed_repo : Repo
nicknamed_repo = record web { aliases = "w" ∷ [] }

abbrev to_opus : UpdateArgs
to_opus = record {
  name = "w";
  path = none;
  expected_git_root = none;
  model = some "opus";
  max_concurrency = none;
  skip_preflight = false;
}

unnamed : get_repo "w" nicknamed_db ≡ none
unfolding perform create_repo get_repo find exists
unnamed = refl

by_alias : resolve "w" nicknamed_db ≡ ok nicknamed_repo
unfolding perform create_repo get_repo get_repo_by_alias find exists resolve names_contain
by_alias = refl

no_place : place_fields host to_opus ≡ ok []
unfolding place_fields
no_place = refl

cmd_update_repo-alias_example : cmd_update_repo host to_opus nicknamed_db ≡ (ok 0, nicknamed_db)
cmd_update_repo-alias_example =
    cmd_update_repo-alias host to_opus [] [] (set_model "opus") nicknamed_repo nicknamed_db unnamed
      by_alias no_place refl
