-- ===== src/Notifier/Token.antt =====
-- Where the bot token comes from: `_load_token` and `_read_secure_env_file` (lib/notifier.py).
use claude_discord_agent.Prelude.{
  ℕ, ◌%◌, Bool, not, Option, none, some, List, [], ◌∷◌, ◌==◌, if◌then◌else◌, Text, codes,
}

-- What the file system says of the credentials file. `contents` is `none` where reading or decoding
-- it raises.
pub record EnvFile : Type 0 where
  pub is_symlink : Bool
  pub opens : Bool
  pub is_regular : Bool
  pub is_ours : Bool
  pub mode : ℕ
  pub contents : Option (List Text)

-- The environment variable, the file, and Python's `str.strip`.
pub record Environment : Type 0 where
  pub variable : Option Text
  pub file : EnvFile
  pub strip : Text → Text

-- `stat.S_IMODE(info.st_mode) & 0o077` is not 0: the group or others have a permission.
abbrev pub is_shared : ℕ → Bool
is_shared mode = not (mode % 64 == 0)

-- The lines of the file, or `none` if it is refused or cannot be read.
unfoldable pub read_secure_env_file : EnvFile → Option (List Text)
read_secure_env_file f =
    if f.is_symlink
    then none
    else if not f.opens
    then none
    else if not f.is_regular
    then none
    else if not f.is_ours
    then none
    else if is_shared f.mode
    then none
    else f.contents

-- `line[len(prefix):]` where `line.startswith(prefix)`
unfoldable pub strip_prefix : Text → Text → Option Text
strip_prefix [] line = some line
strip_prefix (p ∷ ps) [] = none
strip_prefix (p ∷ ps) (c ∷ cs) = let rest = strip_prefix ps cs in if p == c then rest else none

-- The loop over the lines.
unfoldable pub find_token : (Text → Text) → List Text → Option Text
unfolding strip_prefix
find_token strip [] = none
find_token strip (l ∷ ls) =
    let rest = find_token strip ls in
    elim (strip_prefix (codes "DISCORD_BOT_TOKEN=") (strip l)) [
      | some t ↦ some (strip t)
      | none ↦ rest
    ]

unfoldable pub token_of_file : Environment → Option Text
unfolding find_token read_secure_env_file
token_of_file env = elim (read_secure_env_file env.file) [
  | none ↦ none
  | some ls ↦ find_token env.strip ls
]

unfoldable pub load_token : Environment → Option Text
unfolding token_of_file
load_token env = elim env.variable [
  | none ↦ token_of_file env
  | some t ↦ elim t [ [] ↦ token_of_file env | c ∷ cs ↦ some (env.strip (c ∷ cs)) ]
]
