-- ===== src/Notifier.antt =====
-- lib/notifier.py: the bot token, and one POST to the Discord API as a structured result.
pub mod Token
pub mod Verdict
use claude_discord_agent.Prelude.{
  ℕ, Bool, true, false, ◌||◌, Option, none, some, List, [], ◌∷◌, ◌==◌, if◌then◌else◌, Text,
}
use Token.{load_token, Environment}

-- `reason` is a text for the log, and left out.
pub record NotifyResult : Type 0 where
  pub success : Bool
  pub retry : Bool
  pub permanent : Bool

abbrev pub delivered : NotifyResult
delivered = record { success = true; retry = false; permanent = false }

abbrev pub temporary : NotifyResult
temporary = record { success = false; retry = true; permanent = false }

abbrev pub hopeless : NotifyResult
hopeless = record { success = false; retry = false; permanent = true }

-- What `urlopen` does: a response, an `HTTPError` with its code, or another exception.
pub data Reply : Type 0 where
  response : ℕ → Reply
  http_error : ℕ → Reply
  network_error : Reply

-- `e.code in (429, 500, 502, 503, 504)`
abbrev pub is_temporary : ℕ → Bool
is_temporary code = code == 429 || code == 500 || code == 502 || code == 503 || code == 504

unfoldable pub read_reply : Reply → NotifyResult
read_reply (response status) = if status == 200 || status == 201 then delivered else hopeless
read_reply (http_error code) = if is_temporary code then temporary else hopeless
read_reply network_error = temporary

-- `if not token`
abbrev pub has_token : Option Text → Bool
has_token none = false
has_token (some []) = false
has_token (some (c ∷ cs)) = true

-- `reply` is what the server answers to this message.
unfoldable pub notify_discord_result : Environment → Reply → NotifyResult
unfolding read_reply
notify_discord_result env reply = if has_token (load_token env) then read_reply reply else hopeless

-- `notify_discord`: `bool(result)` is its success.
unfoldable pub notify_discord : Environment → Reply → Bool
unfolding notify_discord_result
notify_discord env reply = (notify_discord_result env reply).success
