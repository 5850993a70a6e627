-- ===== src/Notifier/Verdict.antt =====
-- What an answer of `notify_discord_result` may be, and what file a token may come from
-- (lib/notifier.py).
use claude_discord_agent.Prelude.{
  ◌≡◌, refl, ◌%◌, Bool, true, false, ◌&&◌, ◌||◌, not, some, List, arith, leb, if◌then◌else◌, ◌==◌,
  Text,
}
use claude_discord_agent.Notifier.{
  delivered, temporary, hopeless, Reply, response, http_error, network_error, read_reply, has_token,
  notify_discord_result,
}
use claude_discord_agent.Notifier.Token.{EnvFile, Environment, read_secure_env_file, load_token}

abbrev pub is_success_code : Reply → Bool
is_success_code (response status) = status == 200 || status == 201
is_success_code _ = false

abbrev pub is_retry_code : Reply → Bool
is_retry_code (response status) = false
is_retry_code (http_error code) = code == 429 || (leb 500 code && leb code 504 && not (code == 501))
is_retry_code network_error = true

read_reply-value :
    (reply : Reply)
    → read_reply reply ≡ (
        if is_success_code reply
        then delivered
        else if is_retry_code reply
        then temporary
        else hopeless)
unfolding read_reply
read_reply-value (response status) = refl
read_reply-value (http_error code) = ground arith
read_reply-value network_error = refl

-- The answer is a success exactly where there is a token and Discord replies 200 or 201, it may be
-- retried exactly where there is a token and Discord replies 429, 500, 502, 503 or 504 or cannot be
-- reached, and it is permanent exactly in the other cases.
pub notify_discord_result-cases :
    (env : Environment) (reply : Reply)
    → ((notify_discord_result env reply).success
        ≡ has_token (load_token env) && is_success_code reply)
      × ((notify_discord_result env reply).retry
          ≡ has_token (load_token env) && is_retry_code reply)
      × ((notify_discord_result env reply).permanent
          ≡ not (has_token (load_token env) && (is_success_code reply || is_retry_code reply)))
unfolding notify_discord_result
notify_discord_result-cases env reply = ground (arith, read_reply-value reply, exclusive reply)
  where
    exclusive : (reply : Reply) → (is_success_code reply && is_retry_code reply) ≡ false
    exclusive (response status) = ground arith
    exclusive (http_error code) = refl
    exclusive network_error = refl

-- Lines are read only from a file that is no link, opens, is regular, belongs to the user, and that
-- neither the group nor others may use.
pub read_secure_env_file-IsPrivate :
    (f : EnvFile) (ls : List Text)
    → read_secure_env_file f ≡ some ls
    → (f.is_symlink ≡ false)
      × (f.opens ≡ true)
      × (f.is_regular ≡ true)
      × (f.is_ours ≡ true)
      × (f.mode % 64 ≡ 0)
      × (f.contents ≡ some ls)
unfolding read_secure_env_file
read_secure_env_file-IsPrivate f ls e = ground arith
