-- ===== src/Runner/Limits.antt =====
-- Rate limits in a worker's output (lib/runner.py).
use claude_discord_agent.Prelude.{
  ℕ, ◌-◌, Bool, true, false, ◌&&◌, ◌||◌, List, [], ◌∷◌, ◌==◌, length, codes, Text,
}

-- `text.startswith(prefix)`
unfoldable pub starts_with : Text → Text → Bool
starts_with [] text = true
starts_with (p ∷ ps) [] = false
starts_with (p ∷ ps) (c ∷ cs) = p == c && starts_with ps cs

-- `pat in text`
unfoldable pub contains : Text → Text → Bool
unfolding starts_with
contains pat [] = starts_with pat []
contains pat (c ∷ cs) = starts_with pat (c ∷ cs) || contains pat cs

-- RATE_LIMIT_PATTERNS
abbrev pub rate_limit_patterns : List Text
rate_limit_patterns =
    codes "rate limit"
    ∷ codes "rate_limit"
    ∷ codes "too many requests"
    ∷ codes "429"
    ∷ codes "overloaded"
    ∷ []

unfoldable pub contains_any : List Text → Text → Bool
unfolding contains
contains_any [] text = false
contains_any (p ∷ ps) text = contains p text || contains_any ps text

-- `lower` is Python's `str.lower`.
module _ (lower : Text → Text) where
  unfoldable pub is_rate_limit_error : Text → Bool
  unfolding contains_any
  is_rate_limit_error text = contains_any rate_limit_patterns (lower text)

  unfoldable pub any_rate_limit : List Text → Bool
  unfolding is_rate_limit_error
  any_rate_limit [] = false
  any_rate_limit (l ∷ ls) = is_rate_limit_error l || any_rate_limit ls

  unfoldable pub drop_lines : ℕ → List Text → List Text
  drop_lines ℕ.zero ls = ls
  drop_lines (ℕ.suc n) [] = []
  drop_lines (ℕ.suc n) (l ∷ ls) = drop_lines n ls

  -- `_check_rate_limit`: all of stderr, and the last ten lines of stdout.
  unfoldable pub check_rate_limit : List Text → List Text → Bool
  unfolding any_rate_limit drop_lines
  check_rate_limit stderr_lines output_lines =
      any_rate_limit stderr_lines
      || any_rate_limit (drop_lines (length output_lines - 10) output_lines)
