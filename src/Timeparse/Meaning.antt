-- ===== src/Timeparse/Meaning.antt =====
-- What a relative time such as `+90m` means (lib/timeparse.py).
use native.Mathlib.Nat.{div-one}
use claude_discord_agent.Prelude.{
  ℕ, ◌+◌, ◌-◌, ◌*◌, ◌≡◌, refl, ap, sym, subst, ◌∙◌, ◌<◌, Option, none, some, true, false, List, [],
  ◌∷◌, arith, All, ◌==◌, Text,
}
use claude_discord_agent.Db.Types.{Time}
use claude_discord_agent.Timeparse.{TimeLib, parse_enqueue_at}
use claude_discord_agent.Timeparse.Relative.{
  Decimal, is_digit, span_digits, unit_seconds, match_unit, match_fraction, match_digits,
  match_relative, digits_value, ticks_per_second, amount_ticks,
}

-- A plus sign, decimal digits and the letter of a unit.
abbrev pub written : List ℕ → ℕ → Text
written [] c = c ∷ []
written (d ∷ ds) c = (b'0' + d) ∷ written ds c

span-written :
    (ds : List ℕ) (c : ℕ)
    → All (λ d. d < 10) ds
    → is_digit c ≡ false
    → span_digits (written ds c) ≡ (ds, c ∷ [])
unfolding span_digits
span-written [] c h nd = rw nd refl
span-written (d ∷ ds) c h nd =
    let digit : is_digit (b'0' + d) ≡ true = ground (arith, h.0) in
    let value : b'0' + d - b'0' ≡ d = omega arith in
    rw (span-written ds c h.1 nd, digit, value) refl

unit-no_digit : (c secs : ℕ) → unit_seconds c ≡ some secs → is_digit c ≡ false
unfolding unit_seconds
unit-no_digit c secs e = ground arith

unit-no_point : (c secs : ℕ) → unit_seconds c ≡ some secs → (c == b'.') ≡ false
unfolding unit_seconds
unit-no_point c secs e = ground arith

match_fraction-unit :
    (ds : List ℕ) (c secs : ℕ)
    → unit_seconds c ≡ some secs
    → match_fraction ds (c ∷ []) ≡ some (record { whole = ds; fraction = [] }, secs)
unfolding match_fraction match_unit
match_fraction-unit ds c secs e = rw (unit-no_point c secs e, e, match_fraction, match_unit) refl

match_digits-span :
    (text rest : Text) (d : ℕ) (ds : List ℕ)
    → span_digits text ≡ (d ∷ ds, rest)
    → match_digits text ≡ match_fraction (d ∷ ds) rest
unfolding match_digits
match_digits-span text rest d ds h =
    subst
      (λ p.
        elim p.0 as (λ _. Option (Decimal × ℕ)) [ [] ↦ none | x ∷ xs ↦ match_fraction (x ∷ xs) p.1 ]
        ≡ match_fraction (d ∷ ds) rest)
      (sym h) refl

match_digits-written :
    (d : ℕ) (ds : List ℕ) (c secs : ℕ)
    → All (λ d. d < 10) (d ∷ ds)
    → unit_seconds c ≡ some secs
    → match_digits (written (d ∷ ds) c) ≡ some (record { whole = d ∷ ds; fraction = [] }, secs)
match_digits-written d ds c secs h e =
    match_digits-span (written (d ∷ ds) c) (c ∷ []) d ds
      (span-written (d ∷ ds) c h (unit-no_digit c secs e))
    ∙ match_fraction-unit (d ∷ ds) c secs e

-- A plus sign, one or more digits and the letter of a unit, in either case, mean that number of
-- units after the present time: the digits are read as a decimal number, and a unit is a week, a
-- day, an hour, a minute or a second.
pub parse_enqueue_at-relative :
    (lib : TimeLib) (text : Text) (now : Time) (d : ℕ) (ds : List ℕ) (c secs : ℕ)
    → lib.strip text ≡ b'+' ∷ written (d ∷ ds) c
    → All (λ d. d < 10) (d ∷ ds)
    → unit_seconds c ≡ some secs
    → parse_enqueue_at lib text now
      ≡ some (now + digits_value 0 (d ∷ ds) * (secs * ticks_per_second))
unfolding parse_enqueue_at match_relative amount_ticks digits_value
parse_enqueue_at-relative lib text now d ds c secs s h e =
    rw (s, match_digits-written d ds c secs h e, parse_enqueue_at)
      (ap (λ x. some (now + x)) (div-one (digits_value 0 (d ∷ ds) * (secs * ticks_per_second))))
