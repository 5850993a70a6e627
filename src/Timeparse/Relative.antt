-- ===== src/Timeparse/Relative.antt =====
-- The regular expression `^\+(\d+(?:\.\d+)?)(w|d|h|m|s)$` of lib/timeparse.py, without regard to
-- case, and the amount that it captures.
use claude_discord_agent.Prelude.{
  ℕ, ◌+◌, ◌-◌, ◌*◌, ◌/◌, ◌^◌, Bool, ◌&&◌, ◌||◌, Option, none, some, List, [], ◌∷◌, leb, ◌==◌,
  if◌then◌else◌, Text, length,
}
use claude_discord_agent.Db.Types.{Time}

-- A decimal number: its digits before and after the point.
pub record Decimal : Type 0 where
  pub whole : List ℕ
  pub fraction : List ℕ

abbrev pub is_digit : ℕ → Bool
is_digit c = leb b'0' c && leb c b'9'

-- The longest run of digits at the front, as numbers, and what follows it.
unfoldable pub span_digits : Text → List ℕ × Text
span_digits [] = ([], [])
span_digits (c ∷ cs) =
    let (ds, rest) = span_digits cs in if is_digit c then ((c - b'0') ∷ ds, rest) else ([], c ∷ cs)

-- _UNIT_SECONDS, by the unit's letter in either case
unfoldable pub unit_seconds : ℕ → Option ℕ
unit_seconds c =
    if c == b'w' || c == b'W'
    then some (7 * 24 * 3600)
    else if c == b'd' || c == b'D'
    then some (24 * 3600)
    else if c == b'h' || c == b'H'
    then some 3600
    else if c == b'm' || c == b'M'
    then some 60
    else if c == b's' || c == b'S'
    then some 1
    else none

-- The unit, which must end the text.
unfoldable pub match_unit : Decimal → Text → Option (Decimal × ℕ)
unfolding unit_seconds
match_unit d [] = none
match_unit d (c ∷ []) = elim (unit_seconds c) [ none ↦ none | some u ↦ some (d, u) ]
match_unit d (c ∷ c' ∷ cs) = none

-- What may follow the digits: a point with digits behind it, or the unit.
unfoldable pub match_fraction : List ℕ → Text → Option (Decimal × ℕ)
unfolding match_unit span_digits
match_fraction whole [] = none
match_fraction whole (c ∷ cs) =
    if c == b'.'
    then (let (ds, rest) = span_digits cs in
        elim ds [
          | [] ↦ none
          | d ∷ ds' ↦ match_unit (record { whole = whole; fraction = d ∷ ds' }) rest
        ])
    else match_unit (record { whole = whole; fraction = [] }) (c ∷ cs)

unfoldable pub match_digits : Text → Option (Decimal × ℕ)
unfolding match_fraction
match_digits cs =
    let (ds, rest) = span_digits cs in
    elim ds [ [] ↦ none | d ∷ ds' ↦ match_fraction (d ∷ ds') rest ]

unfoldable pub match_relative : Text → Option (Decimal × ℕ)
unfolding match_digits
match_relative [] = none
match_relative (c ∷ cs) = if c == b'+' then match_digits cs else none

unfoldable pub digits_value : ℕ → List ℕ → ℕ
digits_value acc [] = acc
digits_value acc (d ∷ ds) = digits_value (acc * 10 + d) ds

abbrev pub ticks_per_second : ℕ
ticks_per_second = 1000

-- `amount * _UNIT_SECONDS[unit]` in ticks, rounded down.
unfoldable pub amount_ticks : Decimal → ℕ → Time
unfolding digits_value
amount_ticks d unit =
    digits_value (digits_value 0 d.whole) d.fraction
    * (unit * ticks_per_second)
    / 10 ^ length d.fraction
