-- ===== src/Timeparse.antt =====
-- lib/timeparse.py: relative times, epoch numbers and ISO 8601 dates to a clock reading. A text is
-- the list of its code points, and a second is 1000 ticks.
pub mod Relative
pub mod Meaning
use claude_discord_agent.Prelude.{
  ℕ, ◌+◌, ◌*◌, Bool, true, false, Option, none, some, List, [], ◌∷◌, ltb, leb, if◌then◌else◌,
  String, codes, Text,
}
use claude_discord_agent.Db.Types.{Time}
use Relative.{match_relative, amount_ticks, ticks_per_second}

-- Python's `str.strip`, `float` and `datetime.strptime(…).timestamp()`; `none` is a `ValueError`.
-- `to_float` gives a number of ticks, and 0 for one that is not positive.
pub record TimeLib : Type 0 where
  pub strip : Text → Text
  pub to_float : Text → Option Time
  pub strptime_aware : Text → Text → Option Time
  pub strptime_naive : Text → Text → Option Time

-- _ISO_AWARE_FMTS
abbrev pub iso_aware_formats : List Text
iso_aware_formats = codes "%Y-%m-%dT%H:%M:%S%z" ∷ codes "%Y-%m-%dT%H:%M:%S.%f%z" ∷ []

-- _ISO_NAIVE_FMTS
abbrev pub iso_naive_formats : List Text
iso_naive_formats =
    codes "%Y-%m-%dT%H:%M:%S"
    ∷ codes "%Y-%m-%dT%H:%M:%S.%f"
    ∷ codes "%Y-%m-%dT%H:%M"
    ∷ codes "%Y-%m-%d"
    ∷ []

-- The loops over the formats: the first that fits gives the result.
unfoldable pub first_format : (Text → Text → Option Time) → List Text → Text → Option Time
first_format strptime [] expr = none
first_format strptime (f ∷ fs) expr =
    let rest = first_format strptime fs expr in
    elim (strptime f expr) [ some t ↦ some t | none ↦ rest ]

-- The least epoch that a bare number may stand for: 1_000_000_000 seconds.
abbrev pub epoch_floor : Time
epoch_floor = 1_000_000_000 * ticks_per_second

module _ (lib : TimeLib) where
  -- The formats that are tried once the text is no relative time.
  unfoldable pub parse_absolute : Text → Option Time
  parse_absolute expr =
      let iso : Option Time = elim (first_format lib.strptime_aware iso_aware_formats expr) [
        | some t ↦ some t
        | none ↦ first_format lib.strptime_naive iso_naive_formats expr
      ] in
      elim (lib.to_float expr) [
        | none ↦ iso
        | some val ↦ if ltb epoch_floor val then some val else iso
      ]

  -- `none` is a `ValueError`.
  unfoldable pub parse_enqueue_at : Text → Time → Option Time
  unfolding parse_absolute
  parse_enqueue_at text now =
      let expr = lib.strip text in
      elim (match_relative expr) [
        | some (amount, unit) ↦ some (now + amount_ticks amount unit)
        | none ↦ parse_absolute expr
      ]
