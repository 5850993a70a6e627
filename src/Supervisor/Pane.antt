-- ===== src/Supervisor/Pane.antt =====
-- The Controller's tmux pane (lib/supervisor.py): is it registered, there, and idle?
use claude_discord_agent.Prelude.{
  ℕ, Bool, true, false, ◌&&◌, ◌||◌, not, Option, none, some, List, [], ◌∷◌, leb, ◌==◌,
  if◌then◌else◌, last, Text, codes,
}

-- How a `send-keys` ends: it succeeds, it raises one of the two exceptions that are caught before
-- anything has reached the pane, or it raises one after that (the time limit).
pub data Sending : Type 0 where
  sends sends_nothing sends_and_raises : Sending

abbrev pub reaches_pane : Sending → Bool
reaches_pane sends_nothing = false
reaches_pane _ = true

abbrev pub is_sent : Sending → Bool
is_sent sends = true
is_sent _ = false

-- What the pane file and the tmux commands give. `none` is an exception.
pub record Tmux : Type 0 where
  -- `pane_file.read_text().strip()`
  pub pane_file : Option Text
  -- `list-panes`, split
  pub panes : Option (List Text)
  -- `#{pane_in_mode}`, stripped
  pub pane_mode : Option Text
  -- the lines of `capture-pane`, each stripped
  pub capture : Option (List Text)
  -- the `send-keys` of the text, and whether that of Enter succeeds
  pub sends_text : Sending
  pub sends_enter : Bool

abbrev pub is_digit : ℕ → Bool
is_digit c = leb b'0' c && leb c b'9'

unfoldable pub all_digits : Text → Bool
all_digits [] = true
all_digits (c ∷ cs) = is_digit c && all_digits cs

-- `re.match(r"^%\d+$", pane)`
unfoldable pub is_pane_id : Text → Bool
unfolding all_digits
is_pane_id [] = false
is_pane_id (c ∷ []) = false
is_pane_id (c ∷ d ∷ ds) = c == b'%' && all_digits (d ∷ ds)

unfoldable pub load_pane : Tmux → Option Text
unfolding is_pane_id
load_pane t = elim t.pane_file [ none ↦ none | some p ↦ if is_pane_id p then some p else none ]

unfoldable pub same_text : Text → Text → Bool
same_text [] [] = true
same_text (c ∷ cs) (d ∷ ds) = c == d && same_text cs ds
same_text _ _ = false

unfoldable pub contains_text : List Text → Text → Bool
unfolding same_text
contains_text [] p = false
contains_text (q ∷ qs) p = same_text q p || contains_text qs p

unfoldable pub pane_exists : Tmux → Text → Bool
unfolding contains_text
pane_exists t pane = elim t.panes [ none ↦ false | some ps ↦ contains_text ps pane ]

abbrev pub is_blank : Text → Bool
is_blank [] = true
is_blank (c ∷ cs) = false

unfoldable pub nonblank : List Text → List Text
nonblank [] = []
nonblank (l ∷ ls) = let rest = nonblank ls in if is_blank l then rest else l ∷ rest

-- The only entry of IDLE_PROMPT_PATTERNS, `^claude>\s*$`, on a stripped line.
unfoldable pub is_idle_prompt : Text → Bool
unfolding same_text
is_idle_prompt line = same_text line (codes "claude>")

-- Anything but a pane that is not in a mode and ends in an idle prompt counts as busy.
unfoldable pub is_pane_busy : Tmux → Bool
unfolding is_idle_prompt nonblank same_text
is_pane_busy t = elim t.pane_mode [
  | none ↦ true
  | some mode ↦ if not (same_text mode (codes "0")) then true else elim t.capture [
    | none ↦ true
    | some lines ↦ elim (last (nonblank lines)) [
      | none ↦ true
      | some line ↦ not (is_idle_prompt line)
    ]
  ]
]
