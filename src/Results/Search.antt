-- ===== src/Results/Search.antt =====
-- Python's `str.find` and `str.rfind`, on texts as lists of code points.
use claude_discord_agent.Prelude.{
  ℕ, zero, suc, ◌+◌, ◌==◌, ◌≡◌, refl, Bool, true, false, ◌&&◌, Option, none, some, List, [], ◌∷◌,
  ◌++◌, Text, All, length, if◌then◌else◌, Bool-cases, inl, inr, arith, ap, subst,
}
use mathlib.Core.Option.{map as option_map}

-- `text.startswith(sub)`
abbrev pub starts_with : Text → Text → Bool
starts_with [] text = true
starts_with (a ∷ sub) [] = false
starts_with (a ∷ sub) (c ∷ text) = (a == c) && starts_with sub text

-- `text.find(sub)`; -1 is `none`.
unfoldable pub find : Text → Text → Option ℕ
find sub [] = if starts_with sub [] then some 0 else none
find sub (c ∷ text) =
    let rest = find sub text in if starts_with sub (c ∷ text) then some 0 else option_map suc rest

-- `text.rfind(sub)`; -1 is `none`.
unfoldable pub rfind : Text → Text → Option ℕ
rfind sub [] = if starts_with sub [] then some 0 else none
rfind sub (c ∷ text) = elim (rfind sub text) [
  | some i ↦ some (suc i)
  | none ↦ if starts_with sub (c ∷ text) then some 0 else none
]

-- `text[:n]` and `text[n:]` for a place in the text.
abbrev pub before : ℕ → Text → Text
before zero text = []
before (suc n) [] = []
before (suc n) (c ∷ text) = c ∷ before n text

abbrev pub after : ℕ → Text → Text
after zero text = text
after (suc n) [] = []
after (suc n) (c ∷ text) = after n text

-- The text's endings, itself included and the empty one not.
abbrev pub endings : Text → List Text
endings [] = []
endings (c ∷ text) = (c ∷ text) ∷ endings text

-- No ending of the one text begins the other.
abbrev pub NoOverlap : Text → Text → Type 0
NoOverlap sub text = All (λ s. starts_with s text ≡ false) (endings sub)

abbrev pub NoTailOverlap : Text → Text → Type 0
NoTailOverlap [] text = Unit
NoTailOverlap (c ∷ sub) text = NoOverlap sub text

pub before-append : (p q : Text) → before (length p) (p ++ q) ≡ p
before-append [] q = refl
before-append (c ∷ p) q = ap (λ r. c ∷ r) (before-append p q)

pub after-append : (p q : Text) → after (length p) (p ++ q) ≡ q
after-append [] q = refl
after-append (c ∷ p) q = after-append p q

-- What a text does not begin with, it does not begin with once a text without overlap follows.
starts_with-append :
    (sub p q : Text)
    → NoOverlap sub q
    → starts_with sub p ≡ false
    → starts_with sub (p ++ q) ≡ false
starts_with-append [] p q o h = h
starts_with-append (a ∷ sub) [] q o h = o.0
starts_with-append (a ∷ sub) (c ∷ p) q o h = elim (Bool-cases (a == c)) [
  | inl e ↦ rw e (starts_with-append sub p q o.1 (subst (λ b. b && starts_with sub p ≡ false) e h))
  | inr e ↦ rw e refl
]

-- Past the first character an ending of `sub` is all that could lie across the border.
starts_with-append_inside :
    (sub p q : Text) (c : ℕ)
    → NoTailOverlap sub q
    → starts_with sub (c ∷ p) ≡ false
    → starts_with sub (c ∷ (p ++ q)) ≡ false
starts_with-append_inside [] p q c o h = h
starts_with-append_inside (a ∷ sub) p q c o h = elim (Bool-cases (a == c)) [
  | inl e ↦ rw e (starts_with-append sub p q o (subst (λ b. b && starts_with sub p ≡ false) e h))
  | inr e ↦ rw e refl
]

find-none-here : (sub p : Text) (c : ℕ) → find sub (c ∷ p) ≡ none → starts_with sub (c ∷ p) ≡ false
unfolding find
find-none-here sub p c h = ground arith

find-none-later : (sub p : Text) (c : ℕ) → find sub (c ∷ p) ≡ none → find sub p ≡ none
unfolding find
find-none-later sub p c h = ground arith

-- A text that is not in `p` or `q` is not in `p ++ q`, if it cannot lie across the border.
pub rfind-append_none :
    (sub p q : Text)
    → NoTailOverlap sub q
    → find sub p ≡ none
    → rfind sub q ≡ none
    → rfind sub (p ++ q) ≡ none
unfolding rfind
rfind-append_none sub [] q o hp hq = hq
rfind-append_none sub (c ∷ p) q o hp hq =
    rw
      (
        rfind-append_none sub p q o (find-none-later sub p c hp) hq,
        starts_with-append_inside sub p q c o (find-none-here sub p c hp),
      )
      refl

pub rfind-append :
    (sub p q : Text) (i : ℕ) → rfind sub q ≡ some i → rfind sub (p ++ q) ≡ some (length p + i)
unfolding rfind
rfind-append sub [] q i h = rw h (ap some (omega arith))
rfind-append sub (c ∷ p) q i h = rw (rfind-append sub p q i h) (ap some (omega arith))

pub find-append :
    (sub p q : Text)
    → NoTailOverlap sub q
    → find sub p ≡ none
    → find sub q ≡ some 0
    → find sub (p ++ q) ≡ some (length p)
unfolding find
find-append sub [] q o hp hq = hq
find-append sub (c ∷ p) q o hp hq =
    rw
      (
        find-append sub p q o (find-none-later sub p c hp) hq,
        starts_with-append_inside sub p q c o (find-none-here sub p c hp),
      )
      refl

after_empty : (n : ℕ) → after n [] ≡ []
after_empty zero = refl
after_empty (suc n) = refl

pub after_add : (a b : ℕ) (text : Text) → after (a + b) text ≡ after b (after a text)
after_add zero b text = ap (λ n. after n text) (omega arith)
after_add (suc a) b [] = rw (after_empty (suc a + b), after_empty b) refl
after_add (suc a) b (c ∷ text) =
    let e : suc (a + b) ≡ suc a + b = omega arith in
    subst (λ n. after n (c ∷ text) ≡ after b (after a text)) e (after_add a b text)
