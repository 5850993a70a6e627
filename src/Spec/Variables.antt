-- ===== src/Spec/Variables.antt =====
-- What `Spec.render` hands to the template, and what it lets through.
use claude_discord_agent.Prelude.{
  ◌≡◌, refl, ap, ◌∙◌, Bool, true, false, ◌||◌, Option, none, some, String, List, [], ◌∷◌, Text,
  str_eq, eq_iff, if◌then◌else◌, ok, raised, spec_error, coalesce, Bool-cases, Option-cases, inl,
  inr, arith, subst, ◌↔◌, ◌≢◌, Error,
}
use claude_discord_agent.Prelude.Returns.{ok-injective}
use claude_discord_agent.Spec.Render.{
  Vars, lookup, set_var, Spec, all_given, fill_optional, update_vars, filled_vars, has_placeholder,
  Substitute, checked, render,
}

-- `name in names`
abbrev pub is_optional : String → List String → Bool
is_optional k [] = false
is_optional k (v ∷ vs) = str_eq v k || is_optional k vs

lookup-set_var :
    (k j : String) (v : Text) (vs : Vars)
    → lookup k (set_var j v vs) ≡ (if str_eq j k then some v else lookup k vs)
lookup-set_var k j v [] = refl
lookup-set_var k j v ((i, w) ∷ vs) =
    ground (arith, lookup-set_var k j v vs, eq_iff i j, eq_iff i k, eq_iff j k)

-- No key stands twice.
abbrev pub IsDict : Vars → Type 0
IsDict [] = Unit
IsDict ((k, v) ∷ vs) = (lookup k vs ≡ none) × IsDict vs

-- `d.get(k)` of one dict, else of another
abbrev pub else_in : Option Text → Option Text → Option Text
else_in none other = other
else_in (some v) other = some v

lookup-update_vars :
    (k : String) (filled vars : Vars)
    → IsDict vars
    → lookup k (update_vars filled vars) ≡ else_in (lookup k vars) (lookup k filled)
unfolding update_vars
lookup-update_vars k filled [] h = refl
lookup-update_vars k filled ((j, v) ∷ vars) h =
    lookup-update_vars k (set_var j v filled) vars h.1 ∙ elim (Bool-cases (str_eq j k)) [
      | inl t ↦
          let absent : lookup k vars ≡ none =
            subst (λ l. lookup l vars ≡ none) ((eq_iff j k).0 t) h.0 in
          rw (lookup-set_var k j v filled, t, absent) refl
      | inr t ↦ rw (lookup-set_var k j v filled, t) refl
    ]

lookup-fill_optional :
    (k : String) (names : List String) (vars filled : Vars)
    → lookup k (fill_optional names vars filled)
      ≡ (if is_optional k names then some (coalesce (lookup k vars) []) else lookup k filled)
unfolding fill_optional
lookup-fill_optional k [] vars filled = refl
lookup-fill_optional k (v ∷ names) vars filled =
    lookup-fill_optional k names vars (set_var v (coalesce (lookup v vars) []) filled)
    ∙ ground (arith, lookup-set_var k v (coalesce (lookup v vars) []) filled, eq_iff v k)

filled_vars_lem :
    (spec : Spec) (vars : Vars) (k : String)
    → IsDict vars
    → lookup k (filled_vars spec vars)
      ≡ else_in (lookup k vars) (if is_optional k spec.optional_vars then some [] else none)
unfolding filled_vars
filled_vars_lem spec vars k h =
    let optional = fill_optional spec.optional_vars vars [] in
    lookup-update_vars k optional vars h ∙ elim (Option-cases (lookup k vars)) [
      | inl e ↦ rw (lookup-fill_optional k spec.optional_vars vars [], e) refl
      | inr (v, e) ↦ rw e refl
    ]

raised_not_ok : {e : Error} {t : Text} → raised e ≢ ok t
raised_not_ok h = cc

checked_only :
    (b : Bool) (o : Option Text) (result : Text)
    → (if b then checked o else raised spec_error) ≡ ok result
    → (b ≡ true) × (o ≡ some result) × (has_placeholder result ≡ false)
checked_only false o result h = absurd (cc)
checked_only true none result h = absurd (cc)
checked_only true (some text) result h = elim (Bool-cases (has_placeholder text)) [
  | inl t ↦ absurd (raised_not_ok (rw t at h))
  | inr t ↦
      let same = ok-injective text result (rw t at h) in
      (refl, ap some same, subst (λ r. has_placeholder r ≡ false) same t)
]

-- `render` gives a text exactly where every required variable is given and the template takes the
-- variables to that text without a placeholder left; the template sees a variable that is given as
-- it is given, an optional one that is not given as the empty text, and no other.
pub render_lem :
    (substitute : Substitute) (spec : Spec) (vars : Vars) (result : Text)
    → IsDict vars
    → ((render substitute spec vars ≡ ok result) ↔ (
        (all_given spec.required_vars vars ≡ true)
        × (substitute spec.task_template (filled_vars spec vars) ≡ some result)
        × (has_placeholder result ≡ false)))
      × ((k : String)
          → lookup k (filled_vars spec vars)
            ≡ else_in (lookup k vars) (if is_optional k spec.optional_vars then some [] else none))
unfolding render
render_lem substitute spec vars result h = (
  (
    checked_only (all_given spec.required_vars vars)
        (substitute spec.task_template (filled_vars spec vars)) result,
    λ (given, text, clean). rw (render, given, text, clean) refl,
  ),
  λ k. filled_vars_lem spec vars k h,
)
