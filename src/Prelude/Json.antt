-- ===== src/Prelude/Json.antt =====
-- The Python values that `json.loads` returns.
use claude_discord_agent.Prelude.{
  Bool, true, false, not, Option, none, some, String, is_empty, str_eq, if◌then◌else◌, ◌||◌, Result,
  ok, raised, type_error, ◌≡◌, refl,
}
use claude_discord_agent.Prelude.Int.{ℤ, pos, eq_ℤ}

mutual
  pub data Json : Type 0 where
    null : Json
    bool : Bool → Json
    int : ℤ → Json
    -- a float, by its `repr`
    float : String → Json
    str : String → Json
    arr : Items → Json
    obj : Fields → Json

  pub data Items : Type 0 where
    nil : Items
    cons : Json → Items → Items

  pub data Fields : Type 0 where
    end : Fields
    field : String → Json → Fields → Fields

-- `bool(v)`
abbrev pub truthy : Json → Bool
truthy null = false
truthy (bool b) = b
truthy (int n) = not (eq_ℤ n (pos 0))
truthy (float t) = not (str_eq t "0.0" || str_eq t "-0.0")
truthy (str s) = not (is_empty s)
truthy (arr nil) = false
truthy (arr (cons x xs)) = true
truthy (obj end) = false
truthy (obj (field k v fs)) = true

-- `d.get(k)`; a missing key gives `None`.
abbrev pub get : String → Fields → Json
get k end = null
get k (field j v fs) = let rest = get k fs in if str_eq j k then v else rest

-- `v or d`, where `d` is a text or `None`.
abbrev pub or_text : Json → Option String → Json
or_text v none = if truthy v then v else null
or_text v (some d) = if truthy v then v else str d

-- `d.get(k, d)` with another default
abbrev pub get_or : String → Json → Fields → Json
get_or k d end = d
get_or k d (field j v fs) = let rest = get_or k d fs in if str_eq j k then v else rest

-- `k in d`
abbrev pub has_key : String → Fields → Bool
has_key k end = false
has_key k (field j v fs) = let rest = has_key k fs in str_eq j k || rest

-- `isinstance(v, dict)`, with the dict
abbrev pub as_object : Json → Option Fields
as_object null = none
as_object (bool b) = none
as_object (int n) = none
as_object (float t) = none
as_object (str s) = none
as_object (arr xs) = none
as_object (obj fs) = some fs

-- `isinstance(v, list)`, with the list
abbrev pub as_list : Json → Option Items
as_list null = none
as_list (bool b) = none
as_list (int n) = none
as_list (float t) = none
as_list (str s) = none
as_list (arr xs) = some xs
as_list (obj fs) = none

-- `v == t` for a text `t`
abbrev pub is_text : String → Json → Bool
is_text t null = false
is_text t (bool b) = false
is_text t (int n) = false
is_text t (float r) = false
is_text t (str s) = str_eq s t
is_text t (arr xs) = false
is_text t (obj fs) = false

-- `v is None`
abbrev pub is_null : Json → Bool
is_null null = true
is_null (bool b) = false
is_null (int n) = false
is_null (float t) = false
is_null (str s) = false
is_null (arr xs) = false
is_null (obj fs) = false

-- The texts of length one of which a text is made, and the keys of a dict.
abbrev pub characters : String → Items
characters String.[] = nil
characters (String.◌∷◌ c s) = cons (str (String.◌∷◌ c String.[])) (characters s)

abbrev pub keys : Fields → Items
keys end = nil
keys (field k v fs) = cons (str k) (keys fs)

-- `list(v)`, and what `for x in v` runs over
abbrev pub items_of : Json → Result Items
items_of null = raised type_error
items_of (bool b) = raised type_error
items_of (int n) = raised type_error
items_of (float t) = raised type_error
items_of (str s) = ok (characters s)
items_of (arr xs) = ok xs
items_of (obj fs) = ok (keys fs)

-- `v or []`, run over
abbrev pub items_or_none : Json → Result Items
items_or_none v = if truthy v then items_of v else ok nil

pub items_or_none_arr : (xs : Items) → items_or_none (arr xs) ≡ ok xs
items_or_none_arr nil = refl
items_or_none_arr (cons x xs) = refl
