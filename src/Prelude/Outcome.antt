-- ===== src/Prelude/Outcome.antt =====
-- A Python call: it returns or raises, and what it has written to the state stays written.
use mathlib.Core.Path.{◌≡◌, refl, sym, subst, ap}

-- The exceptions that the modelled code raises or catches.
pub data Error : Type 0 where
  -- `ValueError` of `transition_job` and of `on_rate_limit`
  job_not_found invalid_transition : Error
  -- `sqlite3.IntegrityError`: a unique or a foreign key constraint
  integrity_error : Error
  -- `sqlite3` cannot bind a value of this type
  interface_error : Error
  -- `AttributeError` of `.get` on what is no object
  attribute_error : Error
  -- `RunnerError`, and another `OSError` of `Popen`
  runner_error os_error : Error
  -- `ValueError` elsewhere, its kind `JSONDecodeError`, `TypeError` and `OverflowError`
  value_error json_decode_error type_error overflow_error : Error
  -- `RegistryError` and `SpecError`, and `KeyError`
  registry_error spec_error key_error : Error

pub data Result (A : Type 0) : Type 0 where
  ok : A → Result A
  raised : Error → Result A

abbrev pub Action : Type 0 → Type 0 → Type 0
Action S A = S → Result A × S

module _ {S A : Type 0} where
  abbrev pub pure : A → Action S A
  pure a s = (ok a, s)

  abbrev pub raise : Error → Action S A
  raise e s = (raised e, s)

  abbrev pub gets : (S → A) → Action S A
  gets f s = (ok (f s), s)

infixl 5 ◌>>=◌ ◌>>◌
abbrev pub ◌>>=◌ : {S A B : Type 0} → Action S A → (A → Action S B) → Action S B
◌>>=◌ m f s = let (r, s') = m s in elim r [ ok a ↦ f a s' | raised e ↦ raise e s' ]

abbrev pub ◌>>◌ : {S A B : Type 0} → Action S A → Action S B → Action S B
m >> k = m >>= λ _. k

abbrev pub modify : {S : Type 0} → (S → S) → Action S (Unit {0})
modify f s = (ok tt, f s)

-- A call that does not raise.
abbrev pub total : {S A : Type 0} → (S → A × S) → Action S A
total f s = let (a, s') = f s in (ok a, s')

-- What `except ValueError: h` makes of an outcome.
abbrev pub handle_value_error : {S A : Type 0} → Action S A → Result A × S → Result A × S
handle_value_error h p = elim p.0 [
  | ok a ↦ (ok a, p.1)
  | raised e ↦ elim e [
    | job_not_found ↦ h p.1
    | invalid_transition ↦ h p.1
    | integrity_error ↦ (raised integrity_error, p.1)
    | interface_error ↦ (raised interface_error, p.1)
    | attribute_error ↦ (raised attribute_error, p.1)
    | runner_error ↦ (raised runner_error, p.1)
    | os_error ↦ (raised os_error, p.1)
    | value_error ↦ h p.1
    | json_decode_error ↦ h p.1
    | type_error ↦ (raised type_error, p.1)
    | overflow_error ↦ (raised overflow_error, p.1)
    | registry_error ↦ (raised registry_error, p.1)
    | spec_error ↦ (raised spec_error, p.1)
    | key_error ↦ (raised key_error, p.1)
  ]
]

-- `try: m except ValueError: h`
abbrev pub catch_value_error : {S A : Type 0} → Action S A → Action S A → Action S A
catch_value_error m h s = handle_value_error h (m s)

-- `try: m except Exception: h`
abbrev pub catch_any : {S A : Type 0} → Action S A → Action S A → Action S A
catch_any m h s = let (r, s') = m s in elim r [ ok a ↦ (ok a, s') | raised e ↦ h s' ]

-- How the calls run on, once it is known what the first one does.
module _ {S A : Type 0} (m : Action S A) (s s' : S) where
  pub bind-ok : {B : Type 0} (a : A) (f : A → Action S B) → m s ≡ (ok a, s') → (m >>= f) s ≡ f a s'
  bind-ok a f h =
      subst (λ p. elim p.0 [ ok x ↦ f x p.1 | raised e ↦ (raised e, p.1) ] ≡ f a s') (sym h) refl

  pub bind-raised :
      {B : Type 0} (e : Error) (f : A → Action S B)
      → m s ≡ (raised e, s')
      → (m >>= f) s ≡ (raised e, s')
  bind-raised e f h =
      subst (λ p. elim p.0 [ ok x ↦ f x p.1 | raised x ↦ (raised x, p.1) ] ≡ (raised e, s')) (sym h)
        refl

  pub caught : (a : A) (h : Action S A) → m s ≡ (ok a, s') → catch_value_error m h s ≡ (ok a, s')
  caught a h e = ap (handle_value_error h) e
