-- ===== src/Steps/Stepwise.antt =====
-- What it means that a call changes the database by steps only, for each way to put calls together.
use claude_discord_agent.Prelude.{
  Bool, true, false, Result, ok, raised, Error, job_not_found, invalid_transition, integrity_error,
  interface_error, attribute_error, runner_error, os_error, value_error, json_decode_error,
  type_error, overflow_error, registry_error, spec_error, key_error, Action, pure, raise, gets,
  modify, total, catch_value_error, catch_any, ◌>>=◌, ◌>>◌, if◌then◌else◌,
}
use claude_discord_agent.Db.Types.{Db}
use claude_discord_agent.System.{System, on_db, transaction}
use claude_discord_agent.Steps.{Reaches, here, next}

pub Reaches-trans : {db db' db'' : Db} → Reaches db db' → Reaches db' db'' → Reaches db db''
Reaches-trans r here = r
Reaches-trans r (next q op) = next (Reaches-trans r q) op

-- A call on a state in which the database stands at `view`.
pub record IsStepwise {S A : Type 0} (view : S → Db) (m : Action S A) : Type 0 where
  pub steps : (s : S) → Reaches (view s) (view (m s).1)

module _ {S : Type 0} (view : S → Db) where
  after_bind :
      {A B : Type 0} (db : Db) (f : A → Action S B) (r : Result A) (s : S)
      → ((a : A) → IsStepwise view (f a))
      → Reaches db (view s)
      → Reaches db (view (((λ (t : S). (r, t)) >>= f) s).1)
  after_bind db f (ok a) s hf h = Reaches-trans h ((hf a).steps s)
  after_bind db f (raised e) s hf h = h

  pub bind_steps :
      {A B : Type 0} (m : Action S A) (f : A → Action S B)
      → IsStepwise view m
      → ((a : A) → IsStepwise view (f a))
      → IsStepwise view (m >>= f)
  bind_steps m f hm hf = record {
    steps = λ s. after_bind (view s) f (m s).0 (m s).1 hf (hm.steps s);
  }

  pub then_steps :
      {A B : Type 0} (m : Action S A) (k : Action S B)
      → IsStepwise view m
      → IsStepwise view k
      → IsStepwise view (m >> k)
  then_steps m k hm hk = bind_steps m (λ _. k) hm (λ _. hk)

  pub pure_steps : {A : Type 0} (a : A) → IsStepwise view (pure a)
  pure_steps a = record { steps = λ s. here }

  pub raise_steps : {A : Type 0} (e : Error) → IsStepwise {A = A} view (raise e)
  raise_steps e = record { steps = λ s. here }

  pub gets_steps : {A : Type 0} (f : S → A) → IsStepwise view (gets f)
  gets_steps f = record { steps = λ s. here }

  pub modify_steps :
      (f : S → S) → ((s : S) → Reaches (view s) (view (f s))) → IsStepwise view (modify f)
  modify_steps f h = record { steps = h }

  pub total_steps :
      {A : Type 0} (f : S → A × S)
      → ((s : S) → Reaches (view s) (view (f s).1))
      → IsStepwise view (total f)
  total_steps f h = record { steps = h }

  pub if_steps :
      {A : Type 0} (b : Bool) (m n : Action S A)
      → IsStepwise view m
      → IsStepwise view n
      → IsStepwise view (if b then m else n)
  if_steps true m n hm hn = hm
  if_steps false m n hm hn = hn

  after_catch :
      {A : Type 0} (db : Db) (h : Action S A) (r : Result A) (s : S)
      → IsStepwise view h
      → Reaches db (view s)
      → Reaches db (view (catch_value_error (λ (t : S). (r, t)) h s).1)
  after_catch db h (ok a) s hh p = p
  after_catch db h (raised job_not_found) s hh p = Reaches-trans p (hh.steps s)
  after_catch db h (raised invalid_transition) s hh p = Reaches-trans p (hh.steps s)
  after_catch db h (raised integrity_error) s hh p = p
  after_catch db h (raised interface_error) s hh p = p
  after_catch db h (raised attribute_error) s hh p = p
  after_catch db h (raised runner_error) s hh p = p
  after_catch db h (raised os_error) s hh p = p
  after_catch db h (raised value_error) s hh p = Reaches-trans p (hh.steps s)
  after_catch db h (raised json_decode_error) s hh p = Reaches-trans p (hh.steps s)
  after_catch db h (raised type_error) s hh p = p
  after_catch db h (raised overflow_error) s hh p = p
  after_catch db h (raised registry_error) s hh p = p
  after_catch db h (raised spec_error) s hh p = p
  after_catch db h (raised key_error) s hh p = p

  pub catch_value_steps :
      {A : Type 0} (m h : Action S A)
      → IsStepwise view m
      → IsStepwise view h
      → IsStepwise view (catch_value_error m h)
  catch_value_steps m h hm hh = record {
    steps = λ s. after_catch (view s) h (m s).0 (m s).1 hh (hm.steps s);
  }

  after_catch_any :
      {A : Type 0} (db : Db) (h : Action S A) (r : Result A) (s : S)
      → IsStepwise view h
      → Reaches db (view s)
      → Reaches db (view (catch_any (λ (t : S). (r, t)) h s).1)
  after_catch_any db h (ok a) s hh p = p
  after_catch_any db h (raised e) s hh p = Reaches-trans p (hh.steps s)

  pub catch_any_steps :
      {A : Type 0} (m h : Action S A)
      → IsStepwise view m
      → IsStepwise view h
      → IsStepwise view (catch_any m h)
  catch_any_steps m h hm hh = record {
    steps = λ s. after_catch_any (view s) h (m s).0 (m s).1 hh (hm.steps s);
  }

abbrev pub whole : Db → Db
whole db = db

abbrev pub inner : System → Db
inner s = s.db

pub on_db_steps : {A : Type 0} (m : Action Db A) → IsStepwise whole m → IsStepwise inner (on_db m)
on_db_steps m h = record { steps = λ s. h.steps s.db }

after_transaction :
    {A : Type 0} (db : Db) (r : Result A) (s : System)
    → Reaches db s.db
    → Reaches db
        (elim r as (λ _. Result A × System) [
          | ok a ↦ (ok a, s)
          | raised e ↦ (raised e, record s { db = db })
        ]).1.db
after_transaction db (ok a) s h = h
after_transaction db (raised e) s h = here

-- A transaction that fails leaves the database as it was.
pub transaction_steps :
    {A : Type 0} (m : Action System A) → IsStepwise inner m → IsStepwise inner (transaction m)
transaction_steps m h = record { steps = λ s. after_transaction s.db (m s).0 (m s).1 (h.steps s) }
