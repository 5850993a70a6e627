-- ===== src/Cli/Refusals.antt =====
-- The commands whose process ends with status 1.
use claude_discord_agent.Prelude.{
  ℕ, ◌≡◌, refl, ◌∙◌, Bool, true, false, if◌then◌else◌, Result, ok, raised, Error, Action, pure,
  raise, total, ◌>>=◌, ◌>>◌,
}
use claude_discord_agent.Db.Types.{Db}

-- The status of the process: what the command returns, or 1 for an exception that it does not catch.
abbrev pub exit_code : Result ℕ → ℕ
exit_code (ok n) = n
exit_code (raised e) = 1

-- If the status is 1, nothing has changed.
abbrev pub Refuses : Action Db ℕ → Db → Type 0
Refuses m db = exit_code (m db).0 ≡ 1 → (m db).1 ≡ db

pub record IsRefusing (m : Action Db ℕ) : Type 0 where
  pub unchanged : (db : Db) → Refuses m db

-- A call that raises has changed nothing.
pub record IsAtomic {A : Type 0} (m : Action Db A) : Type 0 where
  pub undone : (db : Db) (e : Error) → (m db).0 ≡ raised e → (m db).1 ≡ db

pub pure-IsRefusing : (n : ℕ) → IsRefusing (pure n)
pure-IsRefusing n = record { unchanged = λ db h. refl }

pub raise-IsRefusing : (e : Error) → IsRefusing (raise e)
raise-IsRefusing e = record { unchanged = λ db h. refl }

-- The end of a command that has done its work.
abbrev pub finished : Action Db ℕ
finished = pure 0

module _ {A : Type 0} where
  pub raise-IsAtomic : (e : Error) → IsAtomic {A = A} (raise e)
  raise-IsAtomic e = record { undone = λ db e' h. refl }

  pub total-IsAtomic : (f : Db → A × Db) → IsAtomic (total f)
  total-IsAtomic f = record { undone = λ db e h. absurd (cc) }

  after_done :
      (r : Result A) (s db : Db)
      → ((e : Error) → r ≡ raised e → s ≡ db)
      → exit_code (((λ (t : Db). (r, t)) >> finished) s).0 ≡ 1
      → (((λ (t : Db). (r, t)) >> finished) s).1 ≡ db
  after_done (ok a) s db same h = absurd (cc)
  after_done (raised e) s db same h = same e refl

  -- What returns 0 wherever it returns.
  pub done-IsRefusing : (m : Action Db A) → IsAtomic m → IsRefusing (m >> pure 0)
  done-IsRefusing m a = record { unchanged = λ db. after_done (m db).0 (m db).1 db (a.undone db) }

  after_read :
      (f : A → Action Db ℕ) (r : Result A) (s db : Db)
      → s ≡ db
      → ((a : A) → IsRefusing (f a))
      → exit_code (((λ (t : Db). (r, t)) >>= f) s).0 ≡ 1
      → (((λ (t : Db). (r, t)) >>= f) s).1 ≡ db
  after_read f (ok a) s db e hf h = (hf a).unchanged s h ∙ e
  after_read f (raised x) s db e hf h = e

  -- A call that only reads, and what follows it.
  pub read-IsRefusing :
      (m : Action Db A) (f : A → Action Db ℕ)
      → ((db : Db) → (m db).1 ≡ db)
      → ((a : A) → IsRefusing (f a))
      → IsRefusing (m >>= f)
  read-IsRefusing m f hm hf = record {
    unchanged = λ db h. after_read f (m db).0 (m db).1 db (hm db) hf h;
  }

pub if_IsRefusing :
    (b : Bool) (m n : Action Db ℕ) → IsRefusing m → IsRefusing n → IsRefusing (if b then m else n)
if_IsRefusing true m n hm hn = hm
if_IsRefusing false m n hm hn = hn
