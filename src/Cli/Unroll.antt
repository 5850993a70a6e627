-- ===== src/Cli/Unroll.antt =====
-- The payload of a chain (`_build_chain_payload`), read back entry by entry.
use text.Mathlib.Text.{◌==◌ as same_text}
use claude_discord_agent.Prelude.{
  ℕ, zero, suc, ◌+◌, ◌≤◌, ◌≡◌, refl, ap, false, some, String, List, [], ◌∷◌, str_eq, eq_iff,
  if◌then◌else◌, All, length, Bool-cases, inl, inr, arith,
}
use claude_discord_agent.Prelude.Json.{
  Json, null, bool, int, float, str, arr, obj, Fields, end, field, get, has_key,
}
use claude_discord_agent.Cli.Chain.{set_key, payload_key, build_chain_payload}

-- `d` without the key `k`
abbrev pub remove_key : String → Fields → Fields
remove_key k end = end
remove_key k (field j v fs) =
    let rest = remove_key k fs in if str_eq j k then rest else field j v rest

-- The entries of a chain, read by following at most so many links: each is the payload without its
-- link, and the link leads on.
unfoldable pub unroll : ℕ → Fields → List Fields
unroll zero p = []
unroll (suc n) p = remove_key payload_key p ∷ elim (get payload_key p) [
  | obj q ↦ unroll n q
  | null ↦ []
  | bool b ↦ []
  | int i ↦ []
  | float t ↦ []
  | str s ↦ []
  | arr xs ↦ []
]

-- What a link leads to.
abbrev unroll_link : ℕ → Json → List Fields
unroll_link n v = elim v [
  | obj q ↦ unroll n q
  | null ↦ []
  | bool b ↦ []
  | int i ↦ []
  | float t ↦ []
  | str s ↦ []
  | arr xs ↦ []
]

pub get-set_key : (k : String) (v : Json) (fs : Fields) → get k (set_key k v fs) ≡ v
get-set_key k v end = rw ((eq_iff k k).1 refl) refl
get-set_key k v (field j w fs) = elim (Bool-cases (str_eq j k)) [
  | inl t ↦ rw (t, t) refl
  | inr t ↦ rw (t, t) (get-set_key k v fs)
]

-- An entry that has no such key.
remove_key-absent : (k : String) (fs : Fields) → has_key k fs ≡ false → remove_key k fs ≡ fs
remove_key-absent k end h = refl
remove_key-absent k (field j w fs) h = elim (Bool-cases (str_eq j k)) [
  | inl t ↦ absurd (cc (t, h))
  | inr t ↦ rw t (ap (field j w) (remove_key-absent k fs (rw t at h)))
]

remove_key-set_key :
    (k : String) (v : Json) (fs : Fields)
    → has_key k fs ≡ false
    → remove_key k (set_key k v fs) ≡ fs
remove_key-set_key k v end h = rw ((eq_iff k k).1 refl) refl
remove_key-set_key k v (field j w fs) h = elim (Bool-cases (str_eq j k)) [
  | inl t ↦ absurd (cc (t, h))
  | inr t ↦ rw (t, t) (ap (field j w) (remove_key-set_key k v fs (rw t at h)))
]

-- An entry as the file gives it: the link is not set.
abbrev pub IsUnlinked : Fields → Type 0
IsUnlinked e = has_key payload_key e ≡ false

unroll-link :
    (n m : ℕ) (e : Fields) (v : Json) (l : List Fields)
    → has_key payload_key e ≡ false
    → m + 1 ≤ n
    → ((k : ℕ) → m ≤ k → unroll_link k v ≡ l)
    → unroll n (set_key payload_key v e) ≡ e ∷ l
unfolding unroll
unroll-link zero m e v l free enough rest = absurd (omega (arith, enough))
unroll-link (suc n) m e v l free enough rest =
    rw (remove_key-set_key payload_key v e free, get-set_key payload_key v e)
      (ap (λ t. e ∷ t) (rest n (omega (arith, enough))))

-- The payload of a chain without links of their own leads through its entries, in their order, and
-- ends after the last, however many links a reader is ready to follow.
pub unroll-build_chain_payload :
    (e : Fields) (es : List Fields)
    → All IsUnlinked (e ∷ es)
    → (p : Fields) × (build_chain_payload (e ∷ es) ≡ some p)
      × ((n : ℕ) → length (e ∷ es) ≤ n → unroll n p ≡ e ∷ es)
unfolding build_chain_payload unroll
unroll-build_chain_payload e [] h = (
  set_key payload_key null e,
  refl,
  λ n enough. unroll-link n 0 e null [] h.0 enough (λ k _. refl),
)
unroll-build_chain_payload e (e' ∷ es) h =
    let (q, built, same) = unroll-build_chain_payload e' es h.1 in
    (
      set_key payload_key (obj q) e,
      rw built refl,
      λ n enough.
          unroll-link n (length (e' ∷ es)) e (obj q) (e' ∷ es) h.0 (omega (arith, enough))
            (λ k many. same k many),
    )
