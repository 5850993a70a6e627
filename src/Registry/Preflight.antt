-- ===== src/Registry/Preflight.antt =====
-- `_run_git` and `preflight_check`. The file system and `git` are parameters.
use claude_discord_agent.Prelude.{
  Bool, true, false, not, ◌&&◌, Option, String, List, [], ◌∷◌, str_eq, is_set, coalesce,
  if◌then◌else◌, Result, ok, raised, Error, registry_error,
}
use claude_discord_agent.Prelude.Int.{ℤ, pos, eq_ℤ}
use claude_discord_agent.Prelude.Returns.{◌>>=◌}

-- `subprocess.CompletedProcess`, what the code reads of it.
pub record Completed : Type 0 where
  pub returncode : ℤ
  pub stdout : String

-- `Path.exists`, `Path.is_dir`, `str(Path(p).resolve())`, `str.strip`, and `git` run in a directory,
-- which may raise (no such program, the time limit). `saves_export`: does the writing of repos.json
-- in `export_json` succeed?
pub record Host : Type 0 where
  pub exists : String → Bool
  pub is_dir : String → Bool
  pub resolve_path : String → String
  pub strip : String → String
  pub git : String → List String → Result Completed
  pub saves_export : Bool

pub record Preflight : Type 0 where
  pub path : String
  pub git_root : String
  pub branch : String

-- `except RegistryError`
abbrev pub is_registry_error : Error → Bool
is_registry_error registry_error = true
is_registry_error e = false

module _ (h : Host) where
  unfoldable pub run_git : String → List String → Result String
  run_git path args = do
    result ← h.git path args
    if eq_ℤ result.returncode (pos 0) then ok (h.strip result.stdout) else raised registry_error

  -- The name of the branch, or the empty text where `git` has none.
  unfoldable pub branch_of : Result String → Result String
  branch_of (ok branch) = ok branch
  branch_of (raised e) = if is_registry_error e then ok "" else raised e

  -- `if expected_git_root and Path(actual_root).resolve() != Path(expected_git_root).resolve()`
  unfoldable pub is_mismatch : String → Option String → Bool
  is_mismatch actual_root expected_git_root =
      is_set expected_git_root
      && not (str_eq (h.resolve_path actual_root) (h.resolve_path (coalesce expected_git_root "")))

  unfoldable pub preflight_check : String → Option String → Result Preflight
  unfolding run_git branch_of is_mismatch
  preflight_check path expected_git_root =
      if not (h.exists path)
      then raised registry_error
      else if not (h.is_dir path)
      then raised registry_error
      else (run_git path ("rev-parse" ∷ "--show-toplevel" ∷ []) >>= λ actual_root.
          if is_mismatch actual_root expected_git_root
          then raised registry_error
          else (branch_of (run_git path ("rev-parse" ∷ "--abbrev-ref" ∷ "HEAD" ∷ [])) >>= λ branch.
              ok record { path = path; git_root = actual_root; branch = branch }))
