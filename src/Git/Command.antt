-- ===== src/Git/Command.antt =====
-- src/ai_runtime/git/workspace.py: `_run`, the exceptions, and the queries of one command. A command
-- runs through a port that gives its exit code and its output; whether a path exists and the digest
-- of a text are asked too.
use Prim.Native.String.{◌++◌}
use design_document.Base.{
  ℕ, String, Bool, true, false, List, [], ◌∷◌, ◌==◌, nat_eq, if◌then◌else◌, Result, ok, err,
}
use design_document.Text.{strip}

pub data GitError : Type 0 where
  bad_feature_id : GitError
  command_error : List String → GitError
  invariant_error : String → GitError

pub record Completed : Type 0 where
  pub returncode : ℕ
  pub stdout : String

pub record GitPort (W : Type 0) : Type 0 where
  pub command : W → String → List String → W × Completed
  pub exists : W → String → Bool
  pub sha256 : String → String

-- An action on the world `W`.
abbrev pub Git : Type 0 → Type 0 → Type 0
Git W A = W → Result GitError A × W

module _ {W A B : Type 0} where
  abbrev pub continue : Result GitError A → (A → Git W B) → Git W B
  continue (ok a) f w = f a w
  continue (err x) f w = (err x, w)

  infixl 5 ◌>>=◌
  abbrev pub ◌>>=◌ : Git W A → (A → Git W B) → Git W B
  ◌>>=◌ m f w = let (r, w') = m w in continue r f w'

module _ {W A B : Type 0} where
  infixl 5 ◌>>◌
  abbrev pub ◌>>◌ : Git W A → Git W B → Git W B
  m >> k = m >>= λ _. k

module _ {W A : Type 0} where
  abbrev pub pure : A → Git W A
  pure a w = (ok a, w)

  abbrev pub raise : GitError → Git W A
  raise x w = (err x, w)

module _ {W : Type 0} where
  abbrev pub require : Bool → GitError → Git W Unit
  require true x = pure tt
  require false x = raise x

module _ {W : Type 0} (port : GitPort W) where
  -- `_run(..., check=False)`
  unfoldable pub run_unchecked : String → List String → Git W Completed
  run_unchecked cwd arguments w = let (w', c) = port.command w cwd arguments in (ok c, w')

  unfoldable pub run : String → List String → Git W Completed
  run cwd arguments = do
    c ← run_unchecked cwd arguments
    if nat_eq c.returncode 0 then pure c else raise (command_error arguments)

  unfoldable pub head : String → Git W String
  head repo = do c ← run repo ("rev-parse" ∷ "HEAD" ∷ []); pure (strip c.stdout)

  unfoldable pub is_clean : String → Git W Bool
  is_clean repo = do c ← run repo ("status" ∷ "--porcelain=v1" ∷ []); pure (strip c.stdout == "")

  unfoldable pub require_clean : String → Git W Unit
  require_clean repo = do
    clean ← is_clean repo
    require clean (invariant_error "worktree is dirty and requires reconciliation")

  unfoldable pub resolve_commit : String → String → Git W String
  resolve_commit repo ref = do
    c ← run repo ("rev-parse" ∷ "--verify" ∷ (ref ++ "^{commit}") ∷ [])
    pure (strip c.stdout)

  unfoldable pub is_ancestor : String → String → String → Git W Bool
  is_ancestor repo ancestor descendant = do
    c ← run_unchecked repo ("merge-base" ∷ "--is-ancestor" ∷ ancestor ∷ descendant ∷ [])
    pure (nat_eq c.returncode 0)
