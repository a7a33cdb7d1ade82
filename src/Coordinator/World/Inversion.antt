-- ===== src/Coordinator/World/Inversion.antt =====
-- A run that returns did so in each of its steps.
use design_document.Base.{◌≡◌, refl, ap, Bool, true, false, Result, ok, err, arith}
use design_document.Git.Command.{Git, GitError}
use design_document.Coordinator.World.{
  Failure, git_error, World, Run, go_on, ◌>>=◌, ◌>>◌, lift, require, outside_of, on_git,
}

module _ {W A B C : Type 0} where
  go_on-ok :
      (r : Result Failure A) (w₁ : W) (next : A → Run W B) {b : B} {w' : W}
      → go_on r next w₁ ≡ (ok b, w')
      → ((a : A) → r ≡ ok a → next a w₁ ≡ (ok b, w') → C)
      → C
  go_on-ok (err x) w₁ next h k = cc
  go_on-ok (ok a) w₁ next h k = k a refl h

  pub and_then :
      (m : Run W A) {next : A → Run W B} {b : B} {w w' : W}
      → (m >>= next) w ≡ (ok b, w')
      → ((a : A) (w₁ : W) → m w ≡ (ok a, w₁) → next a w₁ ≡ (ok b, w') → C)
      → C
  and_then m {next} {w = w} h k =
      go_on-ok (m w).0 (m w).1 next h (λ a e. k a (m w).1 (ap (λ r. (r, (m w).1)) e))

module _ {W B C : Type 0} where
  pub checked :
      (t : Bool) (x : Failure) (m : Run W B) {b : B} {w w' : W}
      → (require t x >> m) w ≡ (ok b, w')
      → (t ≡ true → m w ≡ (ok b, w') → C)
      → C
  checked false x m h k = cc
  checked true x m h k = k refl h

module _ {W A X C : Type 0} where
  pub lifted :
      (f : X → Failure) (r : Result X A) {a : A} {w w' : W}
      → lift f r w ≡ (ok a, w')
      → (r ≡ ok a → w ≡ w' → C)
      → C
  lifted f (err x) h k = cc
  lifted f (ok a) h k =
      k (ap (λ (p : Result Failure A × W). elim p.0 [ ok b ↦ ok b | err x ↦ ok a ]) h)
        (ap (λ p. p.1) h)

module _ {R L A : Type 0} where
  outside_of-ok :
      (p : Result GitError A × R) (w w' : World R L) {a : A}
      → outside_of git_error w p ≡ (ok a, w')
      → p ≡ (ok a, w'.outside)
  outside_of-ok (ok a, r) w w' h = ground arith
  outside_of-ok (err x, r) w w' h = cc

  -- A Git action that returns to the runtime returned on the outside.
  pub on_git-ok :
      (m : Git R A) (w w' : World R L) {a : A}
      → on_git m w ≡ (ok a, w')
      → m w.outside ≡ (ok a, w'.outside)
  unfolding on_git
  on_git-ok m w w' h = outside_of-ok (m w.outside) w w' h
