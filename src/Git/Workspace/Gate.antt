-- ===== src/Git/Workspace/Gate.antt =====
-- What Git was asked, and answered, on the way to a merge.
use design_document.Base.{
  ap, String, ◌≡◌, refl, Bool, true, false, [], ◌∷◌, arith, ◌==◌, eq_iff, Result, ok, err, not,
}
use design_document.Git.Command.{
  GitPort, Completed, Git, GitError, continue, ◌>>=◌, ◌>>◌, require, run_unchecked, run, head,
  require_clean, resolve_commit, is_ancestor,
}
use design_document.Git.Workspace.{
  Places, Workspace, MergeBinding, Inspection, validate_merge, inspect_implementation, cleanup,
  merge, remove_worktree, remove_branch,
}

module _ {W A B C : Type 0} where
  continue-ok :
      (r : Result GitError A) (w₁ : W) (f : A → Git W B) {b : B} {w' : W}
      → continue r f w₁ ≡ (ok b, w')
      → ((a : A) → r ≡ ok a → f a w₁ ≡ (ok b, w') → C)
      → C
  continue-ok (ok a) w₁ f h k = k a refl h
  continue-ok (err x) w₁ f h k = cc

  -- An action that succeeds did so in both halves.
  and_then :
      (m : Git W A) {f : A → Git W B} {b : B} {w w' : W}
      → (m >>= f) w ≡ (ok b, w')
      → ((a : A) (w₁ : W) → m w ≡ (ok a, w₁) → f a w₁ ≡ (ok b, w') → C)
      → C
  and_then m {f} {w = w} h k =
      continue-ok (m w).0 (m w).1 f h (λ a e. k a (m w).1 (ap (λ r. (r, (m w).1)) e))

module _ {W B C : Type 0} where
  checked :
      (t : Bool) (x : GitError) (m : Git W B) {b : B} {w w' : W}
      → (require t x >> m) w ≡ (ok b, w')
      → (t ≡ true → m w ≡ (ok b, w') → C)
      → C
  checked true x m h k = k refl h
  checked false x m h k = cc

-- The questions that a validated merge asked, each in the world that the one before left.
abbrev pub Validated : {W : Type 0} → GitPort W → Places → MergeBinding → W → W → Type 0
Validated {W} port p b w w' =
    (w₁ w₂ w₃ : W) × (c : Completed) × (require_clean port p.repository w ≡ (ok tt, w₁))
    × (head port p.repository w₁ ≡ (ok b.base_head, w₂))
    × (resolve_commit port p.repository b.branch w₂ ≡ (ok b.reviewed_head, w₃))
    × (run_unchecked port p.repository
          ("merge-tree" ∷ "--write-tree" ∷ b.base_head ∷ b.reviewed_head ∷ []) w₃
        ≡ (ok c, w'))
    × (c.returncode ≡ 0)

module _ {W : Type 0} (port : GitPort W) where
  -- A validated merge was checked, in this order, against a clean integration worktree whose head is
  -- the approved base, a feature branch whose head is the reviewed head, and a trial merge of the
  -- two without conflicts.
  pub validate_merge-binds :
      (p : Places) (b : MergeBinding) (w w' : W)
      → validate_merge port p b w ≡ (ok tt, w')
      → Validated port p b w w'
  unfolding validate_merge
  validate_merge-binds p b w w' h = and_then (require_clean port p.repository) h λ u w₁ e₁ h₁.
      and_then (head port p.repository) h₁ λ base w₂ e₂ h₂.
        checked (base == b.base_head) _ _ h₂ λ same_base h₃.
          and_then (resolve_commit port p.repository b.branch) h₃ λ branch w₃ e₃ h₄.
            checked (branch == b.reviewed_head) _ _ h₄ λ same_head h₅.
              and_then (run_unchecked port p.repository _) h₅ λ c w₄ e₄ h₆. (
                w₁,
                w₂,
                w₃,
                c,
                e₁,
                rw (← (eq_iff base b.base_head).0 same_base) e₂,
                rw (← (eq_iff branch b.reviewed_head).0 same_head) e₃,
                ground arith,
                ground arith,
              )

  -- An implementation that passes inspection is a new commit of a clean worktree, it descends from
  -- the approved base, and what is reported is that base, that commit and the feature's branch.
  pub inspect_implementation-binds :
      (ws : Workspace) (w w' : W) (i : Inspection)
      → inspect_implementation port ws w ≡ (ok i, w')
      → (i.base_head ≡ ws.base_head)
        × (i.branch ≡ ws.branch)
        × ((i.head == ws.base_head) ≡ false)
        × ((w₁ w₂ w₃ : W) × (require_clean port ws.path w ≡ (ok tt, w₁))
            × (head port ws.path w₁ ≡ (ok i.head, w₂))
            × (is_ancestor port ws.path ws.base_head i.head w₂ ≡ (ok true, w₃)))
  unfolding inspect_implementation
  inspect_implementation-binds ws w w' i h = and_then (require_clean port ws.path) h λ u w₁ e₁ h₁.
      and_then (head port ws.path) h₁ λ current w₂ e₂ h₂.
        checked (not (current == ws.base_head)) _ _ h₂ λ fresh h₃.
          and_then (is_ancestor port ws.path ws.base_head current) h₃ λ descends w₃ e₃ h₄.
            checked descends _ _ h₄ λ below h₅. and_then (run port ws.path _) h₅ λ diff w₄ e₄ h₆.
              and_then (run port ws.path _) h₆ λ names w₅ e₅ h₇. (
                ground arith,
                ground arith,
                ground arith,
                (w₁, w₂, w₃, e₁, ground arith, ground arith),
              )

  -- A merge that was not validated before is validated first, then the reviewed head is merged, and
  -- the answer is the head of the clean integration worktree after it.
  pub merge-binds :
      (p : Places) (b : MergeBinding) (w w' : W) (merged : String)
      → merge port p b false w ≡ (ok merged, w')
      → (w₁ w₂ w₃ : W) × (c : Completed) × Validated port p b w w₁
        × (run port p.repository ("merge" ∷ "--no-ff" ∷ "--no-edit" ∷ b.reviewed_head ∷ []) w₁
            ≡ (ok c, w₂))
        × (require_clean port p.repository w₂ ≡ (ok tt, w₃))
        × (head port p.repository w₃ ≡ (ok merged, w'))
  unfolding merge
  merge-binds p b w w' merged h = and_then (validate_merge port p b) h λ u w₁ e₁ h₁.
      and_then (run port p.repository _) h₁ λ c w₂ e₂ h₂.
        and_then (require_clean port p.repository) h₂
          λ v w₃ e₃ h₃. (w₁, w₂, w₃, c, validate_merge-binds p b w w₁ e₁, e₂, e₃, h₃)

  -- A worktree that a cleanup finds was clean, at the merged head, or the cleanup fails.
  pub cleanup-binds :
      (p : Places) (ws : Workspace) (merged : String) (w w' : W)
      → port.exists w ws.path ≡ true
      → cleanup port p ws merged w ≡ (ok tt, w')
      → (w₁ w₂ : W) × (require_clean port ws.path w ≡ (ok tt, w₁))
        × (head port ws.path w₁ ≡ (ok merged, w₂))
  unfolding cleanup remove_worktree
  cleanup-binds p ws merged w w' found h =
      and_then (remove_worktree port p ws merged) {f = λ _. remove_branch port p ws} {b = tt}
        {w = w} {w' = w'} (ground arith)
        λ u w₁ e₁ h₁. and_then (require_clean port ws.path) e₁ λ v w₂ e₂ h₂.
          and_then (head port ws.path) h₂ λ current w₃ e₃ h₃.
            checked (current == merged) _ _ h₃
              λ same h₄. (w₂, w₃, e₂, rw (← (eq_iff current merged).0 same) e₃)
