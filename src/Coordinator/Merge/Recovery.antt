-- ===== src/Coordinator/Merge/Recovery.antt =====
-- What a merge that was started and not recorded is recovered to.
use design_document.Base.{
  String, ◌≡◌, refl, ap, subst, Bool, true, false, arith, ◌==◌, eq_iff, if◌then◌else◌, ok, ◌⊎◌, inl,
  inr, Bool-cases, ◌∙◌, some, Option-cases,
}
use design_document.Feature.State.{FeatureState, completed, apply_event}
use design_document.Git.Command.{head, is_clean, is_ancestor}
use design_document.Git.Workspace.{MergeBinding, validate_merge, cleanup}
use design_document.Git.Workspace.Gate.{Validated, validate_merge-binds}
use design_document.Coordinator.World.{Ports, World, pure, on_git, or_empty, text_of}
use design_document.Coordinator.World.Inversion.{and_then, checked, on_git-ok}
use design_document.Coordinator.Log.{append}
use design_document.Coordinator.Log.Applies.{append-applies}
use design_document.Coordinator.Guards.{workspace_from_state}
use design_document.Coordinator.Writer.{places}
use design_document.Coordinator.Merge.{
  binding_of, merge_again, adopt_merged, settle_merge, clean_up, reconcile_merge,
  terminate_feature_sessions, Value, indexed, run_merge, Dict, get, get_str,
}

module _ {R L : Type 0} (ports : Ports R L) where
  -- An entry of the implementation, as `str` of it.
  abbrev pub IsEntry : String → FeatureState → String → Type 0
  IsEntry k s t =
      (v : Value) × (get k (or_empty s.implementation) ≡ some v) × (t ≡ text_of ports.other_text v)

  -- The binding that the log holds of the implementation.
  pub record IsBinding (s : FeatureState) (b : MergeBinding) : Type 0 where
    pub feature : b.feature_id ≡ s.feature_id
    pub base : IsEntry "base_head" s b.base_head
    pub reviewed : IsEntry "head" s b.reviewed_head
    pub branched : IsEntry "branch" s b.branch

  -- From the outside `r`: the integration head is the approved base, the merge is validated, and is
  -- then run; or the head is clean, has the reviewed head in its history, and is taken for the merge.
  abbrev pub Settled : MergeBinding → String → String → R → Type 0
  Settled b current merged r =
      ((current ≡ b.base_head)
        × ((r₁ r₂ : R) × Validated ports.git (places ports) b r r₁
            × (design_document.Git.Workspace.merge ports.git (places ports) b true r₁
                ≡ (ok merged, r₂))))
      ⊎ ((merged ≡ current)
          × ((r₁ r₂ : R) × (is_clean ports.git ports.config.repository r ≡ (ok true, r₁))
              × (is_ancestor ports.git ports.config.repository b.reviewed_head current r₁
                  ≡ (ok true, r₂))))

  -- What a recovery of the merge of `s` from the world `w` stands on, and leaves.
  abbrev pub IsRecovered : FeatureState → FeatureState → World R L → Type 0
  IsRecovered s s' w =
      (b : MergeBinding) × (current merged : String) × (r : R) × IsBinding s b
      × (head ports.git ports.config.repository w.outside ≡ (ok current, r))
      × Settled b current merged r
      × (s'.phase ≡ completed)
      × ((merge_head : Dict) × (s'.merge ≡ some merge_head)
          × (get_str "merge_head" merge_head ≡ some merged)
          × (get_str "reviewed_head" merge_head ≡ some b.reviewed_head))

  indexed-IsEntry :
      (k t : String) (s : FeatureState) (w w' : World R L)
      → indexed ports k (or_empty s.implementation) w ≡ (ok t, w')
      → IsEntry k s t × (w' ≡ w)
  unfolding indexed
  indexed-IsEntry k t s w w' h = elim (Option-cases (get k (or_empty s.implementation))) [
    | inl n ↦ absurd (ground arith)
    | inr (v, e) ↦ ((v, e, ground arith), ground arith)
  ]

  binding_of-IsBinding :
      (s : FeatureState) (b : MergeBinding) (w w' : World R L)
      → binding_of ports s w ≡ (ok b, w')
      → IsBinding s b × (w' ≡ w)
  unfolding binding_of
  binding_of-IsBinding s b w w' h =
      and_then (indexed ports "base_head" (or_empty s.implementation)) h λ base w₁ e₁ h₁.
        and_then (indexed ports "head" (or_empty s.implementation)) h₁ λ reviewed w₂ e₂ h₂.
          and_then (indexed ports "branch" (or_empty s.implementation)) h₂ λ branch w₃ e₃ h₃.
            let (base_is, same₁) = indexed-IsEntry "base_head" base s w w₁ e₁ in
            let (reviewed_is, same₂) = indexed-IsEntry "head" reviewed s w₁ w₂ e₂ in
            let (branch_is, same₃) = indexed-IsEntry "branch" branch s w₂ w₃ e₃ in
            let base_same : base ≡ b.base_head = ground arith in
            let reviewed_same : reviewed ≡ b.reviewed_head = ground arith in
            let branch_same : branch ≡ b.branch = ground arith in
            let last : w' ≡ w₃ = ground arith in
            (
              record {
                feature = ground arith;
                base = subst (IsEntry "base_head" s) base_same base_is;
                reviewed = subst (IsEntry "head" s) reviewed_same reviewed_is;
                branched = subst (IsEntry "branch" s) branch_same branch_is;
              },
              last ∙ same₃ ∙ same₂ ∙ same₁,
            )

  merge_again-runs :
      (b : MergeBinding) (merged : String) (w w' : World R L)
      → merge_again ports b w ≡ (ok merged, w')
      → (r₁ r₂ : R) × Validated ports.git (places ports) b w.outside r₁
        × (design_document.Git.Workspace.merge ports.git (places ports) b true r₁ ≡ (ok merged, r₂))
  unfolding merge_again run_merge
  merge_again-runs b merged w w' h =
      and_then (on_git (validate_merge ports.git (places ports) b)) h λ u w₁ e₁ h₁. (
        w₁.outside,
        w'.outside,
        validate_merge-binds ports.git (places ports) b w.outside w₁.outside (on_git-ok _ w w₁ e₁),
        on_git-ok _ w₁ w' h₁,
      )

  ancestor-asked :
      (clean : Bool) (b : MergeBinding) (current : String) (w w' : World R L)
      → (if clean
            then on_git (is_ancestor ports.git ports.config.repository b.reviewed_head current)
            else pure false)
          w
        ≡ (ok true, w')
      → (clean ≡ true)
        × (is_ancestor ports.git ports.config.repository b.reviewed_head current w.outside
            ≡ (ok true, w'.outside))
  ancestor-asked true b current w w' h = (refl, on_git-ok _ w w' h)
  ancestor-asked false b current w w' h = cc

  adopt_merged-Settled :
      (b : MergeBinding) (current merged : String) (w w' : World R L)
      → adopt_merged ports b current w ≡ (ok merged, w')
      → Settled b current merged w.outside
  unfolding adopt_merged
  adopt_merged-Settled b current merged w w' h =
      and_then (on_git (is_clean ports.git ports.config.repository)) h λ clean w₁ e₁ h₁.
        and_then
          (if clean
            then on_git (is_ancestor ports.git ports.config.repository b.reviewed_head current)
            else pure false)
          h₁
          λ descends w₂ e₂ h₂. checked descends _ _ h₂ λ found h₃.
            let (is_it, asked) = ancestor-asked clean b current w₁ w₂ (
              subst
                (λ t.
                  (if clean
                      then on_git
                          (is_ancestor ports.git ports.config.repository b.reviewed_head current)
                      else pure false)
                    w₁
                  ≡ (ok t, w₂))
                found e₂) in
            inr (
              ground arith,
              (
                w₁.outside,
                w₂.outside,
                subst
                    (λ t. is_clean ports.git ports.config.repository w.outside ≡ (ok t, w₁.outside))
                    is_it (on_git-ok _ w w₁ e₁),
                asked,
              ),
            )

  settle_merge-Settled :
      (b : MergeBinding) (current merged : String) (w w' : World R L)
      → settle_merge ports b current w ≡ (ok merged, w')
      → Settled b current merged w.outside
  unfolding settle_merge
  settle_merge-Settled b current merged w w' h = elim (Bool-cases (current == b.base_head)) [
    | inl same ↦
        inl ((eq_iff current b.base_head).0 same, merge_again-runs b merged w w' (ground arith))
    | inr other ↦ adopt_merged-Settled b current merged w w' (ground arith)
  ]

  clean_up-same :
      (s s' : FeatureState) (head : String) (w w' : World R L)
      → clean_up ports s head w ≡ (ok s', w')
      → s' ≡ s
  unfolding clean_up
  clean_up-same s s' merged_head w w' h = and_then (workspace_from_state ports s) h λ ws w₁ e₁ h₁.
      and_then (on_git (cleanup ports.git (places ports) ws merged_head)) h₁ λ u w₂ e₂ h₂.
        and_then (terminate_feature_sessions ports s.feature_id) h₂ λ v w₃ e₃ h₃. ground arith

  -- A recovery that returns completes the feature with the heads and the branch that the log holds
  -- of its implementation. It reads the integration head first: either that is still the approved
  -- base, and the merge is validated again and then run; or it is clean, has the reviewed head in its
  -- history, and is recorded as the merge.
  pub reconcile_merge-Settled :
      (s s' : FeatureState) (w w' : World R L)
      → reconcile_merge ports s w ≡ (ok s', w')
      → IsRecovered s s' w
  unfolding reconcile_merge apply_event
  reconcile_merge-Settled s s' w w' h = and_then (binding_of ports s) h λ b w₁ e₁ h₁.
      and_then (on_git (head ports.git ports.config.repository)) h₁ λ current w₂ e₂ h₂.
        and_then (settle_merge ports b current) h₂ λ merged w₃ e₃ h₃.
          and_then (append ports s "merge.completed" _ _ _) h₃ λ done w₄ e₄ h₄.
            let (c, event_id, e) = append-applies ports s done "merge.completed" _ _ _ w₃ w₄ e₄ in
            let (bound, same) = binding_of-IsBinding s b w w₁ e₁ in
            let cleaned : s' ≡ done = clean_up-same done s' b.reviewed_head w₄ w' h₄ in
            (
              b,
              current,
              merged,
              w₂.outside,
              bound,
              subst
                  (λ (v : World R L).
                    head ports.git ports.config.repository v.outside ≡ (ok current, w₂.outside))
                  same (on_git-ok _ w₁ w₂ e₂),
              settle_merge-Settled b current merged w₂ w₃ e₃,
              ap (λ (q : FeatureState). q.phase) cleaned ∙ ap (λ (q : FeatureState). q.phase) e,
              (
                _,
                ap (λ (q : FeatureState). q.merge) cleaned ∙ ap (λ (q : FeatureState). q.merge) e,
                refl,
                refl,
              ),
            )
