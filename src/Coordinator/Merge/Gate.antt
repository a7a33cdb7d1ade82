-- ===== src/Coordinator/Merge/Gate.antt =====
-- What the coordinator checked before a merge.
use design_document.Base.{String, ◌≡◌, ◌∙◌, true, none, some, arith, ok, ◌⊎◌, inl, inr, Bool-cases}
use design_document.Json.{Dict, get_str, str}
use design_document.Json.Equal.{same_value, same_value-str}
use design_document.Feature.State.{FeatureState, approved, merging, completed}
use design_document.Git.Workspace.{MergeBinding, validate_merge}
use design_document.Git.Workspace.Gate.{Validated, validate_merge-binds}
use design_document.Coordinator.World.{Ports, World, on_git, or_empty, get_or_null}
use design_document.Coordinator.World.Inversion.{and_then, checked, on_git-ok}
use design_document.Coordinator.Log.{state_of}
use design_document.Coordinator.Guards.{
  in_phase, assert_not_blocked, assert_adapter_profile, workspace_from_state,
}
use design_document.Coordinator.Writer.{places}
use design_document.Coordinator.Merge.{indexed, binding_of, merge_approved, merge_in_phase, merge}

get_or_null-str : (k t : String) (d : Dict) → get_str k d ≡ some t → get_or_null k d ≡ str t
get_or_null-str k t d e = ground arith

-- The entry of the second is the text in the first.
same_entry-str :
    (j k t : String) (d e : Dict)
    → same_value (get_or_null j d) (get_or_null k e) ≡ true
    → get_str j d ≡ some t
    → get_str k e ≡ some t
same_entry-str j k t d e h g =
    let u : get_or_null k e ≡ str t =
      same_value-str t (get_or_null k e) (rw (← get_or_null-str j t d g) h) in
    ground arith

module _ {R L : Type 0} (ports : Ports R L) where
  indexed-text :
      (k t h : String) (d : Dict) (w w' : World R L)
      → indexed ports k d w ≡ (ok t, w')
      → get_str k d ≡ some h
      → t ≡ h
  unfolding indexed
  indexed-text k t h d w w' e g = ground arith

  binding_of-reviewed_head :
      (s : FeatureState) (b : MergeBinding) (h : String) (w w' : World R L)
      → binding_of ports s w ≡ (ok b, w')
      → get_str "head" (or_empty s.implementation) ≡ some h
      → b.reviewed_head ≡ h
  unfolding binding_of
  binding_of-reviewed_head s b h w w' e g =
      and_then (indexed ports "base_head" (or_empty s.implementation)) e λ base w₁ e₁ h₁.
        and_then (indexed ports "head" (or_empty s.implementation)) h₁ λ reviewed w₂ e₂ h₂.
          and_then (indexed ports "branch" (or_empty s.implementation)) h₂ λ branch w₃ e₃ h₃.
            let same : b.reviewed_head ≡ reviewed = ground arith in
            same ∙ indexed-text "head" reviewed h (or_empty s.implementation) w₁ w₂ e₂ g

  -- The approval that a merge stands on.
  pub record StandsOn (s : FeatureState) (b : MergeBinding) : Type 0 where
    pub same_head :
        same_value
          (get_or_null "reviewed_head" (or_empty s.approval))
          (get_or_null "head" (or_empty s.implementation))
        ≡ true
    pub approved_head :
        (h : String) → get_str "reviewed_head" (or_empty s.approval) ≡ some h → b.reviewed_head ≡ h
    pub before : R
    pub after : R
    pub validated : Validated ports.git (places ports) b before after

  merge_approved-StandsOn :
      (s s' : FeatureState) (w w' : World R L)
      → merge_approved ports s w ≡ (ok s', w')
      → (b : MergeBinding) × StandsOn s b
  unfolding merge_approved
  merge_approved-StandsOn s s' w w' h =
      checked
        (same_value (get_or_null "reviewed_head" (or_empty s.approval))
          (get_or_null "head" (or_empty s.implementation)))
        _ _ h
        λ same h₁. and_then (workspace_from_state ports s) h₁ λ workspace w₁ e₁ h₂.
          and_then (binding_of ports s) h₂ λ b w₂ e₂ h₃.
            and_then (on_git (validate_merge ports.git (places ports) b)) h₃ λ u w₃ e₃ h₄. (
              b,
              record {
                same_head = same;
                approved_head = λ t g. binding_of-reviewed_head s b t w₁ w₂ e₂ (
                    same_entry-str "reviewed_head" "head" t (or_empty s.approval)
                      (or_empty s.implementation) same g);
                before = w₂.outside;
                after = w₃.outside;
                validated =
                    validate_merge-binds ports.git (places ports) b w₂.outside w₃.outside
                      (on_git-ok _ w₂ w₃ e₃);
              },
            )

  merge_in_phase-StandsOn :
      (s s' : FeatureState) (w w' : World R L)
      → merge_in_phase ports s w ≡ (ok s', w')
      → (in_phase s completed ≡ true)
        ⊎ ((in_phase s merging ≡ true)
            ⊎ ((in_phase s approved ≡ true) × ((b : MergeBinding) × StandsOn s b)))
  unfolding merge_in_phase
  merge_in_phase-StandsOn s s' w w' h = elim (Bool-cases (in_phase s completed)) [
    | inl done ↦ inl done
    | inr pending ↦ elim (Bool-cases (in_phase s merging)) [
      | inl started ↦ inr (inl started)
      | inr fresh ↦ elim (Bool-cases (in_phase s approved)) [
        | inl ready ↦ inr (inr (ready, merge_approved-StandsOn s s' w w' (ground arith)))
        | inr other ↦ ground arith
      ]
    ]
  ]

  not_blocked :
      (s : FeatureState) (w w' : World R L) {u : Unit}
      → assert_not_blocked s w ≡ (ok u, w')
      → s.blocked ≡ none
  unfolding assert_not_blocked
  not_blocked s w w' h = ground arith

  -- A merge that returns was asked for a feature that is not blocked and is completed, merging or
  -- approved; from an approved one, the approval and the implementation have the same entry for the
  -- head, Git validated a binding for the merge, and its head is the one that the approval names.
  pub merge-StandsOn :
      (feature_id : String) (s' : FeatureState) (w w' : World R L)
      → merge ports feature_id w ≡ (ok s', w')
      → (s : FeatureState) × (w₁ : World R L) × (state_of ports feature_id w ≡ (ok s, w₁))
        × (s.blocked ≡ none)
        × ((in_phase s completed ≡ true)
            ⊎ ((in_phase s merging ≡ true)
                ⊎ ((in_phase s approved ≡ true) × ((b : MergeBinding) × StandsOn s b))))
  unfolding merge
  merge-StandsOn feature_id s' w w' h = and_then (state_of ports feature_id) h λ s w₁ e₁ h₁.
      and_then (assert_adapter_profile ports s) h₁ λ u w₂ e₂ h₂.
        and_then (assert_not_blocked s) h₂
          λ v w₃ e₃ h₃. (s, w₁, e₁, not_blocked s w₂ w₃ e₃, merge_in_phase-StandsOn s s' w₃ w' h₃)
