-- ===== src/Coordinator/Guards.antt =====
-- src/ai_runtime/runtime/coordinator.py: the guards that the operations share. An entry that is
-- compared is a text or is absent; one of another type counts as different.
use design_document.Base.{ℕ, suc, String, Bool, false, ◌&&◌, ◌||◌, Option, none, some, ◌==◌, nat_eq}
use design_document.Json.{Value, Dict, get, get_str, get_obj}
use design_document.Feature.State.{
  FeaturePhase, new, requested, plan_ready, plan_approved, implementing, implementation_ready,
  reviewing, changes_requested, awaiting_human_approval, approved, merging, completed, FeatureState,
}
use design_document.Git.Workspace.{Workspace}
use design_document.Coordinator.World.{
  policy_error, recovery_error, Capability, Ports, World, Run, pure, raise, require, or_empty,
  text_of,
}

abbrev pub phase_number : FeaturePhase → ℕ
phase_number new = 0
phase_number requested = 1
phase_number plan_ready = 2
phase_number plan_approved = 3
phase_number implementing = 4
phase_number implementation_ready = 5
phase_number reviewing = 6
phase_number changes_requested = 7
phase_number awaiting_human_approval = 8
phase_number approved = 9
phase_number merging = 10
phase_number completed = 11

abbrev pub in_phase : FeatureState → FeaturePhase → Bool
in_phase s p = nat_eq (phase_number s.phase) (phase_number p)

abbrev pub phase_text : FeaturePhase → String
phase_text new = "NEW"
phase_text requested = "REQUESTED"
phase_text plan_ready = "PLAN_READY"
phase_text plan_approved = "PLAN_APPROVED"
phase_text implementing = "IMPLEMENTING"
phase_text implementation_ready = "IMPLEMENTATION_READY"
phase_text reviewing = "REVIEWING"
phase_text changes_requested = "CHANGES_REQUESTED"
phase_text awaiting_human_approval = "AWAITING_HUMAN_APPROVAL"
phase_text approved = "APPROVED"
phase_text merging = "MERGING"
phase_text completed = "COMPLETED"

abbrev pub is_text : Option String → String → Bool
is_text none s = false
is_text (some t) s = t == s

module _ {W : Type 0} where
  unfoldable pub assert_not_blocked : FeatureState → Run W Unit
  assert_not_blocked s = elim s.blocked [
    | none ↦ pure tt
    | some b ↦ raise (policy_error "feature is blocked")
  ]

module _ {R L : Type 0} (ports : Ports R L) where
  is_bound : Option Dict → Capability → Bool
  is_bound none c = false
  is_bound (some bound) c =
      is_text (get_str "name" bound) c.name && is_text (get_str "version" bound) c.version

  matches : Option Dict → Bool
  unfolding is_bound
  matches none = false
  matches (some profile) =
      is_bound (get_obj "planner" profile) ports.planner.capability
      && is_bound (get_obj "implementer" profile) ports.implementer.capability
      && is_bound (get_obj "reviewer" profile) ports.reviewer.capability

  unfoldable pub has_profile : FeatureState → Bool
  unfolding matches
  has_profile s = in_phase s new || matches (get_obj "adapter_profile" (or_empty s.request))

  -- A missing profile or binding and a drift are one policy error.
  unfoldable pub assert_adapter_profile : FeatureState → Run (World R L) Unit
  assert_adapter_profile s = require (has_profile s) (policy_error "adapter drift")

  -- `state.cycle_allowance or self.config.max_fix_cycles`
  unfoldable pub effective_fix_cycle_limit : FeatureState → ℕ
  effective_fix_cycle_limit s = elim s.cycle_allowance [
    | some (suc n) ↦ suc n
    | _ ↦ ports.config.max_fix_cycles
  ]

  bind_workspace :
      FeatureState → Option Value → Option Value → Option Value → Run (World R L) Workspace
  bind_workspace s (some path) (some branch) (some base_head) = pure (record {
    feature_id = s.feature_id;
    path = text_of ports.other_text path;
    branch = text_of ports.other_text branch;
    base_ref = base_of (get "base_ref" (or_empty s.request));
    base_head = text_of ports.other_text base_head;
  })
    where
      base_of : Option Value → String
      base_of none = ports.config.base_ref
      base_of (some v) = text_of ports.other_text v
  bind_workspace s _ _ _ = raise (recovery_error "workspace binding is incomplete")

  unfoldable pub workspace_from_state : FeatureState → Run (World R L) Workspace
  unfolding bind_workspace
  workspace_from_state s =
      bind_workspace s (get "path" (or_empty s.workspace)) (get "branch" (or_empty s.workspace))
        (get "base_head" (or_empty s.workspace))

  abbrev text_or_empty : Option Value → String
  text_or_empty none = ""
  text_or_empty (some v) = text_of ports.other_text v

  -- `state.workspace or state.request or {}`: an empty object counts as none.
  abbrev or_request : Option Dict → Option Dict → Dict
  or_request (some (Dict.entry k v d)) request = Dict.entry k v d
  or_request _ request = or_empty request

  -- The base, or the last recorded head.
  unfoldable pub expected_worktree_head : FeatureState → String
  expected_worktree_head s = elim (get_str "head" (or_empty s.implementation)) [
    | some head ↦ head
    | none ↦ text_or_empty (get "base_head" (or_request s.workspace s.request))
  ]
