-- ===== src/Coordinator/Plan.antt =====
-- src/ai_runtime/runtime/coordinator.py: `request_feature`, `_plan` and `approve_plan`.
use design_document.Base.{String, Option, none, some, List, [], ◌∷◌, if◌then◌else◌}
use design_document.Json.{
  Value, null, bool, str, arr, obj, Items, nil, cons, Dict, empty, entry, merge,
}
use design_document.Store.Event.{canonical_json}
use design_document.Feature.State.{FeatureState, new, plan_ready}
use design_document.Git.Command.{head, require_clean}
use design_document.Coordinator.World.{
  policy_error, adapter_error, store_error, Reply, Capability, Adapter, Prompt, plan_prompt, Ports,
  World, Run, ◌>>=◌, ◌>>◌, pure, lift, require, on_outside, on_git, or_empty,
}
use design_document.Coordinator.Log.{state_of, append, producer_of, human_producer}
use design_document.Coordinator.Guards.{in_phase, assert_adapter_profile}

abbrev pub texts : List String → Items
texts [] = nil
texts (s ∷ l) = cons (str s) (texts l)

abbrev bound_adapter : Capability → Dict
bound_adapter c = entry "name" (str c.name) (entry "version" (str c.version) empty)

module _ {R L : Type 0} (ports : Ports R L) where
  unfoldable pub adapter_profile : Dict
  adapter_profile = entry "planner" (obj (bound_adapter ports.planner.capability)) (
      entry "implementer" (obj (bound_adapter ports.implementer.capability)) (
        entry "reviewer"
          (obj (
            entry "name" (str ports.reviewer.capability.name) (
              entry "version" (str ports.reviewer.capability.version)
                (entry "temporary" (bool ports.reviewer.capability.temporary) empty))))
          empty))

  unfoldable pub request_feature :
      String → String → List String → String → Run (World R L) FeatureState
  request_feature feature_id request acceptance_criteria requested_by = do
    s ← state_of ports feature_id
    require (in_phase s new) (policy_error "feature already exists")
    on_git (require_clean ports.git ports.config.repository)
    base_head ← on_git (head ports.git ports.config.repository)
    append ports s "feature.requested"
        (entry "request" (str request) (
          entry "acceptance_criteria" (arr (texts acceptance_criteria)) (
            entry "base_ref" (str ports.config.base_ref) (
              entry "base_head" (str base_head)
                (entry "adapter_profile" (obj adapter_profile) empty)))))
        (human_producer requested_by) "requested"

  -- A turn of an adapter.
  unfoldable pub invoke : Adapter R → Prompt → String → String → Run (World R L) Reply
  invoke adapter prompt cwd feature_id =
      on_outside adapter_error (adapter.invoke prompt cwd feature_id)

  unfoldable pub acknowledge : Adapter R → Reply → Run (World R L) Unit
  acknowledge adapter reply = on_outside adapter_error (adapter.acknowledge reply)

  unfoldable pub plan : FeatureState → Run (World R L) FeatureState
  plan s = do
    reply ←
        invoke ports.planner (plan_prompt (or_empty s.request)) ports.config.repository s.feature_id
    projected ←
        append ports s "plan.ready"
          (merge reply.value (entry "adapter_evidence" (obj reply.evidence) empty))
          (producer_of ports.planner
            (if ports.planner.capability.temporary then "temporary_planner" else "claude_planner")
            s.feature_id (some reply))
          "plan-ready"
    acknowledge ports.planner reply
    pure projected

  abbrev plan_value : Option Dict → Value
  plan_value none = null
  plan_value (some d) = obj d

  unfoldable pub approve_plan : String → String → Run (World R L) FeatureState
  approve_plan feature_id approved_by = do
    s ← state_of ports feature_id
    assert_adapter_profile ports s
    require (in_phase s plan_ready) (policy_error "plan approval requires PLAN_READY")
    rendered ← lift store_error (canonical_json ports.platform (plan_value s.plan))
    append ports s "plan.approved"
        (entry "plan_sha256" (str (ports.platform.sha256 rendered)) empty)
        (human_producer approved_by) "plan-approved"
