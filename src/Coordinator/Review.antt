-- ===== src/Coordinator/Review.antt =====
-- src/ai_runtime/runtime/coordinator.py: `_request_review`, `_review`, `_block`,
-- `override_fix_cycle_limit` and `approve_merge`.
pub mod Verdict
pub mod Override
use Prim.Native.String.{◌++◌}
use design_document.Base.{
  ℕ, zero, suc, ◌+◌, ltb, leb, String, Bool, true, false, not, ◌&&◌, Option, none, some, List, [],
  ◌∷◌, ◌==◌, nat_eq, if◌then◌else◌, Result, ok, err,
}
use design_document.Json.{
  Value, null, bool, int, str, arr, obj, Items, Dict, empty, entry, get, get_str, get_nat, set,
  merge,
}
use design_document.Text.{decimal, strip}
use design_document.Feature.State.{FeatureState, awaiting_human_approval}
use design_document.Git.Command.{head, require_clean}
use design_document.Git.Workspace.{Workspace, review_patch}
use design_document.Coordinator.World.{
  Failure, policy_error, recovery_error, Reply, Capability, Prompt, review_prompt, Ports, World,
  Run, ◌>>=◌, ◌>>◌, pure, raise, require, on_git, or_empty, get_or_null, text_of,
}
use design_document.Coordinator.Log.{
  state_of, append, producer_of, human_producer, runtime_producer,
}
use design_document.Coordinator.Guards.{
  in_phase, is_text, phase_text, assert_not_blocked, assert_adapter_profile,
  effective_fix_cycle_limit, workspace_from_state,
}
use design_document.Coordinator.Plan.{texts, invoke, acknowledge}
use design_document.Coordinator.Writer.{revoke_implementation_lease}
use design_document.Coordinator.Implement.{plan_artifact, packet}

-- An entry in an f-string.
abbrev shown : (Value → String) → String → Dict → String
shown other k d = elim (get k d) [ none ↦ "None" | some v ↦ text_of other v ]

abbrev pub is_limit_block : Option Dict → Bool
is_limit_block none = false
is_limit_block (some b) = is_text (get_str "reason" b) "review_fix_cycle_limit"

module _ {R L : Type 0} (ports : Ports R L) where
  abbrev authority : String
  authority = if ports.reviewer.capability.merge_authority then "merge" else "advisory"

  unfoldable pub request_review : FeatureState → Run (World R L) FeatureState
  request_review before = do
    s ← revoke_implementation_lease ports before
    let implementation = or_empty s.implementation
    append ports s "review.requested"
        (entry "base_head" (get_or_null "base_head" implementation) (
          entry "reviewed_head" (get_or_null "head" implementation) (
            entry "diff_sha256" (get_or_null "diff_sha256" implementation) (
              entry "reviewer_adapter" (str ports.reviewer.capability.name)
                (entry "reviewer_authority" (str authority) empty)))))
        runtime_producer ("review-requested-" ++ shown ports.other_text "head" implementation)

  abbrev actions : Value
  actions = arr (texts ("abandon" ∷ "replan" ∷ "policy_override" ∷ []))

  -- `_block`: the phase stays, dispatch stops.
  unfoldable pub block : FeatureState → String → Dict → Run (World R L) FeatureState
  block s reason detail =
      let implementation = or_empty s.implementation in
      append ports s "feature.blocked"
        (merge
          (entry "reason" (str reason) (
            entry "blocked_stage" (str (phase_text s.phase)) (
              entry "fix_cycles" (int s.fix_cycles) (
                entry "dispatch_rounds" (int s.dispatch_rounds) (
                  entry "max_fix_cycles" (int (effective_fix_cycle_limit ports s)) (
                    entry "base_head" (get_or_null "base_head" implementation) (
                      entry "reviewed_head" (get_or_null "head" implementation) (
                        entry "branch" (get_or_null "branch" implementation)
                          (entry "maintainer_actions" actions empty)))))))))
          detail)
        runtime_producer ("blocked-" ++ (reason ++ ("-" ++ decimal (s.sequence + 1))))

  unfoldable pub review_payload : FeatureState → Reply → Dict
  review_payload s reply =
      let implementation = or_empty s.implementation in
      entry "reviewed_head" (get_or_null "head" implementation) (
        entry "base_head" (get_or_null "base_head" implementation) (
          entry "verdict" (get_or_null "verdict" reply.value) (
            entry "summary" (get_or_null "summary" reply.value) (
              entry "findings" (get_or_null "findings" reply.value)
                (entry "adapter_evidence" (obj reply.evidence) empty)))))

  abbrev pub advisor : String
  advisor = "temporary_review_advisor"

  abbrev pub reviewed_purpose : String → FeatureState → String
  reviewed_purpose what s = what ++ shown ports.other_text "head" (or_empty s.implementation)

  unfoldable pub limit_detail : Dict → FeatureState → Dict
  limit_detail payload s = entry "summary" (get_or_null "summary" payload) (
      entry "findings" (get_or_null "findings" payload) (
        entry "detail"
          (str (
            decimal s.fix_cycles
            ++ (" implementer/reviewer rounds reached the configured limit of "
                ++ (decimal (effective_fix_cycle_limit ports s) ++ " without an approval"))))
          empty))

  -- The limit is tested on the state after `changes.requested`.
  unfoldable pub block_at_limit : Dict → FeatureState → Run (World R L) FeatureState
  block_at_limit payload s =
      if leb (effective_fix_cycle_limit ports s) s.fix_cycles
      then block s "review_fix_cycle_limit" (limit_detail payload s)
      else pure s

  unfoldable pub request_changes : FeatureState → Reply → Run (World R L) FeatureState
  request_changes s reply = do
    projected ←
        append ports s "changes.requested" (review_payload s reply)
          (producer_of ports.reviewer
            (if ports.reviewer.capability.temporary then advisor else "claude_reviewer")
            s.feature_id (some reply))
          (reviewed_purpose "changes-requested-" s)
    acknowledge ports ports.reviewer reply
    block_at_limit (review_payload s reply) projected

  unfoldable pub approve_by_reviewer : FeatureState → Reply → Run (World R L) FeatureState
  approve_by_reviewer s reply = do
    projected ←
        append ports s "merge.approved"
          (merge (review_payload s reply) (entry "authority" (str "claude_reviewer") empty))
          (producer_of ports.reviewer "claude_reviewer" s.feature_id (some reply))
          (reviewed_purpose "merge-approved-" s)
    acknowledge ports ports.reviewer reply
    pure projected

  unfoldable pub recommend : FeatureState → Reply → Run (World R L) FeatureState
  recommend s reply = do
    projected ←
        append ports s "implementation.progress"
          (merge (review_payload s reply) (
            entry "stage" (str "review.recommendation") (
              entry "authority" (str "advisory")
                (entry "temporary_adapter" (str ports.reviewer.capability.name) empty))))
          (producer_of ports.reviewer advisor s.feature_id (some reply))
          (reviewed_purpose "review-recommended-" s)
    acknowledge ports ports.reviewer reply
    pure projected

  -- What follows a turn of the reviewer.
  unfoldable pub conclude_review : FeatureState → Reply → Run (World R L) FeatureState
  conclude_review s reply =
      if is_text (get_str "verdict" reply.value) "changes_requested"
      then request_changes s reply
      else if not (is_text (get_str "verdict" reply.value) "approve")
      then raise (policy_error "unsupported review verdict")
      else if ports.reviewer.capability.merge_authority
      then approve_by_reviewer s reply
      else recommend s reply

  -- The patch that only a temporary reviewer is shown.
  patch_for : Workspace → Run (World R L) (Option String)
  patch_for workspace =
      if ports.reviewer.capability.temporary
      then (do patch ← on_git (review_patch ports.git 65536 workspace); pure (some patch))
      else pure none

  prior_review : FeatureState → Option Dict
  prior_review s = if nat_eq s.fix_cycles 0 then none else some (or_empty s.review)

  unfoldable pub reviewer_turn : FeatureState → Workspace → Run (World R L) Reply
  unfolding patch_for prior_review
  reviewer_turn s workspace = do
    patch ← patch_for workspace
    prompt ← packet ports (
        review_prompt (or_empty s.request) (plan_artifact s) (or_empty s.implementation)
          (prior_review s) s.fix_cycles (effective_fix_cycle_limit ports s) patch)
    invoke ports ports.reviewer prompt
        (if ports.reviewer.capability.temporary then ports.config.repository else workspace.path)
        s.feature_id

  unfoldable pub review : FeatureState → Run (World R L) FeatureState
  review s = do
    workspace ← workspace_from_state ports s
    found ← on_git (head ports.git workspace.path)
    require (is_text (get_str "head" (or_empty s.implementation)) found)
        (recovery_error "feature head changed after implementation.ready")
    on_git (require_clean ports.git workspace.path)
    reply ← reviewer_turn s workspace
    conclude_review s reply

  -- The override of a block: only of the fix-cycle limit, by a bounded number of cycles.
  unfoldable pub unblock : FeatureState → ℕ → String → String → Run (World R L) FeatureState
  unblock s additional_cycles approved_by justification =
      append ports s "feature.unblocked"
        (entry "reason" (str "review_fix_cycle_limit_override") (
          entry "max_fix_cycles" (int (s.fix_cycles + additional_cycles)) (
            entry "additional_cycles" (int additional_cycles) (
              entry "prior_fix_cycles" (int s.fix_cycles) (
                entry "configured_max_fix_cycles" (int ports.config.max_fix_cycles) (
                  entry "justification" (str justification) (
                    entry "reviewed_head" (get_or_null "head" (or_empty s.implementation))
                      empty)))))))
        (human_producer approved_by) ("unblocked-" ++ decimal (s.fix_cycles + additional_cycles))

  unfoldable pub override_in : FeatureState → ℕ → String → String → Run (World R L) FeatureState
  override_in s additional_cycles approved_by justification = do
    require (is_limit_block s.blocked)
        (policy_error "feature is not blocked, or the override does not apply to the block")
    require (leb 1 additional_cycles && leb additional_cycles ports.config.max_fix_cycles)
        (policy_error "additional_cycles must be between 1 and max_fix_cycles")
    require (not (strip justification == ""))
        (policy_error "override requires a recorded justification")
    unblock s additional_cycles approved_by justification

  unfoldable pub override_fix_cycle_limit :
      String → ℕ → String → String → Run (World R L) FeatureState
  override_fix_cycle_limit feature_id additional_cycles approved_by justification = do
    s ← state_of ports feature_id
    assert_adapter_profile ports s
    override_in s additional_cycles approved_by justification

  unfoldable pub approve_merge : String → String → String → Run (World R L) FeatureState
  approve_merge feature_id expected_head approved_by = do
    s ← state_of ports feature_id
    assert_adapter_profile ports s
    assert_not_blocked s
    require (in_phase s awaiting_human_approval)
        (policy_error "human temporary-review override requires AWAITING_HUMAN_APPROVAL")
    require ports.config.allow_temporary_human_review_override
        (policy_error "temporary reviewer override is disabled")
    require (is_text (get_str "head" (or_empty s.implementation)) expected_head)
        (policy_error "human approval does not bind the implementation head")
    append ports s "merge.approved"
        (entry "reviewed_head" (str expected_head) (
          entry "base_head" (get_or_null "base_head" (or_empty s.implementation)) (
            entry "diff_sha256" (get_or_null "diff_sha256" (or_empty s.implementation)) (
              entry "authority" (str "human_temporary_reviewer_override")
                (entry "advisory_adapter" (str ports.reviewer.capability.name) empty)))))
        (human_producer approved_by) ("human-merge-approved-" ++ expected_head)
