-- ===== src/Coordinator/Implement.antt =====
-- src/ai_runtime/runtime/coordinator.py: `_implement` and `reconcile_implementation`.
pub mod Checks
use Prim.Native.String.{◌++◌}
use design_document.Base.{
  ℕ, ltb, String, Bool, true, false, not, ◌&&◌, Option, none, some, List, [], ◌∷◌, all, ◌==◌,
  nat_eq, if◌then◌else◌, Result, ok, err, or_raise,
}
use design_document.Json.{
  Value, null, bool, int, str, arr, obj, Dict, empty, entry, get, get_str, get_nat, set, merge,
}
use design_document.Feature.State.{FeatureState, Missing, missing, implementing}
use design_document.Git.Lease.{Lease, LeaseFiles, LeaseError, read, acquire, validate, revoke}
use design_document.Git.Command.{head, require_clean}
use design_document.Git.Workspace.{
  Workspace, Places, Inspection, create, ref_snapshot, local_config_sha256, inspect_implementation,
}
use design_document.Text.{decimal}
use design_document.Coordinator.World.{
  Failure, policy_error, recovery_error, lease_error, key_error, Reply, Prompt, implement_prompt,
  Ports, World, Run, ◌>>=◌, ◌>>◌, pure, raise, lift, require, on_git, or_empty, get_or_null,
  text_of,
}
use design_document.Coordinator.Log.{
  state_of, append, producer_of, human_producer, runtime_producer,
}
use design_document.Coordinator.Guards.{
  in_phase, is_text, assert_adapter_profile, workspace_from_state, expected_worktree_head,
}
use design_document.Coordinator.Plan.{texts, invoke, acknowledge}
use design_document.Coordinator.Writer.{
  entry_text, or_text, places, acquire_lease, grant_lease, read_lease, validate_lease, revoke_lease,
  token_differs, held_lease, current_lease, revoke_and_record, revoke_held,
  revoke_implementation_lease,
}

lookup_ref : String → List (String × String) → Option String
lookup_ref k [] = none
lookup_ref k ((j, v) ∷ refs) = if j == k then some v else lookup_ref k refs

abbrev held_in : List (String × String) → String × String → Bool
held_in refs (k, v) = is_text (lookup_ref k refs) v

-- Equality of two dictionaries of references.
unfoldable pub same_refs : List (String × String) → List (String × String) → Bool
unfolding lookup_ref
same_refs a b = all (held_in b) a && all (held_in a) b

abbrev pub inspection_dict : Inspection → Dict
inspection_dict i = entry "base_head" (str i.base_head) (
    entry "head" (str i.head) (
      entry "branch" (str i.branch) (
        entry "changed_paths" (arr (texts i.changed_paths))
          (entry "diff_sha256" (str i.diff_sha256) empty))))

abbrev require_key : String → Dict → Result Missing Value
require_key k d = or_raise (get k d) (missing k)

-- The plan's fields that a model is shown.
unfoldable pub plan_artifact : FeatureState → Dict
plan_artifact s = pick "summary" (pick "steps" (pick "acceptance_criteria" (pick "risks" empty)))
  where
    pick : String → Dict → Dict
    pick k rest = elim (get k (or_empty s.plan)) [ none ↦ rest | some v ↦ entry k v rest ]

-- `_findings_packet`: the last review, while it rejects the head that is in the worktree.
unfoldable pub findings_packet : FeatureState → String → Option Dict
findings_packet s expected_head =
    let review = or_empty s.review in
    if is_text (get_str "verdict" review) "changes_requested"
      && is_text (get_str "reviewed_head" review) expected_head
    then some review
    else none

module _ {R L : Type 0} (ports : Ports R L) where
  -- `_packet`
  unfoldable pub packet : Prompt → Run (World R L) Prompt
  packet prompt = do
    require (not (ltb ports.config.feature_packet_bytes (ports.prompt_bytes prompt)))
        (policy_error "packet exceeds the configured feature packet budget")
    pure prompt

  -- The turn of the implementer, and the checks of what it left.
  unfoldable pub implementer_turn :
      FeatureState → Workspace → Lease → String → Run (World R L) (Reply × Inspection)
  implementer_turn s workspace lease started_head = do
    protected_refs ← on_git (ref_snapshot ports.git (places ports) (some workspace.branch))
    protected_config ← on_git (local_config_sha256 ports.git (places ports))
    prompt ← packet (
        implement_prompt (or_empty s.request) (plan_artifact s) workspace.base_head started_head
          (findings_packet s started_head) s.fix_cycles)
    reply ← invoke ports ports.implementer prompt workspace.path s.feature_id
    validate_lease ports lease
    refs ← on_git (ref_snapshot ports.git (places ports) (some workspace.branch))
    require (same_refs refs protected_refs)
        (recovery_error "implementer changed a protected branch or tag")
    config ← on_git (local_config_sha256 ports.git (places ports))
    require (config == protected_config)
        (recovery_error "implementer changed local Git configuration")
    inspection ← on_git (inspect_implementation ports.git workspace)
    require (not (inspection.head == started_head))
        (recovery_error "fix cycle produced no new commit; reviewer findings are unaddressed")
    pure (reply, inspection)

  abbrev evidence_of : Reply → String → Dict
  evidence_of reply actual_head =
      let declared = entry_text ports.other_text "commit" reply.value in
      merge reply.evidence (
        entry "declared_commit" (str declared)
          (entry "declared_commit_matches" (bool (declared == actual_head)) empty))

  unfoldable pub record_implementation :
      FeatureState → Reply × Inspection → Run (World R L) FeatureState
  record_implementation s (reply, inspection) = do
    summary ← lift key_error (require_key "summary" reply.value)
    tests ← lift key_error (require_key "tests" reply.value)
    projected ←
        append ports s "implementation.ready"
          (merge (inspection_dict inspection) (
            entry "summary" summary (
              entry "tests" tests
                (entry "adapter_evidence" (obj (evidence_of reply inspection.head)) empty))))
          (producer_of ports.implementer "codex_implementer" s.feature_id (some reply))
          ("implementation-ready-" ++ inspection.head)
    acknowledge ports ports.implementer reply
    revoke_implementation_lease ports projected

  unfoldable pub implement : FeatureState → Run (World R L) FeatureState
  implement s = do
    workspace ← workspace_from_state ports s
    lease ← current_lease ports s
    on_git (require_clean ports.git workspace.path)
    let started_head = or_text (expected_worktree_head ports s) workspace.base_head
    found ← on_git (head ports.git workspace.path)
    require (found == started_head) (
        recovery_error "feature contains a commit without implementation.ready; reconcile manually")
    result ← implementer_turn s workspace lease started_head
    record_implementation s result

  unfoldable pub reconcile_implementation :
      String → String → List String → String → Run (World R L) FeatureState
  reconcile_implementation feature_id summary tests reconciled_by = do
    s ← state_of ports feature_id
    assert_adapter_profile ports s
    require (in_phase s implementing)
        (policy_error "implementation reconciliation requires IMPLEMENTING")
    workspace ← workspace_from_state ports s
    lease ← current_lease ports s
    inspection ← on_git (inspect_implementation ports.git workspace)
    projected ←
        append ports s "implementation.ready"
          (merge (inspection_dict inspection) (
            entry "summary" (str summary) (
              entry "tests" (arr (texts tests)) (
                entry "adapter_evidence"
                  (obj (
                    entry "reconciled" (bool true) (
                      entry "reconciled_by" (str reconciled_by) (
                        entry "reason"
                          (str
                            "commit present without durable implementation.ready acknowledgement")
                          empty))))
                  empty))))
          (human_producer reconciled_by) ("implementation-reconciled-" ++ inspection.head)
    revoke_and_record ports projected lease
        "implementation reconciled and ready for read-only review"
