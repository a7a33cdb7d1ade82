-- ===== src/Coordinator/Tests/Turns.antt =====
-- A turn of the reviewer and one of the implementer.
use design_document.Base.{String, ◌≡◌, refl, none, some, List, [], ◌∷◌, Result, ok}
use design_document.Json.{Dict}
use design_document.Store.Event.{canonical_json, content_sha256}
use design_document.Identifier.{is_safe_feature_id}
use design_document.Feature.State.{
  FeatureState, initial_state, apply_event, reviewing, implementing, project_feature,
}
use design_document.Git.Lease.{read, validate, revoke}
use design_document.Git.Command.{
  GitPort, Completed, head, require_clean, is_clean, run_unchecked, is_ancestor, resolve_commit,
}
use design_document.Git.Workspace.{ref_snapshot, local_config_sha256, inspect_implementation}
use design_document.Text.{decimal, strip, splitlines}
use design_document.Coordinator.Plan.{invoke, acknowledge}
use design_document.Feature.NewEvent.{new_event, integrity_of, stream_of, unsigned_event}
use design_document.Coordinator.World.{Failure, World, on_git, on_outside}
use design_document.Coordinator.Log.{
  append, correlation, build, fresh_id, producer_of, human_producer, runtime_producer, write_event,
}
use design_document.Coordinator.Guards.{
  has_profile, expected_worktree_head, workspace_from_state, effective_fix_cycle_limit,
  assert_adapter_profile, assert_not_blocked,
}
use design_document.Coordinator.Writer.{
  current_lease, read_lease, held_lease, validate_lease, revoke_held, revoke_and_record,
  revoke_lease, revoke_implementation_lease,
}
use design_document.Coordinator.Implement.{
  implement, record_implementation, packet, plan_artifact, findings_packet, implementer_turn,
  same_refs,
}
use design_document.Coordinator.Implement.Checks.{implement-TurnIsChecked, IsImplemented}
use design_document.Coordinator.Review.{
  review, reviewer_turn, conclude_review, request_changes, approve_by_reviewer, block,
  block_at_limit, limit_detail, review_payload,
}
use design_document.Coordinator.Review.Verdict.{review-AsksForChanges-or-Approves, IsReviewed}
use design_document.Coordinator.Tests.{
  ports, implementation, history, lease, world, state_in, value_of, none_yet,
}

abbrev review_world : World (List String) (List Dict)
review_world = world ("h" ∷ "" ∷ []) none history

abbrev reviewed : Result Failure FeatureState × World (List String) (List Dict)
reviewed =
    review (ports "changes_requested") (state_in reviewing (some implementation)) review_world

review_run : reviewed ≡ (ok (value_of reviewed none_yet), reviewed.1)
unfolding review reviewer_turn conclude_review request_changes approve_by_reviewer block
    block_at_limit limit_detail review_payload packet plan_artifact invoke acknowledge
    workspace_from_state effective_fix_cycle_limit expected_worktree_head assert_adapter_profile
    has_profile assert_not_blocked on_git on_outside decimal head require_clean is_clean
    run_unchecked design_document.Git.Command.run strip append correlation build fresh_id
    producer_of human_producer runtime_producer write_event new_event integrity_of stream_of
    unsigned_event apply_event project_feature canonical_json content_sha256 initial_state
review_run = refl

review-AsksForChanges-or-Approves_example :
    IsReviewed
      (ports "changes_requested")
      (state_in reviewing (some implementation))
      (value_of reviewed none_yet)
      review_world
      reviewed.1
review-AsksForChanges-or-Approves_example =
    review-AsksForChanges-or-Approves (ports "changes_requested")
      (state_in reviewing (some implementation)) (value_of reviewed none_yet) review_world
      reviewed.1 review_run

abbrev implement_world : World (List String) (List Dict)
implement_world =
    world ("" ∷ "b" ∷ "" ∷ "" ∷ "" ∷ "" ∷ "" ∷ "h" ∷ "" ∷ "diff" ∷ "a.py" ∷ []) (some (lease 900))
      []

abbrev implemented : Result Failure FeatureState × World (List String) (List Dict)
implemented = implement (ports "approve") (state_in implementing none) implement_world

implement_run : implemented ≡ (ok (value_of implemented none_yet), implemented.1)
unfolding implement implementer_turn record_implementation current_lease read_lease held_lease
    validate_lease revoke_held revoke_and_record revoke_lease revoke_implementation_lease same_refs
    packet plan_artifact findings_packet invoke acknowledge ref_snapshot local_config_sha256
    inspect_implementation is_ancestor splitlines read validate revoke is_safe_feature_id
    initial_state workspace_from_state effective_fix_cycle_limit expected_worktree_head
    assert_adapter_profile has_profile assert_not_blocked on_git on_outside decimal head
    require_clean is_clean run_unchecked design_document.Git.Command.run strip append correlation
    build fresh_id producer_of human_producer runtime_producer write_event new_event integrity_of
    stream_of unsigned_event apply_event project_feature canonical_json content_sha256
implement_run = refl

implement-TurnIsChecked_example :
    IsImplemented
      (ports "approve")
      (state_in implementing none)
      (value_of implemented none_yet)
      implement_world
      implemented.1
implement-TurnIsChecked_example =
    implement-TurnIsChecked (ports "approve") (state_in implementing none)
      (value_of implemented none_yet) implement_world implemented.1 implement_run
