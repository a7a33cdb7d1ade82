-- ===== src/Coordinator/Tests/Loop.antt =====
-- The dispatch loop, up to a gate and with an expired lease.
use design_document.Base.{
  String, ◌≡◌, refl, true, false, Option, none, some, List, [], ◌∷◌, ◌++◌, arith, Result, ok, err,
}
use design_document.Json.{Dict, empty}
use design_document.Store.Event.{canonical_json, content_sha256}
use design_document.Identifier.{is_safe_feature_id}
use design_document.Feature.State.{
  FeatureState, initial_state, apply_event, implementation_ready, project_feature,
}
use design_document.Git.Lease.{expired}
use design_document.Git.Command.{
  GitPort, Completed, head, require_clean, is_clean, run_unchecked, is_ancestor, resolve_commit,
}
use design_document.Text.{decimal, strip}
use design_document.Coordinator.Plan.{invoke, acknowledge}
use design_document.Feature.NewEvent.{new_event, integrity_of, stream_of, unsigned_event}
use design_document.Coordinator.World.{Failure, lease_error, World, on_git, on_outside}
use design_document.Coordinator.Log.{
  state_of, append, correlation, build, fresh_id, producer_of, human_producer, runtime_producer,
  write_event, project_all,
}
use design_document.Coordinator.Guards.{
  has_profile, expected_worktree_head, workspace_from_state, effective_fix_cycle_limit,
  assert_adapter_profile, assert_not_blocked,
}
use design_document.Coordinator.Implement.{packet, plan_artifact}
use design_document.Coordinator.Review.{
  review, reviewer_turn, conclude_review, request_changes, approve_by_reviewer, block,
  block_at_limit, limit_detail, review_payload,
}
use design_document.Coordinator.Dispatch.{run_until_gate, round, go_round, step_of, take}
use design_document.Coordinator.Dispatch.Stops.{IsGate, run_until_gate-IsGate}
use design_document.Coordinator.Dispatch.Expiry.{HasExpired, run_until_gate-HasExpired}
use design_document.Coordinator.Tests.{
  ports, implementation, event, history, lease, world, state_in, value_of, none_yet,
}

-- The loop reviews, is approved and stops.
abbrev gate_world : World (List String) (List Dict)
gate_world = world ("h" ∷ "" ∷ []) none (history ++ event "review.requested" empty ∷ [])

abbrev gated : Result Failure (Option FeatureState) × World (List String) (List Dict)
gated = run_until_gate (ports "approve") 2 "f1" false gate_world

abbrev state_or : Option FeatureState → FeatureState
state_or none = none_yet
state_or (some s) = s

abbrev gate : FeatureState
gate = state_or (value_of gated none)

run_until_gate_run : gated ≡ (ok (some gate), gated.1)
unfolding run_until_gate round go_round step_of take review reviewer_turn conclude_review
    request_changes approve_by_reviewer block block_at_limit limit_detail review_payload packet
    plan_artifact invoke acknowledge workspace_from_state effective_fix_cycle_limit
    expected_worktree_head assert_adapter_profile has_profile assert_not_blocked on_git on_outside
    decimal head require_clean is_clean run_unchecked design_document.Git.Command.run strip append
    correlation build fresh_id producer_of human_producer runtime_producer write_event new_event
    integrity_of stream_of unsigned_event apply_event project_feature canonical_json content_sha256
    state_of project_all initial_state
run_until_gate_run = refl

run_until_gate-IsGate_example : IsGate (ports "approve") "f1" false gate gated.1
run_until_gate-IsGate_example =
    run_until_gate-IsGate (ports "approve") 2 "f1" false gate gate_world gated.1 run_until_gate_run

abbrev late_world : World (List String) (List Dict)
late_world = world [] (some (lease 50)) history

state_of_run : state_of (ports "approve") "f1" late_world ≡ (
  ok (record (state_in implementation_ready (some implementation)) { dispatch_rounds = 1 }),
  late_world,
)
unfolding state_of project_all stream_of apply_event project_feature initial_state
state_of_run = refl

profile_run :
    has_profile
      (ports "approve")
      (record (state_in implementation_ready (some implementation)) { dispatch_rounds = 1 })
    ≡ true
unfolding has_profile initial_state
profile_run = refl

lease-HasExpired :
    HasExpired late_world.files 100
      (record (state_in implementation_ready (some implementation)) { dispatch_rounds = 1 })
      (lease 50)
unfolding is_safe_feature_id initial_state
lease-HasExpired = record {
  safe = refl;
  in_force = refl;
  own = refl;
  token = refl;
  over = omega arith;
}

run_until_gate-HasExpired_example :
    run_until_gate (ports "approve") 5 "f1" false late_world
    ≡ (err (lease_error expired), late_world)
unfolding initial_state
run_until_gate-HasExpired_example =
    run_until_gate-HasExpired (ports "approve") 4 false
      (record (state_in implementation_ready (some implementation)) { dispatch_rounds = 1 })
      (lease 50) late_world state_of_run profile_run refl refl lease-HasExpired
