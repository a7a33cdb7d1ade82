-- ===== src/Coordinator/Tests/Decisions.antt =====
-- A maintainer's override and approval, and a merge.
use design_document.Json.Equal.{same_value}
use design_document.Base.{some, String, ◌≡◌, refl, true, none, List, [], ◌∷◌, ◌++◌, Result, ok, ◌⊎◌}
use design_document.Json.{str, Dict, empty, entry, get_str}
use design_document.Store.Event.{canonical_json, content_sha256}
use design_document.Feature.State.{
  FeatureState, initial_state, apply_event, awaiting_human_approval, approved, merging, completed,
  project_feature,
}
use design_document.Git.Command.{
  is_ancestor, GitPort, Completed, head, require_clean, is_clean, run_unchecked, is_ancestor,
  resolve_commit,
}
use design_document.Git.Workspace.{
  MergeBinding, Workspace, Inspection, ref_snapshot, local_config_sha256, inspect_implementation,
  validate_merge, cleanup, remove_worktree, remove_branch,
}
use design_document.Text.{decimal, strip}
use design_document.Feature.NewEvent.{new_event, integrity_of, stream_of, unsigned_event}
use design_document.Coordinator.World.{Failure, World, or_empty, on_git, on_outside}
use design_document.Coordinator.Log.{
  state_of, append, correlation, build, fresh_id, producer_of, human_producer, runtime_producer,
  write_event, project_all,
}
use design_document.Coordinator.Guards.{
  in_phase, is_text, has_profile, expected_worktree_head, workspace_from_state,
  effective_fix_cycle_limit, assert_adapter_profile, assert_not_blocked,
}
use design_document.Coordinator.Review.{
  override_fix_cycle_limit, approve_merge, override_in, unblock,
}
use design_document.Coordinator.Review.Override.{
  Overrides, override_fix_cycle_limit-Overrides, approve_merge-binds,
}
use design_document.Coordinator.Merge.Recovery.{reconcile_merge-Settled, IsRecovered}
use design_document.Coordinator.Merge.{
  reconcile_merge, settle_merge, adopt_merged, clean_up, merge, merge_in_phase, merge_approved,
  run_merge, binding_of, indexed, terminate_feature_sessions,
}
use design_document.Coordinator.Merge.Gate.{StandsOn, merge-StandsOn}
use design_document.Coordinator.Tests.{
  implementation, state_in, ports, event, history, world, value_of, none_yet,
}

abbrev blocked_world : World (List String) (List Dict)
blocked_world =
    world [] none (
      history ++ event "feature.blocked" (entry "reason" (str "review_fix_cycle_limit") empty) ∷ [])

abbrev overridden : Result Failure FeatureState × World (List String) (List Dict)
overridden = override_fix_cycle_limit (ports "approve") "f1" 1 "maintainer" "one more" blocked_world

override_run : overridden ≡ (ok (value_of overridden none_yet), overridden.1)
unfolding override_fix_cycle_limit override_in unblock strip decimal workspace_from_state
    effective_fix_cycle_limit expected_worktree_head assert_adapter_profile has_profile
    assert_not_blocked append correlation build fresh_id producer_of human_producer runtime_producer
    write_event new_event integrity_of stream_of unsigned_event apply_event project_feature
    canonical_json content_sha256 state_of project_all initial_state
override_run = refl

override_fix_cycle_limit-Overrides_example :
    (s : FeatureState) × (w₁ : World (List String) (List Dict)) × (state_of
        (ports "approve")
        "f1"
        blocked_world
      ≡ (ok s, w₁))
    × Overrides (ports "approve") s (value_of overridden none_yet)
override_fix_cycle_limit-Overrides_example =
    override_fix_cycle_limit-Overrides (ports "approve") "f1" 1 "maintainer" "one more"
      (value_of overridden none_yet) blocked_world overridden.1 override_run

abbrev waiting_world : World (List String) (List Dict)
waiting_world = world [] none (
    history
    ++ event "implementation.progress" (entry "stage" (str "review.recommendation") empty) ∷ [])

abbrev human_approved : Result Failure FeatureState × World (List String) (List Dict)
human_approved = approve_merge (ports "approve") "f1" "h" "maintainer" waiting_world

approve_merge_run : human_approved ≡ (ok (value_of human_approved none_yet), human_approved.1)
unfolding approve_merge decimal workspace_from_state effective_fix_cycle_limit
    expected_worktree_head assert_adapter_profile has_profile assert_not_blocked append correlation
    build fresh_id producer_of human_producer runtime_producer write_event new_event integrity_of
    stream_of unsigned_event apply_event project_feature canonical_json content_sha256 state_of
    project_all initial_state
approve_merge_run = refl

approve_merge-binds_example :
    (s : FeatureState) × (w₁ : World (List String) (List Dict)) × (state_of
        (ports "approve")
        "f1"
        waiting_world
      ≡ (ok s, w₁))
    × (s.blocked ≡ none)
    × (in_phase s awaiting_human_approval ≡ true)
    × ((ports "approve").config.allow_temporary_human_review_override ≡ true)
    × (is_text (get_str "head" (or_empty s.implementation)) "h" ≡ true)
    × ((value_of human_approved none_yet).phase ≡ approved)
approve_merge-binds_example =
    approve_merge-binds (ports "approve") "f1" "h" "maintainer" (value_of human_approved none_yet)
      waiting_world human_approved.1 approve_merge_run

abbrev approved_world : World (List String) (List Dict)
approved_world =
    world ("" ∷ "b" ∷ "h" ∷ "tree" ∷ "" ∷ "" ∷ "m" ∷ []) none
      (history ++ event "merge.approved" (entry "reviewed_head" (str "h") empty) ∷ [])

abbrev merged : Result Failure FeatureState × World (List String) (List Dict)
merged = merge (ports "approve") "f1" approved_world

merge_run : merged ≡ (ok (value_of merged none_yet), merged.1)
unfolding merge merge_in_phase merge_approved run_merge binding_of indexed
    terminate_feature_sessions validate_merge cleanup remove_worktree remove_branch resolve_commit
    design_document.Git.Workspace.merge workspace_from_state effective_fix_cycle_limit
    expected_worktree_head assert_adapter_profile has_profile assert_not_blocked on_git on_outside
    decimal head require_clean is_clean run_unchecked design_document.Git.Command.run strip append
    correlation build fresh_id producer_of human_producer runtime_producer write_event new_event
    integrity_of stream_of unsigned_event apply_event project_feature canonical_json content_sha256
    state_of project_all initial_state same_value
merge_run = refl

merge-StandsOn_example :
    (s : FeatureState) × (w₁ : World (List String) (List Dict)) × (state_of
        (ports "approve")
        "f1"
        approved_world
      ≡ (ok s, w₁))
    × (s.blocked ≡ none)
    × ((in_phase s completed ≡ true)
        ⊎ ((in_phase s merging ≡ true)
            ⊎ ((in_phase s approved ≡ true)
                × ((b : MergeBinding) × StandsOn (ports "approve") s b))))
merge-StandsOn_example =
    merge-StandsOn (ports "approve") "f1" (value_of merged none_yet) approved_world merged.1
      merge_run

-- The merge was made, and the process stopped before it was recorded.
abbrev merging_world : World (List String) (List Dict)
merging_world = world ("m" ∷ "" ∷ "" ∷ []) none history

abbrev recovered : Result Failure FeatureState × World (List String) (List Dict)
recovered = reconcile_merge (ports "approve") (state_in merging (some implementation)) merging_world

reconcile_merge_run : recovered ≡ (ok (value_of recovered none_yet), recovered.1)
unfolding reconcile_merge settle_merge adopt_merged is_ancestor clean_up binding_of indexed
    terminate_feature_sessions cleanup remove_worktree remove_branch workspace_from_state
    effective_fix_cycle_limit expected_worktree_head assert_adapter_profile has_profile
    assert_not_blocked on_git on_outside decimal head require_clean is_clean run_unchecked
    design_document.Git.Command.run strip append correlation build fresh_id producer_of
    human_producer runtime_producer write_event new_event integrity_of stream_of unsigned_event
    apply_event project_feature canonical_json content_sha256 state_of project_all initial_state
reconcile_merge_run = refl

reconcile_merge-Settled_example :
    IsRecovered
      (ports "approve")
      (state_in merging (some implementation))
      (value_of recovered none_yet)
      merging_world
reconcile_merge-Settled_example =
    reconcile_merge-Settled (ports "approve") (state_in merging (some implementation))
      (value_of recovered none_yet) merging_world recovered.1 reconcile_merge_run
