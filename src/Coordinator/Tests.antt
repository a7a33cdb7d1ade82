-- ===== src/Coordinator/Tests.antt =====
-- The coordinator on one feature, with agents and a repository that give fixed answers.
mod Turns
mod Decisions
mod Loop
use design_document.Base.{
  ℕ, String, ◌≡◌, refl, Bool, true, false, Option, none, some, List, [], ◌∷◌, ◌++◌, arith, Result,
  ok, err, ◌⊎◌,
}
use design_document.Json.{str, int, arr, obj, nil, Dict, empty, entry, get_str}
use design_document.Store.Event.{canonical_json, content_sha256}
use design_document.Identifier.{is_safe_feature_id}
use design_document.Feature.State.{
  FeaturePhase, FeatureState, initial_state, apply_event, reviewing, implementing,
  awaiting_human_approval, approved, merging, completed, implementation_ready, project_feature,
}
use design_document.Git.Lease.{Lease, LeaseFiles, expired, read, validate, revoke}
use design_document.Git.Command.{
  GitPort, Completed, head, require_clean, is_clean, run_unchecked, is_ancestor, resolve_commit,
}
use design_document.Git.Workspace.{
  MergeBinding, Workspace, Inspection, ref_snapshot, local_config_sha256, inspect_implementation,
  validate_merge, cleanup, remove_worktree, remove_branch,
}
use design_document.Text.{decimal, strip, splitlines}
use design_document.Coordinator.Plan.{invoke, acknowledge}
use design_document.Feature.NewEvent.{new_event, integrity_of, stream_of, unsigned_event}
use design_document.Coordinator.World.{
  Failure, lease_error, Reply, Adapter, Ports, World, or_empty, on_git, on_outside,
}
use design_document.Coordinator.Log.{
  state_of, append, correlation, build, fresh_id, producer_of, human_producer, runtime_producer,
  write_event, project_all,
}
use design_document.Coordinator.Guards.{
  in_phase, is_text, has_profile, expected_worktree_head, workspace_from_state,
  effective_fix_cycle_limit, assert_adapter_profile, assert_not_blocked,
}
use design_document.Coordinator.Writer.{
  or_text, current_lease, read_lease, held_lease, validate_lease, revoke_held, revoke_and_record,
  revoke_lease, revoke_implementation_lease,
}
use design_document.Coordinator.Implement.{
  implement, record_implementation, packet, plan_artifact, findings_packet, implementer_turn,
  same_refs,
}
use design_document.Coordinator.Implement.Checks.{TurnIsChecked, implement-TurnIsChecked}
use design_document.Coordinator.Review.{
  review, override_fix_cycle_limit, approve_merge, reviewer_turn, conclude_review, request_changes,
  approve_by_reviewer, block, block_at_limit, limit_detail, review_payload, override_in, unblock,
}
use design_document.Coordinator.Review.Verdict.{
  AsksForChanges, Approves, review-AsksForChanges-or-Approves,
}
use design_document.Coordinator.Review.Override.{
  Overrides, override_fix_cycle_limit-Overrides, approve_merge-binds,
}
use design_document.Coordinator.Merge.{
  merge, merge_in_phase, merge_approved, run_merge, binding_of, indexed, terminate_feature_sessions,
}
use design_document.Coordinator.Merge.Gate.{StandsOn, merge-StandsOn}
use design_document.Coordinator.Dispatch.{run_until_gate, round, go_round, step_of, take}
use design_document.Coordinator.Dispatch.Stops.{IsGate, run_until_gate-IsGate}
use design_document.Coordinator.Dispatch.Expiry.{HasExpired, run_until_gate-HasExpired}

abbrev pub answered : List String → List String × Completed
answered [] = ([], record { returncode = 1; stdout = "" })
answered (text ∷ texts) = (texts, record { returncode = 0; stdout = text })

abbrev pub agent : String → Bool → Dict → Adapter (List String)
agent name authority value = record {
  capability = record {
    name = name;
    version = "1";
    temporary = false;
    merge_authority = authority;
  };
  invoke = λ prompt cwd feature_id r. (ok (record { value = value; evidence = empty }), r);
  acknowledge = λ reply r. (ok tt, r);
}

abbrev pub ports : String → Ports (List String) (List Dict)
ports verdict = record {
  config = record {
    repository = "/r";
    worktree_root = "/w";
    base_ref = "HEAD";
    policy_revision = "p1";
    lease_ttl_seconds = 900;
    allow_temporary_human_review_override = true;
    max_fix_cycles = 1;
    feature_packet_bytes = 131072;
  };
  platform = record {
    dumps = λ v. some "{}";
    loads = λ t. none;
    sha256 = λ t. "d";
    fromisoformat = λ t. some true;
  };
  git = record {
    command = λ r cwd arguments. answered r;
    exists = λ r path. false;
    sha256 = λ text. "d";
  };
  planner = agent "claude" true empty;
  implementer = agent "codex" false (entry "summary" (str "done") (entry "tests" (arr nil) empty));
  reviewer = agent "claude" true (entry "verdict" (str verdict) empty);
  log = record { stored = λ l stream. ok l; append = λ event l. (ok tt, l ++ event ∷ []) };
  prompt_bytes = λ prompt. 10;
  other_text = λ v. "";
  uuid = λ r. ("u", r);
  time_text = λ r. "now";
  now = λ r. 100;
  absent = λ r name. true;
}

abbrev pub bound : String → Dict
bound name = entry "name" (str name) (entry "version" (str "1") empty)

abbrev pub request : Dict
request = entry "base_head" (str "b") (
    entry "adapter_profile"
      (obj (
        entry "planner" (obj (bound "claude")) (
          entry "implementer" (obj (bound "codex"))
            (entry "reviewer" (obj (bound "claude")) empty))))
      empty)

abbrev pub workspace : Dict
workspace = entry "path" (str "/w/f1") (
    entry "branch" (str "ai-runtime/f1")
      (entry "base_head" (str "b") (entry "fencing_token" (int 1) empty)))

abbrev pub implementation : Dict
implementation =
    entry "base_head" (str "b")
      (entry "head" (str "h") (entry "branch" (str "ai-runtime/f1") empty))

abbrev pub event : String → Dict → Dict
event event_type payload = entry "type" (str event_type) (
    entry "payload" (obj payload) (
      entry "aggregate" (obj (entry "feature_id" (str "f1") (entry "sequence" (int 3) empty)))
        (entry "correlation_id" (str "c1") (entry "event_id" (str "e1") empty))))

abbrev pub history : List Dict
history =
    event "feature.requested" request
    ∷ event "lease.granted" workspace
    ∷ event "implementation.ready" implementation
    ∷ []

abbrev pub lease : ℕ → Lease
lease expires_at = record {
  feature_id = "f1";
  owner = "codex-implementer-f1";
  workspace = "/w/f1";
  fencing_token = 1;
  lease_id = "u";
  expires_at = expires_at;
}

abbrev pub files : Option Lease → LeaseFiles
files l = record { lease_file = λ id. l; token_file = λ id. some 1 }

abbrev pub world : List String → Option Lease → List Dict → World (List String) (List Dict)
world answers l log = record { outside = answers; files = files l; log = log; sessions = [] }

abbrev pub state_in : FeaturePhase → Option Dict → FeatureState
state_in phase implementation = record (initial_state "f1") {
  phase = phase;
  sequence = 3;
  correlation_id = some "c1";
  last_event_id = some "e1";
  request = some request;
  workspace = some workspace;
  implementation = implementation;
}

-- The value of a run that returns.
abbrev pub value_of : {A W : Type 0} → Result Failure A × W → A → A
value_of (ok a, w) other = a
value_of (err x, w) other = other

abbrev pub none_yet : FeatureState
none_yet = initial_state "f1"
