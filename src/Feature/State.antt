-- ===== src/Feature/State.antt =====
-- src/ai_runtime/runtime/state.py: `FeaturePhase`, `FeatureState` and `project_feature`. A missing
-- entry, or one of another type than the code relies on, is the exception that Python raises there.
use design_document.Base.{
  ℕ, ◌+◌, String, Bool, false, not, Option, none, some, ◌==◌, ◌&&◌, if◌then◌else◌, Result, ok,
  ◌>>=◌, or_raise,
}
use design_document.Json.{Dict, get_str, get_obj, get_nat}

pub data FeaturePhase : Type 0 where
  new requested plan_ready plan_approved implementing implementation_ready : FeaturePhase
  reviewing changes_requested awaiting_human_approval approved merging completed : FeaturePhase

pub record FeatureState : Type 0 where
  pub feature_id : String
  pub phase : FeaturePhase
  pub sequence : ℕ
  pub correlation_id : Option String
  pub last_event_id : Option String
  pub request : Option Dict
  pub plan : Option Dict
  pub workspace : Option Dict
  pub implementation : Option Dict
  pub review : Option Dict
  pub approval : Option Dict
  pub merge : Option Dict
  pub dispatch_rounds : ℕ
  pub fix_cycles : ℕ
  pub cycle_allowance : Option ℕ
  pub blocked : Option Dict

unfoldable pub initial_state : String → FeatureState
initial_state feature_id = record {
  feature_id = feature_id;
  phase = new;
  sequence = 0;
  correlation_id = none;
  last_event_id = none;
  request = none;
  plan = none;
  workspace = none;
  implementation = none;
  review = none;
  approval = none;
  merge = none;
  dispatch_rounds = 0;
  fix_cycles = 0;
  cycle_allowance = none;
  blocked = none;
}

abbrev pub is_recommendation : Dict → Bool
is_recommendation payload = elim (get_str "stage" payload) [
  | none ↦ false
  | some s ↦ s == "review.recommendation"
]

-- The part of `values` that depends on the event's type.
unfoldable pub apply_event : String → Dict → FeatureState → FeatureState
apply_event event_type payload s =
    if event_type == "feature.requested"
    then record s { phase = requested; request = some payload }
    else if event_type == "plan.ready"
    then record s { phase = plan_ready; plan = some payload }
    else if event_type == "plan.approved"
    then record s { phase = plan_approved }
    else if event_type == "lease.granted"
    then record s { phase = implementing; workspace = some payload }
    else if event_type == "implementation.ready"
    then record s {
      phase = implementation_ready;
      implementation = some payload;
      dispatch_rounds = s.dispatch_rounds + 1;
    }
    else if event_type == "review.requested"
    then record s { phase = reviewing }
    else if event_type == "changes.requested"
    then record s {
      phase = changes_requested;
      review = some payload;
      fix_cycles = s.fix_cycles + 1;
    }
    else if event_type == "feature.blocked"
    then record s { blocked = some payload }
    else if event_type == "feature.unblocked"
    then record s { blocked = none; cycle_allowance = get_nat "max_fix_cycles" payload }
    else if (event_type == "implementation.progress") && is_recommendation payload
    then record s { phase = awaiting_human_approval; review = some payload }
    else if event_type == "merge.approved"
    then record s { phase = approved; approval = some payload }
    else if event_type == "merge.started"
    then record s { phase = merging }
    else if event_type == "merge.completed"
    then record s { phase = completed; merge = some payload }
    else s

-- An entry that the code indexes is not there.
pub data Missing : Type 0 where
  missing : String → Missing

abbrev pub need : {A : Type 0} → Option A → String → Result Missing A
need o key = or_raise o (missing key)

project_own : FeatureState → Dict → Dict → Result Missing FeatureState
project_own s aggregate event = do
  event_type ← need (get_str "type" event) "type"
  payload ← need (get_obj "payload" event) "payload"
  sequence ← need (get_nat "sequence" aggregate) "sequence"
  correlation ← need (get_str "correlation_id" event) "correlation_id"
  event_id ← need (get_str "event_id" event) "event_id"
  ok (
      apply_event event_type payload (record s {
        sequence = sequence;
        correlation_id = some correlation;
        last_event_id = some event_id;
      }))

unfoldable pub project_feature : FeatureState → Dict → Result Missing FeatureState
unfolding project_own
project_feature s event = do
  aggregate ← need (get_obj "aggregate" event) "aggregate"
  feature ← need (get_str "feature_id" aggregate) "feature_id"
  if not (feature == s.feature_id) then ok s else project_own s aggregate event
