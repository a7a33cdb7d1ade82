-- ===== src/Coordinator/Dispatch.antt =====
-- src/ai_runtime/runtime/coordinator.py: `run_until_gate`. The loop runs on fuel, one unit for a
-- round; `none` is a loop that is still running.
pub mod Stops
pub mod Expiry
use Prim.Native.String.{◌++◌}
use design_document.Base.{
  ℕ, zero, suc, String, Bool, true, false, Option, none, some, if◌then◌else◌, Result, ok, err,
}
use design_document.Feature.State.{
  FeatureState, FeaturePhase, new, requested, plan_ready, plan_approved, implementing,
  implementation_ready, reviewing, changes_requested, awaiting_human_approval, approved, merging,
  completed,
}
use design_document.Text.{decimal}
use design_document.Coordinator.World.{Failure, Ports, World, Run, ◌>>=◌, ◌>>◌, pure, or_empty}
use design_document.Coordinator.Log.{state_of}
use design_document.Coordinator.Guards.{assert_adapter_profile}
use design_document.Coordinator.Plan.{plan, approve_plan}
use design_document.Coordinator.Writer.{grant_lease}
use design_document.Coordinator.Implement.{implement}
use design_document.Coordinator.Review.{request_review, review}

-- What one round decides: to return the state, or to go on after a step.
pub data Round : Type 0 where
  stops : FeatureState → Round
  goes_on : Round

module _ {R L : Type 0} (ports : Ports R L) where
  -- The step that a phase calls for; `none` where the loop returns.
  unfoldable pub step_of :
      String → Bool → FeatureState → FeaturePhase → Option (Run (World R L) FeatureState)
  step_of feature_id auto s requested = some (plan ports s)
  step_of feature_id auto s plan_ready =
      if auto then some (approve_plan ports feature_id "human-auto-plan") else none
  step_of feature_id auto s plan_approved =
      some (grant_lease ports s "approved plan ready for implementation")
  step_of feature_id auto s changes_requested =
      some (grant_lease ports s ("fix cycle " ++ (decimal s.fix_cycles ++ " re-dispatch")))
  step_of feature_id auto s implementing = some (implement ports s)
  step_of feature_id auto s implementation_ready = some (request_review ports s)
  step_of feature_id auto s reviewing = some (review ports s)
  step_of feature_id auto s new = none
  step_of feature_id auto s awaiting_human_approval = none
  step_of feature_id auto s approved = none
  step_of feature_id auto s merging = none
  step_of feature_id auto s completed = none

  unfoldable pub take : FeatureState → Option (Run (World R L) FeatureState) → Run (World R L) Round
  take s none = pure (stops s)
  take s (some step) = step >> pure goes_on

  unfoldable pub round : String → Bool → Run (World R L) Round
  round feature_id auto = do
    s ← state_of ports feature_id
    assert_adapter_profile ports s
    take s (elim s.blocked [ none ↦ step_of feature_id auto s s.phase | some b ↦ none ])

  unfoldable pub go_round :
      Run (World R L) (Option FeatureState) → Round → Run (World R L) (Option FeatureState)
  go_round more (stops s) = pure (some s)
  go_round more goes_on = more

  unfoldable pub run_until_gate : ℕ → String → Bool → Run (World R L) (Option FeatureState)
  run_until_gate zero feature_id auto = pure none
  run_until_gate (suc fuel) feature_id auto =
      round feature_id auto >>= go_round (run_until_gate fuel feature_id auto)
