-- ===== src/Coordinator/Merge.antt =====
-- src/ai_runtime/runtime/coordinator.py: `merge`, `_reconcile_merge` and
-- `_terminate_feature_sessions`.
pub mod Gate
pub mod Recovery
use Prim.Native.String.{◌++◌}
use design_document.Base.{
  String, Bool, true, false, not, ◌&&◌, Option, none, some, List, [], ◌∷◌, ◌==◌, if◌then◌else◌,
  Result, ok, err, or_raise,
}
use design_document.Json.{Value, bool, str, Dict, empty, entry, get, get_str}
use design_document.Json.Equal.{same_value}
use design_document.Feature.State.{FeatureState, Missing, missing, approved, merging, completed}
use design_document.Git.Command.{head, is_clean, is_ancestor}
use design_document.Git.Workspace.{MergeBinding, validate_merge, cleanup}
use design_document.Session.State.{terminated, is, SessionError}
use design_document.Session.Cell.{Cell, terminate, equals}
use design_document.Coordinator.World.{
  Failure, policy_error, recovery_error, session_failure, key_error, Ports, World, Run, ◌>>=◌, ◌>>◌,
  pure, raise, lift, require, on_git, or_empty, get_or_null, text_of,
}
use design_document.Coordinator.Log.{state_of, append, runtime_producer}
use design_document.Coordinator.Guards.{
  in_phase, assert_not_blocked, assert_adapter_profile, workspace_from_state,
}
use design_document.Coordinator.Writer.{places}

module _ {R L : Type 0} (ports : Ports R L) where
  -- The sessions in the order of the registry; the later ones are left as they are after a raise.
  terminate_all : (String → Bool) → String → List Cell → Result Failure Unit × List Cell
  terminate_all absent feature_id [] = (ok tt, [])
  terminate_all absent feature_id (c ∷ cells) =
      let rest = terminate_all absent feature_id cells in
      if equals c.session.feature_id feature_id && not (is c.session.state terminated)
      then next rest (terminate (absent c.session.tmux_name) c)
      else (rest.0, c ∷ rest.1)
    where
      next :
          Result Failure Unit × List Cell
          → Result SessionError Unit × Cell
          → Result Failure Unit × List Cell
      next rest (ok u, c') = (rest.0, c' ∷ rest.1)
      next rest (err x, c') = (err (session_failure x), c' ∷ cells)

  unfoldable pub terminate_feature_sessions : String → Run (World R L) Unit
  unfolding terminate_all
  terminate_feature_sessions feature_id w =
      let (r, cells) = terminate_all (ports.absent w.outside) feature_id w.sessions in
      (r, record w { sessions = cells })

  unfoldable pub indexed : String → Dict → Run (World R L) String
  indexed k d = do
    v ← lift key_error (or_raise (get k d) (missing k))
    pure (text_of ports.other_text v)

  -- The binding of the implementation; `implementation[...]` raises for a missing entry.
  unfoldable pub binding_of : FeatureState → Run (World R L) MergeBinding
  binding_of s = do
    base_head ← indexed "base_head" (or_empty s.implementation)
    reviewed_head ← indexed "head" (or_empty s.implementation)
    branch ← indexed "branch" (or_empty s.implementation)
    pure (record {
      feature_id = s.feature_id;
      base_head = base_head;
      reviewed_head = reviewed_head;
      branch = branch;
    })

  unfoldable pub clean_up : FeatureState → String → Run (World R L) FeatureState
  clean_up s merged_head = do
    workspace ← workspace_from_state ports s
    on_git (cleanup ports.git (places ports) workspace merged_head)
    terminate_feature_sessions s.feature_id
    pure s

  -- `merge` of a completed feature: only the cleanup is done again.
  unfoldable pub repeat_cleanup : FeatureState → Run (World R L) FeatureState
  repeat_cleanup s = elim (get_str "reviewed_head" (or_empty s.merge)) [
    | none ↦ raise (recovery_error "completed feature lacks reviewed-head cleanup binding")
    | some reviewed_head ↦ clean_up s reviewed_head
  ]

  unfoldable pub run_merge : MergeBinding → Run (World R L) String
  run_merge b = on_git (design_document.Git.Workspace.merge ports.git (places ports) b true)

  -- The integration branch is where it was: the merge is validated and run.
  unfoldable pub merge_again : MergeBinding → Run (World R L) String
  merge_again b = on_git (validate_merge ports.git (places ports) b) >> run_merge b

  -- It is somewhere else: a clean head that has the reviewed one is taken for the merge.
  unfoldable pub adopt_merged : MergeBinding → String → Run (World R L) String
  adopt_merged b current = do
    clean ← on_git (is_clean ports.git ports.config.repository)
    merged ←
        (if clean
          then on_git (is_ancestor ports.git ports.config.repository b.reviewed_head current)
          else pure false)
    require merged
        (recovery_error "merge.started cannot be reconciled to the current clean integration head")
    pure current

  -- What Git shows after a `merge.started` whose outcome is not known.
  unfoldable pub settle_merge : MergeBinding → String → Run (World R L) String
  settle_merge b current = if current == b.base_head then merge_again b else adopt_merged b current

  unfoldable pub reconcile_merge : FeatureState → Run (World R L) FeatureState
  reconcile_merge s = do
    b ← binding_of s
    current ← on_git (head ports.git ports.config.repository)
    merge_head ← settle_merge b current
    merged ←
        append ports s "merge.completed"
          (entry "merge_head" (str merge_head)
            (entry "reviewed_head" (str b.reviewed_head) (entry "reconciled" (bool true) empty)))
          runtime_producer ("merge-completed-" ++ merge_head)
    clean_up merged b.reviewed_head

  unfoldable pub merge_approved : FeatureState → Run (World R L) FeatureState
  merge_approved s = do
    require
        (same_value (get_or_null "reviewed_head" (or_empty s.approval))
          (get_or_null "head" (or_empty s.implementation)))
        (policy_error "approval is stale for current implementation head")
    workspace ← workspace_from_state ports s
    b ← binding_of s
    on_git (validate_merge ports.git (places ports) b)
    started ←
        append ports s "merge.started"
          (entry "feature_id" (str b.feature_id) (
            entry "base_head" (str b.base_head)
              (entry "reviewed_head" (str b.reviewed_head) (entry "branch" (str b.branch) empty))))
          runtime_producer ("merge-started-" ++ b.reviewed_head)
    merge_head ← run_merge b
    merged ←
        append ports started "merge.completed"
          (entry "merge_head" (str merge_head) (entry "reviewed_head" (str b.reviewed_head) empty))
          runtime_producer ("merge-completed-" ++ merge_head)
    on_git (cleanup ports.git (places ports) workspace b.reviewed_head)
    terminate_feature_sessions merged.feature_id
    pure merged

  unfoldable pub merge_in_phase : FeatureState → Run (World R L) FeatureState
  merge_in_phase s =
      if in_phase s completed
      then repeat_cleanup s
      else if in_phase s merging
      then reconcile_merge s
      else if in_phase s approved
      then merge_approved s
      else raise (policy_error "merge requires APPROVED")

  unfoldable pub merge : String → Run (World R L) FeatureState
  merge feature_id = do
    s ← state_of ports feature_id
    assert_adapter_profile ports s
    assert_not_blocked s
    merge_in_phase s
