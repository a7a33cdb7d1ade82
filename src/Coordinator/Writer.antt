-- ===== src/Coordinator/Writer.antt =====
-- src/ai_runtime/runtime/coordinator.py: the lease of a feature's writer, `_grant_lease`,
-- `_current_lease` and `_revoke_implementation_lease`. A new lease's generated id is drawn before the
-- lease is known to be new.
use Prim.Native.String.{◌++◌}
use design_document.Base.{
  String, Bool, true, not, Option, none, some, ◌==◌, nat_eq, if◌then◌else◌, Result, ok, err,
}
use design_document.Json.{Value, int, str, Dict, empty, entry, get, get_nat}
use design_document.Feature.State.{FeatureState}
use design_document.Git.Lease.{Lease, LeaseFiles, LeaseError, read, acquire, validate, revoke}
use design_document.Git.Command.{head, require_clean}
use design_document.Git.Workspace.{Places, create}
use design_document.Text.{decimal}
use design_document.Coordinator.World.{
  Failure, recovery_error, lease_error, Ports, World, Run, ◌>>=◌, ◌>>◌, pure, raise, lift, require,
  on_git, or_empty, text_of,
}
use design_document.Coordinator.Log.{append, runtime_producer}
use design_document.Coordinator.Guards.{expected_worktree_head}

abbrev pub entry_text : (Value → String) → String → Dict → String
entry_text other k d = elim (get k d) [ none ↦ "" | some v ↦ text_of other v ]

-- Python's `a or b` of texts.
abbrev pub or_text : String → String → String
or_text a b = if a == "" then b else a

module _ {R L : Type 0} (ports : Ports R L) where
  abbrev pub places : Places
  places = record {
    repository = ports.config.repository;
    worktree_root = ports.config.worktree_root;
  }

  unfoldable pub acquire_lease : String → String → String → Run (World R L) Lease
  acquire_lease feature_id owner workspace w =
      let (uuid, r) = ports.uuid w.outside in
      taken r (
        acquire w.files
          (record {
            feature_id = feature_id;
            owner = owner;
            workspace = workspace;
            ttl_seconds = ports.config.lease_ttl_seconds;
          })
          (ports.now r) uuid)
    where
      taken : R → Result LeaseError (LeaseFiles × Lease) → Result Failure Lease × World R L
      taken r (ok (files, lease)) = (ok lease, record w { outside = r; files = files })
      taken r (err x) = (err (lease_error x), record w { outside = r })

  unfoldable pub grant_lease : FeatureState → String → Run (World R L) FeatureState
  grant_lease s reason = do
    let expected_base = entry_text ports.other_text "base_head" (or_empty s.request)
    current ← on_git (head ports.git ports.config.repository)
    require (current == expected_base)
        (recovery_error "integration head changed after plan; replan is required")
    workspace ← on_git (create ports.git places s.feature_id expected_base)
    let expected_head = or_text (expected_worktree_head ports s) expected_base
    found ← on_git (head ports.git workspace.path)
    require (found == expected_head)
        (recovery_error "existing feature worktree has unrecorded commits")
    on_git (require_clean ports.git workspace.path)
    lease ←
        acquire_lease s.feature_id
          (ports.implementer.capability.name ++ ("-implementer-" ++ s.feature_id)) workspace.path
    append ports s "lease.granted"
        (entry "path" (str workspace.path) (
          entry "branch" (str workspace.branch) (
            entry "base_head" (str workspace.base_head) (
              entry "resumed_head" (str expected_head) (
                entry "reason" (str reason) (
                  entry "fix_cycle" (int s.fix_cycles) (
                    entry "owner" (str lease.owner) (
                      entry "fencing_token" (int lease.fencing_token) (
                        entry "lease_id_sha256" (str (ports.git.sha256 lease.lease_id))
                          empty)))))))))
        runtime_producer ("lease-granted-" ++ decimal lease.fencing_token)

  unfoldable pub read_lease : String → Run (World R L) (Option Lease)
  read_lease feature_id w = lift lease_error (read w.files feature_id) w

  unfoldable pub validate_lease : Lease → Run (World R L) Unit
  validate_lease lease w = lift lease_error (validate w.files lease (ports.now w.outside)) w

  unfoldable pub revoke_lease : Lease → Run (World R L) Unit
  revoke_lease lease w = revoked (revoke w.files lease)
    where
      revoked : Result LeaseError LeaseFiles → Result Failure Unit × World R L
      revoked (ok files) = (ok tt, record w { files = files })
      revoked (err x) = (err (lease_error x), w)

  abbrev pub token_differs : Lease → FeatureState → Bool
  token_differs lease s = elim (get_nat "fencing_token" (or_empty s.workspace)) [
    | none ↦ true
    | some token ↦ not (nat_eq lease.fencing_token token)
  ]

  unfoldable pub held_lease : FeatureState → Option Lease → Run (World R L) Lease
  held_lease s none = raise (recovery_error "writer lease is missing")
  held_lease s (some lease) = do
    require (not (token_differs lease s))
        (recovery_error "writer lease fencing token differs from event evidence")
    validate_lease lease
    pure lease

  unfoldable pub current_lease : FeatureState → Run (World R L) Lease
  current_lease s = read_lease s.feature_id >>= held_lease s

  unfoldable pub revoke_and_record : FeatureState → Lease → String → Run (World R L) FeatureState
  revoke_and_record s lease reason = do
    revoke_lease lease
    append ports s "lease.revoked"
        (entry "fencing_token" (int lease.fencing_token) (entry "reason" (str reason) empty))
        runtime_producer ("lease-revoked-" ++ decimal lease.fencing_token)

  unfoldable pub revoke_held : FeatureState → Option Lease → Run (World R L) FeatureState
  revoke_held s none = pure s
  revoke_held s (some lease) = do
    require (not (token_differs lease s))
        (recovery_error "cannot revoke a lease with a different fencing token")
    validate_lease lease
    revoke_and_record s lease "implementation committed and ready for read-only review"

  unfoldable pub revoke_implementation_lease : FeatureState → Run (World R L) FeatureState
  revoke_implementation_lease s = read_lease s.feature_id >>= revoke_held s
