-- ===== src/FeatureSession/Fork.antt =====
-- src/ai_runtime/runtime/feature_sessions.py: `observe`, the checks of a feature session's scope, and
-- the two ways to fork a root. The generated worktree of a feature is `worktree_root/feature_id`.
pub mod Scope
use Prim.Native.String.{◌++◌}
use design_document.Base.{
  ℕ, String, Bool, true, false, not, ◌&&◌, ◌||◌, Option, none, some, List, [], ◌∷◌, ◌==◌, any,
  if◌then◌else◌, Result, ok, err,
}
use design_document.Session.State.{
  SessionState, ready, recovery_required, SessionRecord, SessionError, unavailable_error,
  recovery_error, value_error, is,
}
use design_document.Session.Spec.{SessionSpec, present}
use design_document.Session.Cell.{Observation}
use design_document.FeatureSession.Declaration.{Declaration, is_validated, has_words}
use design_document.FeatureSession.World.{
  Supervisor, Setup, World, Act, ◌>>=◌, ◌>>◌, pure, raise, lift, from, on_sessions, asks, require,
}
use design_document.FeatureSession.Factory.{
  FeatureSessionRequest, ForkMode, native, synthetic, mode_of, mode_text, feature_id_of, same_text,
  declared, root_spec, root_record, make_feature_spec, checked_request,
}

abbrev pub or_text : Option String → String → String
or_text none other = other
or_text (some s) other = if s == "" then other else s

module _ {W : Type 0} (setup : Setup W) where
  abbrev sup : Supervisor W
  sup = setup.supervisor

  -- The command of the fork mode on file.
  abbrev recorded_command : Declaration → Option String → Option (List String)
  recorded_command d mode =
      if same_text mode "native" then d.native_fork_command else d.synthetic_launch_command

  abbrev request_of : SessionRecord → FeatureSessionRequest
  request_of r = record {
    adapter = r.adapter;
    feature_id = or_text r.feature_id "missing";
    role = r.role;
    attempt = r.attempt;
    cwd = r.cwd;
    git_base = or_text r.git_base "unknown";
    worktree_binding = r.worktree_binding;
    reconstruction_provenance_sha256 = r.reconstruction_sha256;
    resume_reference_sha256 = r.resume_reference_sha256;
  }

  abbrev known_mode : String → Act W ForkMode
  known_mode mode = from (mode_of mode) (value_error "fork_mode")

  -- `_feature_spec_from_record`
  unfoldable pub feature_spec_from_record : Declaration → SessionRecord → Act W SessionSpec
  feature_spec_from_record d r = do
    command ←
        from (recorded_command d r.fork_mode)
          (unavailable_error "recorded feature strategy is no longer declared")
    mode ← from r.fork_mode (recovery_error "feature record has no recorded fork mode")
    parent ← asks (sup.read (or_text r.parent_root_id ""))
    root ← from parent (recovery_error "feature parent root record is missing")
    q ← checked_request setup (request_of r)
    fork ← known_mode mode
    make_feature_spec setup d q root fork command

  unfoldable pub spec_of_record : Declaration → SessionRecord → Act W SessionSpec
  spec_of_record d r =
      if r.session_kind == "root"
      then root_spec setup d r.session_id
      else feature_spec_from_record d r

  -- `observe`
  unfoldable pub observe : String → Act W Observation
  observe session_id = do
    found ← asks (sup.read session_id)
    r ← from found (unavailable_error "session is not registered")
    d ← declared setup r.adapter
    spec ← spec_of_record d r
    on_sessions (sup.observe spec)

  abbrev in_worktree : Option String → FeatureSessionRequest → Bool
  in_worktree none q = false
  in_worktree (some root) q = q.cwd == (root ++ ("/" ++ q.feature_id))

  writer_scope : Declaration → FeatureSessionRequest → Act W Unit
  writer_scope d q = do
    require ((d.adapter == "codex") && d.writes_workspace)
        (unavailable_error "only Codex may own an implementer writer session")
    require (same_text q.worktree_binding q.cwd)
        (recovery_error "Codex writer cwd must equal its generated worktree")
    require (not (q.cwd == setup.repository))
        (recovery_error "Codex cannot write the integration worktree")
    require (in_worktree setup.worktree_root q)
        (recovery_error "Codex writer must bind the runtime-generated feature worktree")

  unfoldable pub role_scope : Declaration → FeatureSessionRequest → Act W Unit
  unfolding writer_scope
  role_scope d q =
      if q.role == "implementer"
      then writer_scope d q
      else require (not (present q.worktree_binding))
          (recovery_error "read-only feature roles cannot own a writer worktree")

  -- The state on file, and then an observation.
  parent_is_ready : SessionRecord → Act W Unit
  parent_is_ready root = do
    require (is root.state ready) (unavailable_error "parent root is not ready")
    o ← observe root.session_id
    require o.is_ready (unavailable_error "parent root is not ready")

  -- `_validate_feature_scope`
  unfoldable pub validate_feature_scope : Declaration → FeatureSessionRequest → Act W SessionRecord
  unfolding parent_is_ready
  validate_feature_scope d q = do
    require (any (λ role. role == q.role) d.roles)
        (unavailable_error "the adapter does not own the role")
    role_scope d q
    root ← root_record setup d.adapter
    parent_is_ready root
    existing ← asks (sup.read (feature_id_of q))
    require (elim existing [ none ↦ true | some r ↦ false ])
        (recovery_error "a feature-role attempt is never reusable")
    pure root

  -- The handler of a `SessionError` that `start` raises.
  failed_fork : String → Act W Observation
  failed_fork session_id w = elim (sup.read session_id w.sessions) [
    | none ↦ raise (recovery_error "native fork did not establish verified readiness") w
    | some r ↦
        if is r.state recovery_required
        then raise (recovery_error "native fork did not establish verified readiness") w
        else (on_sessions
                (sup.transition r recovery_required "native_fork_readiness_or_identity_failed")
              >> raise (recovery_error "native fork did not establish verified readiness"))
            w
  ]

  abbrev caught :
      String → Result SessionError Observation × World W → Result SessionError Observation × World W
  caught session_id (ok o, w) = (ok o, w)
  caught session_id (err (value_error field), w) = (err (value_error field), w)
  caught session_id (err x, w) = failed_fork session_id w

  start_native : SessionSpec → Act W Observation
  unfolding failed_fork
  start_native spec w = caught spec.session_id (on_sessions (sup.start spec) w)

  unfoldable pub native_fork : FeatureSessionRequest → Act W Observation
  unfolding start_native
  native_fork q = do
    d ← declared setup q.adapter
    require
        (is_validated d.native_fork
          && has_words d.native_fork_command
          && is_validated d.structured_terminal_events)
        (unavailable_error "native fork command/channel is not validated")
    command ←
        from d.native_fork_command
          (unavailable_error "native fork command/channel is not validated")
    root ← validate_feature_scope d q
    spec ← make_feature_spec setup d q root native command
    start_native spec

  unfoldable pub synthetic_fork : FeatureSessionRequest → Act W Observation
  synthetic_fork q = do
    d ← declared setup q.adapter
    command ← from d.synthetic_launch_command (unavailable_error "synthetic fork is not declared")
    require (is_validated d.structured_terminal_events)
        (unavailable_error "synthetic fork has no validated terminal-event channel")
    require (present q.reconstruction_provenance_sha256)
        (recovery_error "synthetic fork requires reconstruction provenance")
    root ← validate_feature_scope d q
    spec ← make_feature_spec setup d q root synthetic command
    on_sessions (sup.start spec)

  unfoldable pub create_from_root : FeatureSessionRequest → Act W Observation
  create_from_root q = do
    d ← declared setup q.adapter
    require (is_validated d.structured_terminal_events)
        (unavailable_error "structured persistent event channel is fail-closed")
    if is_validated d.native_fork
        then native_fork q
        else if has_words d.synthetic_launch_command
        then synthetic_fork q
        else raise (unavailable_error "no eligible fork strategy")
