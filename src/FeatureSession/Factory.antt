-- ===== src/FeatureSession/Factory.antt =====
-- src/ai_runtime/runtime/feature_sessions.py: `FeatureSessionFactory`, roots and forks. Of a
-- specification the readiness patterns and the termination behaviour, which the supervisor alone
-- reads, are left out.
use Prim.Native.String.{◌++◌}
use design_document.Base.{
  ℕ, String, Bool, true, false, not, Option, none, some, List, [], ◌∷◌, ◌==◌, nat_eq, if◌then◌else◌,
  ok,
}
use design_document.Identifier.{is_safe_identifier, is_hex_text}
use design_document.Text.{decimal}
use design_document.Text.Replace.{render}
use design_document.Session.State.{SessionRecord, unavailable_error, value_error}
use design_document.Session.Spec.{SessionSpec, root, feature, check_spec, not_applicable}
use design_document.Session.Cell.{Observation}
use design_document.FeatureSession.Channel.{file, save}
use design_document.FeatureSession.Declaration.{Declaration, is_validated, lookup}
use design_document.FeatureSession.World.{
  Supervisor, Setup, World, Act, ◌>>=◌, ◌>>◌, pure, lift, from, on_sessions, require,
}

pub record FeatureSessionRequest : Type 0 where
  pub adapter : String
  pub feature_id : String
  pub role : String
  pub attempt : ℕ
  pub cwd : String
  pub git_base : String
  pub worktree_binding : Option String
  pub reconstruction_provenance_sha256 : Option String
  pub resume_reference_sha256 : Option String

pub data ForkMode : Type 0 where
  native synthetic : ForkMode

abbrev pub mode_text : ForkMode → String
mode_text native = "native"
mode_text synthetic = "synthetic"

-- `ForkMode(text)`
abbrev pub mode_of : String → Option ForkMode
mode_of s = if s == "native" then some native else if s == "synthetic" then some synthetic else none

-- `f"{adapter}-feature-{feature_id}-{role}-{attempt}"`
unfoldable pub feature_id_of : FeatureSessionRequest → String
feature_id_of q =
    q.adapter ++ ("-feature-" ++ (q.feature_id ++ ("-" ++ (q.role ++ ("-" ++ decimal q.attempt)))))

abbrev pub same_text : Option String → String → Bool
same_text none s = false
same_text (some a) s = a == s

module _ {W : Type 0} (setup : Setup W) where
  abbrev sup : Supervisor W
  sup = setup.supervisor

  -- `self.capabilities.require(adapter)`
  unfoldable pub declared : String → Act W Declaration
  unfolding lookup
  declared adapter =
      from (lookup adapter setup.capabilities)
        (unavailable_error "no current capability declaration")

  -- `SessionSpec(...)`, whose constructor checks it.
  unfoldable pub checked_spec : SessionSpec → Act W SessionSpec
  checked_spec s = lift (check_spec setup.is_dir s) >> pure s

  -- `FeatureSessionRequest.__post_init__`
  unfoldable pub checked_request : FeatureSessionRequest → Act W FeatureSessionRequest
  checked_request q = do
    require (is_safe_identifier 64 q.feature_id) (value_error "feature_id")
    require (is_safe_identifier 64 q.role) (value_error "role")
    require (not (nat_eq q.attempt 0)) (value_error "attempt must be positive")
    require (setup.is_dir q.cwd) (value_error "feature session cwd must exist")
    require (is_hex_text 40 q.git_base)
        (value_error "git_base must be an exact 40-character Git object ID")
    pure q

  unfoldable pub root_spec_of : Declaration → String → SessionSpec
  root_spec_of d session_id = record {
    session_id = session_id;
    adapter = d.adapter;
    adapter_version = d.adapter_version;
    role = "root";
    cwd = setup.repository;
    launch_command = render d.root_launch_command (
        ("session_id", session_id)
        ∷ ("state_dir", setup.state_dir)
        ∷ ("cwd", setup.repository)
        ∷ []);
    trust_prompt = d.trust_prompt;
    disposable = false;
    feature_id = none;
    resume = false;
    session_kind = root;
    attempt = 1;
    parent_root_id = none;
    fork_mode = none;
    policy_revision = setup.policy_revision;
    git_base = none;
    worktree_binding = none;
    capability_revision = d.declaration_revision;
    capability_sha256 = some (setup.digest d);
    read_only = true;
    resume_reference_sha256 = none;
    reconstruction_sha256 = none;
  }

  -- `_root_spec`
  unfoldable pub root_spec : Declaration → String → Act W SessionSpec
  root_spec d session_id = checked_spec (root_spec_of d session_id)

  -- `roots[adapter] = session_id` and `_write_roots`, over the roots read before.
  unfoldable pub write_root : String → String → Act W Unit
  unfolding save
  write_root adapter session_id w = (ok tt, record w { roots = save adapter session_id w.roots })

  -- `roots.get(adapter)`
  unfoldable pub root_of : String → World W → Option String
  unfolding file
  root_of adapter w = file adapter w.roots

  abbrev or_name : Option String → String → String
  or_name none name = name
  or_name (some s) name = s

  unfoldable pub provision_as : String → Declaration → String → Act W Observation
  provision_as adapter d session_id = do
    spec ← root_spec d session_id
    o ← on_sessions (sup.start spec)
    write_root adapter session_id
    pure o

  unfoldable pub provision_root : String → Act W Observation
  unfolding provision_as
  provision_root adapter w =
      (declared adapter >>= λ d.
      require (is_validated d.persistent_root)
        (unavailable_error "persistent root readiness/identity is fail-closed")
      >> provision_as adapter d (or_name (root_of adapter w) (adapter ++ "-root")))
        w

  abbrev read_named : Option String → World W → Option SessionRecord
  read_named none w = none
  read_named (some id) w = sup.read id w.sessions

  -- `root`
  unfoldable pub root_record : String → Act W SessionRecord
  root_record adapter w =
      from (read_named (root_of adapter w) w) (unavailable_error "root is not provisioned") w

  unfoldable pub make_spec_of :
      Declaration → FeatureSessionRequest → SessionRecord → ForkMode → List String → SessionSpec
  make_spec_of d q parent mode command = record {
    session_id = feature_id_of q;
    adapter = d.adapter;
    adapter_version = d.adapter_version;
    role = q.role;
    cwd = q.cwd;
    launch_command = render command (
        ("session_id", feature_id_of q)
        ∷ ("parent_session_id", parent.session_id)
        ∷ ("feature_id", q.feature_id)
        ∷ ("role", q.role)
        ∷ ("attempt", decimal q.attempt)
        ∷ ("cwd", q.cwd)
        ∷ ("state_dir", setup.state_dir)
        ∷ []);
    trust_prompt = not_applicable;
    disposable = false;
    feature_id = some q.feature_id;
    resume = false;
    session_kind = feature;
    attempt = q.attempt;
    parent_root_id = some parent.session_id;
    fork_mode = some (mode_text mode);
    policy_revision = setup.policy_revision;
    git_base = some q.git_base;
    worktree_binding = q.worktree_binding;
    capability_revision = d.declaration_revision;
    capability_sha256 = some (setup.digest d);
    read_only = not (q.role == "implementer");
    resume_reference_sha256 = q.resume_reference_sha256;
    reconstruction_sha256 = q.reconstruction_provenance_sha256;
  }

  -- `_make_feature_spec`
  unfoldable pub make_feature_spec :
      Declaration
      → FeatureSessionRequest
      → SessionRecord
      → ForkMode
      → List String
      → Act W SessionSpec
  make_feature_spec d q parent mode command = checked_spec (make_spec_of d q parent mode command)
