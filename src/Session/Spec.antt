-- ===== src/Session/Spec.antt =====
-- src/ai_runtime/runtime/sessions.py: `SessionSpec`, its checks, and the record that `start` makes of
-- it. Paths are resolved texts. Readiness patterns are asked through their matches, in
-- Session/Start.antt.
use design_document.Base.{
  ℕ, String, Bool, true, false, not, ◌&&◌, ◌||◌, Option, none, some, List, [], ◌∷◌, ◌==◌, nat_eq,
  Result, ok, guard, ◌>>◌,
}
use design_document.Identifier.{is_safe_identifier, is_hex_text}
use design_document.Session.State.{Binding, SessionError, value_error}

pub data SessionKind : Type 0 where
  legacy root feature : SessionKind

abbrev pub kind_text : SessionKind → String
kind_text legacy = "legacy"
kind_text root = "root"
kind_text feature = "feature"

pub data TrustPromptBehavior : Type 0 where
  reject accept_disposable_only not_applicable : TrustPromptBehavior

pub record SessionSpec : Type 0 where
  pub session_id : String
  pub adapter : String
  pub adapter_version : String
  pub role : String
  pub cwd : String
  pub launch_command : List String
  pub trust_prompt : TrustPromptBehavior
  pub disposable : Bool
  pub feature_id : Option String
  pub resume : Bool
  pub session_kind : SessionKind
  pub attempt : ℕ
  pub parent_root_id : Option String
  pub fork_mode : Option String
  pub policy_revision : String
  pub git_base : Option String
  pub worktree_binding : Option String
  pub capability_revision : String
  pub capability_sha256 : Option String
  pub read_only : Bool
  pub resume_reference_sha256 : Option String
  pub reconstruction_sha256 : Option String

abbrev pub present : Option String → Bool
present none = false
present (some s) = true

-- Python's truth of an optional text.
abbrev pub filled : Option String → Bool
filled none = false
filled (some s) = not (s == "")

abbrev pub each : Option String → (String → Bool) → Bool
each none test = true
each (some s) test = test s

abbrev pub no_words : List String → Bool
no_words [] = true
no_words (word ∷ words) = false

check_root : SessionSpec → Result SessionError Unit
check_root s =
    guard (not (present s.feature_id) && not (present s.parent_root_id))
      (value_error "root identity")
    >> guard (s.read_only && not (present s.worktree_binding)) (value_error "root read_only")

check_feature : SessionSpec → Result SessionError Unit
check_feature s =
    guard (present s.feature_id && present s.parent_root_id && filled s.fork_mode)
      (value_error "feature identity")
    >> guard (not (s.role == "implement") || present s.worktree_binding)
        (value_error "worktree_binding")

check_kind : SessionKind → SessionSpec → Result SessionError Unit
check_kind legacy s = ok tt
check_kind root s = check_root s
check_kind feature s = check_feature s

-- `__post_init__`; `is_dir` asks the file system.
unfoldable pub check_spec : (String → Bool) → SessionSpec → Result SessionError Unit
unfolding check_kind check_root check_feature
check_spec is_dir s =
    guard (is_safe_identifier 128 s.session_id) (value_error "session_id")
    >> guard (is_safe_identifier 48 s.adapter) (value_error "adapter")
    >> guard (is_safe_identifier 64 s.role) (value_error "role")
    >> guard (each s.feature_id (is_safe_identifier 64)) (value_error "feature_id")
    >> guard (is_dir s.cwd) (value_error "cwd")
    >> guard (not (no_words s.launch_command)) (value_error "launch_command")
    >> guard (not (nat_eq s.attempt 0)) (value_error "attempt")
    >> guard (each s.parent_root_id (is_safe_identifier 128)) (value_error "parent_root_id")
    >> check_kind s.session_kind s
    >> guard (each s.capability_sha256 (is_hex_text 64)) (value_error "capability_sha256")
    >> guard (each s.resume_reference_sha256 (is_hex_text 64))
        (value_error "resume_reference_sha256")
    >> guard (each s.reconstruction_sha256 (is_hex_text 64)) (value_error "reconstruction_sha256")

-- Code that the source calls: SHA-256 of a text, canonical JSON of a list of texts, and the digest of
-- the identity of a directory's repository.
pub record Digests : Type 0 where
  pub sha_text : String → String
  pub canonical : List String → String
  pub repository_identity : String → String

unfoldable pub launch_sha256 : Digests → List String → String
launch_sha256 h command = h.sha_text (h.canonical command)

-- The part of a record that comes from the specification.
unfoldable pub bind : Digests → SessionSpec → Binding
unfolding launch_sha256
bind h s = record {
  adapter = s.adapter;
  adapter_version = s.adapter_version;
  role = s.role;
  feature_id = s.feature_id;
  cwd = s.cwd;
  launch_sha256 = launch_sha256 h s.launch_command;
  policy_revision = s.policy_revision;
  capability_revision = s.capability_revision;
  capability_sha256 = s.capability_sha256;
  repository_identity_sha256 = some (h.repository_identity s.cwd);
  parent_root_id = s.parent_root_id;
  fork_mode = s.fork_mode;
  worktree_binding = s.worktree_binding;
  attempt = s.attempt;
  git_base = s.git_base;
  read_only = s.read_only;
  resume_reference_sha256 = s.resume_reference_sha256;
  reconstruction_sha256 = s.reconstruction_sha256;
}

abbrev pub same_option : Option String → Option String → Bool
same_option none none = true
same_option (some a) (some b) = a == b
same_option _ _ = false

-- The comparison in `start` of a record with what the specification asks for.
unfoldable pub is_bound : Binding → Binding → Bool
is_bound old new =
    (old.adapter == new.adapter)
    && (old.adapter_version == new.adapter_version)
    && (old.launch_sha256 == new.launch_sha256)
    && (old.role == new.role)
    && same_option old.feature_id new.feature_id
    && (old.cwd == new.cwd)
    && (old.policy_revision == new.policy_revision)
    && (old.capability_revision == new.capability_revision)
    && same_option old.capability_sha256 new.capability_sha256
    && same_option old.repository_identity_sha256 new.repository_identity_sha256
    && same_option old.parent_root_id new.parent_root_id
    && same_option old.fork_mode new.fork_mode
    && same_option old.worktree_binding new.worktree_binding
