-- ===== src/Session/State.antt =====
-- src/ai_runtime/runtime/sessions.py: `SessionState`, `_TRANSITIONS`, `SessionRecord` and
-- `_transition`. Time stamps are left out, and of a diagnostic the reason is kept.
pub mod Paths
use design_document.Base.{
  ℕ, ◌+◌, String, Bool, true, false, not, ◌&&◌, ◌||◌, Option, none, some, nat_eq, if◌then◌else◌,
  Result, ok, err,
}

pub data SessionState : Type 0 where
  starting ready busy unavailable terminating terminated recovery_required draining : SessionState

-- The position in the enumeration, by which two states are compared.
abbrev pub ordinal : SessionState → ℕ
ordinal starting = 0
ordinal ready = 1
ordinal busy = 2
ordinal unavailable = 3
ordinal terminating = 4
ordinal terminated = 5
ordinal recovery_required = 6
ordinal draining = 7

abbrev pub is : SessionState → SessionState → Bool
is a b = nat_eq (ordinal a) (ordinal b)

-- `state in _TRANSITIONS[record.state]`
unfoldable pub allowed : SessionState → SessionState → Bool
allowed starting s = is s ready || is s unavailable || is s recovery_required || is s terminating
allowed ready s =
    is s busy || is s unavailable || is s recovery_required || is s draining || is s terminating
allowed busy s =
    is s ready || is s unavailable || is s recovery_required || is s draining || is s terminating
allowed unavailable s =
    is s starting || is s recovery_required || is s terminating || is s terminated
allowed draining s = is s terminating || is s recovery_required
allowed terminating s = is s terminated || is s recovery_required
allowed terminated s = false
allowed recovery_required s =
    is s starting || is s busy || is s ready || is s terminating || is s terminated

pub data SessionError : Type 0 where
  -- `SessionError`, `SessionUnavailableError` and `SessionRecoveryRequiredError`.
  invalid_transition : SessionState → SessionState → SessionError
  session_error unavailable_error recovery_error : String → SessionError
  -- `ValueError`, with the field.
  value_error : String → SessionError

-- What a record copies from the specification of its session.
pub record Binding : Type 0 where
  pub adapter : String
  pub adapter_version : String
  pub role : String
  pub feature_id : Option String
  pub cwd : String
  pub launch_sha256 : String
  pub policy_revision : String
  pub capability_revision : String
  pub capability_sha256 : Option String
  pub repository_identity_sha256 : Option String
  pub parent_root_id : Option String
  pub fork_mode : Option String
  pub worktree_binding : Option String
  pub attempt : ℕ
  pub git_base : Option String
  pub read_only : Bool
  pub resume_reference_sha256 : Option String
  pub reconstruction_sha256 : Option String

pub record SessionRecord : Type 0 where
  pub session_id : String
  pub tmux_name : String
  pub session_kind : String
  pub binding : Binding
  pub open binding use *
  pub state : SessionState
  pub state_revision : ℕ
  pub identity_sha256 : String
  pub recovery_kind : Option String
  pub diagnostic : Option String
  pub cleanup_evidence : Option Bool
  pub replaced_by : Option String

abbrev or_else : Option String → Option String → Option String
or_else (some k) old = some k
or_else none old = old

abbrev pub bump : Bool → ℕ → ℕ
bump true n = n
bump false n = n + 1

-- The record that `_transition` writes, or its refusal, which writes nothing.
unfoldable pub transition :
    SessionRecord → SessionState → Option String → Option String → Result SessionError SessionRecord
transition r s diagnostic recovery_kind =
    if not (is s r.state) && not (allowed r.state s)
    then err (invalid_transition r.state s)
    else ok (record r {
      state = s;
      state_revision = bump (is s r.state) r.state_revision;
      diagnostic = diagnostic;
      recovery_kind = or_else recovery_kind r.recovery_kind;
    })
