-- ===== src/Session/Start.antt =====
-- src/ai_runtime/runtime/sessions.py: `SessionSupervisor.start`, `_wait_ready` and
-- `resume_or_reconstruct`, on the session that the specification names. What tmux does for one
-- launch is a record of answers: the new session, its options, and what each round of the waiting
-- loop sees of it until the deadline.
pub mod Bound
pub mod Refusals
pub mod Lifecycle
mod Tests
use Prim.Native.String.{◌++◌}
use design_document.Base.{
  ℕ, zero, suc, ◌+◌, String, Bool, true, false, not, ◌&&◌, ◌||◌, Option, none, some, List, [], ◌∷◌,
  ◌==◌, if◌then◌else◌, Result, ok, err,
}
use design_document.Identifier.{dashed, take_chars, strip_dashes}
use design_document.Session.State.{
  SessionState, starting, ready, busy, unavailable, recovery_required, terminated, SessionRecord,
  SessionError, session_error, unavailable_error, recovery_error, is,
}
use design_document.Session.Spec.{
  SessionSpec, TrustPromptBehavior, reject, accept_disposable_only, not_applicable, Digests, bind,
  is_bound, kind_text, launch_sha256, same_option, no_words,
}
use design_document.Session.Cell.{
  Terminal, Cell, Outcome, Observation, ◌>>=◌, ◌>>◌, raise_after, is_live, equals, move_to, observe,
}

-- `"-".join` over the parts that are not empty.
abbrev join_part : String → String → String
join_part part rest =
    if part == "" then rest else if rest == "" then part else part ++ ("-" ++ rest)

abbrev or_default : String → String → String
or_default s default = if s == "" then default else s

abbrev text_of : Option String → String
text_of none = ""
text_of (some s) = s

-- `_name`
unfoldable pub name_of : Digests → SessionSpec → String
unfolding dashed take_chars strip_dashes
name_of h s =
    let semantic = join_part s.adapter (join_part s.role (text_of s.feature_id)) in
    "air-"
    ++ (or_default (strip_dashes (take_chars 48 (dashed semantic))) "session"
        ++ ("-" ++ take_chars 12 (h.sha_text s.session_id)))

-- One round of the loop of `_wait_ready`: `has-session`, the identity option, whether the pane
-- matches the two patterns, and whether Enter can be sent.
pub record Look : Type 0 where
  pub live : Bool
  pub identity : Option String
  pub trust : Bool
  pub prompt : Bool
  pub keys_sent : Bool

pub record Launch : Type 0 where
  -- The random identity of this launch.
  pub identity : String
  pub created : Bool
  pub options_set : Bool
  pub looks : List Look
  -- tmux after the last round.
  pub after : Terminal

unfoldable pub accepts_trust : SessionSpec → Bool
accepts_trust s = elim s.trust_prompt [ accept_disposable_only ↦ s.disposable | _ ↦ false ]

prompted : Terminal → Look → Cell → (Cell → Outcome Observation) → Outcome Observation
unfolding move_to observe
prompted after look c wait =
    if look.prompt then move_to ready none none c >> observe after else wait c

trusted : SessionSpec → Terminal → Look → Cell → (Cell → Outcome Observation) → Outcome Observation
unfolding prompted move_to
trusted s after look c wait =
    if not look.trust
    then prompted after look c wait
    else if not (accepts_trust s)
    then raise_after (move_to recovery_required (some "trust_prompt_blocked") none c)
        (recovery_error "trust prompt requires an authorized disposable fixture")
    else if look.keys_sent
    then prompted after look c wait
    else (err (session_error "tmux send-keys failed"), c)

unfoldable pub wait_ready : SessionSpec → Terminal → List Look → Cell → Outcome Observation
unfolding trusted move_to
wait_ready s after [] c =
    raise_after (move_to recovery_required (some "readiness_timeout") none c)
      (recovery_error "session readiness timed out")
wait_ready s after (look ∷ looks) c =
    if not look.live
    then raise_after (move_to unavailable (some "process_exited_before_readiness") none c)
        (unavailable_error "session exited before readiness")
    else if not (equals look.identity c.session.identity_sha256)
    then raise_after (move_to recovery_required (some "stale_session_identity") none c)
        (recovery_error "tmux session identity does not match the registry")
    else trusted s after look c (wait_ready s after looks)

abbrev next_revision : Option Cell → ℕ
next_revision none = 1
next_revision (some c) = c.session.state_revision + 1

abbrev old_kind : Option Cell → Option String
old_kind none = none
old_kind (some c) = c.session.recovery_kind

-- The record of a launch, over the spool of the session if there is one.
unfoldable pub launched : Digests → SessionSpec → String → Option Cell → Cell
unfolding bind name_of
launched h s identity old =
    let r : SessionRecord = record {
      session_id = s.session_id;
      tmux_name = name_of h s;
      session_kind = kind_text s.session_kind;
      binding = bind h s;
      state = starting;
      state_revision = next_revision old;
      identity_sha256 = h.sha_text identity;
      recovery_kind = old_kind old;
      diagnostic = none;
      cleanup_evidence = none;
      replaced_by = none;
    } in
    elim old [
      | none ↦ record { session = r; requests = []; responses = [] }
      | some c ↦ record c { session = r }
    ]

-- `start` from the new record on.
unfoldable pub launch : SessionSpec → Launch → Cell → Outcome Observation
unfolding move_to wait_ready
launch s l c =
    if not l.created
    then raise_after (move_to unavailable (some "launch_failed") none c)
        (unavailable_error "tmux session launch failed")
    else if not l.options_set
    then (err (session_error "tmux set-option failed"), c)
    else wait_ready s l.after l.looks c

unfoldable pub is_idle : SessionState → Bool
is_idle s = is s unavailable || is s recovery_required

-- `start` after `observe` on a session that is on file.
restart : Digests → Terminal → SessionSpec → Launch → Observation → Cell → Outcome Observation
unfolding launch launched is_idle
restart h t s l o c =
    if o.is_ready
    then (ok o, c)
    else if is_live t c
    then (err (recovery_error "existing tmux identity is live but not safely reusable"), c)
    else if not (is_idle c.session.state)
    then (err (unavailable_error "existing session is not reusable"), c)
    else launch s l (launched h s l.identity (some c))

-- `start` on a session that is on file.
unfoldable pub start_again : Digests → Terminal → SessionSpec → Launch → Cell → Outcome Observation
unfolding restart move_to observe is_bound bind
start_again h t s l c =
    if not (is_bound c.session.binding (bind h s))
    then raise_after (move_to recovery_required (some "session_binding_drift") none c)
        (recovery_error "stale adapter version, repository, policy, capability, or launch binding")
    else observe t c >>= restart h t s l

-- `start`; there is a session on file afterwards, whether it returns or raises.
unfoldable pub start : Digests → Terminal → SessionSpec → Launch → Option Cell → Outcome Observation
unfolding start_again launch launched
start h t s l none = launch s l (launched h s l.identity none)
start h t s l (some c) = start_again h t s l c

-- `resume_command or spec.launch_command`, for no command or an empty one too.
abbrev pub command_or : Option (List String) → List String → List String
command_or (some (word ∷ words)) command = word ∷ words
command_or _ command = command

abbrev has_command : Option (List String) → Bool
has_command none = false
has_command (some words) = not (no_words words)

unfoldable pub recovery_kind_of : SessionSpec → Option (List String) → String
recovery_kind_of s command =
    if s.resume && has_command command then "resume" else "synthetic_reconstruction"

-- The record takes over what the recovery changes in the specification.
unfoldable pub rebind : Digests → SessionSpec → String → Cell → Cell
unfolding launch_sha256
rebind h s kind c =
    let b = c.session.binding in
    if not (launch_sha256 h s.launch_command == b.launch_sha256)
      || not (same_option s.fork_mode b.fork_mode)
      || not (same_option s.resume_reference_sha256 b.resume_reference_sha256)
      || not (same_option s.reconstruction_sha256 b.reconstruction_sha256)
    then record c {
      session = record c.session {
        recovery_kind = some kind;
        binding = record b {
          launch_sha256 = launch_sha256 h s.launch_command;
          fork_mode = s.fork_mode;
          resume_reference_sha256 = s.resume_reference_sha256;
          reconstruction_sha256 = s.reconstruction_sha256;
        };
      };
    }
    else c

recover : Digests → Terminal → SessionSpec → Launch → String → Cell → Outcome Observation
unfolding rebind move_to start_again
recover h t s l kind c =
    move_to starting none (some kind) (rebind h s kind c) >> start_again h t s l

resume_observed :
    Digests
    → Terminal
    → SessionSpec
    → Launch
    → Bool
    → Option (List String)
    → Observation
    → Cell
    → Outcome Observation
unfolding recover move_to recovery_kind_of
resume_observed h t s l clean command o c =
    if o.live && o.is_ready
    then (ok o, c)
    else if not clean
    then raise_after (move_to recovery_required (some "dirty_worktree_preserved") none c)
        (recovery_error "dirty worktree preserved; recovery requires maintainer action")
    else if not (c.session.adapter_version == s.adapter_version)
    then raise_after (move_to recovery_required (some "adapter_version_drift") none c)
        (recovery_error "adapter version drift blocks recovery")
    else recover h t (record s { launch_command = command_or command s.launch_command }) l
        (recovery_kind_of s command) c

unfoldable pub resume_or_reconstruct :
    Digests
    → Terminal
    → SessionSpec
    → Launch
    → Bool
    → Option (List String)
    → Option Cell
    → Outcome Observation
unfolding start resume_observed observe
resume_or_reconstruct h t s l clean command none = start h t s l none
resume_or_reconstruct h t s l clean command (some c) =
    observe t c >>= resume_observed h t s l clean command
