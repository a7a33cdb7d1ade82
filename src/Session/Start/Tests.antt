-- ===== src/Session/Start/Tests.antt =====
-- Starting and recovering a root.
use design_document.Identifier.{is_safe_identifier, is_hex_text}
use design_document.Base.{String, ◌≡◌, refl, Bool, true, false, none, some, [], ◌∷◌, ok}
use design_document.Session.State.{SessionState, ready, terminated, transition, allowed}
use design_document.Session.Tests.{cell, gone}
use design_document.Session.Spec.{SessionSpec, Digests, check_spec, root, feature, reject, bind}
use design_document.Session.Cell.{
  Terminal, Cell, observe, move_to, when, identity_matches, cwd_matches,
}
use design_document.Session.Start.{
  Launch, Look, start, resume_or_reconstruct, launched, name_of, wait_ready, launch, rebind,
  recovery_kind_of, start_again,
}
use design_document.Session.Start.Bound.{IsStarted, Returns, start-IsStarted}
use design_document.Session.Start.Refusals.{
  Refuses, start-terminated, IsReadyOrRaises, IsPreserved, resume-dirty,
}

abbrev pub digests : Digests
digests = record { sha_text = λ s. s; canonical = λ words. "l"; repository_identity = λ path. path }

abbrev pub spec : SessionSpec
spec = record {
  session_id = "root-1";
  adapter = "codex";
  adapter_version = "1";
  role = "root";
  cwd = "/repo";
  launch_command = "codex" ∷ [];
  trust_prompt = reject;
  disposable = false;
  feature_id = none;
  resume = false;
  session_kind = root;
  attempt = 1;
  parent_root_id = none;
  fork_mode = none;
  policy_revision = "p";
  git_base = none;
  worktree_binding = none;
  capability_revision = "c";
  capability_sha256 = none;
  read_only = true;
  resume_reference_sha256 = none;
  reconstruction_sha256 = none;
}

abbrev pub any_dir : String → Bool
any_dir path = true

check_spec_run : check_spec any_dir spec ≡ ok tt
unfolding check_spec is_safe_identifier is_hex_text
check_spec_run = refl

-- A feature of the role that the message calls the implementer, without a worktree.
check_spec_implementer :
    check_spec any_dir (record spec {
      role = "implementer";
      session_kind = feature;
      feature_id = some "f1";
      parent_root_id = some "root-1";
      fork_mode = some "native";
    })
    ≡ ok tt
unfolding check_spec is_safe_identifier is_hex_text
check_spec_implementer = refl

name_of_run : name_of digests spec ≡ "air-codex-root-root-1"
unfolding name_of
name_of_run = refl

-- tmux has the session of this launch in the second round.
abbrev there : Terminal
there = record {
  live = λ name. true;
  identity = λ name. some "i";
  current_path = λ name. some "/repo";
}

abbrev quiet_look : Look
quiet_look = record {
  live = true;
  identity = some "i";
  trust = false;
  prompt = false;
  keys_sent = true;
}

abbrev pub good : Launch
good = record {
  identity = "i";
  created = true;
  options_set = true;
  looks = quiet_look ∷ record quiet_look { prompt = true } ∷ [];
  after = there;
}

abbrev pub bad : Launch
bad = record good { created = false }

start_run :
    (start digests there spec good none).0
    ≡ ok (record { state = ready; live = true; is_ready = true })
unfolding start wait_ready move_to transition allowed observe when identity_matches cwd_matches
    launched launch bind name_of
start_run = refl

start-IsStarted_example :
    Returns (IsStarted digests there spec good) (start digests there spec good none)
start-IsStarted_example = start-IsStarted digests there spec good none

start-terminated_example :
    Refuses (cell terminated) (start digests gone spec good (some (cell terminated)))
start-terminated_example = start-terminated digests gone spec good (cell terminated) refl

resume-dirty_example :
    IsReadyOrRaises (resume_or_reconstruct digests gone spec good false none (some (cell ready)))
    × IsPreserved
        (cell ready)
        (resume_or_reconstruct digests gone spec good false none (some (cell ready))).1
resume-dirty_example = resume-dirty digests gone spec good none (cell ready)

-- A root that is bound to the specification.
abbrev bound : SessionState → Cell
bound s = record (cell s) { session = record (cell s).session { binding = bind digests spec } }

resume_run :
    (resume_or_reconstruct digests gone spec good true none (some (bound ready))).0
    ≡ ok (record { state = ready; live = true; is_ready = true })
unfolding resume_or_reconstruct start observe wait_ready move_to transition allowed when
    identity_matches cwd_matches launched launch bind name_of rebind recovery_kind_of start_again
resume_run = refl
