-- ===== src/FeatureSession/FactoryTests.antt =====
-- The factory over the supervisor of `Implementation`: a fork, an accepted event, and a root whose
-- replacement does not start.
use design_document.Identifier.{is_safe_identifier, is_hex_text}
use design_document.Text.{strip, decimal, decimal_on}
use design_document.Text.Replace.{render}
use design_document.Base.{
  ap, ◌==◌, if◌then◌else◌, ◌≡◌, refl, true, false, none, some, List, [], ◌∷◌, Result, ok, err, ◌⊎◌,
}
use design_document.Json.{Dict}
use design_document.Session.State.{
  SessionState, ready, SessionError, SessionRecord, unavailable_error, allowed, transition,
}
use design_document.Session.Spec.{Digests, bind, present, check_spec, is_bound, launch_sha256}
use design_document.Session.Cell.{
  Terminal, Cell, Observation, drain, terminate, observe, when, move_to, identity_matches,
  cwd_matches, mark_replaced,
}
use design_document.Session.Start.{
  Launch, accepts_trust, is_idle, launch, launched, name_of, start, start_again, wait_ready,
}
use design_document.FeatureSession.Channel.{collect, persist_intent, acknowledge, file, save, clear}
use design_document.FeatureSession.Declaration.{validated, lookup}
use design_document.FeatureSession.World.{Setup, World, on_channel, on_sessions, channel_of}
use design_document.FeatureSession.Factory.{
  FeatureSessionRequest, provision_root, root_spec_of, root_of, declared, root_record, root_spec,
  checked_spec, write_root, feature_id_of, make_feature_spec, make_spec_of, checked_request,
  provision_as,
}
use design_document.FeatureSession.Fork.{
  create_from_root, validate_feature_scope, role_scope, synthetic_fork, spec_of_record,
  feature_spec_from_record,
}
use design_document.FeatureSession.Fork.Scope.{IsForked, create_from_root-IsForked}
use design_document.FeatureSession.Events.{accept_structured_event}
use design_document.FeatureSession.Events.Once.{IsAccepted, accept-IsAccepted, accept-again}
use design_document.FeatureSession.Recovery.{replace_root, next_generation}
use design_document.FeatureSession.Recovery.Ended.{Refused, HasEnded, ended_root-stuck}
use design_document.FeatureSession.Implementation.{
  supervisor, supervisor-IsLawful, read_session, cell_of, keep_cell, on_cell,
}
use design_document.FeatureSession.Tests.{codec, intent, accepts, answered, result, codex}

abbrev digests : Digests
digests = record {
  sha_text = λ s. "i";
  canonical = λ words. "l";
  repository_identity = λ path. path;
}

-- tmux shows the root in the repository and any other session in the feature's worktree, all under
-- the one identity of the test.
abbrev there : Terminal
there = record {
  live = λ name. true;
  identity = λ name. some "i";
  current_path = λ name. some (if name == "air-codex-root" then "/repo" else "/repo/f1");
}

abbrev good : Launch
good = record {
  identity = "i";
  created = true;
  options_set = true;
  looks =
      record { live = true; identity = some "i"; trust = false; prompt = true; keys_sent = true }
      ∷ [];
  after = there;
}

abbrev bad : Launch
bad = record good { created = false }

abbrev setup : Launch → Setup (List Cell)
setup l = record {
  supervisor = supervisor digests there l true;
  codec = codec;
  capabilities = ("codex", codex) ∷ [];
  repository = "/repo";
  state_dir = "/state";
  worktree_root = some "/repo";
  policy_revision = "p";
  is_dir = λ path. true;
  digest = λ d. "aaaaaaaaaaaaaaaaaaaaaaaaaaaaaaaaaaaaaaaaaaaaaaaaaaaaaaaaaaaaaaaa";
}

abbrev root_cell : SessionState → Cell
root_cell state = record {
  session = record {
    session_id = "codex-root";
    tmux_name = "air-codex-root";
    session_kind = "root";
    binding = bind digests (root_spec_of (setup good) codex "codex-root");
    state = state;
    state_revision = 2;
    identity_sha256 = "i";
    recovery_kind = none;
    diagnostic = none;
    cleanup_evidence = none;
    replaced_by = none;
  };
  requests = [];
  responses = [];
}

abbrev world : SessionState → World (List Cell)
world state = record {
  sessions = root_cell state ∷ [];
  roots = ("codex", "codex-root") ∷ [];
  channels = ("s1", answered) ∷ [];
}

-- The session that `replace_root` leaves when the new root cannot be launched.
abbrev after_failure : World (List Cell)
after_failure = (replace_root (setup bad) 3 "codex" "upgrade" (world ready)).1

abbrev old_root : SessionRecord
old_root = elim (read_session "codex-root" after_failure.sessions) [
  | none ↦ (root_cell ready).session
  | some r ↦ r
]

after_failure-HasEnded :
    HasEnded (setup bad) (supervisor-IsLawful digests there bad true) "codex" after_failure
unfolding root_of declared root_record root_spec checked_spec root_spec_of write_root feature_id_of
    make_feature_spec make_spec_of checked_request provision_root provision_as strip decimal
    decimal_on render on_sessions on_channel channel_of drain terminate observe when move_to
    identity_matches cwd_matches mark_replaced allowed transition check_spec bind is_bound
    launch_sha256 is_safe_identifier is_hex_text file save collect acknowledge clear lookup cell_of
    keep_cell on_cell read_session supervisor next_generation replace_root accepts_trust is_idle
    launch launched name_of start start_again wait_ready create_from_root validate_feature_scope
    role_scope synthetic_fork
after_failure-HasEnded = record {
  id = "codex-root";
  session = old_root;
  active = refl;
  on_file = refl;
  over = refl;
}

replace_root_run :
    (replace_root (setup bad) 3 "codex" "upgrade" (world ready)).0
    ≡ err (unavailable_error "tmux session launch failed")
unfolding root_of declared root_record root_spec checked_spec root_spec_of write_root feature_id_of
    make_feature_spec make_spec_of checked_request provision_root provision_as strip decimal
    decimal_on render on_sessions on_channel channel_of drain terminate observe when move_to
    identity_matches cwd_matches mark_replaced allowed transition check_spec bind is_bound
    launch_sha256 is_safe_identifier is_hex_text file save collect acknowledge clear lookup cell_of
    keep_cell on_cell read_session supervisor next_generation replace_root accepts_trust is_idle
    launch launched name_of start start_again wait_ready create_from_root validate_feature_scope
    role_scope synthetic_fork
replace_root_run = refl

ended_root-stuck_example :
    Refused
      (setup bad)
      (supervisor-IsLawful digests there bad true)
      (provision_root (setup bad) "codex")
      after_failure
    × Refused
        (setup bad)
        (supervisor-IsLawful digests there bad true)
        (replace_root (setup bad) 3 "codex" "again")
        after_failure
ended_root-stuck_example =
    ended_root-stuck (setup bad) (supervisor-IsLawful digests there bad true) 3 "codex" "again"
      after_failure after_failure-HasEnded

abbrev request : FeatureSessionRequest
request = record {
  adapter = "codex";
  feature_id = "f1";
  role = "implementer";
  attempt = 1;
  cwd = "/repo/f1";
  git_base = "aaaaaaaaaaaaaaaaaaaaaaaaaaaaaaaaaaaaaaaa";
  worktree_binding = some "/repo/f1";
  reconstruction_provenance_sha256 =
      some "aaaaaaaaaaaaaaaaaaaaaaaaaaaaaaaaaaaaaaaaaaaaaaaaaaaaaaaaaaaaaaaa";
  resume_reference_sha256 = none;
}

abbrev forked : World (List Cell)
forked = (create_from_root (setup good) request (world ready)).1

fork_answer :
    (create_from_root (setup good) request (world ready)).0
    ≡ ok (record { state = ready; live = true; is_ready = true })
unfolding root_of declared root_record root_spec checked_spec root_spec_of write_root feature_id_of
    make_feature_spec make_spec_of checked_request provision_root provision_as strip decimal
    decimal_on render on_sessions on_channel channel_of drain terminate observe when move_to
    identity_matches cwd_matches mark_replaced allowed transition check_spec bind is_bound
    launch_sha256 is_safe_identifier is_hex_text file save collect acknowledge clear lookup cell_of
    keep_cell on_cell read_session supervisor next_generation replace_root accepts_trust is_idle
    launch launched name_of start start_again wait_ready create_from_root validate_feature_scope
    role_scope synthetic_fork spec_of_record feature_spec_from_record
    design_document.FeatureSession.Fork.observe
fork_answer = refl

fork_run :
    create_from_root (setup good) request (world ready)
    ≡ (ok (record { state = ready; live = true; is_ready = true }), forked)
fork_run = ap (λ (r : Result SessionError Observation). (r, forked)) fork_answer

create_from_root-IsForked_example :
    (f : IsForked (setup good) request (world ready)) × ((f.declaration.native_fork ≡ validated)
      ⊎ (present request.reconstruction_provenance_sha256 ≡ true))
create_from_root-IsForked_example =
    create_from_root-IsForked (setup good) request (world ready) forked
      (record { state = ready; live = true; is_ready = true }) fork_run

-- A writer that appends nothing visible.
abbrev append : Dict → List Cell → Result SessionError Unit × List Cell
append event cells = (ok tt, cells)

abbrev accepted : World (List Cell)
accepted = (accept_structured_event (setup good) append accepts intent (world ready)).1

accept_run :
    accept_structured_event (setup good) append accepts intent (world ready)
    ≡ (ok (some result), accepted)
unfolding root_of declared root_record root_spec checked_spec root_spec_of write_root feature_id_of
    make_feature_spec make_spec_of checked_request provision_root provision_as strip decimal
    decimal_on render on_sessions on_channel channel_of drain terminate observe when move_to
    identity_matches cwd_matches mark_replaced allowed transition check_spec bind is_bound
    launch_sha256 is_safe_identifier is_hex_text file save collect acknowledge clear lookup cell_of
    keep_cell on_cell read_session supervisor next_generation replace_root accepts_trust is_idle
    launch launched name_of start start_again wait_ready create_from_root validate_feature_scope
    role_scope synthetic_fork accept_structured_event persist_intent
accept_run = refl

accept-IsAccepted_example :
    IsAccepted (setup good) append accepts intent (world ready) accepted result
accept-IsAccepted_example =
    accept-IsAccepted (setup good) append accepts intent result (world ready) accepted accept_run

accept-again_example :
    ((accept_structured_event (setup good) append accepts intent accepted).0 ≡ ok none)
    × ((accept_structured_event (setup good) append accepts intent accepted).1.sessions
        ≡ accepted.sessions)
accept-again_example =
    accept-again (setup good) append accepts intent result (world ready) accepted accept_run
