-- ===== src/Session/Tests.antt =====
-- The lifecycle and the reconciliation of one session.
use design_document.Base.{◌≡◌, refl, true, false, none, some, List, [], ◌∷◌, ok, err, if◌then◌else◌}
use design_document.Session.State.{
  SessionState, ready, busy, terminated, draining, unavailable, is, Binding, invalid_transition,
}
use design_document.Session.Cell.{Terminal, Cell, terminate, identity_matches}
use design_document.Session.Cell.History.{
  Operation, observes, drains, terminates, acknowledges, run, run-terminated, IsClosed,
  terminate-IsClosed,
}
use design_document.Session.Reconcile.{
  Knowledge, live_place, ReconcileReport, reconcile_cell, reconcile,
}
use design_document.Session.Reconcile.Report.{Describes, reconcile_cell-Describes}
use design_document.Session.Reconcile.Restart.{reconcile-total, reconcile-draining}

abbrev pub binding : Binding
binding = record {
  adapter = "codex";
  adapter_version = "1";
  role = "root";
  feature_id = none;
  cwd = "/repo";
  launch_sha256 = "l";
  policy_revision = "p";
  capability_revision = "c";
  capability_sha256 = none;
  repository_identity_sha256 = none;
  parent_root_id = none;
  fork_mode = none;
  worktree_binding = none;
  attempt = 1;
  git_base = none;
  read_only = true;
  resume_reference_sha256 = none;
  reconstruction_sha256 = none;
}

abbrev pub cell : SessionState → Cell
cell s = record {
  session = record {
    session_id = "root-1";
    tmux_name = "ai-root-1";
    session_kind = "root";
    binding = binding;
    state = s;
    state_revision = 0;
    identity_sha256 = "i";
    recovery_kind = none;
    diagnostic = none;
    cleanup_evidence = none;
    replaced_by = none;
  };
  requests = [];
  responses = [];
}

abbrev pub alive : Terminal
alive = record {
  live = λ name. true;
  identity = λ name. some "i";
  current_path = λ name. some "/repo";
}

abbrev pub gone : Terminal
gone = record { live = λ name. false; identity = λ name. none; current_path = λ name. none }

abbrev knowledge : Knowledge
knowledge = record { acknowledged = λ turn. false; version = λ adapter. some "1" }

abbrev operations : List Operation
operations = observes alive ∷ drains ∷ observes gone ∷ terminates true ∷ acknowledges "t1" ∷ []

run-terminated_example : (run (cell terminated) operations).session.state ≡ terminated
run-terminated_example = run-terminated (cell terminated) operations refl

terminate-IsClosed_example :
    (c' : Cell) × (terminate true (cell busy) ≡ (ok tt, c'))
    × (if is busy terminated then c' ≡ cell busy else IsClosed true c')
terminate-IsClosed_example = terminate-IsClosed true (cell busy)

reconcile_cell_run :
    reconcile_cell alive knowledge (cell ready)
    ≡ (ok (record { place = live_place; turns = [] }), cell ready)
unfolding reconcile_cell identity_matches
reconcile_cell_run = refl

reconcile_cell-Describes_example : Describes alive live_place (cell ready)
reconcile_cell-Describes_example =
    reconcile_cell-Describes alive knowledge (cell ready) (cell ready)
      (record { place = live_place; turns = [] }) reconcile_cell_run

reconcile-total_example :
    (r : ReconcileReport) × (cells : List Cell) × (reconcile gone knowledge
        (cell ready ∷ cell busy ∷ [])
      ≡ (ok r, cells))
reconcile-total_example =
    reconcile-total gone knowledge (cell ready ∷ cell busy ∷ []) (refl, (refl, tt))

reconcile-draining_example :
    reconcile gone knowledge (cell draining ∷ cell ready ∷ [])
    ≡ (err (invalid_transition draining unavailable), cell draining ∷ cell ready ∷ [])
reconcile-draining_example =
    reconcile-draining gone knowledge (cell draining) (cell ready ∷ []) refl refl refl refl
