-- ===== src/Session/Reconcile.antt =====
-- src/ai_runtime/runtime/sessions.py: `SessionSupervisor.reconcile`, run when the runtime starts.
-- The registry is a list of cells in the order of `records`; turns and versions that the caller
-- knows are functions. The rewriting of old responses, which keeps their names, is left out.
pub mod Lifecycle
pub mod Report
pub mod Restart
use design_document.Base.{
  String, Bool, true, false, not, ◌&&◌, ◌||◌, Option, none, some, List, [], ◌∷◌, ◌++◌, map, ◌==◌,
  if◌then◌else◌, Result, ok, err,
}
use design_document.Session.State.{
  SessionState, unavailable, terminating, terminated, recovery_required, SessionRecord,
  SessionError, is,
}
use design_document.Session.Cell.{
  Terminal, Cell, Outcome, Response, is_live, identity_matches, move_to, acknowledge_turn, when,
  ◌>>=◌, ◌>>◌,
}

pub record Knowledge : Type 0 where
  -- `turn_id in acknowledged_turn_ids`
  pub acknowledged : String → Bool
  -- `(adapter_versions or {}).get(adapter)`
  pub version : String → Option String

pub data Place : Type 0 where
  skipped live_place unavailable_place recovery_place ended : Place

pub record Verdict : Type 0 where
  pub place : Place
  pub turns : List String

abbrev pub drifted : Option String → String → Bool
drifted none v = false
drifted (some expected) v = not (expected == v)

abbrev pub no_items {ℓ} : {A : Type ℓ} → List A → Bool
no_items [] = true
no_items (x ∷ xs) = false

-- The loop over the response files found at first.
acknowledge_known : Knowledge → List String → Cell → Outcome (List String)
acknowledge_known k [] c = (ok [], c)
acknowledge_known k (turn ∷ turns) c =
    let rest = acknowledge_turn turn c >> acknowledge_known k turns in
    let next = acknowledge_known k turns c in
    if k.acknowledged turn then (rest >>= λ done c'. (ok (turn ∷ done), c')) else next

-- A move to `RECOVERY_REQUIRED`, unless the session is there.
require_recovery : String → List String → Cell → Outcome Verdict
require_recovery reason turns c =
    when (not (is c.session.state recovery_required)) (move_to recovery_required (some reason) none)
      c
    >> λ c'. (ok (record { place = recovery_place; turns = turns }), c')

absent_session : List String → Cell → Outcome Verdict
absent_session turns c =
    if is c.session.state terminating
    then move_to terminated (some "terminal_absent") none c
      >>= (λ _ c'. (ok (record { place = ended; turns = turns }), c'))
    else (when (not (is c.session.state unavailable) && not (is c.session.state recovery_required))
          (move_to unavailable (some "tmux_session_absent_on_reconcile") none) c
        >> λ c'. (ok (record { place = unavailable_place; turns = turns }), c'))

live_session : Terminal → List String → Cell → Outcome Verdict
live_session t turns c =
    if is c.session.state recovery_required
      || not (identity_matches t c)
      || not (no_items c.requests)
    then require_recovery
        (if not (identity_matches t c)
          then "stale_session_identity"
          else "inflight_turn_ambiguous_on_reconcile")
        turns c
    else (ok (record { place = live_place; turns = turns }), c)

place_session : Terminal → List String → Cell → Outcome Verdict
unfolding require_recovery absent_session live_session
place_session t turns c =
    if not (no_items c.responses)
    then require_recovery "completed_turn_without_event_ack" turns c
    else if is_live t c
    then live_session t turns c
    else absent_session turns c

unfoldable pub reconcile_cell : Terminal → Knowledge → Cell → Outcome Verdict
unfolding acknowledge_known place_session when
reconcile_cell t k c =
    if is c.session.state terminated
    then (ok (record { place = skipped; turns = [] }), c)
    else if drifted (k.version c.session.adapter) c.session.adapter_version
    then require_recovery "adapter_version_drift_on_reconcile" [] c
    else (acknowledge_known k (map (λ r. r.name) c.responses) c >>= place_session t)

pub record ReconcileReport : Type 0 where
  pub live : List String
  pub unavailable : List String
  pub recovery_required : List String
  pub acknowledged : List String

-- One session's part of the report comes ahead of the later sessions'.
unfoldable pub report : String → Verdict → ReconcileReport → ReconcileReport
report id v r =
    let named = record r { acknowledged = v.turns ++ r.acknowledged } in
    elim v.place [
      | skipped ↦ named
      | live_place ↦ record named { live = id ∷ r.live }
      | unavailable_place ↦ record named { unavailable = id ∷ r.unavailable }
      | recovery_place ↦ record named { recovery_required = id ∷ r.recovery_required }
      | ended ↦ record named { acknowledged = v.turns ++ id ∷ r.acknowledged }
    ]

abbrev no_report : ReconcileReport
no_report = record { live = []; unavailable = []; recovery_required = []; acknowledged = [] }

abbrev pub Reconciled : Type 0
Reconciled = Result SessionError ReconcileReport × List Cell

abbrev joined : String → Verdict → Cell → Reconciled → Reconciled
joined id v c (ok r, cells) = (ok (report id v r), c ∷ cells)
joined id v c (err x, cells) = (err x, c ∷ cells)

-- A session that raises ends the loop; the sessions before it keep what was written.
proceed : String → List Cell → Reconciled → Outcome Verdict → Reconciled
unfolding report
proceed id later rest (ok v, c) = joined id v c rest
proceed id later rest (err x, c) = (err x, c ∷ later)

unfoldable pub reconcile : Terminal → Knowledge → List Cell → Reconciled
unfolding reconcile_cell proceed
reconcile t k [] = (ok no_report, [])
reconcile t k (c ∷ cells) =
    proceed c.session.session_id cells (reconcile t k cells) (reconcile_cell t k c)
