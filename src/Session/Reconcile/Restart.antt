-- ===== src/Session/Reconcile/Restart.antt =====
-- When reconciliation goes through at a restart, and the one state that stops it.
use design_document.Base.{
  String, ◌≡◌, refl, false, ◌||◌, List, [], ◌∷◌, map, arith, ok, err, All, Bool-cases, inl, inr,
}
use design_document.Session.State.{
  unavailable, terminated, draining, invalid_transition, is, allowed,
}
use design_document.Session.Cell.{
  Terminal, Cell, Outcome, is_live, move_to, acknowledge_turn, when, ◌>>=◌, ◌>>◌,
}
use design_document.Session.Reconcile.{
  Knowledge, Verdict, drifted, acknowledge_known, require_recovery, place_session, reconcile_cell,
  proceed, report, no_report, Reconciled, reconcile, ReconcileReport,
}

-- The cell is neither draining nor terminated.
abbrev Calm : Cell → Type 0
Calm c = (is c.session.state draining || is c.session.state terminated) ≡ false

abbrev pub NotDraining : Cell → Type 0
NotDraining c = is c.session.state draining ≡ false

abbrev Returns : {A : Type 0} → (Cell → Type 0) → Outcome A → Type 0
Returns P (ok a, c) = P c
Returns P (err x, c) = ⊥

Returns-bind :
    {A B : Type 0} (P Q : Cell → Type 0) (m : Outcome A) (f : A → Cell → Outcome B)
    → Returns P m
    → ((a : A) (c : Cell) → P c → Returns Q (f a c))
    → Returns Q (m >>= f)
Returns-bind P Q (ok a, c) f p k = k a c p
Returns-bind P Q (err x, c) f p k = absurd p

abbrev Any : Cell → Type 0
Any c = Unit

acknowledge_turn-Calm : (turn : String) (c : Cell) → Calm c → Returns Calm (acknowledge_turn turn c)
unfolding acknowledge_turn allowed
acknowledge_turn-Calm turn c h = ground arith

acknowledge_known-Calm :
    (k : Knowledge) (turns : List String) (c : Cell)
    → Calm c
    → Returns Calm (acknowledge_known k turns c)
unfolding acknowledge_known
acknowledge_known-Calm k [] c h = h
acknowledge_known-Calm k (turn ∷ turns) c h =
    let first =
      Returns-bind Calm Calm (acknowledge_turn turn c) (λ _. acknowledge_known k turns)
        (acknowledge_turn-Calm turn c h) (λ _ c'. acknowledge_known-Calm k turns c') in
    let whole =
      Returns-bind Calm Calm (acknowledge_turn turn c >> acknowledge_known k turns)
        (λ done c'. (ok (turn ∷ done), c')) first (λ _ c' p. p) in
    ground (arith, whole, acknowledge_known-Calm k turns c h)

place_session-Returns :
    (t : Terminal) (turns : List String) (c : Cell) → Calm c → Returns Any (place_session t turns c)
unfolding place_session move_to when allowed
place_session-Returns t turns c h = ground arith

require_recovery-Returns :
    (reason : String) (turns : List String) (c : Cell)
    → Calm c
    → Returns Any (require_recovery reason turns c)
unfolding require_recovery move_to when allowed
require_recovery-Returns reason turns c h = ground arith

reconcile_cell-Returns :
    (t : Terminal) (k : Knowledge) (c : Cell) → NotDraining c → Returns Any (reconcile_cell t k c)
unfolding reconcile_cell
reconcile_cell-Returns t k c h = elim (Bool-cases (is c.session.state terminated)) [
  | inl gone ↦ ground arith
  | inr there ↦
      let calm : Calm c = ground arith in
      ground (
        arith,
        require_recovery-Returns "adapter_version_drift_on_reconcile" [] c calm,
        Returns-bind Calm Any (acknowledge_known k (map (λ r. r.name) c.responses) c)
            (place_session t) (acknowledge_known-Calm k (map (λ r. r.name) c.responses) c calm)
            (place_session-Returns t),
      )
]

proceed-total :
    (id : String) (later : List Cell) (rest : Reconciled) (m : Outcome Verdict)
    → Returns Any m
    → ((r : ReconcileReport) × (cells : List Cell) × (rest ≡ (ok r, cells)))
    → (r : ReconcileReport) × (cells : List Cell) × (proceed id later rest m ≡ (ok r, cells))
unfolding proceed
proceed-total id later rest (err x, c) h e = absurd h
proceed-total id later rest (ok v, c) h (r, cells, e) =
    (report id v r, c ∷ cells, rw (e, proceed) refl)

-- If no session on disk is draining, reconciliation goes through all of them and reports.
pub reconcile-total :
    (t : Terminal) (k : Knowledge) (cells : List Cell)
    → All NotDraining cells
    → (r : ReconcileReport) × (cells' : List Cell) × (reconcile t k cells ≡ (ok r, cells'))
unfolding reconcile
reconcile-total t k [] h = (no_report, [], refl)
reconcile-total t k (c ∷ cells) h =
    proceed-total c.session.session_id cells (reconcile t k cells) (reconcile_cell t k c)
      (reconcile_cell-Returns t k c h.0) (reconcile-total t k cells h.1)

-- A root that was draining when the host went down, with no response on file, whose terminal is gone
-- and whose adapter is the same, stops reconciliation with a refused transition: the sessions after it are not looked at,
-- and its record stays as it is, so that the next start fails in the same way.
pub reconcile-draining :
    (t : Terminal) (k : Knowledge) (c : Cell) (cells : List Cell)
    → c.session.state ≡ draining
    → c.responses ≡ []
    → is_live t c ≡ false
    → drifted (k.version c.session.adapter) c.session.adapter_version ≡ false
    → reconcile t k (c ∷ cells) ≡ (err (invalid_transition draining unavailable), c ∷ cells)
unfolding reconcile acknowledge_known place_session move_to when allowed
reconcile-draining t k c cells s r l d = ground arith
