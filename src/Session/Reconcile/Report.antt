-- ===== src/Session/Reconcile/Report.antt =====
-- What the verdict of a reconciled session says, and when reconciliation fails.
use design_document.Base.{String, ◌≡◌, ◌≢◌, subst, ◌⊎◌, true, false, List, [], map, arith, ok, err}
use design_document.Session.State.{unavailable, terminated, recovery_required, allowed}
use design_document.Session.Cell.{
  Terminal, Cell, Outcome, is_live, identity_matches, move_to, when, ◌>>=◌,
}
use design_document.Session.Reconcile.{
  Knowledge, Place, skipped, live_place, unavailable_place, recovery_place, ended, Verdict,
  no_items, acknowledge_known, require_recovery, absent_session, live_session, place_session,
  reconcile_cell,
}

-- What a verdict says of the session that it leaves.
abbrev pub Describes : Terminal → Place → Cell → Type 0
Describes t skipped c = c.session.state ≡ terminated
Describes t live_place c =
    (is_live t c ≡ true)
    × (identity_matches t c ≡ true)
    × (no_items c.requests ≡ true)
    × (no_items c.responses ≡ true)
    × (c.session.state ≢ recovery_required)
Describes t recovery_place c = c.session.state ≡ recovery_required
Describes t unavailable_place c =
    (is_live t c ≡ false)
    × ((c.session.state ≡ unavailable) ⊎ (c.session.state ≡ recovery_required))
Describes t ended c = (is_live t c ≡ false) × (c.session.state ≡ terminated)

abbrev Sound : Terminal → Outcome Verdict → Type 0
Sound t (ok v, c) = Describes t v.place c
Sound t (err x, c) = Unit

require_recovery-Sound :
    (t : Terminal) (reason : String) (turns : List String) (c : Cell)
    → Sound t (require_recovery reason turns c)
unfolding require_recovery move_to when allowed
require_recovery-Sound t reason turns c = ground arith

live_session-Sound :
    (t : Terminal) (turns : List String) (c : Cell)
    → is_live t c ≡ true
    → no_items c.responses ≡ true
    → Sound t (live_session t turns c)
unfolding live_session
live_session-Sound t turns c l r = ground (
  arith,
  require_recovery-Sound t "stale_session_identity" turns c,
  require_recovery-Sound t "inflight_turn_ambiguous_on_reconcile" turns c,
)

absent_session-Sound :
    (t : Terminal) (turns : List String) (c : Cell)
    → is_live t c ≡ false
    → Sound t (absent_session turns c)
unfolding absent_session move_to when allowed
absent_session-Sound t turns c l = ground arith

place_session-Sound :
    (t : Terminal) (turns : List String) (c : Cell) → Sound t (place_session t turns c)
unfolding place_session
place_session-Sound t turns c = ground (
  arith,
  require_recovery-Sound t "completed_turn_without_event_ack" turns c,
  live_session-Sound t turns c,
  absent_session-Sound t turns c,
)

bind-Sound : (t : Terminal) (m : Outcome (List String)) → Sound t (m >>= place_session t)
bind-Sound t (ok turns, c) = place_session-Sound t turns c
bind-Sound t (err x, c) = tt

verdict : (t : Terminal) (k : Knowledge) (c : Cell) → Sound t (reconcile_cell t k c)
unfolding reconcile_cell
verdict t k c = ground (
  arith,
  require_recovery-Sound t "adapter_version_drift_on_reconcile" [] c,
  bind-Sound t (acknowledge_known k (map (λ r. r.name) c.responses) c),
)

-- The verdict on a session describes what reconciliation leaves of it: a session that is reported
-- live is there, is the one registered, has no request or response on file and needs no recovery;
-- one reported for recovery is in `RECOVERY_REQUIRED`; one reported unavailable, or as ended, is
-- gone from tmux.
pub reconcile_cell-Describes :
    (t : Terminal) (k : Knowledge) (c c' : Cell) (v : Verdict)
    → reconcile_cell t k c ≡ (ok v, c')
    → Describes t v.place c'
unfolding reconcile_cell
reconcile_cell-Describes t k c c' v h = subst (Sound t) h (verdict t k c)
