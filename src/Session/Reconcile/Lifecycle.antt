-- ===== src/Session/Reconcile/Lifecycle.antt =====
-- `reconcile` moves a session along the lifecycle table.
use design_document.Base.{String, List, [], ◌∷◌}
use design_document.Session.Cell.{Terminal, Cell, ◌>>◌, acknowledge_turn}
use design_document.Session.Cell.Lifecycle.{
  Follows, Follows-if, Follows-bind, Follows-raise, acknowledge_turn-Follows, moves,
}
use design_document.Session.Reconcile.{
  Knowledge, acknowledge_known, require_recovery, absent_session, live_session, place_session,
  reconcile_cell,
}

acknowledge_known-Follows :
    (k : Knowledge) (turns : List String) (c : Cell)
    → Follows c.session.state (acknowledge_known k turns c)
unfolding acknowledge_known
acknowledge_known-Follows k [] c = Follows-raise _ c
acknowledge_known-Follows k (turn ∷ turns) c =
    Follows-if (k.acknowledged turn) _ _
      (Follows-bind (acknowledge_turn turn c >> acknowledge_known k turns) _
        (Follows-bind (acknowledge_turn turn c) (λ _. acknowledge_known k turns)
          (acknowledge_turn-Follows turn c) (λ _. acknowledge_known-Follows k turns))
        (λ done c'. Follows-raise _ c'))
      (acknowledge_known-Follows k turns c)

require_recovery-Follows :
    (reason : String) (turns : List String) (c : Cell)
    → Follows c.session.state (require_recovery reason turns c)
unfolding require_recovery
require_recovery-Follows reason turns c = search moves

absent_session-Follows :
    (turns : List String) (c : Cell) → Follows c.session.state (absent_session turns c)
unfolding absent_session
absent_session-Follows turns c = search moves

live_session-Follows :
    (t : Terminal) (turns : List String) (c : Cell)
    → Follows c.session.state (live_session t turns c)
unfolding live_session
live_session-Follows t turns c = search (moves, require_recovery-Follows)

place_session-Follows :
    (t : Terminal) (turns : List String) (c : Cell)
    → Follows c.session.state (place_session t turns c)
unfolding place_session
place_session-Follows t turns c =
    search (moves, require_recovery-Follows, absent_session-Follows, live_session-Follows)

pub reconcile_cell-Follows :
    (t : Terminal) (k : Knowledge) (c : Cell) → Follows c.session.state (reconcile_cell t k c)
unfolding reconcile_cell
reconcile_cell-Follows t k c =
    search (moves, require_recovery-Follows, acknowledge_known-Follows, place_session-Follows)
