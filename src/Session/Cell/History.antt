-- ===== src/Session/Cell/History.antt =====
-- Any sequence of operations on one session.
use design_document.Base.{String, ◌≡◌, Bool, some, List, [], ◌∷◌, arith, if◌then◌else◌, ok, Option}
use design_document.Session.State.{terminated, is, allowed}
use design_document.Session.State.Paths.{◌⟶*◌, stay, ⟶*-trans, from_terminated}
use design_document.Session.Cell.{
  Terminal, Cell, TurnRequest, Poll, observe, send_turn, acknowledge_turn, reject_turn, terminate,
  drain, mark_replaced,
}
use design_document.Session.Spec.{SessionSpec, Digests}
use design_document.Session.Start.{Launch, start, resume_or_reconstruct}
use design_document.Session.Start.Lifecycle.{start-Follows, resume-Follows}
use design_document.Session.Reconcile.{Knowledge, reconcile_cell}
use design_document.Session.Reconcile.Lifecycle.{reconcile_cell-Follows}
use design_document.Session.Cell.Lifecycle.{
  observe-Follows, send_turn-Follows, acknowledge_turn-Follows, reject_turn-Follows,
  terminate-Follows, drain-Follows, mark_replaced-Follows,
}

pub data Operation : Type 0 where
  observes : Terminal → Operation
  sends : Terminal → String → Bool → TurnRequest → List Poll → Operation
  acknowledges : String → Operation
  rejects : String → String → Operation
  terminates : Bool → Operation
  drains : Operation
  replaces : String → Operation
  starts : Digests → Terminal → SessionSpec → Launch → Operation
  resumes : Digests → Terminal → SessionSpec → Launch → Bool → Option (List String) → Operation
  reconciles : Terminal → Knowledge → Operation

-- The cell that an operation leaves, whether it returns or raises.
pub apply : Operation → Cell → Cell
apply (observes t) c = (observe t c).1
apply (sends t cwd sent q polls) c = (send_turn t cwd sent q polls c).1
apply (acknowledges turn) c = (acknowledge_turn turn c).1
apply (rejects turn reason) c = (reject_turn turn reason c).1
apply (terminates absent) c = (terminate absent c).1
apply drains c = (drain c).1
apply (replaces by) c = (mark_replaced by c).1
apply (starts h t s l) c = (start h t s l (some c)).1
apply (resumes h t s l clean command) c = (resume_or_reconstruct h t s l clean command (some c)).1
apply (reconciles t k) c = (reconcile_cell t k c).1

unfoldable pub run : Cell → List Operation → Cell
unfolding apply
run c [] = c
run c (o ∷ ops) = run (apply o c) ops

apply-path : (o : Operation) (c : Cell) → c.session.state ⟶* (apply o c).session.state
unfolding apply
apply-path (observes t) c = (observe-Follows t c).path
apply-path (sends t cwd sent q polls) c = (send_turn-Follows t cwd sent q polls c).path
apply-path (acknowledges turn) c = (acknowledge_turn-Follows turn c).path
apply-path (rejects turn reason) c = (reject_turn-Follows turn reason c).path
apply-path (terminates absent) c = (terminate-Follows absent c).path
apply-path drains c = (drain-Follows c).path
apply-path (replaces by) c = (mark_replaced-Follows by c).path
apply-path (starts h t s l) c = (start-Follows h t s l c).path
apply-path (resumes h t s l clean command) c = (resume-Follows h t s l clean command c).path
apply-path (reconciles t k) c = (reconcile_cell-Follows t k c).path

pub run-path : (c : Cell) (ops : List Operation) → c.session.state ⟶* (run c ops).session.state
unfolding run
run-path c [] = stay
run-path c (o ∷ ops) = ⟶*-trans (apply-path o c) (run-path (apply o c) ops)

-- A terminated session stays terminated: no operation, in any order, revives it.
pub run-terminated :
    (c : Cell) (ops : List Operation)
    → c.session.state ≡ terminated
    → (run c ops).session.state ≡ terminated
run-terminated c ops e = from_terminated (run-path c ops) e

-- What `terminate` leaves.
pub record IsClosed (absent : Bool) (c : Cell) : Type 0 where
  pub ended : c.session.state ≡ terminated
  pub no_requests : c.requests ≡ []
  pub no_responses : c.responses ≡ []
  pub evidence : c.session.cleanup_evidence ≡ some absent

-- `terminate` never raises: from any state that is not yet terminated it ends in `TERMINATED`, with
-- an empty spool and the evidence of what tmux last said; on a terminated session it does nothing.
pub terminate-IsClosed :
    (absent : Bool) (c : Cell)
    → (c' : Cell) × (terminate absent c ≡ (ok tt, c'))
      × (if is c.session.state terminated then c' ≡ c else IsClosed absent c')
unfolding terminate allowed
terminate-IsClosed absent c = ((terminate absent c).1, ground arith, ground arith)
