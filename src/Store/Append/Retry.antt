-- ===== src/Store/Append/Retry.antt =====
-- A single append, its contract, and what a client sees when it submits the same event again.
use design_document.Base.{
  ℕ, ◌+◌, ◌≡◌, refl, sym, ap, ◌∙◌, subst, List, arith, length, ◌==◌, eq_refl, ok, err,
}
use design_document.Store.Event.{PreparedEvent}
use design_document.Store.Table.{Row, find_key, find_id}
use design_document.Store.Table.Unique.{find-append}
use design_document.Store.Append.{
  AppendResult, Outcome, Inserted, EventStore, insert_one, process_event, process_item,
  expected_sequence, conclude, begin, remember, appended, duplicate_ignored,
}
use design_document.Store.Append.WellFormed.{
  IsWellFormed, row, begin-IsCoherent, expected-sequence-eq, process_event-IsCoherent,
}
use design_document.Store.Append.Identity.{IsValid, append_contract, insert_one-contract}
use design_document.Store.Append.Sequential.{append_one}

-- What the contract's answer means for the store.
unfoldable pub answer : EventStore → PreparedEvent → Inserted → EventStore × Outcome
answer s e (err x) = (s, err x)
answer s e (ok (rows, (status, position))) = (
  record s { rows = rows },
  ok (record { event_id = e.event_id; global_position = position; status = status }),
)

-- Rows change only with a new event.
abbrev IsFrugal : List Row → Inserted → Type 0
IsFrugal rows (err x) = Unit
IsFrugal rows (ok (rows', (appended, p))) = Unit
IsFrugal rows (ok (rows', (duplicate_ignored, p))) = rows' ≡ rows

append_contract-IsFrugal :
    (e : PreparedEvent) (rows : List Row) → IsFrugal rows (append_contract e rows)
unfolding append_contract
append_contract-IsFrugal e rows = ground arith

conclude-answer :
    (s : EventStore) (e : PreparedEvent) (n : ℕ) (r : Inserted)
    → IsFrugal s.rows r
    → (let (t, o) = conclude e n (remember e.aggregate_stream n (begin s.rows)) r in
        ◌≡◌ {A = EventStore × Outcome} (record s { rows = t.rows }, o) (answer s e r))
unfolding conclude answer begin
conclude-answer s e n (err x) f = refl
conclude-answer s e n (ok (rows, (appended, p))) f = refl
conclude-answer s e n (ok (rows, (duplicate_ignored, p))) f = ground arith

-- One `append` to a well-formed store keeps the contract: the store gains the row or is unchanged,
-- and the caller gets the position and the status, or the conflict.
pub append_one-contract :
    (s : EventStore) (e : PreparedEvent)
    → IsValid e
    → IsWellFormed s.rows
    → append_one s (ok e) ≡ answer s e (append_contract e s.rows)
unfolding append_one process_item process_event begin
append_one-contract s e v w =
    let t = begin s.rows in
    let c = begin-IsCoherent s.rows w in
    let n = expected_sequence e.aggregate_stream t in
    let known = expected-sequence-eq e.aggregate_stream t c in
    let answered : insert_one e t.next_position n s.rows ≡ append_contract e s.rows =
      cc (known, c.position) ∙ insert_one-contract e s.rows v w in
    conclude-answer s e n (insert_one e t.next_position n s.rows)
      (subst (IsFrugal s.rows) (sym answered) (append_contract-IsFrugal e s.rows))
    ∙ ap (answer s e) answered

append_one-IsWellFormed :
    (s : EventStore) (e : PreparedEvent)
    → IsWellFormed s.rows
    → IsWellFormed (append_one s (ok e)).0.rows
unfolding append_one process_item
append_one-IsWellFormed s e w =
    (process_event-IsCoherent e (begin s.rows) (begin-IsCoherent s.rows w)).table

abbrev again : AppendResult → AppendResult
again r = record r { status = duplicate_ignored }

-- The second of two answers to one event.
contract_again :
    (s : EventStore) (e : PreparedEvent) {s' : EventStore} {r : AppendResult}
    → answer s e (append_contract e s.rows) ≡ (s', ok r)
    → answer s' e (append_contract e s'.rows) ≡ (s', ok (again r))
unfolding answer append_contract find_key find_id
contract_again s e h = ground (
  arith,
  find-append (λ q. q.idempotency_key == e.idempotency_key) s.rows (row (length s.rows + 1) e),
  eq_refl e.idempotency_key,
  eq_refl e.payload,
  eq_refl e.headers,
)

-- A client that got a receipt and submits the same event again gets the same event id and position,
-- marked as a duplicate, and the store does not change.
pub append_again :
    (s s' : EventStore) (e : PreparedEvent) (r : AppendResult)
    → IsValid e
    → IsWellFormed s.rows
    → append_one s (ok e) ≡ (s', ok r)
    → append_one s' (ok e) ≡ (s', ok (record r { status = duplicate_ignored }))
append_again s s' e r v w h =
    append_one-contract s' e v (
      subst (λ (p : EventStore × Outcome). IsWellFormed p.0.rows) h (append_one-IsWellFormed s e w))
    ∙ contract_again s e (sym (append_one-contract s e v w) ∙ h)
