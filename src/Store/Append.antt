-- ===== src/Store/Append.antt =====
-- src/ai_runtime/store/event_store.py: `SQLiteEventStore.append_group`, `_insert_one` and
-- `_resolve_identity_conflict`. Durations are left out. `BEGIN IMMEDIATE` fixes the rows that the
-- loop starts from; a rollback goes back to them.
pub mod WellFormed
pub mod Identity
pub mod Atomic
pub mod Retry
pub mod Sequential
use design_document.Base.{
  ℕ, zero, suc, ◌+◌, String, Bool, true, false, not, ◌&&◌, Option, none, some, List, [], ◌∷◌, map,
  any, ◌==◌, nat_eq, if◌then◌else◌, Result, ok, err, ◌>>=◌,
}
use design_document.Json.{Value}
use design_document.Store.Errors.{
  StoreError, idempotency_conflict, event_id_conflict, sequence_conflict, invariant_violation,
  store_closed, unresolved, interrupted,
}
use design_document.Store.Event.{PreparedEvent, Platform, Validator, prepare_event}
use design_document.Store.Table.{Row, max_position, last_sequence, find_key, find_id, insert}

pub data Status : Type 0 where
  appended duplicate_ignored : Status

pub record AppendResult : Type 0 where
  pub event_id : String
  pub global_position : ℕ
  pub status : Status

abbrev pub Outcome : Type 0
Outcome = Result StoreError AppendResult

pub record EventStore : Type 0 where
  pub closed : Bool
  pub rows : List Row

-- The open transaction: the table, and the two local variables of `append_group`.
pub record Txn : Type 0 where
  pub rows : List Row
  pub next_position : ℕ
  pub expected_sequences : List (String × ℕ)

abbrev same_content : Row → PreparedEvent → Bool
same_content r e = (r.payload == e.payload) && (r.headers == e.headers)

-- What the two SELECTs find about the identity of an event.
resolve_id : Option Row → PreparedEvent → Result StoreError (Option ℕ)
resolve_id none e = ok none
resolve_id (some r) e =
    if same_content r e then ok (some r.global_position) else err event_id_conflict

resolve : Option Row → Option Row → PreparedEvent → Result StoreError (Option ℕ)
unfolding resolve_id
resolve none by_id e = resolve_id by_id e
resolve (some r) by_id e =
    if same_content r e then ok (some r.global_position) else err idempotency_conflict

unfoldable pub resolve_identity_conflict : PreparedEvent → List Row → Result StoreError (Option ℕ)
unfolding resolve
resolve_identity_conflict e rows =
    resolve (find_key e.idempotency_key rows) (find_id e.event_id rows) e

-- The rows after the event, its status and its position.
abbrev pub Inserted : Type 0
Inserted = Result StoreError (List Row × (Status × ℕ))

-- `if identity is not None: return identity`, else `raise`.
abbrev pub identified : PreparedEvent → List Row → StoreError → Option ℕ → Inserted
identified e rows otherwise none = err otherwise
identified e rows otherwise (some position) = ok (rows, (duplicate_ignored, position))

settle_identity : PreparedEvent → List Row → StoreError → Inserted
unfolding resolve_identity_conflict
settle_identity e rows otherwise = resolve_identity_conflict e rows >>= identified e rows otherwise

unfoldable pub insert_one : PreparedEvent → ℕ → ℕ → List Row → Inserted
unfolding settle_identity insert
insert_one e position expected rows =
    if not (nat_eq e.sequence expected)
    then settle_identity e rows (sequence_conflict expected)
    else elim (insert e position rows) [
      | none ↦ settle_identity e rows invariant_violation
      | some rows' ↦ ok (rows', (appended, position))
    ]

-- `expected_sequences`: a dictionary from streams to their next sequence.
unfoldable pub lookup_expected : String → List (String × ℕ) → Option ℕ
lookup_expected s [] = none
lookup_expected s ((t, n) ∷ l) = if t == s then some n else lookup_expected s l

abbrev next_sequence : Option ℕ → ℕ
next_sequence none = 1
next_sequence (some n) = n + 1

-- The sequence that the stream expects, remembered or read from the table.
unfoldable pub expected_sequence : String → Txn → ℕ
expected_sequence s t = elim (lookup_expected s t.expected_sequences) [
  | some n ↦ n
  | none ↦ next_sequence (last_sequence s t.rows)
]

abbrev pub remember : String → ℕ → Txn → Txn
remember s n t = record t { expected_sequences = (s, n) ∷ t.expected_sequences }

-- The effect of `_insert_one` on the transaction: only a new row moves the two counters.
conclude : PreparedEvent → ℕ → Txn → Inserted → Txn × Outcome
conclude e n t (err x) = (t, err x)
conclude e n t (ok (rows, (appended, position))) = (
  record {
    rows = rows;
    next_position = t.next_position + 1;
    expected_sequences = (e.aggregate_stream, n + 1) ∷ t.expected_sequences;
  },
  ok (record { event_id = e.event_id; global_position = position; status = appended }),
)
conclude e n t (ok (rows, (duplicate_ignored, position))) = (
  t,
  ok (record { event_id = e.event_id; global_position = position; status = duplicate_ignored }),
)

-- One round of the loop over the prepared events.
unfoldable pub process_event : PreparedEvent → Txn → Txn × Outcome
unfolding conclude
process_event e t =
    let n = expected_sequence e.aggregate_stream t in
    conclude e n (remember e.aggregate_stream n t) (insert_one e t.next_position n t.rows)

unfoldable pub process_item : Result StoreError PreparedEvent → Txn → Txn × Outcome
unfolding process_event
process_item (err x) t = (t, err x)
process_item (ok e) t = process_event e t

-- Every slot not yet reached is `none`. `some k` interrupts before item `k`, or at COMMIT if the
-- list has `k` items.
unfoldable pub process_group :
    Option ℕ → Txn → List (Result StoreError PreparedEvent) → Bool × (Txn × List (Option Outcome))
process_group (some zero) t items = (false, (t, map (λ _. none) items))
process_group fault t [] = (true, (t, []))
process_group none t (i ∷ items) =
    let (t', o) = process_item i t in
    let (done, (t'', slots)) = process_group none t' items in (done, (t'', some o ∷ slots))
process_group (some (suc k)) t (i ∷ items) =
    let (t', o) = process_item i t in
    let (done, (t'', slots)) = process_group (some k) t' items in (done, (t'', some o ∷ slots))

unfoldable pub begin : List Row → Txn
begin rows = record { rows = rows; next_position = max_position rows + 1; expected_sequences = [] }

-- After COMMIT every slot is settled.
abbrev pub settled : Option Outcome → Outcome
settled none = err unresolved
settled (some o) = o

-- After ROLLBACK a slot keeps its own error, and anything else becomes the interruption.
abbrev pub rolled_back : Option Outcome → Outcome
rolled_back (some (err x)) = err x
rolled_back _ = err interrupted

abbrev pub is_prepared : Result StoreError PreparedEvent → Bool
is_prepared (ok e) = true
is_prepared (err x) = false

-- The exceptions among the prepared items.
unfoldable pub failures : List (Result StoreError PreparedEvent) → List Outcome
failures [] = []
failures (ok e ∷ items) = failures items
failures (err x ∷ items) = err x ∷ failures items

pub finish : EventStore → Bool × (Txn × List (Option Outcome)) → EventStore × List Outcome
finish s (true, (t, slots)) = (record s { rows = t.rows }, map settled slots)
finish s (false, (t, slots)) = (s, map rolled_back slots)

-- `append_group` after validation.
unfoldable pub commit_group :
    Option ℕ → EventStore → List (Result StoreError PreparedEvent) → EventStore × List Outcome
unfolding finish process_group process_item begin failures
commit_group fault s items =
    if any is_prepared items
    then finish s (process_group fault (begin s.rows) items)
    else (s, failures items)

module _ (platform : Platform) (validator : Validator) where
  unfoldable pub append_group :
      Option ℕ → EventStore → List Value → Result StoreError (EventStore × List Outcome)
  unfolding commit_group prepare_event
  append_group fault s events =
      if s.closed
      then err store_closed
      else ok (commit_group fault s (map (prepare_event platform validator) events))
