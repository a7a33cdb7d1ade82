-- ===== src/Store/Append/Identity.antt =====
-- Which answer an event gets, by its identity and its sequence alone.
use Prim.Native.String.{count}
use design_document.Base.{
  ℕ, suc, ◌+◌, ◌≤◌, ◌<◌, ◌≡◌, refl, Bool, true, false, none, some, List, [], ◌∷◌, ◌++◌, arith, any,
  length, nat_eq, if◌then◌else◌, ok, err, Option-cases, inl, inr,
}
use design_document.Store.Errors.{
  StoreError, idempotency_conflict, event_id_conflict, sequence_conflict,
}
use design_document.Store.Event.{PreparedEvent}
use design_document.Store.Table.{Row, in_stream, find_key, find_id, clashes, violates, insert}
use design_document.Store.Table.Order.{Counts}
use design_document.Store.Table.Unique.{with}
use design_document.Store.Append.{
  Inserted, same_content, settle_identity, insert_one, appended, duplicate_ignored,
}
use design_document.Store.Append.WellFormed.{IsWellFormed, row}

-- What the schema's CHECK constraints ask of a prepared event.
pub record IsValid (e : PreparedEvent) : Type 0 where
  pub sequence : 0 < e.sequence
  pub digest : count e.sha256 ≡ 64

abbrev replayed : PreparedEvent → List Row → StoreError → Row → Inserted
replayed e rows conflict r =
    if same_content r e then ok (rows, (duplicate_ignored, r.global_position)) else err conflict

-- The contract of an append, with no mention of constraints or of the order of statements.
unfoldable pub append_contract : PreparedEvent → List Row → Inserted
append_contract e rows =
    let expected = length (in_stream e.aggregate_stream rows) + 1 in
    elim (find_key e.idempotency_key rows) [
      | some r ↦ replayed e rows idempotency_conflict r
      | none ↦ elim (find_id e.event_id rows) [
        | some r ↦ replayed e rows event_id_conflict r
        | none ↦
            if nat_eq e.sequence expected
            then ok (rows ++ row (length rows + 1) e ∷ [], (appended, length rows + 1))
            else err (sequence_conflict expected)
      ]
    ]

module _ (e : PreparedEvent) (position : ℕ) where
  fresh-clashes :
      (k n : ℕ) (rows : List Row)
      → with (λ r. r.idempotency_key) e.idempotency_key rows ≡ none
      → with (λ r. r.event_id) e.event_id rows ≡ none
      → Counts (λ r. r.global_position) k rows
      → k + length rows ≤ position
      → Counts (λ r. r.sequence) n (in_stream e.aggregate_stream rows)
      → n + length (in_stream e.aggregate_stream rows) ≤ e.sequence
      → any (clashes e position) rows ≡ false
  unfolding in_stream
  fresh-clashes k n [] key id p b q c = refl
  fresh-clashes k n (r ∷ rows) key id p b q c =
      ground (arith, fresh-clashes (suc k) n rows, fresh-clashes (suc k) (suc n) rows)

-- A known identity makes the row clash.
find_key-clashes :
    (e : PreparedEvent) (position : ℕ) (rows : List Row) (r : Row)
    → with (λ q. q.idempotency_key) e.idempotency_key rows ≡ some r
    → any (clashes e position) rows ≡ true
find_key-clashes e position [] r h = cc
find_key-clashes e position (q ∷ rows) r h = ground (arith, find_key-clashes e position rows r)

find_id-clashes :
    (e : PreparedEvent) (position : ℕ) (rows : List Row) (r : Row)
    → with (λ q. q.event_id) e.event_id rows ≡ some r
    → any (clashes e position) rows ≡ true
find_id-clashes e position [] r h = cc
find_id-clashes e position (q ∷ rows) r h = ground (arith, find_id-clashes e position rows r)

abbrev clash : PreparedEvent → List Row → Bool
clash e rows = any (clashes e (length rows + 1)) rows

insert-clash :
    (e : PreparedEvent) (rows : List Row)
    → clash e rows ≡ true
    → insert e (length rows + 1) rows ≡ none
unfolding insert violates
insert-clash e rows h = ground arith

insert-new :
    (e : PreparedEvent) (rows : List Row)
    → IsValid e
    → clash e rows ≡ false
    → insert e (length rows + 1) rows ≡ some (rows ++ row (length rows + 1) e ∷ [])
unfolding insert violates
insert-new e rows v h = ground (arith, v.sequence, v.digest)

-- On a well-formed table `_insert_one` keeps the contract, given the next position and the sequence
-- that the stream expects: the idempotency key decides first, then the event id, then the sequence;
-- SQLite's own constraints never answer for them.
pub insert_one-contract :
    (e : PreparedEvent) (rows : List Row)
    → IsValid e
    → IsWellFormed rows
    → insert_one e (length rows + 1) (length (in_stream e.aggregate_stream rows) + 1) rows
      ≡ append_contract e rows
unfolding insert_one append_contract settle_identity find_key find_id
insert_one-contract e rows v w =
    elim (Option-cases (with (λ r. r.idempotency_key) e.idempotency_key rows)) [
      | inr (r, known) ↦
          let c = find_key-clashes e (length rows + 1) rows r known in
          ground (arith, insert-clash e rows c)
      | inl new ↦ elim (Option-cases (with (λ r. r.event_id) e.event_id rows)) [
        | inr (r, known) ↦
            let c = find_id-clashes e (length rows + 1) rows r known in
            ground (arith, insert-clash e rows c)
        | inl fresh ↦
            let c =
              fresh-clashes e (length rows + 1) 1 1 rows new fresh w.positions (omega arith)
                (w.sequences e.aggregate_stream) in
            ground (arith, insert-new e rows v)
      ]
    ]
