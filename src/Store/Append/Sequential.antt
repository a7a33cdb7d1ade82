-- ===== src/Store/Append/Sequential.antt =====
-- Group commit against one append at a time.
use design_document.Base.{
  ℕ, ◌+◌, ◌≡◌, refl, sym, ap, ◌∙◌, Bool, true, false, Option, none, some, List, [], ◌∷◌, ◌++◌, any,
  arith, length, Result, ok, err, inl, inr, Bool-cases,
}
use design_document.Store.Errors.{StoreError}
use design_document.Store.Event.{PreparedEvent}
use design_document.Store.Table.{Row, in_stream}
use design_document.Store.Append.{
  Txn, Outcome, Inserted, EventStore, insert_one, expected_sequence, remember, conclude,
  process_event, process_item, process_group, begin, finish, commit_group, is_prepared, failures,
  appended, duplicate_ignored,
}
use design_document.Store.Append.WellFormed.{
  IsWellFormed, IsCoherent, expected-sequence-eq, begin-IsCoherent, process_item-IsCoherent,
}

-- One `append` after another, each in a transaction of its own.
unfoldable pub append_each :
    EventStore → List (Result StoreError PreparedEvent) → EventStore × List Outcome
append_each s [] = (s, [])
append_each s (i ∷ items) =
    let (s', o) = commit_group none s (i ∷ []) in
    let (s'', os) = append_each s' items in (s'', o ++ os)

abbrev table_and_outcome : Txn × Outcome → List Row × Outcome
table_and_outcome (t, o) = (t.rows, o)

conclude_same :
    (e : PreparedEvent) (n : ℕ) (t u : Txn) (r : Inserted)
    → t.rows ≡ u.rows
    → table_and_outcome (conclude e n t r) ≡ table_and_outcome (conclude e n u r)
unfolding conclude
conclude_same e n t u (err x) h = ground arith
conclude_same e n t u (ok (rows, (appended, p))) h = refl
conclude_same e n t u (ok (rows, (duplicate_ignored, p))) h = ground arith

process_event_same :
    (e : PreparedEvent) (t u : Txn)
    → IsCoherent t
    → IsCoherent u
    → t.rows ≡ u.rows
    → table_and_outcome (process_event e t) ≡ table_and_outcome (process_event e u)
unfolding process_event
process_event_same e t u c d h =
    let s = e.aggregate_stream in
    let n = expected_sequence s t in
    let m = expected_sequence s u in
    let known : n ≡ m =
      expected-sequence-eq s t c
      ∙ ap (λ (rows : List Row). length (in_stream s rows) + 1) h
      ∙ sym (expected-sequence-eq s u d) in
    let place : t.next_position ≡ u.next_position =
      omega (arith, c.position, d.position, ap length h) in
    conclude_same e n (remember s n t) (remember s n u) (insert_one e t.next_position n t.rows) h
    ∙ cc (known, place, h)

-- What an event does depends on the table alone: the counters of a transaction add nothing.
process_item_same :
    (i : Result StoreError PreparedEvent) (t u : Txn)
    → IsCoherent t
    → IsCoherent u
    → t.rows ≡ u.rows
    → table_and_outcome (process_item i t) ≡ table_and_outcome (process_item i u)
unfolding process_item
process_item_same (err x) t u c d h = ground arith
process_item_same (ok e) t u c d h = process_event_same e t u c d h

unfoldable pub append_one : EventStore → Result StoreError PreparedEvent → EventStore × Outcome
append_one s i = let (t, o) = process_item i (begin s.rows) in (record s { rows = t.rows }, o)

commit_group_single :
    (s : EventStore) (i : Result StoreError PreparedEvent)
    → commit_group none s (i ∷ []) ≡ ((append_one s i).0, (append_one s i).1 ∷ [])
unfolding commit_group append_one
commit_group_single s (ok e) = refl
commit_group_single s (err x) = refl

process_group-done :
    (t : Txn) (items : List (Result StoreError PreparedEvent))
    → (process_group none t items).0 ≡ true
unfolding process_group
process_group-done t [] = refl
process_group-done t (i ∷ items) = process_group-done (process_item i t).0 items

abbrev cons_outcome : Outcome → EventStore × List Outcome → EventStore × List Outcome
cons_outcome o (s, os) = (s, o ∷ os)

finish-cons :
    (s : EventStore) (o : Outcome) (p : Bool × (Txn × List (Option Outcome)))
    → p.0 ≡ true
    → finish s (p.0, (p.1.0, some o ∷ p.1.1)) ≡ cons_outcome o (finish s p)
unfolding finish
finish-cons s o (true, (t, slots)) h = refl
finish-cons s o (false, (t, slots)) h = cc

append_each-cons :
    (s : EventStore) (i : Result StoreError PreparedEvent)
    (items : List (Result StoreError PreparedEvent))
    → append_each s (i ∷ items)
      ≡ cons_outcome (append_one s i).1 (append_each (append_one s i).0 items)
unfolding append_each
append_each-cons s i items = rw (commit_group_single s i) refl

append_one_same :
    (s : EventStore) (t : Txn) (i : Result StoreError PreparedEvent)
    → IsCoherent t
    → append_one (record s { rows = t.rows }) i
      ≡ (record s { rows = (process_item i t).0.rows }, (process_item i t).1)
unfolding append_one begin
append_one_same s t i c =
    ap (λ (p : List Row × Outcome). (record s { rows = p.0 }, p.1))
      (process_item_same i (begin t.rows) t (begin-IsCoherent t.rows c.table) c refl)

process_group-append_each :
    (s : EventStore) (t : Txn) (items : List (Result StoreError PreparedEvent))
    → IsCoherent t
    → finish s (process_group none t items) ≡ append_each (record s { rows = t.rows }) items
unfolding finish process_group append_each
process_group-append_each s t [] c = refl
process_group-append_each s t (i ∷ items) c =
    let (t', o) = process_item i t in
    finish-cons s o (process_group none t' items) (process_group-done t' items)
    ∙ ap (cons_outcome o) (process_group-append_each s t' items (process_item-IsCoherent i t c))
    ∙ sym (rw (append_each-cons (record s { rows = t.rows }) i items, append_one_same s t i c))

failures-append_each :
    (s : EventStore) (items : List (Result StoreError PreparedEvent))
    → any is_prepared items ≡ false
    → append_each s items ≡ (s, failures items)
unfolding append_each failures append_one process_item begin commit_group
failures-append_each s [] h = refl
failures-append_each s (err x ∷ items) h =
    ap (cons_outcome (err x)) (failures-append_each s items h)
failures-append_each s (ok e ∷ items) h = cc

-- From a well-formed table, a group commit that storage does not interrupt does exactly what the
-- same submissions do when each is appended in a transaction of its own: the same table, and the
-- same outcome for every submission, duplicates and refusals included.
pub commit_group-append_each :
    (s : EventStore) (items : List (Result StoreError PreparedEvent))
    → IsWellFormed s.rows
    → commit_group none s items ≡ append_each s items
unfolding commit_group
commit_group-append_each s items w = elim (Bool-cases (any is_prepared items)) [
  | inl e ↦
      rw (e, commit_group)
        (process_group-append_each s (begin s.rows) items (begin-IsCoherent s.rows w))
  | inr e ↦ rw (e, commit_group) (sym (failures-append_each s items e))
]

-- Submissions in two parts.
pub append_each-append :
    (s : EventStore) (xs ys : List (Result StoreError PreparedEvent))
    → (append_each s (xs ++ ys)).0 ≡ (append_each (append_each s xs).0 ys).0
unfolding append_each
append_each-append s [] ys = refl
append_each-append s (x ∷ xs) ys = append_each-append (commit_group none s (x ∷ [])).0 xs ys

finish-closed :
    (s : EventStore) (p : Bool × (Txn × List (Option Outcome))) → (finish s p).0.closed ≡ s.closed
unfolding finish
finish-closed s (true, (t, slots)) = refl
finish-closed s (false, (t, slots)) = refl

pub commit_group-closed :
    (fault : Option ℕ) (s : EventStore) (items : List (Result StoreError PreparedEvent))
    → (commit_group fault s items).0.closed ≡ s.closed
unfolding commit_group
commit_group-closed fault s items = elim (Bool-cases (any is_prepared items)) [
  | inl e ↦ rw (e, commit_group) (finish-closed s (process_group fault (begin s.rows) items))
  | inr e ↦ rw (e, commit_group) refl
]
