-- ===== src/Store/Append/WellFormed.antt =====
-- Every operation of the store keeps the table well formed.
use design_document.Base.{
  ℕ, zero, suc, ◌+◌, String, ◌≡◌, refl, ◌⊎◌, inl, inr, Bool, true, false, Option, none, some, List,
  [], ◌∷◌, ◌++◌, map, any, arith, length, length-append, ◌==◌, eq_iff, nat_eq, if◌then◌else◌,
  Result, ok, err, ◌>>=◌, Bool-cases, Option-cases,
}
use mathlib.Core.List.{append-nil}
use design_document.Json.{Value}
use design_document.Store.Event.{PreparedEvent, Platform, Validator, prepare_event}
use design_document.Store.Table.{Row, in_stream, last_sequence, find_key, find_id, insert}
use design_document.Store.Table.Order.{
  Counts, Counts-append, max_position-eq-length, max_sequence-eq-length, in_stream-append,
}
use design_document.Store.Table.Unique.{Distinct, Distinct-append, violates-fresh}
use design_document.Store.Errors.{StoreError, sequence_conflict, invariant_violation}
use design_document.Store.Append.{
  resolve_identity_conflict, identified, Txn, Outcome, Inserted, EventStore, settle_identity,
  insert_one, expected_sequence, lookup_expected, remember, process_event, process_item,
  process_group, conclude, begin, finish, commit_group, append_group, is_prepared, appended,
  duplicate_ignored,
}

pub record IsWellFormed (rows : List Row) : Type 0 where
  pub positions : Counts (λ r. r.global_position) 1 rows
  pub sequences : (s : String) → Counts (λ r. r.sequence) 1 (in_stream s rows)
  pub ids : Distinct (λ r. r.event_id) rows
  pub keys : Distinct (λ r. r.idempotency_key) rows

abbrev pub row : ℕ → PreparedEvent → Row
row position e = record { global_position = position; event = e }

pub IsWellFormed-append :
    (rows : List Row) (e : PreparedEvent) (position : ℕ)
    → IsWellFormed rows
    → position ≡ length rows + 1
    → e.sequence ≡ length (in_stream e.aggregate_stream rows) + 1
    → find_key e.idempotency_key rows ≡ none
    → find_id e.event_id rows ≡ none
    → IsWellFormed (rows ++ row position e ∷ [])
unfolding find_key find_id
IsWellFormed-append rows e position w pos seq key id = record {
  positions = Counts-append _ 1 rows r w.positions (omega arith);
  sequences = λ s. elim (Bool-cases (e.aggregate_stream == s)) [
    | inl same ↦
        rw (in_stream-append s rows r, same)
          (Counts-append _ 1 (in_stream s rows) r (w.sequences s)
            (rw (← (eq_iff e.aggregate_stream s).0 same) (omega arith)))
    | inr other ↦ rw (in_stream-append s rows r, other, append-nil) (w.sequences s)
  ];
  ids = Distinct-append _ rows r w.ids id;
  keys = Distinct-append _ rows r w.keys key;
}
  where
    r : Row
    r = row position e

-- The counters of a transaction agree with its table.
pub record IsCoherent (t : Txn) : Type 0 where
  pub table : IsWellFormed t.rows
  pub position : t.next_position ≡ length t.rows + 1
  pub remembered :
      (s : String) (n : ℕ)
      → lookup_expected s t.expected_sequences ≡ some n
      → n ≡ length (in_stream s t.rows) + 1

pub expected-sequence-eq :
    (s : String) (t : Txn) → IsCoherent t → expected_sequence s t ≡ length (in_stream s t.rows) + 1
unfolding expected_sequence last_sequence
expected-sequence-eq s t c = elim (Option-cases (lookup_expected s t.expected_sequences)) [
  | inl e ↦
      rw (e, expected_sequence) (ground (arith, max_sequence-eq-length _ (c.table.sequences s)))
  | inr (n, e) ↦ rw (e, expected_sequence) (c.remembered s n e)
]

-- INSERT succeeds only with a new identity, and adds one row at the end.
pub insert-fresh :
    (e : PreparedEvent) (position : ℕ) (rows rows' : List Row)
    → insert e position rows ≡ some rows'
    → (rows' ≡ rows ++ row position e ∷ [])
      × (find_key e.idempotency_key rows ≡ none)
      × (find_id e.event_id rows ≡ none)
unfolding insert
insert-fresh e position rows rows' h = ground (arith, violates-fresh e position rows)

-- What `_insert_one` can answer: an exception, a duplicate, or a new row for a new identity at the
-- expected sequence.
abbrev pub Answer : PreparedEvent → ℕ → ℕ → List Row → Inserted → Type 0
Answer e position expected rows r =
    ((x : StoreError) × (r ≡ err x))
    ⊎ ((p : ℕ) × (r ≡ ok (rows, (duplicate_ignored, p))))
    ⊎ ((r ≡ ok (rows ++ row position e ∷ [], (appended, position)))
        × (e.sequence ≡ expected)
        × (find_key e.idempotency_key rows ≡ none)
        × (find_id e.event_id rows ≡ none))

settle_identity-Answer :
    (e : PreparedEvent) (position expected : ℕ) (rows : List Row) (x : StoreError)
    → Answer e position expected rows (settle_identity e rows x)
unfolding settle_identity
settle_identity-Answer e position expected rows x =
    elim (resolve_identity_conflict e rows)
      as (λ i. Answer e position expected rows (i >>= identified e rows x)) [
        | ok none ↦ inl (x, refl)
        | ok (some p) ↦ inr (inl (p, refl))
        | err y ↦ inl (y, refl)
      ]

pub insert_one-Answer :
    (e : PreparedEvent) (position expected : ℕ) (rows : List Row)
    → Answer e position expected rows (insert_one e position expected rows)
unfolding insert_one
insert_one-Answer e position expected rows = elim (Bool-cases (nat_eq e.sequence expected)) [
  | inr differs ↦
      rw (differs, insert_one)
        (settle_identity-Answer e position expected rows (sequence_conflict expected))
  | inl same ↦ elim (Option-cases (insert e position rows)) [
    | inl fails ↦
        rw (same, insert_one, fails)
          (settle_identity-Answer e position expected rows invariant_violation)
    | inr (rows', done) ↦
        let f = insert-fresh e position rows rows' done in
        inr (inr (rw (same, insert_one, done, f.0) refl, ground arith, f.1, f.2))
  ]
]

length-in_stream-append :
    (s : String) (rows : List Row) (r : Row)
    → length (in_stream s (rows ++ r ∷ []))
      ≡ length (in_stream s rows) + (if r.aggregate_stream == s then 1 else 0)
length-in_stream-append s rows r =
    rw (in_stream-append s rows r, length-append (in_stream s rows) _) (ground arith)

remember-IsCoherent :
    (s : String) (n : ℕ) (t : Txn)
    → IsCoherent t
    → n ≡ length (in_stream s t.rows) + 1
    → IsCoherent (remember s n t)
unfolding lookup_expected
remember-IsCoherent s n t c e = record {
  table = c.table;
  position = c.position;
  remembered = λ q k h. ground (arith, c.remembered q k, eq_iff s q);
}

conclude-IsCoherent :
    (e : PreparedEvent) (n : ℕ) (t : Txn) (r : Inserted)
    → IsCoherent t
    → n ≡ length (in_stream e.aggregate_stream t.rows) + 1
    → Answer e t.next_position n t.rows r
    → IsCoherent (conclude e n t r).0
unfolding conclude
conclude-IsCoherent e n t r c h (inl (x, a)) = rw (a, conclude) c
conclude-IsCoherent e n t r c h (inr (inl (p, a))) = rw (a, conclude) c
conclude-IsCoherent e n t r c h (inr (inr (a, seq, key, id))) =
    rw (a, conclude)
      (record {
        table =
            IsWellFormed-append t.rows e t.next_position c.table c.position (omega arith) key id;
        position = omega (arith, length-append t.rows (row t.next_position e ∷ []), c.position);
        remembered = λ q k l.
            unfold lookup_expected in
            ground (
              arith,
              c.remembered q k,
              eq_iff e.aggregate_stream q,
              length-in_stream-append q t.rows (row t.next_position e),
            );
      })

pub process_event-IsCoherent :
    (e : PreparedEvent) (t : Txn) → IsCoherent t → IsCoherent (process_event e t).0
unfolding process_event
process_event-IsCoherent e t c =
    let s = e.aggregate_stream in
    let n = expected_sequence s t in
    let known = expected-sequence-eq s t c in
    conclude-IsCoherent e n (remember s n t) (insert_one e t.next_position n t.rows)
      (remember-IsCoherent s n t c known) known (insert_one-Answer e t.next_position n t.rows)

pub process_item-IsCoherent :
    (i : Result StoreError PreparedEvent) (t : Txn) → IsCoherent t → IsCoherent (process_item i t).0
unfolding process_item
process_item-IsCoherent (ok e) t c = process_event-IsCoherent e t c
process_item-IsCoherent (err x) t c = c

process_group-IsCoherent :
    (fault : Option ℕ) (t : Txn) (items : List (Result StoreError PreparedEvent))
    → IsCoherent t
    → IsCoherent (process_group fault t items).1.0
unfolding process_group
process_group-IsCoherent (some zero) t items c = c
process_group-IsCoherent none t [] c = c
process_group-IsCoherent (some (suc k)) t [] c = c
process_group-IsCoherent none t (i ∷ items) c =
    process_group-IsCoherent none (process_item i t).0 items (process_item-IsCoherent i t c)
process_group-IsCoherent (some (suc k)) t (i ∷ items) c =
    process_group-IsCoherent (some k) (process_item i t).0 items (process_item-IsCoherent i t c)

pub begin-IsCoherent : (rows : List Row) → IsWellFormed rows → IsCoherent (begin rows)
unfolding begin lookup_expected
begin-IsCoherent rows w = record {
  table = w;
  position = omega (arith, max_position-eq-length rows w.positions);
  remembered = λ s n h. cc;
}

finish-IsWellFormed :
    (s : EventStore) (p : Bool × (Txn × List (Option Outcome)))
    → IsWellFormed s.rows
    → IsWellFormed p.1.0.rows
    → IsWellFormed (finish s p).0.rows
unfolding finish
finish-IsWellFormed s (true, (t, slots)) w v = v
finish-IsWellFormed s (false, (t, slots)) w v = w

pub commit_group-IsWellFormed :
    (fault : Option ℕ) (s : EventStore) (items : List (Result StoreError PreparedEvent))
    → IsWellFormed s.rows
    → IsWellFormed (commit_group fault s items).0.rows
unfolding commit_group
commit_group-IsWellFormed fault s items w = elim (Bool-cases (any is_prepared items)) [
  | inl e ↦
      rw (e, commit_group)
        (finish-IsWellFormed s _ w
          (process_group-IsCoherent fault (begin s.rows) items (begin-IsCoherent s.rows w)).table)
  | inr e ↦ rw (e, commit_group) w
]

module _ (platform : Platform) (validator : Validator) where
  -- From a well-formed table, `append_group` leaves a well-formed table, whatever the submissions
  -- are, valid or not, and wherever the storage fails: positions count up from 1 with no gap, so do
  -- the sequences of every stream, and event ids and idempotency keys are unique.
  pub append_group-IsWellFormed :
      (fault : Option ℕ) (s s' : EventStore) (events : List Value) (outcomes : List Outcome)
      → IsWellFormed s.rows
      → append_group platform validator fault s events ≡ ok (s', outcomes)
      → IsWellFormed s'.rows
  unfolding append_group
  append_group-IsWellFormed fault s s' events outcomes w h =
      ground
        (arith, commit_group-IsWellFormed fault s (map (prepare_event platform validator) events) w)
