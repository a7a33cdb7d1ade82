-- ===== src/Store/Table.antt =====
-- src/ai_runtime/store/event_store.py: the `events` table of `_SCHEMA`, oldest row first, with the
-- queries that the store makes on it. A row is never updated or deleted (the two triggers), so
-- INSERT is the one statement that changes the table.
pub mod Order
pub mod Unique
use Prim.Native.String.{count}
use design_document.Base.{
  ℕ, zero, suc, ◌+◌, String, Bool, true, false, not, ◌&&◌, ◌||◌, Option, none, some, List, [], ◌∷◌,
  ◌++◌, map, max, any, keep, find, ◌==◌, nat_eq, leb, if◌then◌else◌,
}
use design_document.Store.Event.{PreparedEvent}

pub record Row : Type 0 where
  pub global_position : ℕ
  pub event : PreparedEvent
  pub open event use *

-- SELECT COALESCE(MAX(global_position), 0) FROM events
unfoldable pub max_position : List Row → ℕ
max_position [] = 0
max_position (r ∷ rows) = max r.global_position (max_position rows)

-- The rows of one stream.
unfoldable pub in_stream : String → List Row → List Row
in_stream s = keep (λ r. r.aggregate_stream == s)

unfoldable pub max_sequence : List Row → Option ℕ
max_sequence [] = none
max_sequence (r ∷ rows) = elim (max_sequence rows) [
  | none ↦ some r.sequence
  | some n ↦ some (max r.sequence n)
]

-- SELECT sequence FROM events WHERE aggregate_stream=? ORDER BY sequence DESC LIMIT 1
unfoldable pub last_sequence : String → List Row → Option ℕ
unfolding max_sequence in_stream
last_sequence s rows = max_sequence (in_stream s rows)

-- SELECT ... WHERE idempotency_key=?, and WHERE event_id=?
unfoldable pub find_key : String → List Row → Option Row
find_key k = find (λ r. r.idempotency_key == k)

unfoldable pub find_id : String → List Row → Option Row
find_id k = find (λ r. r.event_id == k)

-- A UNIQUE or CHECK constraint that the new row breaks. NOT NULL holds by the types.
abbrev pub clashes : PreparedEvent → ℕ → Row → Bool
clashes e position r =
    (r.event_id == e.event_id)
    || nat_eq r.global_position position
    || (r.idempotency_key == e.idempotency_key)
    || ((r.aggregate_stream == e.aggregate_stream) && nat_eq r.sequence e.sequence)

unfoldable pub violates : PreparedEvent → ℕ → List Row → Bool
violates e position rows =
    any (clashes e position) rows
    || nat_eq position 0
    || nat_eq e.sequence 0
    || not (nat_eq (count e.sha256) 64)

-- INSERT INTO events: `none` is `sqlite3.IntegrityError`.
unfoldable pub insert : PreparedEvent → ℕ → List Row → Option (List Row)
unfolding violates
insert e position rows =
    if violates e position rows
    then none
    else some (rows ++ record { global_position = position; event = e } ∷ [])
