-- ===== src/Store/Read.antt =====
-- src/ai_runtime/store/event_store.py: `_decode_row` and `SQLiteEventReader`. A reader sees the
-- committed rows; a position is a number, so the refusal of a negative `after_position` is left out.
pub mod Replay
use design_document.Base.{
  ℕ, String, Bool, true, false, Option, none, some, List, [], ◌∷◌, keep, ltb, leb, ◌==◌, nat_eq,
  ◌||◌, ◌&&◌, if◌then◌else◌, Result, ok, err, ◌>>=◌, ◌>>◌, guard, or_raise,
}
use design_document.Json.{Value, obj, Dict, set}
use design_document.Store.Errors.{StoreError, corrupt, store_closed}
use design_document.Store.Event.{
  Platform, PreparedEvent, required_mapping, required_text, lower, content_sha256,
}
use design_document.Store.Table.{Row}

-- `dict(headers)`: a text that is no JSON, or no object, is corrupt.
load_object : Platform → ℕ → String → Result StoreError Dict
load_object platform position text = elim (platform.loads text) [
  | some (obj d) ↦ ok d
  | _ ↦ err (corrupt position)
]

load_value : Platform → ℕ → String → Result StoreError Value
load_value platform position text = or_raise (platform.loads text) (corrupt position)

unfoldable pub decode_row : Platform → Row → Result StoreError Dict
unfolding load_object load_value
decode_row platform r = do
  headers ← load_object platform r.global_position r.headers
  payload ← load_value platform r.global_position r.payload
  let reconstructed = set "payload" payload headers
  integrity ← required_mapping reconstructed "integrity"
  stored ← required_text integrity "content_sha256"
  guard (r.sha256 == lower stored) (corrupt r.global_position)
  computed ← content_sha256 platform reconstructed
  guard (computed == lower stored) (corrupt r.global_position)
  ok reconstructed

-- ORDER BY, as an insertion sort on a test for "not after".
insert_by : (Row → Row → Bool) → Row → List Row → List Row
insert_by before r [] = r ∷ []
insert_by before r (q ∷ rows) =
    let later = q ∷ insert_by before r rows in if before r q then r ∷ q ∷ rows else later

unfoldable pub order_by : (Row → Row → Bool) → List Row → List Row
unfolding insert_by
order_by before [] = []
order_by before (r ∷ rows) = insert_by before r (order_by before rows)

abbrev pub by_position : Row → Row → Bool
by_position r q = leb r.global_position q.global_position

abbrev pub by_sequence : Row → Row → Bool
by_sequence r q = ltb r.sequence q.sequence || (nat_eq r.sequence q.sequence && by_position r q)

-- The query of `iter_events`.
unfoldable pub select_events : Option String → ℕ → List Row → List Row
unfolding order_by
select_events none after rows = order_by by_position (keep (λ r. ltb after r.global_position) rows)
select_events (some s) after rows =
    order_by by_sequence (keep (λ r. (r.aggregate_stream == s) && ltb after r.global_position) rows)

pub record EventReader : Type 0 where
  pub closed : Bool
  pub rows : List Row

-- `replay` over the rows that the query yields: a row that does not decode raises at its turn.
module _ {S X : Type 0} (platform : Platform) (projector : S → Dict → Result X S)
    (raised : StoreError → X) where
  unfoldable pub replay_rows : S → List Row → Result X S
  replay_rows state [] = ok state
  replay_rows state (r ∷ rows) = elim (decode_row platform r) [
    | err x ↦ err (raised x)
    | ok event ↦ elim (projector state event) [ err x ↦ err x | ok next ↦ replay_rows next rows ]
  ]

  unfoldable pub replay : EventReader → S → Option String → ℕ → Result X S
  unfolding replay_rows select_events
  replay reader state stream after =
      if reader.closed
      then err (raised store_closed)
      else replay_rows state (select_events stream after reader.rows)
