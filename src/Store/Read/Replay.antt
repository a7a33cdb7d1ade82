-- ===== src/Store/Read/Replay.antt =====
-- What a reader yields from a well-formed table, and that a replay can be resumed.
use design_document.Base.{
  ℕ, suc, String, ◌≡◌, refl, ◌&&◌, none, some, List, [], ◌∷◌, ◌++◌, arith, keep, ltb, ◌==◌, Result,
  ok, eq_iff, Result-cases, inl, inr,
}
use design_document.Json.{Dict}
use design_document.Store.Errors.{StoreError}
use design_document.Store.Event.{Platform, content_sha256}
use design_document.Store.Table.{Row, in_stream}
use design_document.Store.Table.Order.{Counts}
use design_document.Store.Append.WellFormed.{IsWellFormed}
use design_document.Store.Read.{
  decode_row, order_by, by_position, by_sequence, select_events, replay_rows,
}

-- Rows in order stay as they are.
order_by-Counts_position :
    (k : ℕ) (rows : List Row)
    → Counts (λ r. r.global_position) k rows
    → order_by by_position rows ≡ rows
unfolding order_by
order_by-Counts_position k [] c = refl
order_by-Counts_position k (r ∷ []) c = refl
order_by-Counts_position k (r ∷ q ∷ rows) c =
    rw (order_by-Counts_position (suc k) (q ∷ rows) c.1) (ground (arith, c.0, c.1.0))

order_by-Counts_sequence :
    (k : ℕ) (rows : List Row) → Counts (λ r. r.sequence) k rows → order_by by_sequence rows ≡ rows
unfolding order_by
order_by-Counts_sequence k [] c = refl
order_by-Counts_sequence k (r ∷ []) c = refl
order_by-Counts_sequence k (r ∷ q ∷ rows) c =
    rw (order_by-Counts_sequence (suc k) (q ∷ rows) c.1) (ground (arith, c.0, c.1.0))

keep-positive :
    (k : ℕ) (rows : List Row)
    → Counts (λ r. r.global_position) (suc k) rows
    → keep (λ r. ltb 0 r.global_position) rows ≡ rows
keep-positive k [] c = refl
keep-positive k (r ∷ rows) c = ground (arith, keep-positive (suc k) rows c.1, c.0)

keep-stream_positive :
    (s : String) (k : ℕ) (rows : List Row)
    → Counts (λ r. r.global_position) (suc k) rows
    → keep (λ r. (r.aggregate_stream == s) && ltb 0 r.global_position) rows ≡ in_stream s rows
unfolding in_stream
keep-stream_positive s k [] c = refl
keep-stream_positive s k (r ∷ rows) c = ground (arith, keep-stream_positive s (suc k) rows c.1, c.0)

-- From a well-formed table a reader yields every committed row once, in the order of commit; and of
-- one stream, the rows of that stream, in the order of commit, which is that of their sequences.
pub select_events-WellFormed :
    (s : String) (rows : List Row)
    → IsWellFormed rows
    → (select_events none 0 rows ≡ rows) × (select_events (some s) 0 rows ≡ in_stream s rows)
unfolding select_events
select_events-WellFormed s rows w = (
  rw (keep-positive 0 rows w.positions) (order_by-Counts_position 1 rows w.positions),
  rw (keep-stream_positive s 0 rows w.positions)
      (order_by-Counts_sequence 1 (in_stream s rows) (w.sequences s)),
)

-- Every event that a reader yields carries its own digest: the row's column, the digest in its
-- `integrity` object and the digest of the decoded content are one.
pub decode_row-intact :
    (platform : Platform) (r : Row) (event : Dict)
    → decode_row platform r ≡ ok event
    → content_sha256 platform event ≡ ok r.sha256
unfolding decode_row
decode_row-intact platform r event h = grind (arith, eq_iff)

module _ {S X : Type 0} (platform : Platform) (projector : S → Dict → Result X S)
    (raised : StoreError → X) where
  -- A replay over more rows goes on from the state that the earlier rows gave.
  pub replay_rows-append :
      (s s' : S) (rows more : List Row)
      → replay_rows platform projector raised s rows ≡ ok s'
      → replay_rows platform projector raised s (rows ++ more)
        ≡ replay_rows platform projector raised s' more
  unfolding replay_rows
  replay_rows-append s s' [] more h = ground arith
  replay_rows-append s s' (r ∷ rows) more h = elim (Result-cases (decode_row platform r)) [
    | inr (x, e) ↦ ground arith
    | inl (event, e) ↦ elim (Result-cases (projector s event)) [
      | inr (x, p) ↦ ground arith
      | inl (next, p) ↦ rw (e, replay_rows, p) (replay_rows-append next s' rows more (ground arith))
    ]
  ]
