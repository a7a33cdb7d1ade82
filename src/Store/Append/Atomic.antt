-- ===== src/Store/Append/Atomic.antt =====
-- Outcomes are one for each submission, a group is committed whole or not at all, and no row is
-- ever lost.
use mathlib.Core.List.{append-nil, append_assoc}
use design_document.Base.{
  ℕ, zero, suc, ◌≤◌, ◌≡◌, refl, sym, ap, ◌∙◌, Bool, true, false, Option, none, some, List, [], ◌∷◌,
  ◌++◌, map, any, arith, length, length-map, All, Result, ok, err, Bool-cases, inl, inr,
}
use design_document.Json.{Value}
use design_document.Store.Errors.{StoreError}
use design_document.Store.Event.{PreparedEvent, Platform, Validator, prepare_event}
use design_document.Store.Table.{Row}
use design_document.Store.Append.{
  Txn, Outcome, Inserted, EventStore, insert_one, expected_sequence, remember, conclude,
  process_event, process_item, process_group, begin, finish, commit_group, append_group,
  is_prepared, failures, settled, rolled_back,
}
use design_document.Store.Append.WellFormed.{Answer, insert_one-Answer, row}

abbrev pub Failed : Outcome → Type 0
Failed (ok r) = ⊥
Failed (err x) = Unit

process_group-length :
    (fault : Option ℕ) (t : Txn) (items : List (Result StoreError PreparedEvent))
    → length (process_group fault t items).1.1 ≡ length items
unfolding process_group
process_group-length (some zero) t items = length-map _ items
process_group-length none t [] = refl
process_group-length (some (suc k)) t [] = refl
process_group-length none t (i ∷ items) =
    ap suc (process_group-length none (process_item i t).0 items)
process_group-length (some (suc k)) t (i ∷ items) =
    ap suc (process_group-length (some k) (process_item i t).0 items)

finish-length :
    (s : EventStore) (p : Bool × (Txn × List (Option Outcome)))
    → length (finish s p).1 ≡ length p.1.1
unfolding finish
finish-length s (true, (t, slots)) = length-map settled slots
finish-length s (false, (t, slots)) = length-map rolled_back slots

failures-length :
    (items : List (Result StoreError PreparedEvent))
    → any is_prepared items ≡ false
    → length (failures items) ≡ length items
unfolding failures
failures-length [] h = refl
failures-length (err x ∷ items) h = ap suc (failures-length items h)
failures-length (ok e ∷ items) h = cc

pub commit_group-length :
    (fault : Option ℕ) (s : EventStore) (items : List (Result StoreError PreparedEvent))
    → length (commit_group fault s items).1 ≡ length items
unfolding commit_group
commit_group-length fault s items = elim (Bool-cases (any is_prepared items)) [
  | inl e ↦
      rw (e, commit_group)
        (finish-length s (process_group fault (begin s.rows) items)
          ∙ process_group-length fault (begin s.rows) items)
  | inr e ↦ rw (e, commit_group) (failures-length items e)
]

process_group-interrupted :
    (k : ℕ) (t : Txn) (items : List (Result StoreError PreparedEvent))
    → k ≤ length items
    → (process_group (some k) t items).0 ≡ false
unfolding process_group
process_group-interrupted zero t items h = refl
process_group-interrupted (suc k) t [] h = absurd (omega arith)
process_group-interrupted (suc k) t (i ∷ items) h =
    process_group-interrupted k (process_item i t).0 items (omega arith)

rolled_back-Failed : (slots : List (Option Outcome)) → All Failed (map rolled_back slots)
rolled_back-Failed [] = tt
rolled_back-Failed (none ∷ slots) = (tt, rolled_back-Failed slots)
rolled_back-Failed (some (ok r) ∷ slots) = (tt, rolled_back-Failed slots)
rolled_back-Failed (some (err x) ∷ slots) = (tt, rolled_back-Failed slots)

finish-rolled_back :
    (s : EventStore) (p : Bool × (Txn × List (Option Outcome)))
    → p.0 ≡ false
    → ((finish s p).0 ≡ s) × All Failed (finish s p).1
unfolding finish
finish-rolled_back s (true, (t, slots)) h = cc
finish-rolled_back s (false, (t, slots)) h = (refl, rolled_back-Failed slots)

-- If storage fails before some prepared event of a group is processed, or at COMMIT, then the store
-- is as it was and every submission of the group gets an exception, none a receipt.
pub commit_group-atomic :
    (k : ℕ) (s : EventStore) (items : List (Result StoreError PreparedEvent))
    → k ≤ length items
    → any is_prepared items ≡ true
    → ((commit_group (some k) s items).0 ≡ s) × All Failed (commit_group (some k) s items).1
unfolding commit_group
commit_group-atomic k s items h e =
    rw (e, commit_group)
      (finish-rolled_back s (process_group (some k) (begin s.rows) items)
        (process_group-interrupted k (begin s.rows) items h))

-- The rows that an answer adds.
abbrev pub Extends : List Row → List Row → Type 0
Extends rows rows' = (new : List Row) × (rows' ≡ rows ++ new)

conclude-Extends :
    (e : PreparedEvent) (n position m : ℕ) (t : Txn) (r : Inserted)
    → Answer e position m t.rows r
    → Extends t.rows (conclude e n t r).0.rows
unfolding conclude
conclude-Extends e n position m t r (inl (x, a)) = ([], rw (a, conclude) (sym (append-nil t.rows)))
conclude-Extends e n position m t r (inr (inl (p, a))) =
    ([], rw (a, conclude) (sym (append-nil t.rows)))
conclude-Extends e n position m t r (inr (inr a)) = (row position e ∷ [], rw (a.0, conclude))

process_item-Extends :
    (i : Result StoreError PreparedEvent) (t : Txn) → Extends t.rows (process_item i t).0.rows
unfolding process_item process_event
process_item-Extends (err x) t = ([], sym (append-nil t.rows))
process_item-Extends (ok e) t =
    let n = expected_sequence e.aggregate_stream t in
    conclude-Extends e n t.next_position n (remember e.aggregate_stream n t)
      (insert_one e t.next_position n t.rows) (insert_one-Answer e t.next_position n t.rows)

Extends-trans : (a b c : List Row) → Extends a b → Extends b c → Extends a c
Extends-trans a b c (x, p) (y, q) = (x ++ y, rw (q, p) (append_assoc a x y))

process_group-Extends :
    (fault : Option ℕ) (t : Txn) (items : List (Result StoreError PreparedEvent))
    → Extends t.rows (process_group fault t items).1.0.rows
unfolding process_group
process_group-Extends (some zero) t items = ([], sym (append-nil t.rows))
process_group-Extends none t [] = ([], sym (append-nil t.rows))
process_group-Extends (some (suc k)) t [] = ([], sym (append-nil t.rows))
process_group-Extends none t (i ∷ items) =
    Extends-trans t.rows (process_item i t).0.rows _ (process_item-Extends i t)
      (process_group-Extends none (process_item i t).0 items)
process_group-Extends (some (suc k)) t (i ∷ items) =
    Extends-trans t.rows (process_item i t).0.rows _ (process_item-Extends i t)
      (process_group-Extends (some k) (process_item i t).0 items)

finish-Extends :
    (s : EventStore) (p : Bool × (Txn × List (Option Outcome)))
    → Extends s.rows p.1.0.rows
    → Extends s.rows (finish s p).0.rows
unfolding finish
finish-Extends s (true, (t, slots)) h = h
finish-Extends s (false, (t, slots)) h = ([], sym (append-nil s.rows))

commit_group-Extends :
    (fault : Option ℕ) (s : EventStore) (items : List (Result StoreError PreparedEvent))
    → Extends s.rows (commit_group fault s items).0.rows
unfolding commit_group begin
commit_group-Extends fault s items = elim (Bool-cases (any is_prepared items)) [
  | inl e ↦
      rw (e, commit_group) (finish-Extends s _ (process_group-Extends fault (begin s.rows) items))
  | inr e ↦ rw (e, commit_group) ([], sym (append-nil s.rows))
]

module _ (platform : Platform) (validator : Validator) where
  -- A call of `append_group` that returns gives one outcome for each submission, and the rows
  -- committed before stay, in place and unchanged, ahead of the new ones.
  pub append_group-Extends :
      (fault : Option ℕ) (s s' : EventStore) (events : List Value) (outcomes : List Outcome)
      → append_group platform validator fault s events ≡ ok (s', outcomes)
      → (length outcomes ≡ length events) × Extends s.rows s'.rows
  unfolding append_group
  append_group-Extends fault s s' events outcomes h =
      let items = map (prepare_event platform validator) events in
      (
        ground (
          arith,
          commit_group-length fault s items,
          length-map (prepare_event platform validator) events,
        ),
        ground (arith, commit_group-Extends fault s items),
      )
