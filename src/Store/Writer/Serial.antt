-- ===== src/Store/Writer/Serial.antt =====
-- Group commit by the thread against one append at a time.
use mathlib.Core.Option.{some-injective}
use design_document.Base.{
  ◌≡◌, refl, sym, ap, ◌∙◌, Bool, true, false, ◌&&◌, none, some, List, [], ◌∷◌, ◌++◌, arith, map, ok,
  Result, String, subst, Option, ℕ, length,
}
use design_document.Store.Errors.{StoreError}
use design_document.Store.Event.{Platform, Validator, PreparedEvent, prepare_event}
use design_document.Store.Append.{EventStore, Outcome, commit_group, append_group}
use design_document.Store.Append.WellFormed.{IsWellFormed, commit_group-IsWellFormed}
use design_document.Store.Append.Sequential.{
  append_each, commit_group-append_each, append_each-append, commit_group-closed,
}
use design_document.Store.Writer.{
  Request, Worker, absent, opening, waiting, collecting, committing, failing, drained, ended,
  Writer, Choice, work, advance, start, submit, cancel, begin_close, put_stop, take, extend,
  conclude_batch, commit_batch, open_store, event_of, new_writer, settle_batch, Settlement,
  after_loop,
}
use design_document.Store.Writer.Config.{GroupCommitConfig}
use design_document.Store.Writer.Steps.{
  Step, Reached, starts, submits, cancels, closes, puts_stop, works, here, next,
}
use design_document.Store.Writer.Orderly.{IsOrderly, is_none, Reached-IsOrderly}
use design_document.Store.Writer.Fifo.{in_flight, Reached-IsFair}

-- No call raises, the storage does not fail, and no owner cancels a future in the middle of its
-- settling.
abbrev pub is_smooth : Choice → Bool
is_smooth choice = is_none choice.raises && is_none choice.fault && is_none choice.race

-- Without a race the loop over the batch does not raise.
settle_batch-unraced :
    (batch_id : String) (n : ℕ) (batch : List Request) (outcomes : List Outcome)
    (fs : List (ℕ × Settlement))
    → (settle_batch none batch_id n batch outcomes fs).1 ≡ false
unfolding settle_batch
settle_batch-unraced batch_id n [] outcomes fs = refl
settle_batch-unraced batch_id n (r ∷ batch) [] fs = refl
settle_batch-unraced batch_id n (r ∷ batch) (o ∷ outcomes) fs =
    settle_batch-unraced batch_id n batch outcomes _

module _ (platform : Platform) (validator : Validator) where
  -- What validation makes of the events of the requests.
  unfoldable pub prepare_all : List Request → List (Result StoreError PreparedEvent)
  prepare_all [] = []
  prepare_all (r ∷ requests) = prepare_event platform validator r.event ∷ prepare_all requests

  prepare_all-append :
      (rs qs : List Request) → prepare_all (rs ++ qs) ≡ prepare_all rs ++ prepare_all qs
  unfolding prepare_all
  prepare_all-append [] qs = refl
  prepare_all-append (r ∷ rs) qs =
      ap (◌∷◌ (prepare_event platform validator r.event)) (prepare_all-append rs qs)

  prepare_all-map :
      (rs : List Request)
      → map (prepare_event platform validator) (map event_of rs) ≡ prepare_all rs
  unfolding prepare_all
  prepare_all-map [] = refl
  prepare_all-map (r ∷ rs) =
      ap (◌∷◌ (prepare_event platform validator r.event)) (prepare_all-map rs)

  module _ (s : EventStore) where
    pub record IsSerial (w : Writer) : Type 0 where
      pub table : IsWellFormed w.store.rows
      pub usable : w.store.closed ≡ false
      pub running : is_none w.fatal_error ≡ true
      pub store : w.store ≡ (append_each s (prepare_all w.handled)).0

    -- Steps that leave the store alone.
    Untouched : Writer → Writer → Type 0
    Untouched w u =
        (u.store ≡ w.store)
        × (u.handled ≡ w.handled)
        × (is_none u.fatal_error ≡ is_none w.fatal_error)

    Untouched-IsSerial : (w u : Writer) → Untouched w u → IsSerial w → IsSerial u
    unfolding Untouched
    Untouched-IsSerial w u h i = record {
      table = rw (h.0) i.table;
      usable = rw (h.0) i.usable;
      running = h.2 ∙ i.running;
      store = rw (h.0, h.1) i.store;
    }

    -- The store after the batch, before its requests count as handled.
    record IsCommitted (batch : List Request) (w : Writer) : Type 0 where
      table : IsWellFormed w.store.rows
      usable : w.store.closed ≡ false
      running : is_none w.fatal_error ≡ true
      store : w.store ≡ (append_each s (prepare_all (w.handled ++ batch))).0

    commit_group-IsCommitted :
        (batch : List Request) (w : Writer)
        → IsSerial w
        → IsCommitted batch (record w { store = (commit_group none w.store (prepare_all batch)).0 })
    commit_group-IsCommitted batch w i = record {
      table = commit_group-IsWellFormed none w.store (prepare_all batch) i.table;
      usable = commit_group-closed none w.store (prepare_all batch) ∙ i.usable;
      running = i.running;
      store =
          ap (λ (p : EventStore × List Outcome). p.0)
            (commit_group-append_each w.store (prepare_all batch) i.table)
          ∙ ap (λ (t : EventStore). (append_each t (prepare_all batch)).0) i.store
          ∙ sym (append_each-append s (prepare_all w.handled) (prepare_all batch))
          ∙ ap (λ (is : List (Result StoreError PreparedEvent)). (append_each s is).0)
              (sym (prepare_all-append w.handled batch));
    }

    after_loop-IsSerial :
        (race : Option ℕ) (batch : List Request) (last : Bool) (w : Writer)
        (p : List (ℕ × Settlement) × Bool)
        → p.1 ≡ false
        → IsCommitted batch w
        → IsSerial (after_loop race batch last w p)
    after_loop-IsSerial race batch last w (fs, true) e i = absurd (ground arith)
    after_loop-IsSerial race batch last w (fs, false) e i = record {
      table = i.table;
      usable = i.usable;
      running = i.running;
      store = i.store;
    }

    conclude_batch-IsSerial :
        (choice : Choice) (batch : List Request) (last : Bool) (w : Writer)
        → choice.race ≡ none
        → IsSerial w
        → IsSerial (
            conclude_batch choice batch last w (ok (commit_group none w.store (prepare_all batch))))
    unfolding conclude_batch
    conclude_batch-IsSerial choice batch last w e i =
        let (t, outcomes) = commit_group none w.store (prepare_all batch) in
        after_loop-IsSerial choice.second_race batch last (record w { store = t })
          (settle_batch choice.race choice.batch_id (length batch) batch outcomes w.futures)
          (rw e (settle_batch-unraced choice.batch_id (length batch) batch outcomes w.futures))
          (commit_group-IsCommitted batch w i)

    usable_store :
        (t : EventStore) (batch : List Request)
        → t.closed ≡ false
        → append_group platform validator none t (map event_of batch)
          ≡ ok (commit_group none t (prepare_all batch))
    unfolding append_group
    usable_store t batch e = rw (e, prepare_all-map batch) refl

    commit_batch-IsSerial :
        (choice : Choice) (batch : List Request) (last : Bool) (w : Writer)
        → is_smooth choice ≡ true
        → IsSerial w
        → IsSerial (commit_batch platform validator choice w batch last choice.raises)
    unfolding commit_batch
    commit_batch-IsSerial choice batch last w m i =
        let quiet : choice.raises ≡ none = ground arith in
        let steady : choice.fault ≡ none = ground arith in
        rw (quiet, commit_batch, steady, usable_store w.store batch i.usable)
          (conclude_batch-IsSerial choice batch last w (ground arith) i)

  module _ (config : GroupCommitConfig) (s : EventStore) where
    advance-IsSerial :
        (choice : Choice) (w u : Writer) (k : Worker)
        → is_smooth choice ≡ true
        → advance platform validator config choice w k ≡ some u
        → w.worker ≡ k
        → IsOrderly w
        → IsSerial s w
        → IsSerial s u
    unfolding advance open_store take extend Untouched
    advance-IsSerial choice w u absent m e k o i = cc
    advance-IsSerial choice w u opening m e k o i = Untouched-IsSerial s w u (ground arith) i
    advance-IsSerial choice w u waiting m e k o i = Untouched-IsSerial s w u (ground arith) i
    advance-IsSerial choice w u (collecting batch) m e k o i =
        Untouched-IsSerial s w u (ground arith) i
    advance-IsSerial choice w u (committing batch last) m e k o i =
        subst (IsSerial s) (some-injective _ u e) (commit_batch-IsSerial s choice batch last w m i)
    advance-IsSerial choice w u (failing x) m e k o i = absurd (ground (arith, o.fatal, i.running))
    advance-IsSerial choice w u drained m e k o i = absurd (ground (arith, o.fatal, i.running))
    advance-IsSerial choice w u ended m e k o i = cc

    -- The choices of a step of the thread, if it is one, are smooth.
    unfoldable pub is_smooth_step : {w u : Writer} → Step platform validator config w u → Bool
    is_smooth_step (works choice e) = is_smooth choice
    is_smooth_step _ = true

    Step-IsSerial :
        (w u : Writer) (step : Step platform validator config w u)
        → is_smooth_step step ≡ true
        → IsOrderly w
        → IsSerial s w
        → IsSerial s u
    unfolding is_smooth_step start submit cancel begin_close put_stop work Untouched
    Step-IsSerial w _ (starts free) m o i = Untouched-IsSerial s w _ (ground arith) i
    Step-IsSerial w _ (submits event free) m o i = Untouched-IsSerial s w _ (ground arith) i
    Step-IsSerial w _ (cancels t) m o i = Untouched-IsSerial s w _ (ground arith) i
    Step-IsSerial w _ (closes free) m o i = Untouched-IsSerial s w _ (ground arith) i
    Step-IsSerial w u (puts_stop e) m o i = Untouched-IsSerial s w u (ground arith) i
    Step-IsSerial w u (works choice e) m o i = advance-IsSerial choice w u w.worker m e refl o i

    -- A run in which storage works and nothing raises.
    pub data Smoothly : Writer → Type 0 where
      new : Smoothly (new_writer s)
      then :
          {w u : Writer}
          → Smoothly w
          → (step : Step platform validator config w u) → is_smooth_step step ≡ true
          → Smoothly u

    pub Smoothly-Reached : (w : Writer) → Smoothly w → Reached platform validator config s w
    Smoothly-Reached w new = here
    Smoothly-Reached w (then run step m) = next (Smoothly-Reached _ run) step

    new_writer-IsSerial : IsWellFormed s.rows → s.closed ≡ false → IsSerial s (new_writer s)
    unfolding new_writer prepare_all append_each
    new_writer-IsSerial t c = record { table = t; usable = c; running = refl; store = refl }

    Smoothly-IsSerial :
        (w : Writer) → IsWellFormed s.rows → s.closed ≡ false → Smoothly w → IsSerial s w
    Smoothly-IsSerial w t c new = new_writer-IsSerial t c
    Smoothly-IsSerial w t c (then run step m) =
        Step-IsSerial _ w step m
          (Reached-IsOrderly platform validator config s _ (Smoothly-Reached _ run))
          (Smoothly-IsSerial _ t c run)

    -- From a well-formed open store, as long as storage works and nothing raises in the thread, the
    -- store is what the handled requests give when their events are appended one at a time, in the
    -- order of their submission, whatever the batches were and however calls and thread interleave.
    pub Smoothly-append_each :
        (w : Writer)
        → IsWellFormed s.rows
        → s.closed ≡ false
        → Smoothly w
        → (w.store ≡ (append_each s (prepare_all w.handled)).0)
          × (w.submitted ≡ w.handled ++ in_flight w)
    Smoothly-append_each w t c run = (
      (Smoothly-IsSerial w t c run).store,
      (Reached-IsFair platform validator config s w (Smoothly-Reached w run)).conserved,
    )
