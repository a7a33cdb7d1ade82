-- ===== src/Store/Writer/Fifo.antt =====
-- No accepted request is lost, and requests are handled in the order of their submission.
use mathlib.Core.Option.{some-injective}
use design_document.Store.Writer.Progress.{Step-Progresses}
use design_document.Store.Writer.Futures.{AllDone, AllDone-append, AllDone-Keeps}
use design_document.Store.Writer.Orderly.{
  IsOrderly, Step-IsOrderly, new_writer-IsOrderly, is_healthy, is_none,
}
use mathlib.Core.List.{append-nil, append_assoc}
use design_document.Base.{
  ℕ, ◌≡◌, refl, ap, ◌∙◌, Bool, true, false, Option, none, some, List, [], ◌∷◌, ◌++◌, arith, length,
  Result, map, ok, err, subst, ◌⊎◌, Bool-cases, inl, inr,
}
use design_document.Json.{Value}
use design_document.Store.Errors.{interrupted}
use design_document.Store.Event.{Platform, Validator}
use design_document.Store.Append.{EventStore, Outcome}
use design_document.Store.Writer.{
  Choice, Item, Request, Settlement, broken, after_loop, fail_batch, settle_batch, kept_store,
  event_of, append_group, StoreError, Worker, Writer, absent, advance, begin_close, break, cancel,
  collecting, committing, conclude_batch, drained, ended, extend, fail_pending, failing, new_writer,
  opening, put_stop, request, start, stop, submit, take, waiting, work, commit_batch, open_store,
}
use design_document.Store.Writer.Config.{GroupCommitConfig}
use design_document.Store.Writer.Steps.{
  Step, starts, submits, cancels, closes, puts_stop, works, keeps, Reached,
}

unfoldable pub batch_of : Worker → List Request
batch_of (collecting batch) = batch
batch_of (committing batch last) = batch
batch_of _ = []

unfoldable pub requests : List Item → List Request
requests [] = []
requests (stop ∷ items) = requests items
requests (request r ∷ items) = r ∷ requests items

pub requests-request :
    (items : List Item) (r : Request)
    → requests (items ++ request r ∷ []) ≡ requests items ++ r ∷ []
unfolding requests
requests-request [] r = refl
requests-request (stop ∷ items) r = requests-request items r
requests-request (request q ∷ items) r = ap (◌∷◌ q) (requests-request items r)

pub requests-stop : (items : List Item) → requests (items ++ stop ∷ []) ≡ requests items
unfolding requests
requests-stop [] = refl
requests-stop (stop ∷ items) = requests-stop items
requests-stop (request q ∷ items) = ap (◌∷◌ q) (requests-stop items)

-- The requests in the thread's batch, then those in the queue.
unfoldable pub in_flight : Writer → List Request
in_flight w = batch_of w.worker ++ requests w.queue

abbrev pub Conserves : Writer → Type 0
Conserves w = w.submitted ≡ w.handled ++ in_flight w

submit-Conserves :
    (config : GroupCommitConfig) (event : Value) (w : Writer)
    → Conserves w
    → Conserves (submit config event w).1
unfolding in_flight submit
submit-Conserves config event w h =
    let r : Request = record { ticket = length w.submitted; event = event } in
    ground (
      arith,
      requests-request w.queue r,
      append_assoc (batch_of w.worker) (requests w.queue) (r ∷ []),
      append_assoc w.handled (in_flight w) (r ∷ []),
    )

put_stop-Conserves :
    (config : GroupCommitConfig) (w u : Writer)
    → put_stop config w ≡ some u
    → Conserves w
    → Conserves u
unfolding in_flight put_stop
put_stop-Conserves config w u e h = ground (arith, requests-stop w.queue)

take-Conserves :
    (config : GroupCommitConfig) (w u : Writer) (queue : List Item)
    → take config w queue ≡ some u
    → w.submitted ≡ w.handled ++ requests queue
    → Conserves u
unfolding take in_flight batch_of requests
take-Conserves config w u queue e h = ground arith

extend-Conserves :
    (w : Writer) (batch : List Request) (queue : List Item)
    → w.submitted ≡ w.handled ++ (batch ++ requests queue)
    → w.queue ≡ queue
    → Conserves (extend w batch queue)
unfolding extend in_flight batch_of requests
extend-Conserves w batch [] h q = ground arith
extend-Conserves w batch (stop ∷ queue) h q = h
extend-Conserves w batch (request r ∷ queue) h q = rw append_assoc h

fail_pending-Conserves :
    (race : Option ℕ) (x : StoreError) (w : Writer) (queue : List Item)
    → w.submitted ≡ w.handled ++ requests queue
    → w.queue ≡ queue
    → w.worker ≡ failing x
    → Conserves (fail_pending race x w queue)
unfolding fail_pending in_flight batch_of requests
fail_pending-Conserves race x w [] h q k = ground arith
fail_pending-Conserves race x w (stop ∷ queue) h q k = ground arith
fail_pending-Conserves race x w (request r ∷ queue) h q k =
    ground (arith, append_assoc w.handled (r ∷ []) (requests queue))

-- The batch becomes handled, whatever the loops over it do.
broken-Conserves :
    (x : StoreError) (batch : List Request) (w : Writer) (p : List (ℕ × Settlement) × Bool)
    → w.submitted ≡ w.handled ++ (batch ++ requests w.queue)
    → Conserves (broken x batch w p)
unfolding in_flight batch_of
broken-Conserves x batch w (fs, raised) h = rw append_assoc h

after_loop-Conserves :
    (race : Option ℕ) (batch : List Request) (last : Bool) (w : Writer)
    (p : List (ℕ × Settlement) × Bool)
    → w.submitted ≡ w.handled ++ (batch ++ requests w.queue)
    → Conserves (after_loop race batch last w p)
unfolding break in_flight batch_of
after_loop-Conserves race batch last w (fs, true) h =
    broken-Conserves interrupted batch (record w { futures = fs; raced = true })
      (fail_batch race interrupted batch fs) h
after_loop-Conserves race batch true w (fs, false) h = rw append_assoc h
after_loop-Conserves race batch false w (fs, false) h = rw append_assoc h

conclude_batch-Conserves :
    (choice : Choice) (batch : List Request) (last : Bool) (w : Writer)
    (r : Result StoreError (EventStore × List Outcome))
    → w.submitted ≡ w.handled ++ (batch ++ requests w.queue)
    → Conserves (conclude_batch choice batch last w r)
unfolding conclude_batch break
conclude_batch-Conserves choice batch last w (err x) h =
    broken-Conserves x batch w (fail_batch choice.second_race x batch w.futures) h
conclude_batch-Conserves choice batch last w (ok (s, outcomes)) h =
    after_loop-Conserves choice.second_race batch last (record w { store = s })
      (settle_batch choice.race choice.batch_id (length batch) batch outcomes w.futures) h

module _ (platform : Platform) (validator : Validator) (config : GroupCommitConfig) where
  commit_batch-Conserves :
      (choice : Choice) (batch : List Request) (last : Bool) (w : Writer)
      (raised : Option StoreError)
      → w.submitted ≡ w.handled ++ (batch ++ requests w.queue)
      → Conserves (commit_batch platform validator choice w batch last raised)
  unfolding commit_batch break
  commit_batch-Conserves choice batch last w none h =
      conclude_batch-Conserves choice batch last w _ h
  commit_batch-Conserves choice batch last w (some x) h =
      broken-Conserves x batch
        (record w {
          store =
              kept_store choice.committed w.store
                (append_group platform validator choice.fault w.store (map event_of batch));
        })
        (fail_batch choice.second_race x batch w.futures) h

  advance-Conserves :
      (choice : Choice) (w u : Writer) (k : Worker)
      → advance platform validator config choice w k ≡ some u
      → w.worker ≡ k
      → Conserves w
      → Conserves u
  unfolding advance open_store in_flight batch_of
  advance-Conserves choice w u absent e k h = cc
  advance-Conserves choice w u opening e k h = ground arith
  advance-Conserves choice w u waiting e k h = take-Conserves config w u w.queue e (ground arith)
  advance-Conserves choice w u (collecting batch) e k h =
      ground (arith, extend-Conserves w batch w.queue)
  advance-Conserves choice w u (committing batch last) e k h =
      subst Conserves (some-injective _ u e)
        (commit_batch-Conserves choice batch last w choice.raises (ground arith))
  advance-Conserves choice w u (failing x) e k h =
      ground (arith, fail_pending-Conserves choice.race x w w.queue)
  advance-Conserves choice w u drained e k h = ground arith
  advance-Conserves choice w u ended e k h = cc

  Step-Conserves :
      (w u : Writer) → Step platform validator config w u → IsOrderly w → Conserves w → Conserves u
  unfolding start begin_close cancel in_flight batch_of work
  Step-Conserves w _ (starts free) o h = ground (arith, o.fresh)
  Step-Conserves w _ (submits event free) o h = submit-Conserves config event w h
  Step-Conserves w _ (cancels t) o h = h
  Step-Conserves w _ (closes free) o h = ground arith
  Step-Conserves w u (puts_stop e) o h = put_stop-Conserves config w u e h
  Step-Conserves w u (works choice e) o h = advance-Conserves choice w u w.worker e refl h

  Step-AllDone :
      (w u : Writer)
      → Step platform validator config w u
      → (w.raced ≡ false → AllDone w.futures w.handled)
      → u.raced ≡ false
      → AllDone u.futures u.handled
  Step-AllDone w u step h f =
      let p = Step-Progresses platform validator config w u step in
      rw (p.handled) (
        AllDone-append u.futures w.handled p.new
          (AllDone-Keeps w.futures u.futures w.handled p.kept (h (p.lasting f))) (p.done f))

  pub record IsFair (w : Writer) : Type 0 where
    pub orderly : IsOrderly w
    pub conserved : Conserves w
    pub settled : w.raced ≡ false → AllDone w.futures w.handled

  Step-IsFair : (w u : Writer) → Step platform validator config w u → IsFair w → IsFair u
  Step-IsFair w u step h = record {
    orderly = Step-IsOrderly platform validator config w u step h.orderly;
    conserved = Step-Conserves w u step h.orderly h.conserved;
    settled = Step-AllDone w u step h.settled;
  }

  new_writer-IsFair : (s : EventStore) → IsFair (new_writer s)
  unfolding new_writer in_flight batch_of requests
  new_writer-IsFair s = record {
    orderly = new_writer-IsOrderly s;
    conserved = refl;
    settled = λ f. tt;
  }

  pub Reached-IsFair :
      (s : EventStore) (w : Writer) → Reached platform validator config s w → IsFair w
  Reached-IsFair s w r =
      keeps platform validator config IsFair Step-IsFair (new_writer s) w r (new_writer-IsFair s)

  -- Every accepted request is in one place, in the order of submission: handled, in the batch of the
  -- thread, or in the queue. Every handled request has a settled future, also after an exception,
  -- unless a `set_result` or `set_exception` has raised, as a cancel right before it makes it do; then
  -- the writer has a fatal error.
  pub Reached-Conserves :
      (s : EventStore) (w : Writer)
      → Reached platform validator config s w
      → Conserves w
        × (((w.raced ≡ true) × (is_none w.fatal_error ≡ false)) ⊎ AllDone w.futures w.handled)
  Reached-Conserves s w r =
      let h = Reached-IsFair s w r in
      (
        h.conserved,
        elim (Bool-cases w.raced) [ inl e ↦ inl (e, h.orderly.lost e) | inr e ↦ inr (h.settled e) ],
      )

  -- When the thread has ended and no exception ended it, `close` was called, the queue is empty,
  -- and every accepted request is handled, with a settled future.
  pub ended-AllDone :
      (s : EventStore) (w : Writer)
      → Reached platform validator config s w
      → w.worker ≡ ended
      → is_healthy w ≡ true
      → (w.closing ≡ true)
        × (w.queue ≡ [])
        × (w.submitted ≡ w.handled)
        × AllDone w.futures w.submitted
  unfolding in_flight batch_of requests
  ended-AllDone s w r e healthy =
      let h = Reached-IsFair s w r in
      let l = h.orderly.left (rw e refl) healthy in
      let all : w.submitted ≡ w.handled = h.conserved ∙ ground (arith, append-nil w.handled) in
      (l.1, l.0, all, rw all (h.settled (ground (arith, h.orderly.lost))))
