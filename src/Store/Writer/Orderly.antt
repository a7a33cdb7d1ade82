-- ===== src/Store/Writer/Orderly.antt =====
-- The flags of a writer agree with where its thread is and with what its queue holds: `_STOP` is
-- last in the queue, is there once `close` is past it, and nothing is behind it.
use mathlib.Core.Option.{some-injective}
use design_document.Base.{
  ◌≡◌, refl, Bool, true, false, not, ◌&&◌, Option, none, some, List, [], ◌∷◌, ◌++◌, arith, Result,
  length, subst, ℕ, ok, err,
}
use design_document.Json.{Value}
use design_document.Store.Errors.{StoreError}
use design_document.Store.Event.{Platform, Validator}
use design_document.Store.Append.{EventStore, Outcome}
use design_document.Store.Writer.{
  Request, Item, request, stop, Worker, absent, opening, waiting, collecting, committing, failing,
  drained, ended, Writer, Choice, new_writer, start, submit, cancel, begin_close, put_stop, work,
  broken, after_loop, Settlement, take, extend, fail_pending, break, conclude_batch, advance,
  commit_batch, open_store,
}
use design_document.Store.Writer.Config.{GroupCommitConfig}
use design_document.Store.Writer.Steps.{
  Step, Reached, keeps, starts, submits, cancels, closes, puts_stop, works,
}

unfoldable pub stops : List Item → Bool
stops [] = false
stops (stop ∷ items) = true
stops (request r ∷ items) = stops items

-- Nothing is behind a `_STOP`.
unfoldable pub is_tidy : List Item → Bool
is_tidy [] = true
is_tidy (stop ∷ []) = true
is_tidy (stop ∷ i ∷ items) = false
is_tidy (request r ∷ items) = is_tidy items

abbrev pub is_absent : Worker → Bool
is_absent absent = true
is_absent _ = false

-- The thread will still ask the queue.
abbrev pub is_serving : Worker → Bool
is_serving opening = true
is_serving waiting = true
is_serving (collecting batch) = true
is_serving (committing batch last) = not last
is_serving _ = false

-- The thread has taken `_STOP`, or has ended.
abbrev pub is_leaving : Worker → Bool
is_leaving (committing batch last) = last
is_leaving ended = true
is_leaving _ = false

abbrev pub is_failing : Worker → Bool
is_failing (failing x) = true
is_failing drained = true
is_failing _ = false

abbrev pub is_none {ℓ} : {A : Type ℓ} → Option A → Bool
is_none none = true
is_none (some a) = false

abbrev pub is_healthy : Writer → Bool
is_healthy w = is_none w.startup_error && is_none w.fatal_error

pub record IsOrderly (w : Writer) : Type 0 where
  pub fresh : w.started ≡ false → (w.worker ≡ absent) × (w.queue ≡ [])
  pub under_way : w.started ≡ true → is_absent w.worker ≡ false
  pub tidy : is_tidy w.queue ≡ true
  pub receptive : w.closing ≡ false → stops w.queue ≡ false
  pub due : w.stop_due ≡ true → (w.closing ≡ true) × (w.started ≡ true) × (stops w.queue ≡ false)
  pub noticed :
      w.closing ≡ true → w.stop_due ≡ false → is_serving w.worker ≡ true → stops w.queue ≡ true
  pub left :
      is_leaving w.worker ≡ true
      → is_healthy w ≡ true
      → (w.queue ≡ []) × (w.closing ≡ true) × (w.stop_due ≡ false)
  pub fatal : is_failing w.worker ≡ true → is_none w.fatal_error ≡ false
  pub lost : w.raced ≡ true → is_none w.fatal_error ≡ false

stops-stop : (items : List Item) → stops (items ++ stop ∷ []) ≡ true
unfolding stops
stops-stop [] = refl
stops-stop (stop ∷ items) = refl
stops-stop (request r ∷ items) = stops-stop items

stops-request : (items : List Item) (r : Request) → stops (items ++ request r ∷ []) ≡ stops items
unfolding stops
stops-request [] r = refl
stops-request (stop ∷ items) r = refl
stops-request (request q ∷ items) r = stops-request items r

is_tidy-append :
    (items : List Item) (i : Item) → stops items ≡ false → is_tidy (items ++ i ∷ []) ≡ true
unfolding stops is_tidy
is_tidy-append [] stop h = refl
is_tidy-append [] (request r) h = refl
is_tidy-append (stop ∷ items) i h = cc
is_tidy-append (request q ∷ items) i h = is_tidy-append items i h

pub new_writer-IsOrderly : (s : EventStore) → IsOrderly (new_writer s)
unfolding new_writer is_tidy stops
new_writer-IsOrderly s = ground arith

start-IsOrderly : (w : Writer) → w.stop_due ≡ false → IsOrderly w → IsOrderly (start w).1
unfolding start stops is_tidy
start-IsOrderly w free h = ground arith

pub submit-IsOrderly :
    (config : GroupCommitConfig) (event : Value) (w : Writer)
    → w.stop_due ≡ false
    → IsOrderly w
    → IsOrderly (submit config event w).1
unfolding submit
submit-IsOrderly config event w free h =
    let r : Request = record { ticket = length w.submitted; event = event } in
    ground (arith, stops-request w.queue r, is_tidy-append w.queue (request r))

begin_close-IsOrderly : (w : Writer) → w.stop_due ≡ false → IsOrderly w → IsOrderly (begin_close w)
unfolding begin_close
begin_close-IsOrderly w free h = ground arith

put_stop-IsOrderly :
    (config : GroupCommitConfig) (w u : Writer)
    → put_stop config w ≡ some u
    → IsOrderly w
    → IsOrderly u
unfolding put_stop
put_stop-IsOrderly config w u e h = ground (arith, stops-stop w.queue, is_tidy-append w.queue stop)

take-IsOrderly :
    (config : GroupCommitConfig) (w u : Writer) (queue : List Item)
    → take config w queue ≡ some u
    → w.queue ≡ queue
    → w.worker ≡ waiting
    → IsOrderly w
    → IsOrderly u
unfolding take stops is_tidy
take-IsOrderly config w u [] e q k h = cc
take-IsOrderly config w u (stop ∷ []) e q k h = ground arith
take-IsOrderly config w u (stop ∷ i ∷ queue) e q k h = ground arith
take-IsOrderly config w u (request r ∷ queue) e q k h = ground arith

extend-IsOrderly :
    (w : Writer) (batch : List Request) (queue : List Item)
    → w.queue ≡ queue
    → w.worker ≡ collecting batch
    → IsOrderly w
    → IsOrderly (extend w batch queue)
unfolding extend stops is_tidy
extend-IsOrderly w batch [] q k h = ground arith
extend-IsOrderly w batch (stop ∷ []) q k h = ground arith
extend-IsOrderly w batch (stop ∷ i ∷ queue) q k h = ground arith
extend-IsOrderly w batch (request r ∷ queue) q k h = ground arith

fail_pending-IsOrderly :
    (race : Option ℕ) (x : StoreError) (w : Writer) (queue : List Item)
    → w.queue ≡ queue
    → w.worker ≡ failing x
    → IsOrderly w
    → IsOrderly (fail_pending race x w queue)
unfolding fail_pending stops is_tidy
fail_pending-IsOrderly race x w [] q k h = ground arith
fail_pending-IsOrderly race x w (stop ∷ []) q k h = ground arith
fail_pending-IsOrderly race x w (stop ∷ i ∷ queue) q k h = ground arith
fail_pending-IsOrderly race x w (request r ∷ queue) q k h = ground arith

broken-IsOrderly :
    (x : StoreError) (batch : List Request) (last : Bool) (w : Writer)
    (p : List (ℕ × Settlement) × Bool)
    → w.worker ≡ committing batch last
    → IsOrderly w
    → IsOrderly (broken x batch w p)
broken-IsOrderly x batch last w (fs, raised) k h = ground arith

after_loop-IsOrderly :
    (race : Option ℕ) (batch : List Request) (last : Bool) (w : Writer)
    (p : List (ℕ × Settlement) × Bool)
    → w.worker ≡ committing batch last
    → IsOrderly w
    → IsOrderly (after_loop race batch last w p)
unfolding break
after_loop-IsOrderly race batch last w (fs, true) k h = ground arith
after_loop-IsOrderly race batch last w (fs, false) k h = ground arith

conclude_batch-IsOrderly :
    (choice : Choice) (batch : List Request) (last : Bool) (w : Writer)
    (r : Result StoreError (EventStore × List Outcome))
    → w.worker ≡ committing batch last
    → IsOrderly w
    → IsOrderly (conclude_batch choice batch last w r)
unfolding conclude_batch break
conclude_batch-IsOrderly choice batch last w (err x) k h = broken-IsOrderly x batch last w _ k h
conclude_batch-IsOrderly choice batch last w (ok (s, outcomes)) k h =
    after_loop-IsOrderly choice.second_race batch last (record w { store = s }) _ k (ground arith)

module _ (platform : Platform) (validator : Validator) (config : GroupCommitConfig) where
  commit_batch-IsOrderly :
      (choice : Choice) (batch : List Request) (last : Bool) (w : Writer)
      (raised : Option StoreError)
      → w.worker ≡ committing batch last
      → IsOrderly w
      → IsOrderly (commit_batch platform validator choice w batch last raised)
  unfolding commit_batch break
  commit_batch-IsOrderly choice batch last w none k h =
      conclude_batch-IsOrderly choice batch last w _ k h
  commit_batch-IsOrderly choice batch last w (some x) k h =
      broken-IsOrderly x batch last (record w { store = _ }) _ k (ground arith)

  advance-IsOrderly :
      (choice : Choice) (w u : Writer) (k : Worker)
      → advance platform validator config choice w k ≡ some u
      → w.worker ≡ k
      → IsOrderly w
      → IsOrderly u
  unfolding advance open_store
  advance-IsOrderly choice w u absent e k h = cc
  advance-IsOrderly choice w u opening e k h = ground arith
  advance-IsOrderly choice w u waiting e k h = take-IsOrderly config w u w.queue e refl k h
  advance-IsOrderly choice w u (collecting batch) e k h =
      ground (arith, extend-IsOrderly w batch w.queue)
  advance-IsOrderly choice w u (committing batch last) e k h =
      subst IsOrderly (some-injective _ u e)
        (commit_batch-IsOrderly choice batch last w choice.raises k h)
  advance-IsOrderly choice w u (failing x) e k h =
      ground (arith, fail_pending-IsOrderly choice.race x w w.queue)
  advance-IsOrderly choice w u drained e k h = ground arith
  advance-IsOrderly choice w u ended e k h = cc

  pub Step-IsOrderly :
      (w u : Writer) → Step platform validator config w u → IsOrderly w → IsOrderly u
  unfolding cancel work
  Step-IsOrderly w _ (starts free) h = start-IsOrderly w free h
  Step-IsOrderly w _ (submits event free) h = submit-IsOrderly config event w free h
  Step-IsOrderly w _ (cancels t) h = ground arith
  Step-IsOrderly w _ (closes free) h = begin_close-IsOrderly w free h
  Step-IsOrderly w u (puts_stop e) h = put_stop-IsOrderly config w u e h
  Step-IsOrderly w u (works choice e) h = advance-IsOrderly choice w u w.worker e refl h

  pub Reached-IsOrderly :
      (s : EventStore) (w : Writer) → Reached platform validator config s w → IsOrderly w
  Reached-IsOrderly s w r =
      keeps platform validator config IsOrderly Step-IsOrderly (new_writer s) w r
        (new_writer-IsOrderly s)
