-- ===== src/Store/Writer.antt =====
-- src/ai_runtime/store/writer.py: `EventWriter`, its queue, its thread and the futures it hands out.
-- One step is what happens under a lock or between two calls that wait. Clocks and durations are
-- left out: a waiting call ends when the environment says so.
pub mod Config
pub mod Steps
pub mod Orderly
pub mod Futures
pub mod Progress
pub mod Fifo
pub mod Bounds
pub mod Drains
pub mod Stranded
pub mod Serial
mod Tests
use design_document.Base.{
  ℕ, zero, suc, ◌+◌, String, Bool, true, false, not, ◌&&◌, ◌||◌, Option, none, some, List, [], ◌∷◌,
  ◌++◌, map, any, length, ltb, nat_eq, if◌then◌else◌, Result, ok, err,
}
use design_document.Json.{Value}
use design_document.Store.Errors.{StoreError, interrupted}
use design_document.Store.Event.{Platform, Validator}
use design_document.Store.Append.{AppendResult, Status, Outcome, EventStore, append_group}
use design_document.Store.Writer.Config.{GroupCommitConfig, is_time_window}

pub record AppendReceipt : Type 0 where
  pub event_id : String
  pub global_position : ℕ
  pub status : Status
  pub batch_id : String
  pub batch_size : ℕ

pub data WriterError : Type 0 where
  -- The cause is the exception that ended the thread, if one did.
  writer_closed : Option StoreError → WriterError
  queue_capacity : ℕ → WriterError
  failed_to_start : StoreError → WriterError

-- `_Request`; the ticket is the identity of its future.
pub record Request : Type 0 where
  pub ticket : ℕ
  pub event : Value

-- What the queue holds; `stop` is `_STOP`.
pub data Item : Type 0 where
  request : Request → Item
  stop : Item

pub data Settlement : Type 0 where
  result : AppendReceipt → Settlement
  exception : StoreError → Settlement
  cancelled : Settlement

-- Where the thread is: opening the store; at `self._queue.get()`; in the loop of the time window;
-- before `_commit_batch`, with `stop_after_batch`; in `_fail_pending`; between `_fail_pending` and
-- `self._closing = True`; or at its end.
pub data Worker : Type 0 where
  absent : Worker
  opening : Worker
  waiting : Worker
  collecting : List Request → Worker
  committing : List Request → Bool → Worker
  failing : StoreError → Worker
  drained : Worker
  ended : Worker

-- `stop_due`: `close` has set `_closing` and not yet put `_STOP`, so that it holds the lock.
-- `submitted` and `handled` record the accepted requests and those that left the queue and the
-- batch, in order, and `raced` that a `set_result` or `set_exception` has raised; no operation reads
-- `handled` and `raced`, and `submit` only counts `submitted`.
pub record Writer : Type 0 where
  pub started : Bool
  pub closing : Bool
  pub stop_due : Bool
  pub startup_error : Option StoreError
  pub fatal_error : Option StoreError
  pub queue : List Item
  pub worker : Worker
  pub store : EventStore
  pub submitted : List Request
  pub handled : List Request
  pub raced : Bool
  pub futures : List (ℕ × Settlement)

unfoldable pub new_writer : EventStore → Writer
new_writer s = record {
  started = false;
  closing = false;
  stop_due = false;
  startup_error = none;
  fatal_error = none;
  queue = [];
  worker = absent;
  store = s;
  submitted = [];
  handled = [];
  raced = false;
  futures = [];
}

abbrev pub is_done : ℕ → List (ℕ × Settlement) → Bool
is_done t fs = any (λ f. nat_eq f.0 t) fs

-- A future is settled once; a cancelled one stays so.
unfoldable pub settle : ℕ → Settlement → List (ℕ × Settlement) → List (ℕ × Settlement)
settle t x fs = if is_done t fs then fs else (t, x) ∷ fs

-- `start` up to the release of the lock.
unfoldable pub start : Writer → Result WriterError Unit × Writer
start w =
    if w.closing
    then (err (writer_closed none), w)
    else if w.started
    then (ok tt, w)
    else (ok tt, record w { started = true; worker = opening })

-- What `start` answers after `self._ready.wait()`; `none` while it waits.
unfoldable pub ready : Writer → Option (Result WriterError Unit)
ready w = elim w.startup_error [
  | some x ↦ some (err (failed_to_start x))
  | none ↦ elim w.worker [ absent ↦ none | opening ↦ none | _ ↦ some (ok tt) ]
]

abbrev accepted : Value → Writer → Writer
accepted event w =
    let r : Request = record { ticket = length w.submitted; event = event } in
    record w { queue = w.queue ++ request r ∷ []; submitted = w.submitted ++ r ∷ [] }

-- `submit`; the answer is the future. A full queue is one that stays full for the timeout.
unfoldable pub submit : GroupCommitConfig → Value → Writer → Result WriterError ℕ × Writer
submit config event w =
    if not w.started || w.closing
    then (err (writer_closed w.fatal_error), w)
    else if ltb (length w.queue) config.max_queue_size
    then (ok (length w.submitted), accepted event w)
    else (err (queue_capacity config.max_queue_size), w)

-- `Future.cancel` by the caller.
unfoldable pub cancel : ℕ → Writer → Writer
unfolding settle
cancel t w = record w { futures = settle t cancelled w.futures }

-- `close` up to `self._queue.put(_STOP)`.
unfoldable pub begin_close : Writer → Writer
begin_close w =
    if not w.started
    then record w { closing = true }
    else if not w.closing
    then record w { closing = true; stop_due = true }
    else w

-- `self._queue.put(_STOP)`, which waits for a place in the queue, and the release of the lock.
unfoldable pub put_stop : GroupCommitConfig → Writer → Option Writer
put_stop config w =
    if w.stop_due && ltb (length w.queue) config.max_queue_size
    then some (record w { stop_due = false; queue = w.queue ++ stop ∷ [] })
    else none

receipt : String → ℕ → Outcome → Settlement
receipt batch_id size (err x) = exception x
receipt batch_id size (ok a) = result (record {
  event_id = a.event_id;
  global_position = a.global_position;
  status = a.status;
  batch_id = batch_id;
  batch_size = size;
})

-- What the environment decides at a step of the thread: whether the time of the window is up; what
-- a call raises, if it does, and whether the transaction was committed before; what becomes of the
-- storage; the identifier of the batch; and whether an owner cancels a future between the thread's
-- test of it and its `set_result` or `set_exception`, which then raises `InvalidStateError`. A race
-- names the place in the list of requests; the second one is in the handler of an exception.
pub record Choice : Type 0 where
  pub time_up : Bool
  pub raises : Option StoreError
  pub committed : Bool
  pub fault : Option ℕ
  pub batch_id : String
  pub race : Option ℕ
  pub second_race : Option ℕ

abbrev pub strikes : Option ℕ → Bool
strikes (some zero) = true
strikes _ = false

abbrev pub later : Option ℕ → Option ℕ
later (some (suc n)) = some n
later _ = none

-- A future that is settled already is passed over, and cannot be cancelled either.
abbrev pub is_raced : Option ℕ → ℕ → List (ℕ × Settlement) → Bool
is_raced race t fs = strikes race && not (is_done t fs)

-- The loop of `_commit_batch`, and whether it raised; the two lists have one length.
unfoldable pub settle_batch :
    Option ℕ
    → String
    → ℕ
    → List Request
    → List Outcome
    → List (ℕ × Settlement)
    → List (ℕ × Settlement) × Bool
unfolding settle receipt
settle_batch race batch_id size (r ∷ batch) (o ∷ outcomes) fs =
    let rest =
      settle_batch (later race) batch_id size batch outcomes
        (settle r.ticket (receipt batch_id size o) fs) in
    if is_raced race r.ticket fs then (settle r.ticket cancelled fs, true) else rest
settle_batch race batch_id size batch outcomes fs = (fs, false)

-- The loop of the handler, and whether it raised.
unfoldable pub fail_batch :
    Option ℕ → StoreError → List Request → List (ℕ × Settlement) → List (ℕ × Settlement) × Bool
unfolding settle
fail_batch race x [] fs = (fs, false)
fail_batch race x (r ∷ batch) fs =
    let rest = fail_batch (later race) x batch (settle r.ticket (exception x) fs) in
    if is_raced race r.ticket fs then (settle r.ticket cancelled fs, true) else rest

-- The exception that leaves the handler: its own, if it raised.
abbrev pub final : Bool → StoreError → StoreError
final true x = interrupted
final false x = x

abbrev pub broken : StoreError → List Request → Writer → List (ℕ × Settlement) × Bool → Writer
broken x batch w (fs, raised) = record w {
  handled = w.handled ++ batch;
  futures = fs;
  raced = w.raced || raised;
  fatal_error = some (final raised x);
  worker = failing (final raised x);
}

-- The two handlers of an exception in `_commit_batch`, up to `_fail_pending`.
unfoldable pub break : Option ℕ → StoreError → List Request → Writer → Writer
unfolding fail_batch
break race x batch w = broken x batch w (fail_batch race x batch w.futures)

-- After the loop of `_commit_batch`.
abbrev pub after_loop :
    Option ℕ → List Request → Bool → Writer → List (ℕ × Settlement) × Bool → Writer
after_loop race batch last w (fs, true) =
    break race interrupted batch (record w { futures = fs; raced = true })
after_loop race batch last w (fs, false) = record w {
  handled = w.handled ++ batch;
  futures = fs;
  worker = if last then ended else waiting;
}

unfoldable pub conclude_batch :
    Choice → List Request → Bool → Writer → Result StoreError (EventStore × List Outcome) → Writer
unfolding break settle_batch
conclude_batch choice batch last w (err x) = break choice.second_race x batch w
conclude_batch choice batch last w (ok (s, outcomes)) =
    after_loop choice.second_race batch last (record w { store = s })
      (settle_batch choice.race choice.batch_id (length batch) batch outcomes w.futures)

-- The store that an exception after the transaction leaves.
abbrev pub kept_store :
    Bool → EventStore → Result StoreError (EventStore × List Outcome) → EventStore
kept_store true s (ok (t, outcomes)) = t
kept_store _ s r = s

abbrev pub event_of : Request → Value
event_of r = r.event

-- The loop of the time window is entered with `TIME_WINDOW` only.
abbrev first_of : GroupCommitConfig → Request → Worker
first_of config r =
    if is_time_window config.policy then collecting (r ∷ []) else committing (r ∷ []) false

unfoldable pub take : GroupCommitConfig → Writer → List Item → Option Writer
take config w [] = none
take config w (stop ∷ queue) = some (record w { queue = queue; worker = ended })
take config w (request r ∷ queue) = some (record w { queue = queue; worker = first_of config r })

-- `self._queue.get(timeout=remaining)`: an empty queue stays so until the deadline.
unfoldable pub extend : Writer → List Request → List Item → Writer
extend w batch [] = record w { worker = committing batch false }
extend w batch (stop ∷ queue) = record w { queue = queue; worker = committing batch true }
extend w batch (request r ∷ queue) = record w {
  queue = queue;
  worker = collecting (batch ++ r ∷ []);
}

-- One round of `_fail_pending`; what it raises ends the thread.
unfoldable pub fail_pending : Option ℕ → StoreError → Writer → List Item → Writer
unfolding settle
fail_pending race x w [] = record w { worker = drained }
fail_pending race x w (stop ∷ queue) = record w { queue = queue }
fail_pending race x w (request r ∷ queue) =
    if is_raced race r.ticket w.futures
    then record w {
      queue = queue;
      handled = w.handled ++ r ∷ [];
      raced = true;
      futures = settle r.ticket cancelled w.futures;
      worker = ended;
    }
    else record w {
      queue = queue;
      handled = w.handled ++ r ∷ [];
      futures = settle r.ticket (exception x) w.futures;
    }

unfoldable pub open_store : Writer → Option StoreError → Writer
open_store w none = record w { worker = waiting }
open_store w (some x) = record w { startup_error = some x; worker = ended }

module _ (platform : Platform) (validator : Validator) where
  unfoldable pub commit_batch : Choice → Writer → List Request → Bool → Option StoreError → Writer
  unfolding conclude_batch append_group break
  commit_batch choice w batch last (some x) = break choice.second_race x batch (record w {
    store =
        kept_store choice.committed w.store
          (append_group platform validator choice.fault w.store (map event_of batch));
  })
  commit_batch choice w batch last none =
      conclude_batch choice batch last w
        (append_group platform validator choice.fault w.store (map event_of batch))

  -- One step of `_run`, or `none` where the thread waits.
  advance : GroupCommitConfig → Choice → Writer → Worker → Option Writer
  unfolding take extend fail_pending open_store commit_batch
  advance config choice w absent = none
  advance config choice w opening = some (open_store w choice.raises)
  advance config choice w waiting = take config w w.queue
  advance config choice w (collecting batch) =
      if not choice.time_up && ltb (length batch) config.max_batch_size
      then some (extend w batch w.queue)
      else some (record w { worker = committing batch false })
  advance config choice w (committing batch last) =
      some (commit_batch choice w batch last choice.raises)
  advance config choice w (failing x) = some (fail_pending choice.race x w w.queue)
  advance config choice w drained =
      if w.stop_due then none else some (record w { closing = true; worker = ended })
  advance config choice w ended = none

  unfoldable pub work : GroupCommitConfig → Choice → Writer → Option Writer
  unfolding advance
  work config choice w = advance config choice w w.worker
