-- ===== src/Store/Writer/Tests.antt =====
-- The writer on one program: two submissions, `close`, and the thread to its end; and the two
-- programs that leave a request behind.
use design_document.Store.Table.{last_sequence, max_position}
use design_document.Store.Event.{
  validate, required_mapping, required_text, is_event_type, content_sha256, lower,
}
use design_document.Store.Writer.Stranded.{submit-stranded}
use design_document.Store.Writer.Drains.{steps_left, run_thread, close-ends}
use design_document.Store.Writer.Orderly.{is_none}
use design_document.Store.Writer.Bounds.{IsBounded, Reached-IsBounded}
use design_document.Store.Writer.Futures.{AllDone, settlement_of}
use design_document.Store.Writer.Fifo.{
  requests, Conserves, Reached-Conserves, ended-AllDone, batch_of, in_flight,
}
use design_document.Store.Append.Sequential.{append_each}
use design_document.Base.{
  ℕ, ◌≡◌, refl, true, false, none, some, List, [], ◌∷◌, arith, ok, err, Option-cases, length, inl,
  ◌≤◌, inr, ◌*◌, ◌⊎◌, ◌++◌, ◌+◌,
}
use design_document.Json.{obj, null}
use design_document.Store.Errors.{interrupted}
use design_document.Store.Append.{insert_one, expected_sequence, lookup_expected}
use design_document.Store.Tests.{platform, event_dict, first_row, store, empty-IsWellFormed}
use design_document.Store.Writer.{
  Writer, Choice, new_writer, start, submit, begin_close, put_stop, work, advance, ended, Request,
  Settlement, cancelled, exception,
}
use design_document.Store.Writer.Config.{
  GroupCommitConfig, Arguments, time_window, immediate, pos, negsuc, validated, bad_batch_size,
  bad_window,
}
use design_document.Store.Writer.Steps.{
  Reached, starts, submits, closes, puts_stop, works, here, next,
}
use design_document.Store.Writer.Serial.{
  Smoothly, new, then, Smoothly-Reached, Smoothly-append_each, is_smooth_step, prepare_all,
}

abbrev arguments : Arguments
arguments = record {
  policy = time_window;
  max_batch_size = pos 2;
  window_us = pos 2000;
  max_queue_size = pos 4;
  enqueue_timeout_us = pos 50000;
}

abbrev config : GroupCommitConfig
config = record {
  policy = time_window;
  max_batch_size = 2;
  window_us = 2000;
  max_queue_size = 4;
  enqueue_timeout_us = 50000;
}

validated_run : validated arguments ≡ ok config
unfolding validated
validated_run = refl

validated_bad_batch : validated (record arguments { max_batch_size = pos 0 }) ≡ err bad_batch_size
unfolding validated
validated_bad_batch = refl

validated_bad_window : validated (record arguments { window_us = negsuc 0 }) ≡ err bad_window
unfolding validated
validated_bad_window = refl

abbrev quiet : Choice
quiet = record {
  time_up = false;
  raises = none;
  committed = false;
  fault = none;
  batch_id = "b";
  race = none;
  second_race = none;
}

abbrev step : Writer → Writer
step w = elim (work platform none config quiet w) [ none ↦ w | some u ↦ u ]

-- Started, with two accepted events, the second of them not valid.
abbrev busy : Writer
busy = (submit config null (submit config (obj event_dict) (start (new_writer (store []))).1).1).1

-- The thread has made a batch of both.
abbrev collected : Writer
collected = step (step (step (step busy)))

abbrev sent : Writer → Writer
sent w = elim (put_stop config w) [ none ↦ w | some u ↦ u ]

-- Committed, closed, and ended.
abbrev finished : Writer
finished = step (sent (begin_close (step collected)))

abbrev Run : Writer → Type 0
Run w = Smoothly platform none config (store []) w

busy-Run : Run busy
unfolding start submit new_writer is_smooth_step
busy-Run =
    then (then (then new (starts refl) refl) (submits (obj event_dict) refl) refl)
      (submits null refl) refl

step-Run : (w : Writer) → Run w → Run (step w)
unfolding is_smooth_step
step-Run w r = elim (Option-cases (work platform none config quiet w)) [
  | inl e ↦ rw (step, e) r
  | inr (u, e) ↦ rw (step, e) (then r (works quiet e) refl)
]

sent-Run : (w : Writer) → Run w → Run (sent w)
unfolding is_smooth_step
sent-Run w r = elim (Option-cases (put_stop config w)) [
  | inl e ↦ rw (sent, e) r
  | inr (u, e) ↦ rw (sent, e) (then r (puts_stop e) refl)
]

collected-Run : Run collected
collected-Run = step-Run _ (step-Run _ (step-Run _ (step-Run busy busy-Run)))

finished-Run : Run finished
unfolding is_smooth_step start submit new_writer work advance validate required_mapping
    required_text is_event_type content_sha256 lower
finished-Run = step-Run _ (sent-Run _ (then (step-Run collected collected-Run) (closes refl) refl))

finished-Reached : Reached platform none config (store []) finished
finished-Reached = Smoothly-Reached platform none config (store []) finished finished-Run

finished_store : finished.store ≡ store (first_row ∷ [])
unfolding start submit new_writer work advance begin_close put_stop validate required_mapping
    required_text is_event_type content_sha256 lower insert_one expected_sequence lookup_expected
    last_sequence max_position
finished_store = refl

Smoothly-append_each_example :
    (finished.store ≡ (append_each (store []) (prepare_all platform none finished.handled)).0)
    × (finished.submitted ≡ finished.handled ++ in_flight finished)
Smoothly-append_each_example =
    Smoothly-append_each platform none config (store []) finished empty-IsWellFormed refl
      finished-Run

Reached-Conserves_example :
    Conserves finished
    × (((finished.raced ≡ true) × (is_none finished.fatal_error ≡ false))
        ⊎ AllDone finished.futures finished.handled)
Reached-Conserves_example =
    Reached-Conserves platform none config (store []) finished finished-Reached

ended-AllDone_example :
    (finished.closing ≡ true)
    × (finished.queue ≡ [])
    × (finished.submitted ≡ finished.handled)
    × AllDone finished.futures finished.submitted
unfolding start submit new_writer work advance begin_close put_stop validate required_mapping
    required_text is_event_type content_sha256 lower
ended-AllDone_example =
    ended-AllDone platform none config (store []) finished finished-Reached refl refl

Reached-IsBounded_example :
    IsBounded config collected
    × (config.policy ≡ immediate → length (batch_of collected.worker) ≤ 1)
Reached-IsBounded_example =
    Reached-IsBounded platform none config arguments (store []) collected validated_run
      (Smoothly-Reached platform none config (store []) collected collected-Run)

-- `close` has been called while both requests are in the queue.
abbrev closing : Writer
closing = sent (begin_close busy)

abbrev choices : List Choice
choices =
    quiet ∷ quiet ∷ quiet ∷ quiet ∷ quiet ∷ quiet ∷ quiet ∷ quiet ∷ quiet ∷ quiet ∷ quiet ∷ quiet
    ∷ quiet ∷ quiet ∷ []

closing-Run : Run closing
unfolding is_smooth_step start submit new_writer
closing-Run = sent-Run _ (then busy-Run (closes refl) refl)

close-ends_example :
    ((run_thread platform none config choices closing).worker ≡ ended)
    × (steps_left closing ≤ 4 * length closing.queue + 4)
unfolding start submit new_writer begin_close put_stop steps_left
close-ends_example =
    close-ends platform none config (store []) closing choices
      (Smoothly-Reached platform none config (store []) closing closing-Run)
      (record { begun = refl; closed = refl; sent = refl }) (omega arith)

-- The storage breaks at the commit, and `_fail_pending` has emptied the queue.
abbrev broken : Choice
broken = record quiet { raises = some interrupted }

abbrev step_broken : Writer → Writer
step_broken w = elim (work platform none config broken w) [ none ↦ w | some u ↦ u ]

abbrev emptied : Writer
emptied = step (step_broken collected)

emptied-Reached : Reached platform none config (store []) emptied
unfolding start submit new_writer work advance
emptied-Reached =
    next
      (next (Smoothly-Reached platform none config (store []) collected collected-Run)
        (works broken refl))
      (works quiet refl)

abbrev late : Writer
late = (submit config null emptied).1

submit-stranded_example :
    let r : Request = record { ticket = 2; event = null } in
    ((submit config null emptied).0 ≡ ok 2)
    × (late.handled ≡ emptied.handled)
    × ((more : List Request) × (requests late.queue ≡ r ∷ more))
    × ((t : ℕ) (x : Settlement)
        → settlement_of t late.futures ≡ some x
        → (x ≡ cancelled) ⊎ (settlement_of t emptied.futures ≡ some x))
unfolding start submit new_writer work advance requests
submit-stranded_example =
    submit-stranded platform none config (store []) emptied late null emptied-Reached refl refl
      (omega arith) here

-- The storage breaks at the commit, and the owner of the first future cancels it between `done()` and
-- `set_exception`: the rest of the batch is not settled, and no longer in the queue either.
abbrev torn : Writer
torn = elim (work platform none config (record broken { second_race = some 0 }) collected) [
  | none ↦ collected
  | some u ↦ u
]

torn_run :
    (torn.raced ≡ true)
    × (length torn.handled ≡ 2)
    × (settlement_of 0 torn.futures ≡ some cancelled)
    × (settlement_of 1 torn.futures ≡ none)
unfolding start submit new_writer work advance settlement_of
torn_run = (refl, refl, refl, refl)

-- It cancels the first future between `cancelled()` and `set_result`: the transaction was committed,
-- and yet the other future of the batch gets an exception.
abbrev late_cancel : Writer
late_cancel = elim (work platform none config (record quiet { race = some 0 }) collected) [
  | none ↦ collected
  | some u ↦ u
]

late_cancel_run :
    (late_cancel.raced ≡ true)
    × (late_cancel.store ≡ store (first_row ∷ []))
    × (settlement_of 1 late_cancel.futures ≡ some (exception interrupted))
unfolding start submit new_writer work advance settlement_of validate required_mapping required_text
    is_event_type content_sha256 lower insert_one expected_sequence lookup_expected last_sequence
    max_position
late_cancel_run = (refl, refl, refl)
