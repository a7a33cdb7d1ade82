-- ===== src/Store/Writer/Progress.antt =====
-- A step of an `EventWriter` changes no settled future and settles what it handles.
use mathlib.Core.Option.{some-injective}
use mathlib.Core.List.{append-nil}
use design_document.Base.{
  ℕ, ◌≡◌, refl, sym, Bool, Option, none, some, List, [], ◌∷◌, ◌++◌, arith, length, map, Result, err,
  ok, length-map, subst, true, false, if◌then◌else◌,
}
use design_document.Json.{Value}
use design_document.Store.Errors.{StoreError, interrupted}
use design_document.Store.Event.{Platform, Validator}
use design_document.Store.Append.{EventStore, Outcome, append_group}
use design_document.Store.Append.Atomic.{append_group-Extends}
use design_document.Store.Writer.{
  Request, Item, request, stop, exception, cancelled, Worker, absent, opening, waiting, collecting,
  committing, failing, drained, ended, Writer, Choice, start, submit, cancel, begin_close, put_stop,
  work, take, extend, fail_pending, break, conclude_batch, advance, event_of, commit_batch,
  open_store, Settlement, is_raced, settle_batch, settle, kept_store, after_loop,
}
use design_document.Store.Writer.Config.{GroupCommitConfig}
use design_document.Store.Writer.Futures.{
  Keeps, AllDone, settle-Keeps, settle-is_done, settle_batch-Keeps, settle_batch-AllDone,
  fail_batch-Keeps, fail_batch-AllDone,
}
use design_document.Store.Writer.Steps.{Step, starts, submits, cancels, closes, puts_stop, works}

pub record Progresses (w u : Writer) : Type 0 where
  pub kept : Keeps w.futures u.futures
  pub new : List Request
  pub handled : u.handled ≡ w.handled ++ new
  pub done : u.raced ≡ false → AllDone u.futures new
  pub lasting : u.raced ≡ false → w.raced ≡ false

-- Most steps handle no request.
abbrev Idle : Writer → Writer → Type 0
Idle w u = (u.futures ≡ w.futures) × (u.handled ≡ w.handled) × (u.raced ≡ w.raced)

Idle-Progresses : (w u : Writer) → Idle w u → Progresses w u
Idle-Progresses w u h = record {
  kept = λ t x e. rw (h.0) e;
  new = [];
  handled = rw (h.1) (sym (append-nil w.handled));
  done = λ f. tt;
  lasting = λ f. rw (← h.2) f;
}

start-Idle : (w : Writer) → Idle w (start w).1
unfolding start
start-Idle w = ground arith

submit-Idle :
    (config : GroupCommitConfig) (event : Value) (w : Writer) → Idle w (submit config event w).1
unfolding submit
submit-Idle config event w = ground arith

begin_close-Idle : (w : Writer) → Idle w (begin_close w)
unfolding begin_close
begin_close-Idle w = ground arith

put_stop-Idle : (config : GroupCommitConfig) (w u : Writer) → put_stop config w ≡ some u → Idle w u
unfolding put_stop
put_stop-Idle config w u e = ground arith

take-Idle :
    (config : GroupCommitConfig) (w u : Writer) (queue : List Item)
    → take config w queue ≡ some u
    → Idle w u
unfolding take
take-Idle config w u queue e = ground arith

extend-Idle :
    (w : Writer) (batch : List Request) (queue : List Item) → Idle w (extend w batch queue)
unfolding extend
extend-Idle w batch queue = ground arith

cancel-Progresses : (t : ℕ) (w : Writer) → Progresses w (cancel t w)
unfolding cancel
cancel-Progresses t w = record {
  kept = settle-Keeps t cancelled w.futures;
  new = [];
  handled = sym (append-nil w.handled);
  done = λ f. tt;
  lasting = λ f. f;
}

if-Progresses :
    (w : Writer) (b : Bool) (u v : Writer)
    → Progresses w u
    → Progresses w v
    → Progresses w (if b then u else v)
if-Progresses w true u v p q = p
if-Progresses w false u v p q = q

-- The thread settles one future that it took from the queue.
settle-Progresses :
    (w : Writer) (r : Request) (x : Settlement) (queue : List Item) (k : Worker) (b : Bool)
    → (b ≡ false → w.raced ≡ false)
    → Progresses w (record w {
      queue = queue;
      handled = w.handled ++ r ∷ [];
      raced = b;
      futures = settle r.ticket x w.futures;
      worker = k;
    })
settle-Progresses w r x queue k b f = record {
  kept = settle-Keeps r.ticket x w.futures;
  new = r ∷ [];
  handled = refl;
  done = λ g. (settle-is_done r.ticket x w.futures, tt);
  lasting = f;
}

fail_pending-Progresses :
    (race : Option ℕ) (x : StoreError) (w : Writer) (queue : List Item)
    → Progresses w (fail_pending race x w queue)
unfolding fail_pending
fail_pending-Progresses race x w [] = Idle-Progresses w _ (refl, refl, refl)
fail_pending-Progresses race x w (stop ∷ queue) = Idle-Progresses w _ (refl, refl, refl)
fail_pending-Progresses race x w (request r ∷ queue) =
    if-Progresses w (is_raced race r.ticket w.futures) _ _
      (settle-Progresses w r cancelled queue ended true (λ f. absurd (ground arith)))
      (settle-Progresses w r (exception x) queue w.worker w.raced (λ f. f))

-- From a writer with the same requests, whose futures keep those of `w`.
break-Progresses :
    (race : Option ℕ) (x : StoreError) (batch : List Request) (w v : Writer)
    → Keeps w.futures v.futures
    → v.handled ≡ w.handled
    → (v.raced ≡ false → w.raced ≡ false)
    → Progresses w (break race x batch v)
unfolding break
break-Progresses race x batch w v k h l = record {
  kept = λ t y e. fail_batch-Keeps race x batch v.futures t y (k t y e);
  new = batch;
  handled = rw h refl;
  done = λ f. fail_batch-AllDone race x batch v.futures (ground arith);
  lasting = λ f. l (ground arith);
}

after_loop-Progresses :
    (race : Option ℕ) (batch : List Request) (last : Bool) (w v : Writer)
    (p : List (ℕ × Settlement) × Bool)
    → Keeps w.futures p.0
    → v.handled ≡ w.handled
    → v.raced ≡ w.raced
    → (p.1 ≡ false → AllDone p.0 batch)
    → Progresses w (after_loop race batch last v p)
after_loop-Progresses race batch last w v (fs, true) k h f d =
    break-Progresses race interrupted batch w (record v { futures = fs; raced = true }) k h
      (λ g. absurd (ground arith))
after_loop-Progresses race batch last w v (fs, false) k h f d = record {
  kept = k;
  new = batch;
  handled = rw h refl;
  done = λ g. d refl;
  lasting = λ g. rw (← f) g;
}

conclude_batch-Progresses :
    (choice : Choice) (batch : List Request) (last : Bool) (w : Writer)
    (r : Result StoreError (EventStore × List Outcome))
    → ((s : EventStore) (outcomes : List Outcome)
        → r ≡ ok (s, outcomes)
        → length outcomes ≡ length batch)
    → Progresses w (conclude_batch choice batch last w r)
unfolding conclude_batch
conclude_batch-Progresses choice batch last w (err x) h =
    break-Progresses choice.second_race x batch w w (λ t y e. e) refl (λ g. g)
conclude_batch-Progresses choice batch last w (ok (s, outcomes)) h =
    after_loop-Progresses choice.second_race batch last w (record w { store = s })
      (settle_batch choice.race choice.batch_id (length batch) batch outcomes w.futures)
      (settle_batch-Keeps choice.race choice.batch_id (length batch) batch outcomes w.futures) refl
      refl
      (settle_batch-AllDone choice.race choice.batch_id (length batch) batch outcomes w.futures
        (h s outcomes refl))

module _ (platform : Platform) (validator : Validator) (config : GroupCommitConfig) where
  commit_batch-Progresses :
      (choice : Choice) (batch : List Request) (last : Bool) (w : Writer)
      (raised : Option StoreError)
      → Progresses w (commit_batch platform validator choice w batch last raised)
  unfolding commit_batch
  commit_batch-Progresses choice batch last w (some x) =
      let r = append_group platform validator choice.fault w.store (map event_of batch) in
      break-Progresses choice.second_race x batch w
        (record w { store = kept_store choice.committed w.store r }) (λ t y e. e) refl (λ g. g)
  commit_batch-Progresses choice batch last w none =
      let events = map event_of batch in
      conclude_batch-Progresses choice batch last w
        (append_group platform validator choice.fault w.store events)
        (λ s outcomes a. ground (
          arith,
          append_group-Extends platform validator choice.fault w.store s events outcomes a,
          length-map event_of batch,
        ))

  advance-Progresses :
      (choice : Choice) (w u : Writer) (k : Worker)
      → advance platform validator config choice w k ≡ some u
      → Progresses w u
  unfolding advance open_store
  advance-Progresses choice w u absent e = cc
  advance-Progresses choice w u opening e = Idle-Progresses w u (ground arith)
  advance-Progresses choice w u waiting e = Idle-Progresses w u (take-Idle config w u w.queue e)
  advance-Progresses choice w u (collecting batch) e =
      Idle-Progresses w u (ground (arith, extend-Idle w batch w.queue))
  advance-Progresses choice w u (committing batch last) e =
      subst (Progresses w) (some-injective _ u e)
        (commit_batch-Progresses choice batch last w choice.raises)
  advance-Progresses choice w u (failing x) e =
      subst (Progresses w) (some-injective _ u e) (fail_pending-Progresses choice.race x w w.queue)
  advance-Progresses choice w u drained e = Idle-Progresses w u (ground arith)
  advance-Progresses choice w u ended e = cc

  -- Every step adds what it handles to the end and leaves every settled future as it is; it settles
  -- the futures of what it handles, unless a `set_result` or `set_exception` raises.
  pub Step-Progresses : (w u : Writer) → Step platform validator config w u → Progresses w u
  unfolding work
  Step-Progresses w _ (starts free) = Idle-Progresses w _ (start-Idle w)
  Step-Progresses w _ (submits event free) = Idle-Progresses w _ (submit-Idle config event w)
  Step-Progresses w _ (cancels t) = cancel-Progresses t w
  Step-Progresses w _ (closes free) = Idle-Progresses w _ (begin_close-Idle w)
  Step-Progresses w u (puts_stop e) = Idle-Progresses w u (put_stop-Idle config w u e)
  Step-Progresses w u (works choice e) = advance-Progresses choice w u w.worker e
