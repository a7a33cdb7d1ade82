-- ===== src/Store/Writer/Bounds.antt =====
-- The two limits of `GroupCommitConfig`, on every writer that a program can reach.
use mathlib.Core.Option.{some-injective}
use design_document.Base.{
  ℕ, false, true, ◌≡◌, ◌≤◌, ◌+◌, refl, Bool, Option, none, some, List, [], ◌∷◌, arith, length,
  length-append, subst, ok, Result, err,
}
use design_document.Store.Event.{Platform, Validator}
use design_document.Store.Append.{EventStore, Outcome}
use design_document.Store.Writer.{
  Request, Item, request, stop, Worker, absent, opening, waiting, collecting, committing, failing,
  drained, ended, Writer, Choice, new_writer, start, submit, cancel, begin_close, put_stop, work,
  take, extend, fail_pending, break, conclude_batch, commit_batch, open_store, advance, Value,
  StoreError, Settlement, settle_batch, after_loop,
}
use design_document.Store.Writer.Config.{
  GroupCommitConfig, IsUsable, Arguments, validated, validated-IsUsable, immediate,
}
use design_document.Store.Writer.Steps.{
  Step, Reached, keeps, starts, submits, cancels, closes, puts_stop, works,
}
use design_document.Store.Writer.Fifo.{batch_of}

module _ (config : GroupCommitConfig) where
  pub record IsBounded (w : Writer) : Type 0 where
    pub batch : length (batch_of w.worker) ≤ config.max_batch_size
    pub queued : length w.queue ≤ config.max_queue_size

  submit-IsBounded :
      (event : Value) (w : Writer) → IsBounded w → IsBounded (submit config event w).1
  unfolding submit
  submit-IsBounded event w h =
      let r : Request = record { ticket = length w.submitted; event = event } in
      ground (arith, length-append w.queue (request r ∷ []))

  put_stop-IsBounded : (w u : Writer) → put_stop config w ≡ some u → IsBounded w → IsBounded u
  unfolding put_stop
  put_stop-IsBounded w u e h = ground (arith, length-append w.queue (stop ∷ []))

  take-IsBounded :
      (w u : Writer) (queue : List Item)
      → IsUsable config
      → take config w queue ≡ some u
      → length queue ≤ config.max_queue_size
      → IsBounded u
  unfolding take batch_of
  take-IsBounded w u queue c e h = ground arith

  extend-IsBounded :
      (w : Writer) (batch : List Request) (queue : List Item)
      → w.queue ≡ queue
      → length batch + 1 ≤ config.max_batch_size
      → IsBounded w
      → IsBounded (extend w batch queue)
  unfolding extend batch_of
  extend-IsBounded w batch [] q l h = ground arith
  extend-IsBounded w batch (stop ∷ queue) q l h = ground arith
  extend-IsBounded w batch (request r ∷ queue) q l h = ground (arith, length-append batch (r ∷ []))

  fail_pending-IsBounded :
      (race : Option ℕ) (x : StoreError) (w : Writer) (queue : List Item)
      → w.queue ≡ queue
      → w.worker ≡ failing x
      → IsBounded w
      → IsBounded (fail_pending race x w queue)
  unfolding fail_pending batch_of
  fail_pending-IsBounded race x w queue q k h = ground arith

  -- The batch is over, whatever the loops over it do.
  Concluded-IsBounded :
      (w u : Writer) → u.queue ≡ w.queue → batch_of u.worker ≡ [] → IsBounded w → IsBounded u
  Concluded-IsBounded w u q k h = record { batch = rw k (omega arith); queued = rw q h.queued }

  after_loop-IsBounded :
      (race : Option ℕ) (batch : List Request) (last : Bool) (w : Writer)
      (p : List (ℕ × Settlement) × Bool)
      → IsBounded w
      → IsBounded (after_loop race batch last w p)
  unfolding break batch_of
  after_loop-IsBounded race batch last w (fs, true) h = Concluded-IsBounded w _ refl refl h
  after_loop-IsBounded race batch true w (fs, false) h = Concluded-IsBounded w _ refl refl h
  after_loop-IsBounded race batch false w (fs, false) h = Concluded-IsBounded w _ refl refl h

  conclude_batch-IsBounded :
      (choice : Choice) (batch : List Request) (last : Bool) (w : Writer)
      (r : Result StoreError (EventStore × List Outcome))
      → IsBounded w
      → IsBounded (conclude_batch choice batch last w r)
  unfolding conclude_batch break batch_of
  conclude_batch-IsBounded choice batch last w (err x) h = Concluded-IsBounded w _ refl refl h
  conclude_batch-IsBounded choice batch last w (ok (s, outcomes)) h =
      after_loop-IsBounded choice.second_race batch last (record w { store = s })
        (settle_batch choice.race choice.batch_id (length batch) batch outcomes w.futures)
        (record { batch = h.batch; queued = h.queued })

  commit_batch-IsBounded :
      (platform : Platform) (validator : Validator) (choice : Choice) (batch : List Request)
      (last : Bool) (w : Writer) (raised : Option StoreError)
      → IsBounded w
      → IsBounded (commit_batch platform validator choice w batch last raised)
  unfolding commit_batch break batch_of
  commit_batch-IsBounded platform validator choice batch last w (some x) h =
      Concluded-IsBounded w _ refl refl h
  commit_batch-IsBounded platform validator choice batch last w none h =
      conclude_batch-IsBounded choice batch last w _ h

module _ (platform : Platform) (validator : Validator) (config : GroupCommitConfig) where
  advance-IsBounded :
      (choice : Choice) (w u : Writer) (k : Worker)
      → IsUsable config
      → advance platform validator config choice w k ≡ some u
      → w.worker ≡ k
      → IsBounded config w
      → IsBounded config u
  unfolding advance open_store batch_of
  advance-IsBounded choice w u absent c e k h = cc
  advance-IsBounded choice w u opening c e k h = ground arith
  advance-IsBounded choice w u waiting c e k h = take-IsBounded config w u w.queue c e h.queued
  advance-IsBounded choice w u (collecting batch) c e k h =
      ground (arith, extend-IsBounded config w batch w.queue)
  advance-IsBounded choice w u (committing batch last) c e k h =
      subst (IsBounded config) (some-injective _ u e)
        (commit_batch-IsBounded config platform validator choice batch last w choice.raises h)
  advance-IsBounded choice w u (failing x) c e k h =
      ground (arith, fail_pending-IsBounded config choice.race x w w.queue)
  advance-IsBounded choice w u drained c e k h = ground arith
  advance-IsBounded choice w u ended c e k h = cc

  Step-IsBounded :
      IsUsable config
      → (w u : Writer) → Step platform validator config w u
      → IsBounded config w
      → IsBounded config u
  unfolding start begin_close cancel batch_of work
  Step-IsBounded c w _ (starts free) h = ground arith
  Step-IsBounded c w _ (submits event free) h = submit-IsBounded config event w h
  Step-IsBounded c w _ (cancels t) h = ground arith
  Step-IsBounded c w _ (closes free) h = ground arith
  Step-IsBounded c w u (puts_stop e) h = put_stop-IsBounded config w u e h
  Step-IsBounded c w u (works choice e) h = advance-IsBounded choice w u w.worker c e refl h

  new_writer-IsBounded : (s : EventStore) → IsBounded config (new_writer s)
  unfolding new_writer batch_of
  new_writer-IsBounded s = ground arith

  -- With a configuration that `__post_init__` accepts, no batch is larger than `max_batch_size`,
  -- which is 1 under the policy `IMMEDIATE`, and the queue never holds more than `max_queue_size`
  -- items.
  pub Reached-IsBounded :
      (a : Arguments) (s : EventStore) (w : Writer)
      → validated a ≡ ok config
      → Reached platform validator config s w
      → IsBounded config w × (config.policy ≡ immediate → length (batch_of w.worker) ≤ 1)
  Reached-IsBounded a s w v r =
      let c = validated-IsUsable a config v in
      let h =
        keeps platform validator config (IsBounded config) (Step-IsBounded c) (new_writer s) w r
          (new_writer-IsBounded s) in
      (h, λ i. rw (← c.alone i) h.batch)
