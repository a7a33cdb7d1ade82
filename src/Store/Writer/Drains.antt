-- ===== src/Store/Writer/Drains.antt =====
-- After `close` the thread comes to its end.
use design_document.Base.{
  ℕ, ◌+◌, ◌*◌, ◌<◌, ◌≤◌, ◌≡◌, refl, Bool, true, false, not, ◌&&◌, Option, none, some, List, [], ◌∷◌,
  arith, length, ◌⊎◌, Option-cases, inl, inr, Bool-cases, ltb, Result, err, ok,
}
use design_document.Store.Event.{Platform, Validator}
use design_document.Store.Writer.{
  Request, Item, request, stop, Worker, absent, opening, waiting, collecting, committing, failing,
  drained, ended, Writer, Choice, work, take, extend, fail_pending, break, conclude_batch,
  commit_batch, open_store, advance, StoreError, EventStore, Settlement, Outcome, settle_batch,
  after_loop,
}
use design_document.Store.Writer.Config.{GroupCommitConfig}
use design_document.Store.Writer.Steps.{Reached, works}
use design_document.Store.Writer.Orderly.{IsOrderly, stops, Reached-IsOrderly, Step-IsOrderly}

-- How many steps the thread can still make.
abbrev pub weight : Worker → ℕ
weight absent = 0
weight opening = 2
weight waiting = 1
weight (collecting batch) = 4
weight (committing batch last) = 3
weight (failing x) = 2
weight drained = 1
weight ended = 0

unfoldable pub steps_left : Writer → ℕ
steps_left w = 4 * length w.queue + weight w.worker

-- `close` has returned to `self._thread.join`.
pub record IsClosing (w : Writer) : Type 0 where
  pub begun : w.started ≡ true
  pub closed : w.closing ≡ true
  pub sent : w.stop_due ≡ false

-- A step leaves a writer that is closing and has less to do.
abbrev Advances : Writer → Writer → Type 0
Advances w u = IsClosing u × (steps_left u < steps_left w)

module _ (platform : Platform) (validator : Validator) (config : GroupCommitConfig) where
  take-Advances :
      (w : Writer) (queue : List Item)
      → w.worker ≡ waiting
      → w.queue ≡ queue
      → stops queue ≡ true
      → IsClosing w
      → (u : Writer) × (take config w queue ≡ some u) × Advances w u
  unfolding take steps_left stops
  take-Advances w [] k q n c = cc
  take-Advances w (stop ∷ queue) k q n c = (_, refl, ground arith)
  take-Advances w (request r ∷ queue) k q n c = (_, refl, ground arith)

  extend-Advances :
      (w : Writer) (batch : List Request) (queue : List Item)
      → w.worker ≡ collecting batch
      → w.queue ≡ queue
      → IsClosing w
      → Advances w (extend w batch queue)
  unfolding extend steps_left
  extend-Advances w batch queue k q c = ground arith

  fail_pending-Advances :
      (race : Option ℕ) (x : StoreError) (w : Writer) (queue : List Item)
      → w.worker ≡ failing x
      → w.queue ≡ queue
      → IsClosing w
      → Advances w (fail_pending race x w queue)
  unfolding fail_pending steps_left
  fail_pending-Advances race x w queue k q c = ground arith

  -- The batch is over: the thread ends, asks the queue, or is in `_fail_pending`.
  Concluded-Advances :
      (w u : Writer) (batch : List Request) (last : Bool)
      → w.worker ≡ committing batch last
      → (u.started ≡ w.started) × (u.closing ≡ w.closing) × (u.stop_due ≡ w.stop_due)
      → u.queue ≡ w.queue
      → weight u.worker ≤ 2
      → IsClosing w
      → Advances w u
  unfolding steps_left
  Concluded-Advances w u batch last k f q l c = ground arith

  after_loop-Advances :
      (race : Option ℕ) (batch : List Request) (last : Bool) (w : Writer)
      (p : List (ℕ × Settlement) × Bool)
      → w.worker ≡ committing batch last
      → IsClosing w
      → Advances w (after_loop race batch last w p)
  unfolding break
  after_loop-Advances race batch last w (fs, true) k c =
      Concluded-Advances w _ batch last k (refl, refl, refl) refl (omega arith) c
  after_loop-Advances race batch true w (fs, false) k c =
      Concluded-Advances w _ batch true k (refl, refl, refl) refl (omega arith) c
  after_loop-Advances race batch false w (fs, false) k c =
      Concluded-Advances w _ batch false k (refl, refl, refl) refl (omega arith) c

  conclude_batch-Advances :
      (choice : Choice) (batch : List Request) (last : Bool) (w : Writer)
      (r : Result StoreError (EventStore × List Outcome))
      → w.worker ≡ committing batch last
      → IsClosing w
      → Advances w (conclude_batch choice batch last w r)
  unfolding conclude_batch break steps_left
  conclude_batch-Advances choice batch last w (err x) k c =
      Concluded-Advances w _ batch last k (refl, refl, refl) refl (omega arith) c
  conclude_batch-Advances choice batch last w (ok (s, outcomes)) k c =
      after_loop-Advances choice.second_race batch last (record w { store = s })
        (settle_batch choice.race choice.batch_id (length batch) batch outcomes w.futures) k
        (record { begun = c.begun; closed = c.closed; sent = c.sent })

  commit_batch-Advances :
      (choice : Choice) (batch : List Request) (last : Bool) (w : Writer)
      (raised : Option StoreError)
      → w.worker ≡ committing batch last
      → IsClosing w
      → Advances w (commit_batch platform validator choice w batch last raised)
  unfolding commit_batch break
  commit_batch-Advances choice batch last w (some x) k c =
      Concluded-Advances w _ batch last k (refl, refl, refl) refl (omega arith) c
  commit_batch-Advances choice batch last w none k c =
      conclude_batch-Advances choice batch last w _ k c

  -- The thread of a closing writer never waits.
  work-Advances :
      (choice : Choice) (w : Writer) (k : Worker)
      → w.worker ≡ k
      → IsOrderly w
      → IsClosing w
      → (k ≡ ended)
        ⊎ ((u : Writer) × (advance platform validator config choice w k ≡ some u) × Advances w u)
  unfolding advance open_store steps_left
  work-Advances choice w absent k o c = absurd (ground arith)
  work-Advances choice w opening k o c = elim (Option-cases choice.raises) [
    | inl e ↦ inr (_, refl, ground arith)
    | inr (x, e) ↦ inr (_, refl, ground arith)
  ]
  work-Advances choice w waiting k o c =
      inr (take-Advances w w.queue k refl (o.noticed c.closed c.sent (rw k refl)) c)
  work-Advances choice w (collecting batch) k o c =
      let h = extend-Advances w batch w.queue k refl c in
      elim (Bool-cases (not choice.time_up && ltb (length batch) config.max_batch_size)) [
        | inl e ↦ inr (extend w batch w.queue, rw e refl, h)
        | inr e ↦ inr (record w { worker = committing batch false }, rw e refl, ground arith)
      ]
  work-Advances choice w (committing batch last) k o c =
      inr (_, refl, commit_batch-Advances choice batch last w choice.raises k c)
  work-Advances choice w (failing x) k o c =
      inr (_, refl, fail_pending-Advances choice.race x w w.queue k refl c)
  work-Advances choice w drained k o c =
      inr (record w { closing = true; worker = ended }, rw (c.sent) refl, ground arith)
  work-Advances choice w ended k o c = inl refl

  -- The thread alone, as long as it does not wait.
  unfoldable pub run_thread : List Choice → Writer → Writer
  run_thread [] w = w
  run_thread (choice ∷ choices) w = elim (work platform validator config choice w) [
    | none ↦ w
    | some u ↦ run_thread choices u
  ]

  work-ended :
      (choice : Choice) (w : Writer)
      → w.worker ≡ ended
      → work platform validator config choice w ≡ none
  unfolding work advance
  work-ended choice w e = rw e refl

  run_thread-ended :
      (choices : List Choice) (w : Writer)
      → IsOrderly w
      → IsClosing w
      → steps_left w ≤ length choices
      → (run_thread choices w).worker ≡ ended
  unfolding run_thread steps_left work
  run_thread-ended [] w o c l = ground (arith, o.under_way)
  run_thread-ended (choice ∷ choices) w o c l = elim (work-Advances choice w w.worker refl o c) [
    | inl e ↦ rw (run_thread, work-ended choice w e) e
    | inr (u, e, a) ↦
        rw (run_thread, e)
          (run_thread-ended choices u
            (Step-IsOrderly platform validator config w u (works choice e) o) a.0 (ground arith))
  ]

  -- Once `close` has put `_STOP` into the queue, the thread never waits: whatever the storage and
  -- the clock do, it ends within four steps for each item of the queue and at most four more.
  pub close-ends :
      (s : EventStore) (w : Writer) (choices : List Choice)
      → Reached platform validator config s w
      → IsClosing w
      → steps_left w ≤ length choices
      → ((run_thread choices w).worker ≡ ended) × (steps_left w ≤ 4 * length w.queue + 4)
  unfolding steps_left
  close-ends s w choices r c l = (
    run_thread-ended choices w (Reached-IsOrderly platform validator config s w r) c l,
    ground arith,
  )
