-- ===== src/Store/Writer/Stranded.antt =====
-- A submission that arrives when the thread no longer reads the queue.
use mathlib.Core.List.{append-nil, append_assoc}
use design_document.Base.{
  ◌||◌, if◌then◌else◌, not, ltb, ℕ, ◌≡◌, refl, sym, Bool, true, false, some, List, [], ◌∷◌, ◌++◌,
  arith, length, ◌⊎◌, ◌∙◌, inr, inl, ◌<◌, not, ok,
}
use design_document.Store.Event.{Platform, Validator}
use design_document.Store.Writer.{
  Request, Worker, drained, ended, Writer, work, advance, start, submit, cancel, begin_close,
  put_stop, settle, cancelled, Settlement, Value, EventStore,
}
use design_document.Store.Writer.Config.{GroupCommitConfig}
use design_document.Store.Writer.Steps.{
  Step, Steps, Reached, keeps, starts, submits, cancels, closes, puts_stop, works, here, next,
}
use design_document.Store.Writer.Orderly.{
  IsOrderly, Step-IsOrderly, Reached-IsOrderly, submit-IsOrderly,
}
use design_document.Store.Writer.Futures.{settlement_of}
use design_document.Store.Writer.Fifo.{requests, requests-stop, requests-request}

-- The thread does not look into the queue again.
abbrev pub is_deaf : Worker → Bool
is_deaf drained = true
is_deaf ended = true
is_deaf _ = false

-- From `w` on nothing is handled: requests only pile up, and a future that is settled later was
-- cancelled by its owner.
pub record IsIgnored (w u : Writer) : Type 0 where
  pub deaf : is_deaf u.worker ≡ true
  pub handled : u.handled ≡ w.handled
  pub more : List Request
  pub queued : requests u.queue ≡ requests w.queue ++ more
  pub futures :
      (t : ℕ) (x : Settlement)
      → settlement_of t u.futures ≡ some x
      → (x ≡ cancelled) ⊎ (settlement_of t w.futures ≡ some x)

same_futures :
    (w u : Writer)
    → u.futures ≡ w.futures
    → (t : ℕ) (x : Settlement) → settlement_of t u.futures ≡ some x
    → (x ≡ cancelled) ⊎ (settlement_of t w.futures ≡ some x)
same_futures w u e t x h = inr (rw (← e) h)

submit-IsIgnored :
    (config : GroupCommitConfig) (event : Value) (w : Writer)
    → is_deaf w.worker ≡ true
    → IsIgnored w (submit config event w).1
unfolding submit
submit-IsIgnored config event w d =
    let r : Request = record { ticket = length w.submitted; event = event } in
    record {
      deaf = ground arith;
      handled = ground arith;
      more =
          if not w.started || w.closing
          then []
          else if ltb (length w.queue) config.max_queue_size
          then r ∷ []
          else [];
      queued = ground (arith, append-nil (requests w.queue), requests-request w.queue r);
      futures = same_futures w (submit config event w).1 (ground arith);
    }

module _ (platform : Platform) (validator : Validator) (config : GroupCommitConfig) where
  calm :
      (w u : Writer)
      → is_deaf u.worker ≡ true
      → u.handled ≡ w.handled
      → requests u.queue ≡ requests w.queue
      → u.futures ≡ w.futures
      → IsIgnored w u
  calm w u d h q f = record {
    deaf = d;
    handled = h;
    more = [];
    queued = rw q (sym (append-nil (requests w.queue)));
    futures = same_futures w u f;
  }

  cancel-IsIgnored : (t : ℕ) (w : Writer) → is_deaf w.worker ≡ true → IsIgnored w (cancel t w)
  unfolding cancel settle settlement_of
  cancel-IsIgnored t w d = record {
    deaf = d;
    handled = refl;
    more = [];
    queued = sym (append-nil (requests w.queue));
    futures = λ u x e. ground arith;
  }

  Step-IsIgnored :
      (w u : Writer)
      → Step platform validator config w u
      → IsOrderly w
      → is_deaf w.worker ≡ true
      → IsIgnored w u
  unfolding start begin_close work advance put_stop
  Step-IsIgnored w _ (starts free) o d =
      calm w _ (ground (arith, o.fresh)) (ground arith) (ground (arith, o.fresh)) (ground arith)
  Step-IsIgnored w _ (submits event free) o d = submit-IsIgnored config event w d
  Step-IsIgnored w _ (cancels t) o d = cancel-IsIgnored t w d
  Step-IsIgnored w _ (closes free) o d =
      calm w _ (ground arith) (ground arith) (ground arith) (ground arith)
  Step-IsIgnored w u (puts_stop e) o d =
      calm w u (ground arith) (ground arith) (ground (arith, requests-stop w.queue)) (ground arith)
  Step-IsIgnored w u (works choice e) o d =
      calm w u (ground arith) (ground arith) (ground arith) (ground arith)

  IsIgnored-trans : (w u v : Writer) → IsIgnored w u → IsIgnored u v → IsIgnored w v
  IsIgnored-trans w u v a b = record {
    deaf = b.deaf;
    handled = b.handled ∙ a.handled;
    more = a.more ++ b.more;
    queued = rw (b.queued, a.queued) (append_assoc (requests w.queue) a.more b.more);
    futures = λ t x e. elim (b.futures t x e) [ inl c ↦ inl c | inr f ↦ a.futures t x f ];
  }

  Steps-IsIgnored :
      (w u : Writer)
      → Steps platform validator config w u
      → IsOrderly w
      → is_deaf w.worker ≡ true
      → IsIgnored w u
  Steps-IsIgnored w u here o d = calm w w d refl refl refl
  Steps-IsIgnored w u (next steps step) o d =
      let a = Steps-IsIgnored w _ steps o d in
      IsIgnored-trans w _ u a (
        Step-IsIgnored _ u step
          (keeps platform validator config IsOrderly (Step-IsOrderly platform validator config) w _
            steps o)
          a.deaf)

  submit-accepts :
      (w : Writer) (event : Value)
      → IsOrderly w
      → is_deaf w.worker ≡ true
      → w.closing ≡ false
      → length w.queue < config.max_queue_size
      → let r : Request = record { ticket = length w.submitted; event = event } in
        let u = (submit config event w).1 in
        ((submit config event w).0 ≡ ok r.ticket)
        × (is_deaf u.worker ≡ true)
        × (u.handled ≡ w.handled)
        × (u.futures ≡ w.futures)
        × (requests u.queue ≡ requests w.queue ++ r ∷ [])
  unfolding submit
  submit-accepts w event o d free room =
      let r : Request = record { ticket = length w.submitted; event = event } in
      ground (arith, o.fresh, requests-request w.queue r)

  -- While the thread is between `_fail_pending` and `self._closing = True`, or has ended because it
  -- could not open the store or because `_fail_pending` raised, `submit` accepts an event into a
  -- queue that has room. The request is then never handled: whatever happens later, it stays in the
  -- queue, and a future that gets settled was cancelled by its owner.
  pub submit-stranded :
      (s : EventStore) (w v : Writer) (event : Value)
      → Reached platform validator config s w
      → is_deaf w.worker ≡ true
      → w.closing ≡ false
      → length w.queue < config.max_queue_size
      → Steps platform validator config (submit config event w).1 v
      → let r : Request = record { ticket = length w.submitted; event = event } in
        ((submit config event w).0 ≡ ok r.ticket)
        × (v.handled ≡ w.handled)
        × ((more : List Request) × (requests v.queue ≡ requests w.queue ++ r ∷ more))
        × ((t : ℕ) (x : Settlement)
            → settlement_of t v.futures ≡ some x
            → (x ≡ cancelled) ⊎ (settlement_of t w.futures ≡ some x))
  submit-stranded s w v event reached d free room steps =
      let r : Request = record { ticket = length w.submitted; event = event } in
      let u = (submit config event w).1 in
      let o = Reached-IsOrderly platform validator config s w reached in
      let a = submit-accepts w event o d free room in
      let i =
        Steps-IsIgnored u v steps (submit-IsOrderly config event w (ground (arith, o.due)) o) a.1 in
      (
        a.0,
        i.handled ∙ a.2,
        (i.more, rw (i.queued, a.4) (append_assoc (requests w.queue) (r ∷ []) i.more)),
        λ t x e. elim (i.futures t x e) [ inl c ↦ inl c | inr f ↦ inr (rw (← a.3) f) ],
      )
