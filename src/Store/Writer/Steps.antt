-- ===== src/Store/Writer/Steps.antt =====
-- What callers and the thread of one `EventWriter` do, in any order.
use design_document.Base.{ℕ, ◌≡◌, false, some}
use design_document.Json.{Value}
use design_document.Store.Event.{Platform, Validator}
use design_document.Store.Append.{EventStore}
use design_document.Store.Writer.{
  Writer, Choice, new_writer, start, submit, cancel, begin_close, put_stop, work,
}
use design_document.Store.Writer.Config.{GroupCommitConfig}

module _ (platform : Platform) (validator : Validator) (config : GroupCommitConfig) where
  -- `start`, `submit` and `close` take the lock, which a `close` with a due `_STOP` still holds.
  pub data Step : Writer → Writer → Type 0 where
    starts : {w : Writer} → w.stop_due ≡ false → Step w (start w).1
    submits : {w : Writer} (event : Value) → w.stop_due ≡ false → Step w (submit config event w).1
    cancels : {w : Writer} (t : ℕ) → Step w (cancel t w)
    closes : {w : Writer} → w.stop_due ≡ false → Step w (begin_close w)
    puts_stop : {w u : Writer} → put_stop config w ≡ some u → Step w u
    works :
        {w u : Writer} (choice : Choice)
        → work platform validator config choice w ≡ some u
        → Step w u

  pub data Steps : Writer → Writer → Type 0 where
    here : {w : Writer} → Steps w w
    next : {w u v : Writer} → Steps w u → Step u v → Steps w v

  -- A writer that some program has made of a new one.
  abbrev pub Reached : EventStore → Writer → Type 0
  Reached s w = Steps (new_writer s) w

  pub keeps {κ} :
      (P : Writer → Type κ)
      → ((w u : Writer) → Step w u → P w → P u)
      → (w u : Writer) → Steps w u
      → P w
      → P u
  keeps P kept w u here p = p
  keeps P kept w u (next steps step) p = kept _ u step (keeps P kept w _ steps p)
