-- ===== src/FeatureSession/World.antt =====
-- src/ai_runtime/runtime/feature_sessions.py: what `FeatureSessionFactory` acts on. The supervisor
-- is an interface over a world `W` of its own; the file `active-roots.json` and the channels of the
-- sessions belong to the factory. What was written before a raise stays written.
pub mod Steps
use design_document.Base.{
  ℕ, String, Bool, true, false, Option, none, some, List, [], ◌∷◌, ◌==◌, if◌then◌else◌, Result, ok,
  err,
}
use design_document.Session.State.{SessionState, SessionRecord, SessionError}
use design_document.Session.Spec.{SessionSpec}
use design_document.Session.Cell.{Observation}
use design_document.Session.Reconcile.{ReconcileReport}
use design_document.FeatureSession.Channel.{Channel, Codec, file, save}
use design_document.FeatureSession.Declaration.{Declaration, Registry}

-- The methods of `SessionSupervisor` that the factory calls. `notify` is the two `send-keys`.
pub record Supervisor (W : Type 0) : Type 0 where
  pub read : String → W → Option SessionRecord
  pub records : W → List SessionRecord
  pub start : SessionSpec → W → Result SessionError Observation × W
  pub observe : SessionSpec → W → Result SessionError Observation × W
  pub resume_or_reconstruct :
      SessionSpec → Bool → Option (List String) → W → Result SessionError Observation × W
  pub transition : SessionRecord → SessionState → String → W → Result SessionError Unit × W
  pub terminate : String → W → Result SessionError Unit × W
  pub drain : String → W → Result SessionError Unit × W
  pub mark_replaced : String → String → W → Result SessionError Unit × W
  pub reconcile : List (String × String) → W → Result SessionError ReconcileReport × W
  pub is_live : SessionRecord → W → Bool
  pub kill : SessionRecord → W → Result SessionError Unit × W
  pub notify : SessionRecord → String → W → Result SessionError Unit × W

-- The factory's fields, the clock, the file system's `is_dir`, and the digest of a declaration.
pub record Setup (W : Type 0) : Type 0 where
  pub supervisor : Supervisor W
  pub codec : Codec
  pub capabilities : Registry
  pub repository : String
  pub state_dir : String
  pub worktree_root : Option String
  pub policy_revision : String
  pub is_dir : String → Bool
  pub digest : Declaration → String

pub record World (W : Type 0) : Type 0 where
  pub sessions : W
  pub roots : List (String × String)
  pub channels : List (String × Channel)

abbrev pub Act : Type 0 → Type 0 → Type 0
Act W A = World W → Result SessionError A × World W

module _ {W A B : Type 0} where
  abbrev pub go_on : Result SessionError A → (A → Act W B) → Act W B
  go_on (err x) next w = (err x, w)
  go_on (ok a) next w = next a w

  infixl 5 ◌>>=◌
  abbrev pub ◌>>=◌ : Act W A → (A → Act W B) → Act W B
  ◌>>=◌ first next w = let (r, w') = first w in go_on r next w'

module _ {W A B : Type 0} where
  infixl 5 ◌>>◌
  abbrev pub ◌>>◌ : Act W A → Act W B → Act W B
  first >> second = first >>= λ _. second

module _ {W A : Type 0} where
  abbrev pub pure : A → Act W A
  pure a w = (ok a, w)

  abbrev pub raise : SessionError → Act W A
  raise x w = (err x, w)

  abbrev pub lift : Result SessionError A → Act W A
  lift r w = (r, w)

  abbrev pub from : Option A → SessionError → Act W A
  from none x w = (err x, w)
  from (some a) x w = (ok a, w)

  -- An operation of the supervisor.
  unfoldable pub on_sessions : (W → Result SessionError A × W) → Act W A
  on_sessions f w = let (r, s) = f w.sessions in (r, record w { sessions = s })

  -- What the supervisor reads, which changes nothing.
  abbrev pub asks : (W → A) → Act W A
  asks f w = (ok (f w.sessions), w)

module _ {W : Type 0} where
  -- `if not test: raise x`
  abbrev pub require : Bool → SessionError → Act W Unit
  require false x w = (err x, w)
  require true x w = (ok tt, w)

abbrev pub new_channel : Channel
new_channel = record { inbox = []; outbox = []; acks = []; deliveries = []; diagnostics = [] }

abbrev or_new : Option Channel → Channel
or_new none = new_channel
or_new (some c) = c

unfoldable pub channel_of : {W : Type 0} → String → World W → Channel
unfolding file
channel_of id w = or_new (file id w.channels)

module _ {W A : Type 0} where
  -- An operation of the channel of one session, whose directories are made when they are missing.
  unfoldable pub on_channel : String → (Channel → Result SessionError A × Channel) → Act W A
  unfolding save channel_of
  on_channel id f w =
      let (r, c) = f (channel_of id w) in (r, record w { channels = save id c w.channels })
