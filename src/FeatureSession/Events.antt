-- ===== src/FeatureSession/Events.antt =====
-- src/ai_runtime/runtime/feature_sessions.py: `deliver_event_reference` and
-- `accept_structured_event`. The event writer is an interface over the same world.
pub mod Once
use Prim.Native.String.{◌++◌}
use design_document.Base.{
  ℕ, String, Bool, true, false, not, ◌&&◌, ◌||◌, Option, none, some, List, [], ◌∷◌, ◌==◌,
  if◌then◌else◌, Result, ok, err,
}
use design_document.Json.{Dict, get_str}
use design_document.Session.State.{
  SessionState, ready, recovery_required, SessionRecord, SessionError, session_error,
  unavailable_error, recovery_error, value_error, is,
}
use design_document.Session.Cell.{Observation}
use design_document.FeatureSession.Channel.{
  Channel, TerminalEventIntent, StructuredTerminalResult, persist_intent, mark_notified, collect,
  acknowledge,
}
use design_document.FeatureSession.Declaration.{Declaration, is_validated}
use design_document.FeatureSession.World.{
  Supervisor, Setup, World, Act, ◌>>=◌, ◌>>◌, pure, raise, lift, from, on_sessions, on_channel,
  asks, require,
}
use design_document.FeatureSession.Factory.{declared}
use design_document.FeatureSession.Fork.{observe}

module _ {W : Type 0} (setup : Setup W) where
  abbrev sup : Supervisor W
  sup = setup.supervisor

  -- The handler of a `SessionError` that `send-keys` raises.
  notified : SessionRecord → Result SessionError Unit × World W → Result SessionError Unit × World W
  notified r (ok u, w) = (ok u, w)
  notified r (err x, w) =
      (on_sessions (sup.transition r recovery_required "terminal_notification_ambiguous")
          >> raise x)
        w

  notify : SessionRecord → String → Act W Unit
  unfolding notified
  notify r reference w = notified r (on_sessions (sup.notify r ("EVENT " ++ reference)) w)

  -- `deliver_event_reference`, with the reference that is given or generated, at the time `now`.
  unfoldable pub deliver_event_reference :
      String → String → Dict → String → String → Act W TerminalEventIntent
  unfolding notify
  deliver_event_reference session_id event_reference packet reference now = do
    found ← asks (sup.read session_id)
    r ← from found (unavailable_error "event delivery requires a registered feature session")
    require (r.session_kind == "feature")
        (unavailable_error "event delivery requires a registered feature session")
    d ← declared setup r.adapter
    require (is_validated d.structured_terminal_events)
        (unavailable_error "structured terminal event channel is fail-closed")
    o ← observe setup session_id
    require (o.is_ready && is o.state ready)
        (unavailable_error "feature session is not ready for delivery")
    intent ←
        on_channel session_id
          (persist_intent setup.codec session_id event_reference packet reference now)
    notify r intent.reference_id
    on_channel session_id (λ c. (ok tt, mark_notified setup.codec intent c))
    pure intent

  module _ (append : Dict → W → Result SessionError Unit × W) where
    -- What follows a result that `collect` returns.
    accept_result :
        TerminalEventIntent
        → Option StructuredTerminalResult
        → Act W (Option StructuredTerminalResult)
    accept_result intent none = pure none
    accept_result intent (some r) = do
      event_id ←
          from (get_str "event_id" r.event)
            (recovery_error "structured terminal event has no event_id")
      on_sessions (append r.event)
      on_channel intent.session_id (acknowledge setup.codec intent event_id)
      pure (some r)

    -- `accept_structured_event`; `append` is the writer's.
    unfoldable pub accept_structured_event :
        (Dict → Bool) → TerminalEventIntent → Act W (Option StructuredTerminalResult)
    unfolding accept_result
    accept_structured_event validator intent =
        on_channel intent.session_id (collect setup.codec validator intent) >>= accept_result intent
