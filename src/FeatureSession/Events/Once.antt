-- ===== src/FeatureSession/Events/Once.antt =====
-- One structured event is appended once.
use mathlib.Core.Option.{some-injective}
use design_document.Base.{
  String, ◌≡◌, refl, sym, ap, ◌∙◌, Bool, Option, none, some, arith, Result, ok, subst, true,
}
use design_document.Json.{Dict, get_str}
use design_document.Session.State.{SessionError, recovery_error}
use design_document.FeatureSession.Channel.{
  Channel, TerminalEventIntent, StructuredTerminalResult, collect, acknowledge, file, has_text,
}
use design_document.FeatureSession.Channel.Files.{file-save_self}
use design_document.FeatureSession.Channel.Delivery.{
  acknowledge-collect, collect-Collected, Collected, IsDelivered, acknowledge-file,
}
use design_document.FeatureSession.World.{Setup, World, from, on_sessions, on_channel, channel_of}
use design_document.FeatureSession.World.Steps.{and_then, present_in, returned}
use design_document.FeatureSession.Events.{accept_structured_event, accept_result}

module _ {W A : Type 0} where
  on_channel-channel_of :
      (id : String) (f : Channel → Result SessionError A × Channel) (w : World W)
      → channel_of id (on_channel id f w).1 ≡ (f (channel_of id w)).1
  unfolding on_channel channel_of
  on_channel-channel_of id f w = rw (file-save_self id (f (channel_of id w)).1 w.channels) refl

  -- An act on a channel that returns: the channel's operation returned.
  on_channel-ok :
      (id : String) (f : Channel → Result SessionError A × Channel) (w w' : World W) (a : A)
      → on_channel id f w ≡ (ok a, w')
      → (f (channel_of id w) ≡ (ok a, channel_of id w')) × (w'.sessions ≡ w.sessions)
  unfolding on_channel
  on_channel-ok id f w w' a h =
      let left : (f (channel_of id w)).0 ≡ ok a = ap (λ p. p.0) h in
      let right : (f (channel_of id w)).1 ≡ channel_of id w' =
        sym (on_channel-channel_of id f w) ∙ ap (λ p. channel_of id p.1) h in
      (cc (left, right), sym (ap (λ p. p.1.sessions) h))

  on_sessions-ok :
      (f : W → Result SessionError A × W) (w w' : World W) (a : A)
      → on_sessions f w ≡ (ok a, w')
      → (f w.sessions ≡ (ok a, w'.sessions)) × (w'.channels ≡ w.channels)
  unfolding on_sessions
  on_sessions-ok f w w' a h =
      let left : (f w.sessions).0 ≡ ok a = ap (λ p. p.0) h in
      let right : (f w.sessions).1 ≡ w'.sessions = ap (λ p. p.1.sessions) h in
      (cc (left, right), sym (ap (λ p. p.1.channels) h))

module _ {W : Type 0} (setup : Setup W) (append : Dict → W → Result SessionError Unit × W) where
  -- What a returned event went through.
  pub record IsAccepted (validator : Dict → Bool) (intent : TerminalEventIntent) (w w' : World W)
      (r : StructuredTerminalResult) : Type 0 where
    pub delivered : IsDelivered setup.codec validator intent (channel_of intent.session_id w) r
    pub event_id : String
    pub named : get_str "event_id" r.event ≡ some event_id
    pub appended : append r.event w.sessions ≡ (ok tt, w'.sessions)
    pub acknowledged :
        (d : Dict) × (file intent.reference_id (channel_of intent.session_id w').acks ≡ some d)
        × (has_text "intent_sha256" intent.intent_sha256 d ≡ true)
        × (has_text "accepted_event_id" event_id d ≡ true)
    pub removed : file intent.reference_id (channel_of intent.session_id w').outbox ≡ none
    pub closed :
        collect setup.codec validator intent (channel_of intent.session_id w')
        ≡ (ok none, channel_of intent.session_id w')

  acknowledged-IsAccepted :
      (validator : Dict → Bool) (intent : TerminalEventIntent) (r : StructuredTerminalResult)
      (w w₁ w₂ w' : World W) (event_id : String)
      → IsDelivered setup.codec validator intent (channel_of intent.session_id w) r
      → w₁.sessions ≡ w.sessions
      → get_str "event_id" r.event ≡ some event_id
      → on_sessions (append r.event) w₁ ≡ (ok tt, w₂)
      → on_channel intent.session_id (acknowledge setup.codec intent event_id) w₂ ≡ (ok tt, w')
      → IsAccepted validator intent w w' r
  acknowledged-IsAccepted validator intent r w w₁ w₂ w' event_id d s n a k =
      let wrote = on_sessions-ok (append r.event) w₁ w₂ tt a in
      let acked =
        on_channel-ok intent.session_id (acknowledge setup.codec intent event_id) w₂ w' tt k in
      let (ack, on_file, of_intent, of_event, gone) =
        acknowledge-file setup.codec intent event_id (channel_of intent.session_id w₂)
          (channel_of intent.session_id w') acked.0 in
      record {
        delivered = d;
        event_id = event_id;
        named = n;
        appended = rw (← s, acked.1) (wrote.0);
        acknowledged = (ack, on_file, of_intent, of_event);
        removed = gone;
        closed =
            acknowledge-collect setup.codec validator intent event_id
              (channel_of intent.session_id w₂) (channel_of intent.session_id w') acked.0;
      }

  accept_result-IsAccepted :
      (validator : Dict → Bool) (intent : TerminalEventIntent) (r : StructuredTerminalResult)
      (o : Option StructuredTerminalResult) (w w₁ w' : World W)
      → Collected setup.codec validator intent
          (channel_of intent.session_id w)
          (ok o, channel_of intent.session_id w₁)
      → w₁.sessions ≡ w.sessions
      → accept_result setup append intent o w₁ ≡ (ok (some r), w')
      → IsAccepted validator intent w w' r
  unfolding accept_result
  accept_result-IsAccepted validator intent r none w w₁ w' c s h = absurd (ground arith)
  accept_result-IsAccepted validator intent r (some q) w w₁ w' c s h =
      and_then
        (from (get_str "event_id" q.event)
          (recovery_error "structured terminal event has no event_id"))
        h
        λ event_id w₂ e₂ h₂. and_then (on_sessions (append q.event)) h₂ λ u w₃ e₃ h₃.
          and_then (on_channel intent.session_id (acknowledge setup.codec intent event_id)) h₃
            λ u₂ w₄ e₄ h₄. present_in _ _ e₂ λ n same₂. returned h₄ λ same_r same_w.
              subst (λ (a : StructuredTerminalResult). IsAccepted validator intent w w' a)
                (some-injective _ _ same_r)
                (subst (λ v. IsAccepted validator intent w v q) same_w
                  (acknowledged-IsAccepted validator intent q w w₁ w₃ w₄ event_id c.1 s n
                    (subst (λ v. on_sessions (append q.event) v ≡ (ok tt, w₃)) (sym same₂) e₃) e₄))

  -- An event that `accept_structured_event` returns was collected for the intent and passed the
  -- validator, has an identifier, and was appended; its acknowledgement is on file, with the digest
  -- of the intent and the identifier of the event, and the result is no longer there, so that the
  -- next `collect` for the intent returns nothing.
  pub accept-IsAccepted :
      (validator : Dict → Bool) (intent : TerminalEventIntent) (r : StructuredTerminalResult)
      (w w' : World W)
      → accept_structured_event setup append validator intent w ≡ (ok (some r), w')
      → IsAccepted validator intent w w' r
  unfolding accept_structured_event
  accept-IsAccepted validator intent r w w' h =
      and_then (on_channel intent.session_id (collect setup.codec validator intent)) h λ o w₁ e₁ h₁.
        let ran =
          on_channel-ok intent.session_id (collect setup.codec validator intent) w w₁ o e₁ in
        accept_result-IsAccepted validator intent r o w w₁ w'
          (subst (Collected setup.codec validator intent (channel_of intent.session_id w)) ran.0
            (collect-Collected setup.codec validator intent (channel_of intent.session_id w)))
          ran.1 h₁

  -- A second `accept_structured_event` for the same intent returns nothing and appends nothing.
  pub accept-again :
      (validator : Dict → Bool) (intent : TerminalEventIntent) (r : StructuredTerminalResult)
      (w w' : World W)
      → accept_structured_event setup append validator intent w ≡ (ok (some r), w')
      → ((accept_structured_event setup append validator intent w').0 ≡ ok none)
        × ((accept_structured_event setup append validator intent w').1.sessions ≡ w'.sessions)
  unfolding accept_structured_event accept_result on_channel
  accept-again validator intent r w w' h =
      let a = accept-IsAccepted validator intent r w w' h in
      (rw (a.closed) refl, rw (a.closed) refl)
