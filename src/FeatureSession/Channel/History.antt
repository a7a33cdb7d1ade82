-- ===== src/FeatureSession/Channel/History.antt =====
-- Any sequence of operations on one channel, the agent's writing among them.
use design_document.Base.{
  String, ◌≡◌, refl, Bool, Option, none, some, List, [], ◌∷◌, eq_iff, arith, Result, ok, err,
  Option-cases, inl, inr,
}
use design_document.Json.{Dict}
use design_document.Session.State.{SessionError}
use design_document.FeatureSession.Channel.{
  Codec, Channel, Answer, TerminalEventIntent, file, save, persisted, persist_intent, collected,
  collect, discard, clear, acknowledged, acknowledge, mark_notified, ack_payload,
}
use design_document.FeatureSession.Channel.Files.{file-save}
use design_document.FeatureSession.Channel.Known.{
  acknowledge_known_events, known_loop, settle_known, prepend, and_then, known_event, read_intent,
}
use design_document.FeatureSession.Channel.Delivery.{acknowledge-file}

pub data Operation : Type 0 where
  persists : String → String → Dict → String → String → Operation
  notifies : TerminalEventIntent → Operation
  writes : String → String → Operation
  collects : (Dict → Bool) → TerminalEventIntent → Operation
  acknowledges : TerminalEventIntent → String → Operation
  acknowledges_known : String → List String → Operation

module _ (codec : Codec) where
  -- The channel that an operation leaves; `writes` is the agent's.
  apply : Operation → Channel → Channel
  apply (persists session event packet reference now) c =
      (persist_intent codec session event packet reference now c).1
  apply (notifies intent) c = mark_notified codec intent c
  apply (writes reference raw) c = record c { outbox = save reference raw c.outbox }
  apply (collects validator intent) c = (collect codec validator intent c).1
  apply (acknowledges intent event_id) c = (acknowledge codec intent event_id c).1
  apply (acknowledges_known session accepted) c =
      (acknowledge_known_events codec session accepted c).1

  unfoldable pub run : Channel → List Operation → Channel
  unfolding apply
  run c [] = c
  run c (o ∷ ops) = run (apply o c) ops

  -- An acknowledgement that is there stays, with the same content.
  abbrev Holds : String → Dict → Channel → Type 0
  Holds reference d c = file reference c.acks ≡ some d

  module _ (reference : String) (d : Dict) where
    persist_intent-Holds :
        (session event : String) (packet : Dict) (r now : String) (c : Channel)
        → Holds reference d c
        → Holds reference d (persist_intent codec session event packet r now c).1
    unfolding persist_intent persisted
    persist_intent-Holds session event packet r now c h = ground arith

    collect-Holds :
        (validator : Dict → Bool) (intent : TerminalEventIntent) (c : Channel)
        → Holds reference d c
        → Holds reference d (collect codec validator intent c).1
    unfolding collect collected discard
    collect-Holds validator intent c h = ground arith

    acknowledge-Holds :
        (intent : TerminalEventIntent) (event_id : String) (c : Channel)
        → Holds reference d c
        → Holds reference d (acknowledge codec intent event_id c).1
    unfolding acknowledge acknowledged clear
    acknowledge-Holds intent event_id c h = ground (
      arith,
      file-save intent.reference_id reference (ack_payload codec intent event_id) c.acks,
      eq_iff intent.reference_id reference,
    )

    prepend-Holds :
        (r : String) (m : Answer (List String))
        → Holds reference d m.1
        → Holds reference d (prepend codec r m).1
    unfolding prepend
    prepend-Holds r (ok refs, c) h = h
    prepend-Holds r (err x, c) h = h

    and_then-Holds :
        (r : String) (m : Answer Unit) (rest : Channel → Answer (List String))
        → Holds reference d m.1
        → ((c : Channel) → Holds reference d c → Holds reference d (rest c).1)
        → Holds reference d (and_then codec r m rest).1
    unfolding and_then prepend
    and_then-Holds r (err x, c) rest h k = h
    and_then-Holds r (ok u, c) rest h k = prepend-Holds r (rest c) (k c h)

    settle_known-Holds :
        (accepted : List String) (r raw : String)
        (i : Result SessionError (Option TerminalEventIntent)) (c : Channel)
        (rest : Channel → Answer (List String))
        → Holds reference d c
        → ((u : Channel) → Holds reference d u → Holds reference d (rest u).1)
        → Holds reference d (settle_known codec accepted r raw i c rest).1
    unfolding settle_known
    settle_known-Holds accepted r raw (err x) c rest h k = h
    settle_known-Holds accepted r raw (ok none) c rest h k = k c h
    settle_known-Holds accepted r raw (ok (some intent)) c rest h k =
        elim (Option-cases (known_event codec accepted intent (codec.loads raw))) [
          | inl n ↦ rw (n, settle_known) (k c h)
          | inr (id, e) ↦
              rw (e, settle_known)
                (and_then-Holds r (acknowledge codec intent id c) rest
                  (acknowledge-Holds intent id c h) k)
        ]

    known_loop-Holds :
        (session : String) (accepted : List String) (files : List (String × String)) (c : Channel)
        → Holds reference d c
        → Holds reference d (known_loop codec session accepted files c).1
    unfolding known_loop
    known_loop-Holds session accepted [] c h = h
    known_loop-Holds session accepted ((r, raw) ∷ files) c h =
        settle_known-Holds accepted r raw (read_intent codec session r c) c
          (known_loop codec session accepted files) h
          (λ c₁ h₁. known_loop-Holds session accepted files c₁ h₁)

    apply-Holds :
        (o : Operation) (c : Channel) → Holds reference d c → Holds reference d (apply o c)
    unfolding apply mark_notified acknowledge_known_events
    apply-Holds (persists session event packet r now) c h =
        persist_intent-Holds session event packet r now c h
    apply-Holds (notifies intent) c h = h
    apply-Holds (writes r raw) c h = h
    apply-Holds (collects validator intent) c h = collect-Holds validator intent c h
    apply-Holds (acknowledges intent event_id) c h = acknowledge-Holds intent event_id c h
    apply-Holds (acknowledges_known session accepted) c h =
        known_loop-Holds session accepted c.outbox c h

    run-Holds :
        (c : Channel) (ops : List Operation) → Holds reference d c → Holds reference d (run c ops)
    unfolding run
    run-Holds c [] h = h
    run-Holds c (o ∷ ops) h = run-Holds (apply o c) ops (apply-Holds o c h)

  -- Once a result is acknowledged, no sequence of operations, the agent's writing of new results
  -- among them, makes `collect` return a result of that reference again.
  pub acknowledged-collect :
      (validator : Dict → Bool) (intent : TerminalEventIntent) (event_id : String) (c c' : Channel)
      (ops : List Operation)
      → acknowledge codec intent event_id c ≡ (ok tt, c')
      → collect codec validator intent (run c' ops) ≡ (ok none, run c' ops)
  unfolding collect
  acknowledged-collect validator intent event_id c c' ops e =
      let (d, a, i, n, o) = acknowledge-file codec intent event_id c c' e in
      rw (run-Holds intent.reference_id d c' ops a) refl
