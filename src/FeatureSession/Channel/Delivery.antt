-- ===== src/FeatureSession/Channel/Delivery.antt =====
-- One result: persisted, collected, acknowledged.
use design_document.Base.{
  String, ◌≡◌, refl, Bool, true, false, Option, none, some, eq_iff, eq_refl, arith, ok, err, ltb,
  Bool-cases, Option-cases, inl, inr, ◌≢◌,
}
use design_document.Json.{Value, str, obj, Dict, get_str, get_obj}
use design_document.Identifier.{is_safe_identifier}
use design_document.Session.State.{recovery_error}
use design_document.FeatureSession.Channel.{
  Codec, Channel, Answer, TerminalEventIntent, StructuredTerminalResult, file, has_text,
  accepted_event, collected, collect, discard, clear, acknowledged, acknowledge, ack_payload,
}
use design_document.FeatureSession.Channel.Files.{file-save_self, file-unlink_self}

module _ (codec : Codec) where
  -- The envelope that the agent wrote, and what of it was checked.
  pub record IsFrom (validator : Dict → Bool) (intent : TerminalEventIntent) (raw : String)
      (event : Dict) : Type 0 where
    pub envelope : Dict
    pub parsed : codec.loads raw ≡ some (obj envelope)
    pub reference : has_text "reference_id" intent.reference_id envelope ≡ true
    pub session : has_text "session_id" intent.session_id envelope ≡ true
    pub intended : has_text "intent_sha256" intent.intent_sha256 envelope ≡ true
    pub carried : get_obj "event" envelope ≡ some event
    pub valid : validator event ≡ true

  accepted_event-IsFrom :
      (validator : Dict → Bool) (intent : TerminalEventIntent) (raw : String) (v : Option Value)
      (event : Dict)
      → codec.loads raw ≡ v
      → accepted_event codec validator intent v ≡ some event
      → IsFrom validator intent raw event
  unfolding accepted_event
  accepted_event-IsFrom validator intent raw none event p e = cc
  accepted_event-IsFrom validator intent raw (some Value.null) event p e = cc
  accepted_event-IsFrom validator intent raw (some (Value.bool _)) event p e = cc
  accepted_event-IsFrom validator intent raw (some (Value.int _)) event p e = cc
  accepted_event-IsFrom validator intent raw (some (Value.negative _)) event p e = cc
  accepted_event-IsFrom validator intent raw (some (Value.float _)) event p e = cc
  accepted_event-IsFrom validator intent raw (some (str _)) event p e = cc
  accepted_event-IsFrom validator intent raw (some (Value.arr _)) event p e = cc
  accepted_event-IsFrom validator intent raw (some (obj envelope)) event p e = record {
    envelope = envelope;
    parsed = p;
    reference = ground arith;
    session = ground arith;
    intended = ground arith;
    carried = ground arith;
    valid = ground arith;
  }

  -- A result that `collect` returns.
  pub record IsDelivered (validator : Dict → Bool) (intent : TerminalEventIntent) (c : Channel)
      (r : StructuredTerminalResult) : Type 0 where
    pub unacknowledged : file intent.reference_id c.acks ≡ none
    pub raw : String
    pub written : file intent.reference_id c.outbox ≡ some raw
    pub from : IsFrom validator intent raw r.event
    pub named : r.reference_id ≡ intent.reference_id

  -- A result that is gone.
  abbrev pub IsGone : TerminalEventIntent → Channel → Type 0
  IsGone intent c =
      (file intent.reference_id c.outbox ≡ none) × (file intent.reference_id c.acks ≡ none)

  abbrev pub Collected :
      (Dict → Bool)
      → TerminalEventIntent
      → Channel
      → Answer (Option StructuredTerminalResult)
      → Type 0
  Collected validator intent c (ok none, c') = c' ≡ c
  Collected validator intent c (ok (some r), c') = (c' ≡ c) × IsDelivered validator intent c r
  Collected validator intent c (err x, c') = IsGone intent c'

  discard-IsGone :
      (intent : TerminalEventIntent) (raw status : String) (c : Channel)
      → file intent.reference_id c.acks ≡ none
      → IsGone intent (discard codec intent raw status c)
  unfolding discard
  discard-IsGone intent raw status c e = (file-unlink_self intent.reference_id c.outbox, e)

  collected-Collected :
      (validator : Dict → Bool) (intent : TerminalEventIntent) (raw : String) (c : Channel)
      → file intent.reference_id c.acks ≡ none
      → file intent.reference_id c.outbox ≡ some raw
      → Collected validator intent c (collected codec validator intent raw c)
  unfolding collected
  collected-Collected validator intent raw c a w =
      elim (Bool-cases (ltb 1048576 (codec.size raw))) [
        | inl big ↦ rw (big, collected) (discard-IsGone intent raw "OVERSIZED" c a)
        | inr small ↦
            elim (Option-cases (accepted_event codec validator intent (codec.loads raw))) [
              | inl n ↦ rw (small, collected, n) (discard-IsGone intent raw "INVALID" c a)
              | inr (event, e) ↦
                  rw (small, collected, e)
                    (
                      refl,
                      record {
                        unacknowledged = a;
                        raw = raw;
                        written = w;
                        from =
                            accepted_event-IsFrom validator intent raw (codec.loads raw) event refl
                              e;
                        named = refl;
                      },
                    )
            ]
      ]

  -- `collect` returns a result only if it was not acknowledged, is the intent's own by reference,
  -- session and digest, and passes the validator, and then changes nothing; without a result it
  -- changes nothing either; and when it raises, the result is gone.
  pub collect-Collected :
      (validator : Dict → Bool) (intent : TerminalEventIntent) (c : Channel)
      → Collected validator intent c (collect codec validator intent c)
  unfolding collect
  collect-Collected validator intent c = elim (Option-cases (file intent.reference_id c.acks)) [
    | inr (d, a) ↦ rw (a, collect) refl
    | inl a ↦ elim (Option-cases (file intent.reference_id c.outbox)) [
      | inl w ↦ rw (a, collect, w) refl
      | inr (raw, w) ↦ rw (a, collect, w) (collected-Collected validator intent raw c a w)
    ]
  ]

  pub acknowledge-file :
      (intent : TerminalEventIntent) (event_id : String) (c c' : Channel)
      → acknowledge codec intent event_id c ≡ (ok tt, c')
      → (d : Dict) × (file intent.reference_id c'.acks ≡ some d)
        × (has_text "intent_sha256" intent.intent_sha256 d ≡ true)
        × (has_text "accepted_event_id" event_id d ≡ true)
        × (file intent.reference_id c'.outbox ≡ none)
  unfolding acknowledge acknowledged clear
  acknowledge-file intent event_id c c' e = elim (Option-cases (file intent.reference_id c.acks)) [
    | inl a ↦ (
      ack_payload codec intent event_id,
      ground (arith, file-save_self intent.reference_id (ack_payload codec intent event_id) c.acks),
      ground (arith, eq_refl intent.intent_sha256),
      ground (arith, eq_refl event_id),
      ground (arith, file-unlink_self intent.reference_id c.outbox),
    )
    | inr (d, a) ↦ (
      d,
      ground arith,
      ground arith,
      ground arith,
      ground (arith, file-unlink_self intent.reference_id c.outbox),
    )
  ]

  has_text-other :
      (key a b : String) (d : Dict) → has_text key a d ≡ true → a ≢ b → has_text key b d ≡ false
  has_text-other key a b d h n = elim (Option-cases (get_str key d)) [
    | inl e ↦ ground arith
    | inr (x, e) ↦ ground (arith, eq_iff x a, eq_iff x b)
  ]

  -- After an acknowledgement no result of its reference is collected again.
  pub acknowledge-collect :
      (validator : Dict → Bool) (intent : TerminalEventIntent) (event_id : String) (c c' : Channel)
      → acknowledge codec intent event_id c ≡ (ok tt, c')
      → collect codec validator intent c' ≡ (ok none, c')
  unfolding collect
  acknowledge-collect validator intent event_id c c' e =
      let (d, a, i, n, o) = acknowledge-file intent event_id c c' e in rw a refl

  -- An acknowledgement is for one event: with another one, `acknowledge` raises and changes nothing.
  pub acknowledge-once :
      (intent : TerminalEventIntent) (event_id other : String) (c c' : Channel)
      → acknowledge codec intent event_id c ≡ (ok tt, c')
      → is_safe_identifier 128 other ≡ true
      → event_id ≢ other
      → acknowledge codec intent other c'
        ≡ (err (recovery_error "terminal result acknowledgement conflict"), c')
  unfolding acknowledge acknowledged
  acknowledge-once intent event_id other c c' e s n =
      let (d, a, i, k, o) = acknowledge-file intent event_id c c' e in
      let f = has_text-other "accepted_event_id" event_id other d k n in
      rw (acknowledge, s, acknowledged, a, i, f) refl
