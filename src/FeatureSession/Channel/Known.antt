-- ===== src/FeatureSession/Channel/Known.antt =====
-- src/ai_runtime/runtime/feature_sessions.py: `_read_intent` and `acknowledge_known_events`, by which
-- a restart clears the results whose events the store already has.
use design_document.Base.{
  String, not, ◌&&◌, ◌||◌, Option, none, some, List, [], ◌∷◌, ◌==◌, any, if◌then◌else◌, Result, ok,
  err,
}
use design_document.Json.{Value, obj, Dict, get_str, get_obj}
use design_document.Session.State.{SessionError, recovery_error, value_error}
use design_document.FeatureSession.Channel.{
  Codec, Channel, Answer, TerminalEventIntent, file, has_text, is_signed, unsigned_sha, acknowledge,
}

module _ (codec : Codec) where
  unfoldable pub read_fields :
      String
      → String
      → String
      → Option String
      → Option String
      → Result SessionError TerminalEventIntent
  read_fields session_id reference sha (some event_reference) (some packet) = ok (record {
    reference_id = reference;
    session_id = session_id;
    event_reference = event_reference;
    intent_sha256 = sha;
    packet_sha256 = packet;
  })
  read_fields session_id reference sha _ _ = err (value_error "event_reference")

  -- `_read_intent`; a missing `event_reference` or packet digest is a `KeyError`.
  unfoldable pub read_signed : String → String → Dict → Result SessionError TerminalEventIntent
  unfolding is_signed read_fields
  read_signed session_id reference d =
      if not (has_text "session_id" session_id d) || not (has_text "reference_id" reference d)
      then err (recovery_error "persisted terminal intent identity is invalid")
      else if not (is_signed codec d)
      then err (recovery_error "persisted terminal intent integrity is invalid")
      else read_fields session_id reference (unsigned_sha codec d) (get_str "event_reference" d)
          (get_str "packet_sha256" d)

  unfoldable pub read_intent :
      String → String → Channel → Result SessionError (Option TerminalEventIntent)
  unfolding read_signed file
  read_intent session_id reference c = elim (file reference c.inbox) [
    | none ↦ ok none
    | some d ↦ elim (read_signed session_id reference d) [ ok i ↦ ok (some i) | err x ↦ err x ]
  ]

  -- The accepted event that a result names, if the result is the intent's.
  unfoldable pub known_event : List String → TerminalEventIntent → Option Value → Option String
  known_event accepted intent (some (obj envelope)) = elim (get_obj "event" envelope) [
    | none ↦ none
    | some event ↦ elim (get_str "event_id" event) [
      | none ↦ none
      | some id ↦
          if any (λ a. a == id) accepted
            && has_text "session_id" intent.session_id envelope
            && has_text "intent_sha256" intent.intent_sha256 envelope
          then some id
          else none
    ]
  ]
  known_event accepted intent _ = none

  unfoldable pub prepend : String → Answer (List String) → Answer (List String)
  prepend reference (ok refs, c) = (ok (reference ∷ refs), c)
  prepend reference (err x, c) = (err x, c)

  unfoldable pub and_then :
      String → Answer Unit → (Channel → Answer (List String)) → Answer (List String)
  unfolding prepend
  and_then reference (err x, c) rest = (err x, c)
  and_then reference (ok u, c) rest = prepend reference (rest c)

  unfoldable pub settle_known :
      List String
      → String
      → String
      → Result SessionError (Option TerminalEventIntent)
      → Channel
      → (Channel → Answer (List String))
      → Answer (List String)
  unfolding known_event acknowledge and_then
  settle_known accepted reference raw (err x) c rest = (err x, c)
  settle_known accepted reference raw (ok none) c rest = rest c
  settle_known accepted reference raw (ok (some intent)) c rest =
      elim (known_event accepted intent (codec.loads raw)) [
        | none ↦ rest c
        | some id ↦ and_then reference (acknowledge codec intent id c) rest
      ]

  -- `acknowledge_known_events`, over the files that its listing of the outbox found.
  unfoldable pub known_loop :
      String → List String → List (String × String) → Channel → Answer (List String)
  unfolding settle_known read_intent
  known_loop session_id accepted [] c = (ok [], c)
  known_loop session_id accepted ((reference, raw) ∷ files) c =
      settle_known accepted reference raw (read_intent session_id reference c) c
        (known_loop session_id accepted files)

  unfoldable pub acknowledge_known_events : String → List String → Channel → Answer (List String)
  unfolding known_loop
  acknowledge_known_events session_id accepted c = known_loop session_id accepted c.outbox c
