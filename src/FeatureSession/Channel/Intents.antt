-- ===== src/FeatureSession/Channel/Intents.antt =====
-- Persisting one intent twice, and reading it back.
use design_document.Base.{
  String, ◌≡◌, ◌≢◌, refl, true, none, some, ◌==◌, eq_iff, eq_refl, arith, if◌then◌else◌, ok, err,
}
use design_document.Json.{str, Dict, pop, set}
use design_document.Session.State.{recovery_error}
use design_document.FeatureSession.Channel.{
  Codec, Channel, Answer, TerminalEventIntent, file, is_signed, unsigned_sha, intent_payload,
  persisted, persist_intent,
}
use design_document.FeatureSession.Channel.Files.{file-save_self}

module _ (codec : Codec) (session_id event_reference : String) (packet : Dict)
    (reference : String) where
  abbrev payload : String → Dict
  payload now = intent_payload codec session_id event_reference packet reference now

  -- The digest of the intent at a time.
  abbrev pub stamp : String → String
  stamp now = codec.sha (codec.canonical (payload now))

  -- The file that `persist_intent` writes.
  abbrev signed : String → Dict
  signed now = set "intent_sha256" (str (stamp now)) (payload now)

  unsigned-signed : (now : String) → pop "intent_sha256" (signed now) ≡ payload now
  unfolding intent_payload
  unsigned-signed now = refl

  signed-is_signed :
      (now : String)
      → (is_signed codec (signed now) ≡ true) × (unsigned_sha codec (signed now) ≡ stamp now)
  unfolding is_signed unsigned_sha intent_payload
  signed-is_signed now = (eq_refl (stamp now), refl)

  abbrev intent_at : String → TerminalEventIntent
  intent_at now = record {
    reference_id = reference;
    session_id = session_id;
    event_reference = event_reference;
    intent_sha256 = stamp now;
    packet_sha256 = codec.sha (codec.canonical packet);
  }

  abbrev persist : String → Channel → Answer TerminalEventIntent
  persist now c = persist_intent codec session_id event_reference packet reference now c

  -- The first call for a reference.
  persist-signed :
      (now : String) (i : TerminalEventIntent) (c c' : Channel)
      → file reference c.inbox ≡ none
      → persist now c ≡ (ok i, c')
      → (i ≡ intent_at now) × (file reference c'.inbox ≡ some (signed now))
  unfolding persist_intent persisted
  persist-signed now i c c' n e =
      (ground arith, ground (arith, file-save_self reference (signed now) c.inbox))

  -- What `persist_intent` makes at another time of the file that is there.
  persist-later :
      (now later : String) (i : TerminalEventIntent) (c c' : Channel)
      → file reference c.inbox ≡ none
      → persist now c ≡ (ok i, c')
      → persist later c' ≡ (
          if stamp now == stamp later
          then (ok (intent_at later), c')
          else (err (recovery_error "terminal intent reference collision"), c'))
  unfolding persist_intent persisted
  persist-later now later i c c' n e =
      ground (arith, persist-signed now i c c' n e, signed-is_signed now)

  -- A reference that was persisted once is answered again with the same intent in the same instant;
  -- at a later time, where the digest of the intent is another one, `persist_intent` raises a
  -- collision, although nothing but the time has changed.
  pub persist-collides :
      (now later : String) (i : TerminalEventIntent) (c c' : Channel)
      → file reference c.inbox ≡ none
      → persist now c ≡ (ok i, c')
      → stamp now ≢ stamp later
      → (persist now c' ≡ (ok i, c'))
        × (persist later c' ≡ (err (recovery_error "terminal intent reference collision"), c'))
  persist-collides now later i c c' n e d = (
    ground (
      arith,
      persist-later now now i c c' n e,
      persist-signed now i c c' n e,
      eq_refl (stamp now),
    ),
    ground (arith, persist-later now later i c c' n e, eq_iff (stamp now) (stamp later)),
  )
