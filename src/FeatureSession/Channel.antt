-- ===== src/FeatureSession/Channel.antt =====
-- src/ai_runtime/runtime/feature_sessions.py: `StructuredTerminalEventChannel`, the inbox, outbox,
-- acknowledgements and diagnostics of one session. A directory is a list of named files. A file that
-- the runtime writes is the object in it; a result, which the agent writes, is its text. Time stamps
-- are kept only where a digest covers them.
pub mod Files
pub mod Known
pub mod Delivery
pub mod Intents
pub mod History
use design_document.Base.{
  ℕ, String, Bool, true, false, not, ◌&&◌, ◌||◌, Option, none, some, List, [], ◌∷◌, ◌++◌, map, ◌==◌,
  ltb, nat_eq, length, any, if◌then◌else◌, Result, ok, err,
}
use design_document.Json.{Value, str, int, obj, Dict, empty, entry, get, get_str, get_obj, pop, set}
use design_document.Identifier.{is_safe_identifier}
use design_document.Session.State.{SessionError, unavailable_error, recovery_error, value_error}

-- What the source calls: canonical JSON, its parser, SHA-256, and the length in bytes.
pub record Codec : Type 0 where
  pub canonical : Dict → String
  pub loads : String → Option Value
  pub sha : String → String
  pub size : String → ℕ

module _ {A : Type 0} where
  unfoldable pub file : String → List (String × A) → Option A
  file name [] = none
  file name ((n, a) ∷ files) = if n == name then some a else file name files

  -- `_atomic_json` and `os.replace`: the file is there afterwards, with this content.
  unfoldable pub save : String → A → List (String × A) → List (String × A)
  save name a [] = (name, a) ∷ []
  save name a ((n, b) ∷ files) =
      let rest = save name a files in if n == name then (n, a) ∷ files else (n, b) ∷ rest

  -- `unlink(missing_ok=True)`
  unfoldable pub unlink : String → List (String × A) → List (String × A)
  unlink name [] = []
  unlink name ((n, b) ∷ files) =
      let rest = unlink name files in if n == name then rest else (n, b) ∷ rest

  abbrev pub names : List (String × A) → List String
  names files = map (λ f. f.0) files

abbrev pub exists : {A : Type 0} → Option A → Bool
exists none = false
exists (some a) = true

pub record Channel : Type 0 where
  pub inbox : List (String × Dict)
  pub outbox : List (String × String)
  pub acks : List (String × Dict)
  pub deliveries : List (String × Dict)
  pub diagnostics : List (String × Dict)

pub record TerminalEventIntent : Type 0 where
  pub reference_id : String
  pub session_id : String
  pub event_reference : String
  pub intent_sha256 : String
  pub packet_sha256 : String

pub record StructuredTerminalResult : Type 0 where
  pub reference_id : String
  pub session_id : String
  pub event : Dict
  pub result_sha256 : String

-- What was written before a raise stays written.
abbrev pub Answer : Type 0 → Type 0
Answer A = Result SessionError A × Channel

abbrev pub has_text : String → String → Dict → Bool
has_text key expected d = elim (get_str key d) [ none ↦ false | some s ↦ s == expected ]

module _ (codec : Codec) where
  -- `intent_payload`
  unfoldable pub intent_payload : String → String → Dict → String → String → Dict
  intent_payload session_id event_reference packet reference now =
      entry "reference_id" (str reference) (
        entry "session_id" (str session_id) (
          entry "event_reference" (str event_reference) (
            entry "packet" (obj packet) (
              entry "packet_sha256" (str (codec.sha (codec.canonical packet)))
                (entry "created_at" (str now) (entry "status" (str "PERSISTED") empty))))))

  unfoldable pub unsigned_sha : Dict → String
  unsigned_sha d = codec.sha (codec.canonical (pop "intent_sha256" d))

  -- `existing.get("intent_sha256") == existing_sha`
  unfoldable pub is_signed : Dict → Bool
  unfolding unsigned_sha
  is_signed d = has_text "intent_sha256" (unsigned_sha d) d

  persisted : Dict → TerminalEventIntent → Option Dict → Channel → Answer TerminalEventIntent
  unfolding is_signed save
  persisted payload intent none c = (
    ok intent,
    record c {
      inbox =
          save intent.reference_id (set "intent_sha256" (str intent.intent_sha256) payload) c.inbox;
    },
  )
  persisted payload intent (some existing) c =
      if not (is_signed existing) || not (unsigned_sha existing == intent.intent_sha256)
      then (err (recovery_error "terminal intent reference collision"), c)
      else (ok intent, c)

  -- `persist_intent`, with the reference that is given or generated, at the time `now`.
  unfoldable pub persist_intent :
      String → String → Dict → String → String → Channel → Answer TerminalEventIntent
  unfolding intent_payload persisted file
  persist_intent session_id event_reference packet reference now c =
      let payload = intent_payload session_id event_reference packet reference now in
      let intent : TerminalEventIntent = record {
        reference_id = reference;
        session_id = session_id;
        event_reference = event_reference;
        intent_sha256 = codec.sha (codec.canonical payload);
        packet_sha256 = codec.sha (codec.canonical packet);
      } in
      if not (is_safe_identifier 128 event_reference)
      then (err (value_error "event_reference"), c)
      else if not (is_safe_identifier 128 reference)
      then (err (value_error "reference_id"), c)
      else if ltb 131072 (codec.size (codec.canonical packet))
      then (err (unavailable_error "terminal event packet exceeds 128 KiB"), c)
      else persisted payload intent (file reference c.inbox) c

  unfoldable pub mark_notified : TerminalEventIntent → Channel → Channel
  unfolding save
  mark_notified intent c = record c {
    deliveries =
        save intent.reference_id
          (entry "reference_id" (str intent.reference_id) (
            entry "intent_sha256" (str intent.intent_sha256)
              (entry "status" (str "NOTIFIED") empty)))
          c.deliveries;
  }

  -- The raw result goes, and a diagnostic that does not quote it stays.
  unfoldable pub discard : TerminalEventIntent → String → String → Channel → Channel
  unfolding save unlink
  discard intent raw status c = record c {
    outbox = unlink intent.reference_id c.outbox;
    diagnostics =
        save intent.reference_id
          (entry "reference_id_sha256" (str (codec.sha intent.reference_id)) (
            entry "raw_sha256" (str (codec.sha raw))
              (entry "raw_bytes" (int (codec.size raw)) (entry "exit_status" (str status) empty))))
          c.diagnostics;
  }

  -- The envelope's event, if the envelope is the intent's and the validator accepts it.
  accepted_event : (Dict → Bool) → TerminalEventIntent → Option Value → Option Dict
  accepted_event validator intent (some (obj envelope)) =
      if has_text "reference_id" intent.reference_id envelope
        && has_text "session_id" intent.session_id envelope
        && has_text "intent_sha256" intent.intent_sha256 envelope
      then elim (get_obj "event" envelope) [
        | none ↦ none
        | some event ↦ if validator event then some event else none
      ]
      else none
  accepted_event validator intent _ = none

  collected :
      (Dict → Bool)
      → TerminalEventIntent
      → String
      → Channel
      → Answer (Option StructuredTerminalResult)
  unfolding discard accepted_event
  collected validator intent raw c =
      if ltb 1048576 (codec.size raw)
      then (
        err (recovery_error "oversized structured terminal result was discarded"),
        discard intent raw "OVERSIZED" c,
      )
      else elim (accepted_event validator intent (codec.loads raw)) [
        | none ↦ (
          err (recovery_error "invalid structured terminal result was discarded"),
          discard intent raw "INVALID" c,
        )
        | some event ↦ (
          ok (
              some (record {
                reference_id = intent.reference_id;
                session_id = intent.session_id;
                event = event;
                result_sha256 = codec.sha raw;
              })),
          c,
        )
      ]

  -- `collect`; `validator` says whether the caller's check returns.
  unfoldable pub collect :
      (Dict → Bool) → TerminalEventIntent → Channel → Answer (Option StructuredTerminalResult)
  unfolding collected file
  collect validator intent c =
      if exists (file intent.reference_id c.acks)
      then (ok none, c)
      else elim (file intent.reference_id c.outbox) [
        | none ↦ (ok none, c)
        | some raw ↦ collected validator intent raw c
      ]

  -- The three `unlink`s at the end of `acknowledge`.
  unfoldable pub clear : String → Channel → Channel
  unfolding unlink
  clear reference c = record c {
    inbox = unlink reference c.inbox;
    outbox = unlink reference c.outbox;
    deliveries = unlink reference c.deliveries;
  }

  abbrev pub ack_payload : TerminalEventIntent → String → Dict
  ack_payload intent event_id = entry "reference_id" (str intent.reference_id) (
      entry "intent_sha256" (str intent.intent_sha256) (
        entry "accepted_event_id" (str event_id)
          (entry "accepted_event_id_sha256" (str (codec.sha event_id)) empty)))

  acknowledged : TerminalEventIntent → String → Option Dict → Channel → Answer Unit
  unfolding clear save
  acknowledged intent event_id none c = (
    ok tt,
    clear intent.reference_id
        (record c { acks = save intent.reference_id (ack_payload intent event_id) c.acks }),
  )
  acknowledged intent event_id (some existing) c =
      if not (has_text "intent_sha256" intent.intent_sha256 existing)
        || not (has_text "accepted_event_id" event_id existing)
      then (err (recovery_error "terminal result acknowledgement conflict"), c)
      else (ok tt, clear intent.reference_id c)

  unfoldable pub acknowledge : TerminalEventIntent → String → Channel → Answer Unit
  unfolding acknowledged file
  acknowledge intent event_id c =
      if not (is_safe_identifier 128 event_id)
      then (err (value_error "accepted_event_id"), c)
      else acknowledged intent event_id (file intent.reference_id c.acks) c

  abbrev pub pending_results : Channel → List String
  pending_results c = names c.outbox

  pub record Cleanup : Type 0 where
    pub cleaned : Bool
    pub pending_results : ℕ
    pub pending_intents : ℕ

  unfoldable pub cleanup_session : Channel → Cleanup
  cleanup_session c = record {
    cleaned = nat_eq (length c.outbox) 0 && nat_eq (length c.inbox) 0;
    pending_results = length c.outbox;
    pending_intents = length c.inbox;
  }
