-- ===== src/Store/Event.antt =====
-- src/ai_runtime/store/event_store.py: `prepare_event` and its helpers, in the source's order of
-- checks.
pub mod Valid
use Prim.Native.Char.{Char, code}
use Prim.Native.String
use Prim.Native.String.{count}
use design_document.Base.{
  ℕ, zero, suc, String, Bool, true, false, not, ◌&&◌, ◌||◌, Option, none, some, List, [], ◌∷◌, any,
  ◌==◌, nat_eq, leb, if◌then◌else◌, Result, ok, err, ◌>>=◌, ◌>>◌, guard, or_raise,
}
use design_document.Json.{
  Value, null, bool, int, negative, str, obj, Dict, get, get_str, get_obj, get_nat, pop,
}
use design_document.Store.Errors.{
  StoreError, not_object, not_text, refused, unsupported_protocol, unsupported_type, bad_timestamp,
  no_timezone, bad_sequence, bad_causation, bad_digest_length, bad_digest, not_canonical,
  integrity_mismatch, payload_missing,
}

-- What the module calls: `json.dumps` with sorted keys and compact separators (`none` where it
-- raises on a non-finite number), `json.loads`, `hashlib.sha256` in hexadecimal, and the time zone
-- that `datetime.fromisoformat` reads (`none` where it raises).
pub record Platform : Type 0 where
  pub dumps : Value → Option String
  pub loads : String → Option Value
  pub sha256 : String → String
  pub fromisoformat : String → Option Bool

-- A caller's extra check of an event, `none` where it returns and the message where it raises.
abbrev pub Validator : Type 0
Validator = Option (Dict → Option String)

-- Validated columns of one event.
pub record PreparedEvent : Type 0 where
  pub event_id : String
  pub event_type : String
  pub timestamp : String
  pub aggregate_stream : String
  pub sequence : ℕ
  pub idempotency_key : String
  pub causation : Option String
  pub correlation : String
  pub sha256 : String
  pub payload : String
  pub headers : String

abbrev pub protocol_version : String
protocol_version = "ai-runtime.events/v1"

abbrev pub event_types : List String
event_types =
    "feature.requested" ∷ "plan.ready" ∷ "plan.approved" ∷ "implementation.progress"
    ∷ "implementation.ready" ∷ "review.requested" ∷ "changes.requested" ∷ "feature.blocked"
    ∷ "feature.unblocked" ∷ "merge.approved" ∷ "merge.started" ∷ "merge.completed"
    ∷ "knowledge.sync.requested" ∷ "knowledge.synchronized" ∷ "knowledge.evolution.started"
    ∷ "knowledge.snapshot.published" ∷ "cache.invalidated" ∷ "session.lineage.recorded"
    ∷ "session.unavailable" ∷ "lease.granted" ∷ "lease.revoked" ∷ "event.rejected" ∷ []

unfoldable pub is_event_type : String → Bool
is_event_type t = any (λ s. s == t) event_types

unfoldable pub required_mapping : Dict → String → Result StoreError Dict
required_mapping d key = or_raise (get_obj key d) (not_object key)

abbrev pub non_empty : String → Option String
non_empty s = if s == "" then none else some s

unfoldable pub required_text : Dict → String → Result StoreError String
required_text d key = elim (get_str key d) [
  | none ↦ err (not_text key)
  | some s ↦ or_raise (non_empty s) (not_text key)
]

is_hex_digit : ℕ → Bool
is_hex_digit c =
    (leb b'0' c && leb c b'9') || (leb b'a' c && leb c b'f') || (leb b'A' c && leb c b'F')

is_space : ℕ → Bool
is_space c = nat_eq c 32 || (leb 9 c && leb c 13)

-- `bytes.fromhex` does not raise: pairs of digits, with white space between the pairs.
unfoldable pub fromhex : Bool → String → Bool
unfolding is_hex_digit is_space
fromhex half String.[] = not half
fromhex half (String.◌∷◌ c s) =
    let digit = is_hex_digit (code c) in
    (digit || (is_space (code c) && not half)) && fromhex (if digit then not half else half) s

-- `str.lower` on what `fromhex` lets through.
lower_digit : Char → Char
lower_digit c =
    if nat_eq (code c) b'A'
    then "a"
    else if nat_eq (code c) b'B'
    then "b"
    else if nat_eq (code c) b'C'
    then "c"
    else if nat_eq (code c) b'D'
    then "d"
    else if nat_eq (code c) b'E'
    then "e"
    else if nat_eq (code c) b'F'
    then "f"
    else c

unfoldable pub lower : String → String
unfolding lower_digit
lower String.[] = String.[]
lower (String.◌∷◌ c s) = String.◌∷◌ (lower_digit c) (lower s)

-- `isinstance(sequence, int)`, no `bool`, and positive.
positive_int : Dict → Result StoreError ℕ
positive_int aggregate = elim (get_nat "sequence" aggregate) [
  | some (suc n) ↦ ok (suc n)
  | _ ↦ err bad_sequence
]

-- `None`, absent, or a non-empty text.
optional_text : Dict → Result StoreError (Option String)
optional_text event = elim (get "causation_id" event) [
  | none ↦ ok none
  | some null ↦ ok none
  | some (str s) ↦ if s == "" then err bad_causation else ok (some s)
  | _ ↦ err bad_causation
]

unfoldable pub validate : Validator → Dict → Result StoreError Unit
validate none event = ok tt
validate (some check) event = elim (check event) [ none ↦ ok tt | some why ↦ err (refused why) ]

module _ (platform : Platform) where
  unfoldable pub canonical_json : Value → Result StoreError String
  canonical_json v = or_raise (platform.dumps v) not_canonical

  unfoldable pub content_sha256 : Dict → Result StoreError String
  unfolding canonical_json
  content_sha256 event = do
    text ← canonical_json (obj (pop "integrity" event))
    ok (platform.sha256 text)

  check_time : String → Result StoreError Unit
  check_time timestamp = do
    aware ← or_raise (platform.fromisoformat timestamp) bad_timestamp
    guard aware no_timezone

  payload_of : Dict → Result StoreError Dict
  payload_of event = elim (get "payload" event) [
    | none ↦ err payload_missing
    | some (obj d) ↦ ok d
    | some _ ↦ err (not_object "payload")
  ]

  prepare_mapping : Validator → Dict → Result StoreError PreparedEvent
  prepare_mapping validator event = do
    validate validator event
    aggregate ← required_mapping event "aggregate"
    integrity ← required_mapping event "integrity"
    producer ← required_mapping event "producer"
    event_id ← required_text event "event_id"
    event_type ← required_text event "type"
    timestamp ← required_text event "occurred_at"
    protocol ← required_text event "protocol"
    guard (protocol == protocol_version) unsupported_protocol
    guard (is_event_type event_type) (unsupported_type event_type)
    session ← required_text producer "session_id"
    role ← required_text producer "role"
    adapter ← required_text producer "adapter"
    version ← required_text producer "adapter_version"
    feature ← required_text aggregate "feature_id"
    policy ← required_text event "policy_revision"
    check_time timestamp
    stream ← required_text aggregate "stream"
    key ← required_text event "idempotency_key"
    correlation ← required_text event "correlation_id"
    stored_sha ← required_text integrity "content_sha256"
    sequence ← positive_int aggregate
    causation ← optional_text event
    guard (nat_eq (count stored_sha) 64) bad_digest_length
    guard (fromhex false stored_sha) bad_digest
    computed_sha ← content_sha256 event
    guard (lower stored_sha == computed_sha) integrity_mismatch
    payload ← payload_of event
    payload_json ← canonical_json (obj payload)
    headers ← canonical_json (obj (pop "payload" event))
    ok (record {
      event_id = event_id;
      event_type = event_type;
      timestamp = timestamp;
      aggregate_stream = stream;
      sequence = sequence;
      idempotency_key = key;
      causation = causation;
      correlation = correlation;
      sha256 = lower stored_sha;
      payload = payload_json;
      headers = headers;
    })

  unfoldable pub prepare_event : Validator → Value → Result StoreError PreparedEvent
  unfolding prepare_mapping check_time payload_of positive_int optional_text fromhex
  prepare_event validator (obj event) = prepare_mapping validator event
  prepare_event validator _ = err (not_object "event")
