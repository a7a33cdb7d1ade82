-- ===== src/Feature/NewEvent/Accepted.antt =====
-- The events that the runtime builds pass the store's validation, and project as they were meant.
use Prim.Native.String.{count}
use design_document.Base.{
  ◌<◌, String, ◌≡◌, refl, Bool, true, false, Option, none, some, arith, ◌==◌, eq_refl,
  if◌then◌else◌, ok,
}
use design_document.Json.{obj, Dict, get_str, set, pop}
use design_document.Store.Event.{
  Platform, PreparedEvent, is_event_type, canonical_json, content_sha256, prepare_event,
  required_text, required_mapping, validate, fromhex, lower, protocol_version,
}
use design_document.Feature.NewEvent.{Draft, unsigned_event, stream_of, integrity_of, new_event}
use design_document.Feature.State.{FeatureState, apply_event, project_feature}

abbrev pub no_text : Option String → Bool
no_text none = false
no_text (some s) = s == ""

-- What a draft must have: texts that are not empty, a known type and a positive sequence.
pub record IsComplete (d : Draft) : Type 0 where
  pub known_type : is_event_type d.event_type ≡ true
  pub some_type : (d.event_type == "") ≡ false
  pub feature : (d.feature_id == "") ≡ false
  pub stream : (stream_of d.feature_id == "") ≡ false
  pub positive : 0 < d.sequence
  pub session : (s : String) × (get_str "session_id" d.producer ≡ some s) × ((s == "") ≡ false)
  pub role : (s : String) × (get_str "role" d.producer ≡ some s) × ((s == "") ≡ false)
  pub adapter : (s : String) × (get_str "adapter" d.producer ≡ some s) × ((s == "") ≡ false)
  pub version : (s : String) × (get_str "adapter_version" d.producer ≡ some s) × ((s == "") ≡ false)
  pub correlation : (d.correlation_id == "") ≡ false
  pub cause : no_text d.causation_id ≡ false
  pub policy : (d.policy_revision == "") ≡ false
  pub key : (d.idempotency_key == "") ≡ false

-- What the store relies on: SHA-256 is 64 lower-case hexadecimal digits, and the clock's text is a
-- time with a zone.
pub record IsSound (platform : Platform) (event_id now : String) : Type 0 where
  pub digits : (t : String) → count (platform.sha256 t) ≡ 64
  pub hex : (t : String) → fromhex false (platform.sha256 t) ≡ true
  pub lower_case : (t : String) → lower (platform.sha256 t) ≡ platform.sha256 t
  pub not_empty : (t : String) → (platform.sha256 t == "") ≡ false
  pub time : platform.fromisoformat now ≡ some true
  pub time_text : (now == "") ≡ false
  pub id_text : (event_id == "") ≡ false

module _ (platform : Platform) where
  -- `json.dumps` writes the event, its payload, and the rest of it under any digest: with
  -- `allow_nan=False` it raises for a payload or a producer with a NaN in it.
  pub record IsWritable (d : Draft) (event_id now : String) : Type 0 where
    pub event : (t : String) × (platform.dumps (obj (unsigned_event d event_id now)) ≡ some t)
    pub payload : (t : String) × (platform.dumps (obj d.payload) ≡ some t)
    pub headers :
        (sha : String)
        → (t : String) × (platform.dumps (
              obj (
                pop "payload"
                  (set "integrity" (obj (integrity_of sha)) (unsigned_event d event_id now))))
            ≡ some t)

  -- The columns that validation makes of a complete draft.
  pub record Accepted (d : Draft) (event_id : String) (p : PreparedEvent) : Type 0 where
    pub event_id_kept : p.event_id ≡ event_id
    pub type_kept : p.event_type ≡ d.event_type
    pub stream_kept : p.aggregate_stream ≡ stream_of d.feature_id
    pub sequence_kept : p.sequence ≡ d.sequence
    pub key_kept : p.idempotency_key ≡ d.idempotency_key
    pub causation_kept : p.causation ≡ d.causation_id
    pub correlation_kept : p.correlation ≡ d.correlation_id

  signed-Accepted :
      (d : Draft) (event_id now t payload headers : String)
      → IsComplete d
      → IsSound platform event_id now
      → platform.dumps (obj (unsigned_event d event_id now)) ≡ some t
      → platform.dumps (obj d.payload) ≡ some payload
      → platform.dumps (
          obj (
            pop "payload" (
              set "integrity"
                (obj (integrity_of (platform.sha256 t)))
                (unsigned_event d event_id now))))
        ≡ some headers
      → (p : PreparedEvent) × (prepare_event platform none (
            obj (
              set "integrity"
                (obj (integrity_of (platform.sha256 t)))
                (unsigned_event d event_id now)))
          ≡ ok p)
        × Accepted d event_id p
  unfolding prepare_event unsigned_event integrity_of required_text required_mapping validate
      content_sha256 canonical_json
  signed-Accepted d event_id now t payload headers c s digest body head = (
    record {
      event_id = event_id;
      event_type = d.event_type;
      timestamp = now;
      aggregate_stream = stream_of d.feature_id;
      sequence = d.sequence;
      idempotency_key = d.idempotency_key;
      causation = d.causation_id;
      correlation = d.correlation_id;
      sha256 = platform.sha256 t;
      payload = payload;
      headers = headers;
    },
    ground (
      arith,
      s.digits t,
      s.hex t,
      s.lower_case t,
      s.not_empty t,
      eq_refl (platform.sha256 t),
      eq_refl protocol_version,
    ),
    record {
      event_id_kept = refl;
      type_kept = refl;
      stream_kept = refl;
      sequence_kept = refl;
      key_kept = refl;
      causation_kept = refl;
      correlation_kept = refl;
    },
  )

  -- Every complete draft that `json.dumps` can write becomes an event, and the store's validation accepts it with the draft's
  -- own stream, sequence, key, cause and correlation in the columns.
  pub new_event-Accepted :
      (d : Draft) (event_id now : String)
      → IsComplete d
      → IsSound platform event_id now
      → IsWritable d event_id now
      → (event : Dict) × (p : PreparedEvent) × (new_event platform d event_id now ≡ ok event)
        × (prepare_event platform none (obj event) ≡ ok p)
        × Accepted d event_id p
  unfolding new_event content_sha256 canonical_json unsigned_event integrity_of
  new_event-Accepted d event_id now c s j =
      let (t, digest) = j.event in
      let event =
        set "integrity" (obj (integrity_of (platform.sha256 t))) (unsigned_event d event_id now) in
      let (payload, body) = j.payload in
      let (headers, head) = j.headers (platform.sha256 t) in
      let (p, prepared, kept) =
        signed-Accepted d event_id now t payload headers c s digest body head in
      (event, p, ground arith, prepared, kept)

  -- The event of a draft changes the state of its own feature by the draft's type and payload, and
  -- records the draft's sequence and correlation; the state of any other feature stays as it is.
  pub project_feature-new_event :
      (d : Draft) (event_id now : String) (event : Dict) (s : FeatureState)
      → new_event platform d event_id now ≡ ok event
      → project_feature s event ≡ (
          if d.feature_id == s.feature_id
          then ok (
              apply_event d.event_type d.payload (record s {
                sequence = d.sequence;
                correlation_id = some d.correlation_id;
                last_event_id = some event_id;
              }))
          else ok s)
  unfolding new_event unsigned_event integrity_of project_feature
  project_feature-new_event d event_id now event s made = ground arith
