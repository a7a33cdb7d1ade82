-- ===== src/Feature/NewEvent.antt =====
-- src/ai_runtime/events.py: `new_event`. The clock and the generated id are arguments.
pub mod Accepted
use Prim.Native.String.{◌++◌}
use design_document.Base.{
  ℕ, zero, suc, ◌<◌, String, ◌≡◌, refl, Bool, true, false, Option, none, some, List, [], ◌∷◌, arith,
  any, ◌==◌, eq_iff, eq_refl, nat_eq, if◌then◌else◌, Result, ok, err, ◌>>=◌, ◌>>◌, guard, or_raise,
}
use design_document.Json.{
  Value, null, int, str, arr, obj, nil, Dict, empty, entry, get, get_str, get_obj, get_nat, set,
  pop,
}
use design_document.Store.Errors.{StoreError}
use design_document.Store.Event.{
  Platform, Validator, PreparedEvent, protocol_version, is_event_type, canonical_json,
  content_sha256,
}

pub record Draft : Type 0 where
  pub event_type : String
  pub feature_id : String
  pub sequence : ℕ
  pub producer : Dict
  pub payload : Dict
  pub correlation_id : String
  pub causation_id : Option String
  pub policy_revision : String
  pub idempotency_key : String

abbrev pub or_null : Option String → Value
or_null none = null
or_null (some s) = str s

unfoldable pub stream_of : String → String
stream_of feature_id = "feature/" ++ feature_id

-- The event before its `integrity` entry.
unfoldable pub unsigned_event : Draft → String → String → Dict
unfolding stream_of
unsigned_event d event_id now = entry "event_id" (str event_id) (
    entry "protocol" (str protocol_version) (
      entry "type" (str d.event_type) (
        entry "occurred_at" (str now) (
          entry "producer" (obj d.producer) (
            entry "aggregate"
              (obj (
                entry "feature_id" (str d.feature_id) (
                  entry "stream" (str (stream_of d.feature_id))
                    (entry "sequence" (int d.sequence) empty))))
              (entry "correlation_id" (str d.correlation_id) (
                entry "causation_id" (or_null d.causation_id) (
                  entry "idempotency_key" (str d.idempotency_key) (
                    entry "policy_revision" (str d.policy_revision) (
                      entry "payload" (obj d.payload)
                        (entry "attachments" (arr nil) empty)))))))))))

unfoldable pub integrity_of : String → Dict
integrity_of sha = entry "content_sha256" (str sha) (entry "signature_ref" null empty)

module _ (platform : Platform) where
  -- `event_id or f"evt-{uuid.uuid4().hex}"` is decided by the caller, who passes the id.
  unfoldable pub new_event : Draft → String → String → Result StoreError Dict
  unfolding unsigned_event integrity_of
  new_event d event_id now = do
    sha ← content_sha256 platform (unsigned_event d event_id now)
    ok (set "integrity" (obj (integrity_of sha)) (unsigned_event d event_id now))
