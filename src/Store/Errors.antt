-- ===== src/Store/Errors.antt =====
-- src/ai_runtime/store/event_store.py: the exceptions, one constructor for each `raise`, with the
-- field or the number that the message names.
use design_document.Base.{ℕ, String}

pub data StoreError : Type 0 where
  not_object : String → StoreError
  not_text : String → StoreError
  refused : String → StoreError
  unsupported_protocol : StoreError
  unsupported_type : String → StoreError
  bad_timestamp : StoreError
  no_timezone : StoreError
  bad_sequence : StoreError
  bad_causation : StoreError
  bad_digest_length : StoreError
  bad_digest : StoreError
  not_canonical : StoreError
  integrity_mismatch : StoreError
  payload_missing : StoreError
  idempotency_conflict : StoreError
  event_id_conflict : StoreError
  sequence_conflict : ℕ → StoreError
  invariant_violation : StoreError
  store_closed : StoreError
  unresolved : StoreError
  corrupt : ℕ → StoreError
  -- Any exception that is no `EventStoreError`: a failing disk, a locked database, an interrupt.
  interrupted : StoreError
