-- ===== src/Store/Tests.antt =====
-- The store on small inputs: one event of a feature, appended, retried and replayed.
use design_document.Base.{
  ℕ, ◌+◌, String, ◌≡◌, refl, ap, subst, true, false, none, some, List, [], ◌∷◌, arith, length, All,
  Result, ok, err,
}
use design_document.Json.{null, int, str, obj, Dict, empty, entry, set}
use design_document.Store.Errors.{StoreError, not_object}
use design_document.Store.Event.{
  Platform, PreparedEvent, content_sha256, prepare_event, validate, required_mapping, required_text,
  is_event_type, lower,
}
use design_document.Store.Event.Valid.{IsChecked, prepare_event-IsChecked}
use design_document.Store.Table.{
  Row, in_stream, last_sequence, max_position, find_key, find_id, violates,
}
use design_document.Store.Append.{
  EventStore, AppendResult, Outcome, commit_group, append_group, begin, process_item, insert_one,
  expected_sequence, lookup_expected, appended, duplicate_ignored,
}
use design_document.Store.Append.WellFormed.{
  IsWellFormed, commit_group-IsWellFormed, append_group-IsWellFormed,
}
use design_document.Store.Append.Sequential.{append_one, append_each, commit_group-append_each}
use design_document.Store.Append.Identity.{IsValid, append_contract}
use design_document.Store.Append.Retry.{answer, append_one-contract, append_again}
use design_document.Store.Append.Atomic.{Failed, Extends, commit_group-atomic, append_group-Extends}
use design_document.Store.Read.{decode_row, select_events, replay_rows}
use design_document.Store.Read.Replay.{
  select_events-WellFormed, decode_row-intact, replay_rows-append,
}

abbrev digest : String
digest = "aaaaaaaaaaaaaaaaaaaaaaaaaaaaaaaaaaaaaaaaaaaaaaaaaaaaaaaaaaaaaaaa"

abbrev producer : Dict
producer = entry "session_id" (str "s1") (
    entry "role" (str "coordinator")
      (entry "adapter" (str "ai-runtime") (entry "adapter_version" (str "1") empty)))

abbrev body : Dict
body = entry "objective" (str "x") empty

abbrev pub event_dict : Dict
event_dict = entry "event_id" (str "evt-1") (
    entry "protocol" (str "ai-runtime.events/v1") (
      entry "type" (str "feature.requested") (
        entry "occurred_at" (str "2026-01-01T00:00:00+00:00") (
          entry "producer" (obj producer) (
            entry "aggregate"
              (obj (
                entry "feature_id" (str "f1")
                  (entry "stream" (str "feature/f1") (entry "sequence" (int 1) empty))))
              (entry "correlation_id" (str "c1") (
                entry "causation_id" null (
                  entry "idempotency_key" (str "f1:requested") (
                    entry "policy_revision" (str "p1") (
                      entry "integrity" (obj (entry "content_sha256" (str digest) empty))
                        (entry "payload" (obj body) empty)))))))))))

abbrev headers_dict : Dict
headers_dict = entry "integrity" (obj (entry "content_sha256" (str digest) empty)) empty

-- One text for every value, and one digest.
abbrev pub platform : Platform
platform = record {
  dumps = λ v. some "{}";
  loads = λ t. some (obj headers_dict);
  sha256 = λ t. digest;
  fromisoformat = λ t. some true;
}

abbrev pub prepared : PreparedEvent
prepared = record {
  event_id = "evt-1";
  event_type = "feature.requested";
  timestamp = "2026-01-01T00:00:00+00:00";
  aggregate_stream = "feature/f1";
  sequence = 1;
  idempotency_key = "f1:requested";
  causation = none;
  correlation = "c1";
  sha256 = digest;
  payload = "{}";
  headers = "{}";
}

abbrev pub first_row : Row
first_row = record { global_position = 1; event = prepared }

abbrev pub store : List Row → EventStore
store rows = record { closed = false; rows = rows }

abbrev receipt : AppendResult
receipt = record { event_id = "evt-1"; global_position = 1; status = appended }

abbrev group : List (Result StoreError PreparedEvent)
group = ok prepared ∷ err (not_object "event") ∷ ok prepared ∷ []

pub empty-IsWellFormed : IsWellFormed []
unfolding in_stream
empty-IsWellFormed = record { positions = tt; sequences = λ s. tt; ids = tt; keys = tt }

prepared-IsValid : IsValid prepared
prepared-IsValid = record { sequence = omega arith; digest = refl }

prepare_event_run : prepare_event platform none (obj event_dict) ≡ ok prepared
unfolding prepare_event content_sha256 validate required_mapping required_text is_event_type lower
prepare_event_run = refl

abbrev outcomes : List Outcome
outcomes =
    ok receipt ∷ err (not_object "event") ∷ ok (record receipt { status = duplicate_ignored }) ∷ []

commit_group_run : commit_group none (store []) group ≡ (store (first_row ∷ []), outcomes)
unfolding commit_group insert_one expected_sequence lookup_expected last_sequence max_position
    find_key find_id violates
commit_group_run = refl

first_row-IsWellFormed : IsWellFormed (first_row ∷ [])
first_row-IsWellFormed =
    subst (λ (p : EventStore × List Outcome). IsWellFormed p.0.rows) commit_group_run
      (commit_group-IsWellFormed none (store []) group empty-IsWellFormed)

append_group_run :
    append_group platform none none (store []) (obj event_dict ∷ null ∷ obj event_dict ∷ [])
    ≡ ok (store (first_row ∷ []), outcomes)
unfolding append_group
append_group_run = rw prepare_event_run (ap ok commit_group_run)

append_group-IsWellFormed_example : IsWellFormed (first_row ∷ [])
append_group-IsWellFormed_example =
    append_group-IsWellFormed platform none none (store []) (store (first_row ∷ []))
      (obj event_dict ∷ null ∷ obj event_dict ∷ []) outcomes empty-IsWellFormed append_group_run

commit_group-append_each_example : commit_group none (store []) group ≡ append_each (store []) group
commit_group-append_each_example = commit_group-append_each (store []) group empty-IsWellFormed

append_one-contract_example :
    append_one (store []) (ok prepared) ≡ answer (store []) prepared (append_contract prepared [])
append_one-contract_example =
    append_one-contract (store []) prepared prepared-IsValid empty-IsWellFormed

append_one_run : append_one (store []) (ok prepared) ≡ (store (first_row ∷ []), ok receipt)
unfolding append_one begin process_item insert_one expected_sequence lookup_expected last_sequence
    max_position find_key find_id violates
append_one_run = refl

append_again_example :
    append_one (store (first_row ∷ [])) (ok prepared)
    ≡ (store (first_row ∷ []), ok (record receipt { status = duplicate_ignored }))
append_again_example =
    append_again (store []) (store (first_row ∷ [])) prepared receipt prepared-IsValid
      empty-IsWellFormed append_one_run

commit_group-atomic_example :
    ((commit_group (some 2) (store []) group).0 ≡ store [])
    × All Failed (commit_group (some 2) (store []) group).1
commit_group-atomic_example = commit_group-atomic 2 (store []) group (omega arith) refl

append_group-Extends_example : (length outcomes ≡ 3) × Extends [] (first_row ∷ [])
append_group-Extends_example =
    append_group-Extends platform none none (store []) (store (first_row ∷ []))
      (obj event_dict ∷ null ∷ obj event_dict ∷ []) outcomes append_group_run

prepare_event-IsChecked_example : IsChecked platform event_dict prepared
prepare_event-IsChecked_example =
    prepare_event-IsChecked platform none event_dict prepared prepare_event_run

select_events-WellFormed_example :
    (select_events none 0 (first_row ∷ []) ≡ first_row ∷ [])
    × (select_events (some "feature/f1") 0 (first_row ∷ [])
        ≡ in_stream "feature/f1" (first_row ∷ []))
select_events-WellFormed_example =
    select_events-WellFormed "feature/f1" (first_row ∷ []) first_row-IsWellFormed

-- The event that the stub loads back.
abbrev loaded : Dict
loaded = set "payload" (obj headers_dict) headers_dict

decode_row_run : decode_row platform first_row ≡ ok loaded
unfolding decode_row required_mapping required_text lower content_sha256
decode_row_run = refl

decode_row-intact_example : content_sha256 platform loaded ≡ ok digest
decode_row-intact_example = decode_row-intact platform first_row loaded decode_row_run

-- Counts the events.
abbrev count_event : ℕ → Dict → Result StoreError ℕ
count_event n event = ok (n + 1)

replay_rows_run : replay_rows platform count_event (λ x. x) 0 (first_row ∷ []) ≡ ok 1
unfolding replay_rows decode_row required_mapping required_text lower content_sha256
replay_rows_run = refl

replay_rows-append_example :
    replay_rows platform count_event (λ x. x) 0 (first_row ∷ first_row ∷ [])
    ≡ replay_rows platform count_event (λ x. x) 1 (first_row ∷ [])
replay_rows-append_example =
    replay_rows-append platform count_event (λ x. x) 0 1 (first_row ∷ []) (first_row ∷ [])
      replay_rows_run
