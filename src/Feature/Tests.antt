-- ===== src/Feature/Tests.antt =====
-- An event built, validated and projected.
use design_document.Base.{
  String, ◌≡◌, refl, true, none, some, ◌==◌, arith, ok, if◌then◌else◌, Option,
}
use design_document.Json.{obj, str, Dict, empty, entry, set, Value}
use design_document.Store.Event.{
  Platform, PreparedEvent, prepare_event, is_event_type, fromhex, lower, content_sha256,
}
use design_document.Feature.State.{initial_state, apply_event, project_feature}
use design_document.Feature.NewEvent.{Draft, new_event, stream_of, unsigned_event, integrity_of}
use design_document.Feature.NewEvent.Accepted.{
  IsComplete, IsSound, Accepted, new_event-Accepted, project_feature-new_event, IsWritable,
}

abbrev digest : String
digest = "aaaaaaaaaaaaaaaaaaaaaaaaaaaaaaaaaaaaaaaaaaaaaaaaaaaaaaaaaaaaaaaa"

-- Objects can be written, and nothing else.
abbrev written : Value → Option String
written (obj d) = some "{}"
written _ = none

abbrev platform : Platform
platform = record {
  dumps = written;
  loads = λ t. none;
  sha256 = λ t. digest;
  fromisoformat = λ t. some true;
}

abbrev draft : Draft
draft = record {
  event_type = "feature.requested";
  feature_id = "f1";
  sequence = 1;
  producer = entry "session_id" (str "s1") (
      entry "role" (str "coordinator")
        (entry "adapter" (str "ai-runtime") (entry "adapter_version" (str "1") empty)));
  payload = entry "objective" (str "x") empty;
  correlation_id = "c1";
  causation_id = none;
  policy_revision = "p1";
  idempotency_key = "f1:requested";
}

draft-IsComplete : IsComplete draft
unfolding is_event_type stream_of
draft-IsComplete = record {
  known_type = refl;
  some_type = refl;
  feature = refl;
  stream = refl;
  positive = omega arith;
  session = ("s1", refl, refl);
  role = ("coordinator", refl, refl);
  adapter = ("ai-runtime", refl, refl);
  version = ("1", refl, refl);
  correlation = refl;
  cause = refl;
  policy = refl;
  key = refl;
}

platform-IsSound : IsSound platform "evt-1" "now"
unfolding fromhex lower
platform-IsSound = record {
  digits = λ t. refl;
  hex = λ t. refl;
  lower_case = λ t. refl;
  not_empty = λ t. refl;
  time = refl;
  time_text = refl;
  id_text = refl;
}

draft-IsWritable : IsWritable platform draft "evt-1" "now"
draft-IsWritable = record {
  event = ("{}", refl);
  payload = ("{}", refl);
  headers = λ sha. ("{}", refl);
}

new_event-Accepted_example :
    (event : Dict) × (p : PreparedEvent) × (new_event platform draft "evt-1" "now" ≡ ok event)
    × (prepare_event platform none (obj event) ≡ ok p)
    × Accepted platform draft "evt-1" p
new_event-Accepted_example =
    new_event-Accepted platform draft "evt-1" "now" draft-IsComplete platform-IsSound
      draft-IsWritable

abbrev event_dict : Dict
event_dict = set "integrity" (obj (integrity_of digest)) (unsigned_event draft "evt-1" "now")

new_event_run : new_event platform draft "evt-1" "now" ≡ ok event_dict
unfolding new_event content_sha256
new_event_run = refl

project_feature-new_event_example : project_feature (initial_state "f1") event_dict ≡ (
    if "f1" == "f1"
    then ok (
        apply_event "feature.requested" draft.payload (record (initial_state "f1") {
          sequence = 1;
          correlation_id = some "c1";
          last_event_id = some "evt-1";
        }))
    else ok (initial_state "f1"))
unfolding initial_state
project_feature-new_event_example =
    project_feature-new_event platform draft "evt-1" "now" event_dict (initial_state "f1")
      new_event_run
