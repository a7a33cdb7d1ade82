-- ===== src/Coordinator/Log.antt =====
-- src/ai_runtime/runtime/coordinator.py: the state of a feature, read from the log, and `_append`.
pub mod Applies
use Prim.Native.String.{◌++◌}
use design_document.Base.{
  suc, ◌+◌, ◌==◌, if◌then◌else◌, String, Option, none, some, List, [], ◌∷◌, Result, ok, err,
}
use design_document.Json.{Value, str, Dict, empty, entry, get_str}
use design_document.Store.Errors.{StoreError}
use design_document.Feature.State.{FeatureState, initial_state, project_feature, Missing}
use design_document.Feature.NewEvent.{Draft, new_event, stream_of}
use design_document.Text.{decimal}
use design_document.Coordinator.World.{
  Failure, store_error, key_error, Capability, Adapter, Reply, Log, Ports, World, Run, ◌>>=◌, ◌>>◌,
  pure, lift, or_empty,
}

-- The projector over the events of a stream.
unfoldable pub project_all : FeatureState → List Dict → Result Missing FeatureState
project_all s [] = ok s
project_all s (event ∷ events) = elim (project_feature s event) [
  | ok next ↦ project_all next events
  | err x ↦ err x
]

abbrev text_or : Option String → String → String
text_or none other = other
text_or (some s) other = s

module _ {R L : Type 0} (ports : Ports R L) where
  unfoldable pub state_of : String → Run (World R L) FeatureState
  state_of feature_id w =
      (do
        events ← lift store_error (ports.log.stored w.log (stream_of feature_id))
        lift key_error (project_all (initial_state feature_id) events))
        w

  unfoldable pub fresh_id : String → Run (World R L) String
  fresh_id prefix w =
      let (text, r) = ports.uuid w.outside in (ok (prefix ++ text), record w { outside = r })

  -- `state.correlation_id or f"cor-{uuid}"`
  unfoldable pub correlation : FeatureState → Run (World R L) String
  unfolding fresh_id
  correlation s = elim s.correlation_id [ none ↦ fresh_id "cor-" | some c ↦ pure c ]

  unfoldable pub write_event : Dict → Run (World R L) Unit
  write_event event w = write (ports.log.append event w.log)
    where
      write : Result StoreError Unit × L → Result Failure Unit × World R L
      write (ok u, l) = (ok u, record w { log = l })
      write (err x, l) = (err (store_error x), record w { log = l })

  abbrev pub draft_of : FeatureState → String → Dict → Dict → String → String → Draft
  draft_of s event_type payload producer purpose correlation_id = record {
    event_type = event_type;
    feature_id = s.feature_id;
    sequence = s.sequence + 1;
    producer = producer;
    payload = payload;
    correlation_id = correlation_id;
    causation_id = s.last_event_id;
    policy_revision = ports.config.policy_revision;
    idempotency_key = s.feature_id ++ ("/" ++ (purpose ++ ("/" ++ decimal (s.sequence + 1))));
  }

  -- `new_event`, at the time of the call.
  unfoldable pub build : Draft → String → Run (World R L) Dict
  build d event_id w =
      lift store_error (new_event ports.platform d event_id (ports.time_text w.outside)) w

  -- `_append`: the event is built and written, and the answer is the projection of it.
  unfoldable pub append :
      FeatureState → String → Dict → Dict → String → Run (World R L) FeatureState
  append s event_type payload producer purpose = do
    c ← correlation s
    event_id ← fresh_id "evt-"
    event ← build (draft_of s event_type payload producer purpose c) event_id
    write_event event
    lift key_error (project_feature s event)

unfoldable pub producer_of : {R : Type 0} → Adapter R → String → String → Option Reply → Dict
producer_of adapter role feature_id result =
    entry "session_id"
      (str (
        text_or (observed result)
          (adapter.capability.name ++ ("-" ++ (role ++ ("-" ++ feature_id))))))
      (entry "role" (str role) (
        entry "adapter" (str adapter.capability.name)
          (entry "adapter_version" (str adapter.capability.version) empty)))
  where
    -- `observed_session or ...`: an empty text counts as none.
    named : Option String → Option String
    named none = none
    named (some s) = if s == "" then none else some s

    observed : Option Reply → Option String
    observed none = none
    observed (some r) = named (get_str "session_id" r.evidence)

unfoldable pub human_producer : String → Dict
human_producer identity = entry "session_id" (str identity) (
    entry "role" (str "human_maintainer")
      (entry "adapter" (str "runtime-cli") (entry "adapter_version" (str "0.1.0") empty)))

unfoldable pub runtime_producer : Dict
runtime_producer = entry "session_id" (str "local-runtime") (
    entry "role" (str "orchestrator")
      (entry "adapter" (str "runtime") (entry "adapter_version" (str "0.1.0") empty)))
