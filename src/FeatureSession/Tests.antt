-- ===== src/FeatureSession/Tests.antt =====
-- The channel, the declarations and the factory on small inputs.
use design_document.Identifier.{is_safe_identifier, is_hex_text}
use design_document.Base.{
  eq_iff, String, ◌≡◌, ◌≢◌, refl, Bool, true, false, none, some, List, [], ◌∷◌, ok, err, arith,
  if◌then◌else◌, ◌==◌,
}
use design_document.Json.{Value, str, obj, Dict, empty, entry, get_str}
use design_document.Session.State.{recovery_error}
use design_document.Session.Spec.{reject}
use design_document.FeatureSession.Channel.{
  Codec, Channel, TerminalEventIntent, StructuredTerminalResult, persist_intent, collect,
  acknowledge, file, intent_payload,
}
use design_document.FeatureSession.Channel.Delivery.{Collected, collect-Collected, acknowledge-once}
use design_document.FeatureSession.Channel.Intents.{persist-collides, stamp}
use design_document.FeatureSession.Channel.History.{
  Operation, writes, collects, notifies, run, acknowledged-collect,
}
use design_document.FeatureSession.Declaration.{
  Declaration, validated, fail_closed, check_declaration, register, require, graceful_then_kill,
}
use design_document.FeatureSession.Declaration.Laws.{
  IsSound, check_declaration-IsSound, register-require, register_all,
}

-- The canonical text is the time in the object, or nothing.
abbrev time_of : Dict → String
time_of d = elim (get_str "created_at" d) [ none ↦ "" | some s ↦ s ]

abbrev envelope : Value
envelope = obj (
    entry "reference_id" (str "r1") (
      entry "session_id" (str "s1") (
        entry "intent_sha256" (str "t1")
          (entry "event" (obj (entry "event_id" (str "e1") empty)) empty))))

abbrev pub codec : Codec
codec = record {
  canonical = time_of;
  loads = λ text. if text == "good" then some envelope else none;
  sha = λ s. s;
  size = λ s. 4;
}

abbrev pub fresh : Channel
fresh = record { inbox = []; outbox = []; acks = []; deliveries = []; diagnostics = [] }

abbrev pub intent : TerminalEventIntent
intent = record {
  reference_id = "r1";
  session_id = "s1";
  event_reference = "ev1";
  intent_sha256 = "t1";
  packet_sha256 = "";
}

abbrev pub accepts : Dict → Bool
accepts event = true

abbrev persisted_channel : Channel
persisted_channel = (persist_intent codec "s1" "ev1" empty "r1" "t1" fresh).1

persist_run : persist_intent codec "s1" "ev1" empty "r1" "t1" fresh ≡ (ok intent, persisted_channel)
unfolding persist_intent is_safe_identifier
persist_run = refl

times_differ : stamp codec "s1" "ev1" empty "r1" "t1" ≢ stamp codec "s1" "ev1" empty "r1" "t2"
unfolding intent_payload
times_differ e = ground (arith, eq_iff "t1" "t2")

persist-collides_example :
    (persist_intent codec "s1" "ev1" empty "r1" "t1" persisted_channel
      ≡ (ok intent, persisted_channel))
    × (persist_intent codec "s1" "ev1" empty "r1" "t2" persisted_channel
        ≡ (err (recovery_error "terminal intent reference collision"), persisted_channel))
unfolding file
persist-collides_example =
    persist-collides codec "s1" "ev1" empty "r1" "t1" "t2" intent fresh persisted_channel refl
      persist_run times_differ

-- The agent has written its result.
abbrev pub answered : Channel
answered = record persisted_channel { outbox = ("r1", "good") ∷ [] }

abbrev pub result : StructuredTerminalResult
result = record {
  reference_id = "r1";
  session_id = "s1";
  event = entry "event_id" (str "e1") empty;
  result_sha256 = "good";
}

collect_run : collect codec accepts intent answered ≡ (ok (some result), answered)
unfolding collect persist_intent is_safe_identifier
collect_run = refl

collect-Collected_example :
    Collected codec accepts intent answered (collect codec accepts intent answered)
collect-Collected_example = collect-Collected codec accepts intent answered

abbrev settled : Channel
settled = (acknowledge codec intent "e1" answered).1

acknowledge_run : acknowledge codec intent "e1" answered ≡ (ok tt, settled)
unfolding acknowledge persist_intent is_safe_identifier
acknowledge_run = refl

-- The agent writes again, and the runtime looks again.
abbrev later : List Operation
later = writes "r1" "good" ∷ collects accepts intent ∷ notifies intent ∷ []

acknowledged-collect_example :
    collect codec accepts intent (run codec settled later) ≡ (ok none, run codec settled later)
acknowledged-collect_example =
    acknowledged-collect codec accepts intent "e1" answered settled later acknowledge_run

acknowledge-once_example :
    acknowledge codec intent "e2" settled
    ≡ (err (recovery_error "terminal result acknowledgement conflict"), settled)
unfolding is_safe_identifier
acknowledge-once_example =
    acknowledge-once codec intent "e1" "e2" answered settled acknowledge_run refl
      (λ e. ground (arith, eq_iff "e1" "e2"))

abbrev pub codex : Declaration
codex = record {
  adapter = "codex";
  adapter_version = "1";
  declaration_revision = "rev1";
  roles = "implementer" ∷ [];
  root_launch_command = "codex" ∷ [];
  root_readiness = "ready";
  synthetic_launch_command = some ("worker" ∷ "{session_id}" ∷ []);
  native_fork_command = none;
  resume_command = none;
  persistent_root = validated;
  native_fork = fail_closed;
  resume = fail_closed;
  structured_terminal_events = validated;
  validation_provenance_sha256 =
      some "aaaaaaaaaaaaaaaaaaaaaaaaaaaaaaaaaaaaaaaaaaaaaaaaaaaaaaaaaaaaaaaa";
  writes_workspace = true;
  merge_authority = false;
  temporary = false;
  trust_prompt = reject;
  termination = graceful_then_kill;
}

check_declaration_run : check_declaration codex ≡ ok tt
unfolding check_declaration is_safe_identifier is_hex_text
check_declaration_run = refl

check_declaration-IsSound_example : IsSound codex
check_declaration-IsSound_example = check_declaration-IsSound codex check_declaration_run

register-require_example :
    require "codex"
      (register_all (record codex { declaration_revision = "rev2" } ∷ []) (("codex", codex) ∷ []))
    ≡ ok codex
unfolding register
register-require_example =
    register-require codex [] (("codex", codex) ∷ [])
      (record codex { declaration_revision = "rev2" } ∷ []) refl
