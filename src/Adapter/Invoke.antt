-- ===== src/Adapter/Invoke.antt =====
-- src/ai_runtime/adapters/cli.py: `_SubprocessAdapter`: `bind_supervisor`, `invoke`, `acknowledge` and
-- `_session_id`, over the calls of a supervisor on a world of any type. The command line of a tool,
-- the schema file and the time limit are part of what `send_turn` is asked.
pub mod Checked
use Prim.Native.String.{◌++◌}
use design_document.Base.{
  ℕ, String, Bool, true, false, not, ◌&&◌, ◌||◌, Option, none, some, List, [], ◌∷◌, ◌==◌, any,
  nat_eq, if◌then◌else◌, Result, ok, err,
}
use design_document.Json.{Value, str, Dict, entry, empty, merge, get_str}
use design_document.Identifier.{is_safe_feature_id, take_chars}
use design_document.Session.State.{
  SessionError, session_error, unavailable_error, recovery_error, value_error,
}
use design_document.Session.Spec.{SessionSpec, legacy, not_applicable, check_spec}
use design_document.Session.Cell.{Observation}
use design_document.Adapter.Output.{
  StructuredTask, plan, implement, review, Failure, adapter_error, type_error, validate_result,
  extract_structured,
}

abbrev pub task_text : StructuredTask → String
task_text plan = "plan"
task_text implement = "implement"
task_text review = "review"

abbrev pub same_task : StructuredTask → StructuredTask → Bool
same_task plan plan = true
same_task implement implement = true
same_task review review = true
same_task _ _ = false

-- An exit code is known as 0 or not: `None` and that of a signal are any other number.
pub record TurnObservation : Type 0 where
  pub session_id : String
  pub turn_id : String
  pub exit_code : ℕ
  pub timed_out : Bool
  pub stdout : String
  pub evidence : Dict

pub record AdapterResult : Type 0 where
  pub value : Dict
  pub evidence : Dict

-- What `invoke` and `acknowledge` raise: an error of their own, or one that the supervisor raises.
pub data Raised : Type 0 where
  failed : Failure → Raised
  escaped : SessionError → Raised

-- The supervisor's calls: `start`, `send_turn` for a turn of a name, `reject_turn` with its reason,
-- and `acknowledge_turn`.
pub record Transport (W : Type 0) : Type 0 where
  pub start : SessionSpec → W → Result SessionError Observation × W
  pub send_turn : SessionSpec → String → W → Result SessionError TurnObservation × W
  pub reject_turn : String → String → String → W → Result SessionError Unit × W
  pub acknowledge_turn : String → String → W → Result SessionError Unit × W

-- The fields of an adapter, `json.loads`, SHA-256 of a text, `is_dir`, and the paths of the Python
-- executable, the worker and the spool.
pub record Adapter (W : Type 0) : Type 0 where
  pub name : String
  pub version : String
  pub roles : List StructuredTask
  pub supervisor : Option (Transport W)
  pub loads : String → Option Value
  pub sha : String → String
  pub is_dir : String → Bool
  pub resume : Bool
  pub executable : String
  pub worker_path : String
  pub spool_dir : String

-- `bind_supervisor`, where `same` says whether two supervisors are one object.
unfoldable pub bind_supervisor :
    {W : Type 0}
    → (Transport W → Transport W → Bool)
    → Transport W
    → Adapter W
    → Result Failure (Adapter W)
bind_supervisor same t a = elim a.supervisor [
  | none ↦ ok (record a { supervisor = some t })
  | some u ↦
      if same u t
      then ok (record a { supervisor = some t })
      else err (adapter_error "adapter is already bound to a different session supervisor")
]

abbrev or_root : Option String → String
or_root none = "root"
or_root (some s) = if s == "" then "root" else s

module _ {W : Type 0} (a : Adapter W) where
  -- `_session_id`
  unfoldable pub session_id_of : StructuredTask → String → Option String → Result Failure String
  unfolding take_chars is_safe_feature_id
  session_id_of task cwd feature_id =
      if is_safe_feature_id (or_root feature_id)
      then ok (
          a.name
          ++ ("-"
              ++ (task_text task
                  ++ ("-" ++ (or_root feature_id ++ ("-" ++ take_chars 16 (a.sha cwd)))))))
      else err (adapter_error "feature_id is not safe for session identity")

  -- `spec` in `invoke`
  unfoldable pub spec_of : StructuredTask → String → Option String → String → SessionSpec
  spec_of task cwd feature_id session_id = record {
    session_id = session_id;
    adapter = a.name;
    adapter_version = a.version;
    role = task_text task;
    cwd = cwd;
    launch_command =
        a.executable
        ∷ a.worker_path
        ∷ "--spool"
        ∷ (a.spool_dir ++ ("/" ++ session_id))
        ∷ "--identity"
        ∷ "{session_identity}"
        ∷ [];
    trust_prompt = not_applicable;
    disposable = false;
    feature_id = feature_id;
    resume = a.resume;
    session_kind = legacy;
    attempt = 1;
    parent_root_id = none;
    fork_mode = none;
    policy_revision = "minimal-runtime-v1";
    git_base = none;
    worktree_binding = none;
    capability_revision = "legacy-session-contract";
    capability_sha256 = none;
    read_only = false;
    resume_reference_sha256 = none;
    reconstruction_sha256 = none;
  }

  -- `turn_id` in `invoke`
  unfoldable pub turn_id_of : StructuredTask → String → String → String
  unfolding take_chars
  turn_id_of task prompt cwd =
      "turn-"
      ++ take_chars 48 (
          a.sha (
            a.name
            ++ ("\0"
                ++ (a.version
                    ++ ("\0" ++ (task_text task ++ ("\0" ++ (cwd ++ ("\0" ++ a.sha prompt)))))))))

  -- What follows `reject_turn`.
  abbrev raise_rejected : Failure → Result SessionError Unit × W → Result Raised AdapterResult × W
  raise_rejected x (ok u, w) = (err (failed x), w)
  raise_rejected x (err e, w) = (err (escaped e), w)

  abbrev reject :
      Transport W → TurnObservation → String → Failure → W → Result Raised AdapterResult × W
  reject t o reason x w = raise_rejected x (t.reject_turn o.session_id o.turn_id reason w)

  abbrev answer : StructuredTask → TurnObservation → Dict → AdapterResult
  answer task o value = record {
    value = value;
    evidence =
        merge
          (entry "adapter" (str a.name)
            (entry "adapter_version" (str a.version) (entry "task" (str (task_text task)) empty)))
          o.evidence;
  }

  -- The second validation of the value.
  revalidated :
      Transport W
      → StructuredTask
      → TurnObservation
      → Dict
      → Result Failure Unit
      → W
      → Result Raised AdapterResult × W
  revalidated t task o value (ok u) w = (ok (answer task o value), w)
  revalidated t task o value (err type_error) w = (err (failed type_error), w)
  revalidated t task o value (err (adapter_error s)) w =
      reject t o "structured_result_contract_violation" (adapter_error s) w

  extracted :
      Transport W
      → StructuredTask
      → TurnObservation
      → Result Failure (Option Dict)
      → W
      → Result Raised AdapterResult × W
  unfolding revalidated
  extracted t task o (err x) w = (err (failed x), w)
  extracted t task o (ok none) w =
      reject t o "invalid_structured_result" (adapter_error "no valid structured result") w
  extracted t task o (ok (some value)) w = revalidated t task o value (validate_result task value) w

  -- `invoke` after `send_turn` has returned.
  unfoldable pub conclude :
      Transport W → StructuredTask → TurnObservation → W → Result Raised AdapterResult × W
  unfolding extracted
  conclude t task o w =
      if o.timed_out
      then reject t o "adapter_timeout" (adapter_error "timed out") w
      else if not (nat_eq o.exit_code 0)
      then reject t o "adapter_nonzero_exit" (adapter_error "exited") w
      else extracted t task o (extract_structured a.loads task o.stdout) w

  -- The handler around `start` and `send_turn`.
  abbrev performed :
      Transport W
      → StructuredTask
      → Result SessionError TurnObservation × W
      → Result Raised AdapterResult × W
  performed t task (ok o, w) = conclude t task o w
  performed t task (err (unavailable_error s), w) =
      (err (failed (adapter_error "persistent transport failed closed")), w)
  performed t task (err (recovery_error s), w) =
      (err (failed (adapter_error "persistent transport failed closed")), w)
  performed t task (err x, w) = (err (escaped x), w)

  abbrev sent :
      Transport W
      → SessionSpec
      → String
      → Result SessionError Observation × W
      → Result SessionError TurnObservation × W
  sent t spec turn_id (ok o, w) = t.send_turn spec turn_id w
  sent t spec turn_id (err x, w) = (err x, w)

  -- The checks of the specification, `start` and `send_turn`.
  unfoldable pub run_turn :
      Transport W → SessionSpec → String → W → Result SessionError TurnObservation × W
  unfolding check_spec
  run_turn t spec turn_id w = elim (check_spec a.is_dir spec) [
    | err x ↦ (err x, w)
    | ok u ↦ sent t spec turn_id (t.start spec w)
  ]

  abbrev in_session :
      Transport W
      → StructuredTask
      → String
      → String
      → Option String
      → Result Failure String
      → W
      → Result Raised AdapterResult × W
  in_session t task prompt cwd feature_id (err x) w = (err (failed x), w)
  in_session t task prompt cwd feature_id (ok session_id) w =
      performed t task
        (run_turn t (spec_of task cwd feature_id session_id) (turn_id_of task prompt cwd) w)

  -- `invoke`
  unfoldable pub invoke :
      StructuredTask → String → String → Option String → W → Result Raised AdapterResult × W
  unfolding conclude session_id_of turn_id_of spec_of run_turn
  invoke task prompt cwd feature_id w =
      if not (any (same_task task) a.roles)
      then (err (failed (adapter_error "the adapter does not support the task")), w)
      else elim a.supervisor [
        | none ↦ (
          err (
              failed
                (adapter_error "no SessionSupervisor; direct subprocess fallback is disabled")),
          w,
        )
        | some t ↦ in_session t task prompt cwd feature_id (session_id_of task cwd feature_id) w
      ]

  abbrev lifted : Result SessionError Unit × W → Result Raised Unit × W
  lifted (ok u, w) = (ok u, w)
  lifted (err x, w) = (err (escaped x), w)

  abbrev acknowledge_with : Transport W → Option String → Option String → W → Result Raised Unit × W
  acknowledge_with t (some session_id) (some turn_id) w =
      lifted (t.acknowledge_turn session_id turn_id w)
  acknowledge_with t _ _ w =
      (err (failed (adapter_error "adapter result lacks supervised turn identity")), w)

  -- `acknowledge`
  unfoldable pub acknowledge_result : AdapterResult → W → Result Raised Unit × W
  acknowledge_result r w = elim a.supervisor [
    | none ↦ (err (failed (adapter_error "cannot acknowledge without a SessionSupervisor")), w)
    | some t ↦ acknowledge_with t (get_str "session_id" r.evidence) (get_str "turn_id" r.evidence) w
  ]
