-- ===== src/Adapter/Tests.antt =====
-- The adapters on small outputs.
use design_document.Adapter.Output.Levels.{nodes_of-enough, fits}
use design_document.Session.State.{ready}
use design_document.Base.{
  ◌≡◌, refl, String, Bool, Bool-cases, eq_iff, inl, inr, true, false, Option, none, some, List, [],
  ◌∷◌, ◌==◌, if◌then◌else◌, ok, err, arith,
}
use design_document.Json.{Value, str, arr, obj, nil, cons, Dict, entry, empty}
use design_document.Text.{strip}
use design_document.Adapter.Output.{
  plan, implement, review, adapter_error, type_error, unfence, extract_structured, all_nodes,
  walk_with, walk_texts, roots, nodes_of, size, validate_result, check_task, check_verdict,
}
use design_document.Adapter.Output.Accepts.{
  IsResult, extract_structured-IsResult, extract_structured-whole,
}
use design_document.Adapter.Invoke.{
  TurnObservation, failed, Transport, Adapter, conclude, invoke, acknowledge_result, AdapterResult,
}
use design_document.Adapter.Invoke.Checked.{
  Concluded, conclude-Concluded, IsChecked, invoke-IsChecked,
}

abbrev verdict_result : Dict
verdict_result =
    entry "verdict" (str "approve")
      (entry "summary" (str "fine") (entry "findings" (arr (cons (str "none") nil)) empty))

-- The wrapper object of a tool, with the result as a fenced text in it.
abbrev wrapped : Dict
wrapped = entry "status" (str "ok") (entry "response" (str "```json\n{R}\n```") empty)

abbrev listed_verdict : Dict
listed_verdict =
    entry "verdict" (arr nil) (entry "summary" (str "fine") (entry "findings" (arr nil) empty))

abbrev loads : String → Option Value
loads s =
    if s == "{R}"
    then some (obj verdict_result)
    else if s == "{W}"
    then some (obj wrapped)
    else if s == "{L}"
    then some (obj listed_verdict)
    else none

unfence-fenced : unfence "```json\n{R}\n```" ≡ "{R}"
unfolding unfence
unfence-fenced = refl

unfence-plain : unfence "{R}```" ≡ "{R}```"
unfolding unfence
unfence-plain = refl

extract-line : extract_structured loads review "note\n{R}\n" ≡ ok (some verdict_result)
unfolding extract_structured
extract-line = refl

extract-nested : extract_structured loads review "{W}" ≡ ok (some verdict_result)
unfolding extract_structured
extract-nested = refl

extract-none : extract_structured loads plan "{R}" ≡ ok none
unfolding extract_structured
extract-none = refl

extract-unhashable : extract_structured loads review "{L}" ≡ err type_error
unfolding extract_structured
extract-unhashable = refl

extract_structured-IsResult_example : IsResult review verdict_result
extract_structured-IsResult_example =
    extract_structured-IsResult loads review "{W}" verdict_result extract-nested

abbrev turn : String → Bool → TurnObservation
turn output late = record {
  session_id = "s";
  turn_id = "t";
  exit_code = 0;
  timed_out = late;
  stdout = output;
  evidence = entry "session_id" (str "s") (entry "turn_id" (str "t") empty);
}

-- The world is the list of the calls.
abbrev transport : String → Transport (List String)
transport output = record {
  start =
      λ spec w. (ok (record { state = ready; live = true; is_ready = true }), spec.session_id ∷ w);
  send_turn = λ session id w. (ok (turn output false), w);
  reject_turn = λ session id reason w. (ok tt, reason ∷ w);
  acknowledge_turn = λ session id w. (ok tt, id ∷ w);
}

abbrev adapter : String → Adapter (List String)
adapter output = record {
  name = "claude";
  version = "1";
  roles = plan ∷ review ∷ [];
  supervisor = some (transport output);
  loads = loads;
  sha = λ s. "0123456789abcdef0123";
  is_dir = λ s. true;
  resume = true;
  executable = "python";
  worker_path = "_session_worker.py";
  spool_dir = "/spool";
}

invoke-rejects : invoke (adapter "{X}") review "do" "/w" (some "f1") [] ≡ (
  err (failed (adapter_error "no valid structured result")),
  "invalid_structured_result" ∷ "claude-review-f1-0123456789abcdef" ∷ [],
)
unfolding invoke extract_structured
invoke-rejects = refl

invoke-unsupported :
    invoke (adapter "{R}") implement "do" "/w" none []
    ≡ (err (failed (adapter_error "the adapter does not support the task")), [])
unfolding invoke
invoke-unsupported = refl

invoke-returns :
    (invoke (adapter "{W}") review "do" "/w" none []).1 ≡ "claude-review-root-0123456789abcdef" ∷ []
unfolding invoke extract_structured
invoke-returns = refl

acknowledge-result :
    acknowledge_result
      (adapter "{R}")
      (record { value = verdict_result; evidence = (turn "" false).evidence })
      []
    ≡ (ok tt, "t" ∷ [])
unfolding acknowledge_result
acknowledge-result = refl

conclude-Concluded_example :
    Concluded
      (adapter "{X}")
      (transport "{X}")
      review
      (turn "{X}" true)
      []
      (conclude (adapter "{X}") (transport "{X}") review (turn "{X}" true) [])
conclude-Concluded_example =
    conclude-Concluded (adapter "{X}") (transport "{X}") review (turn "{X}" true) []

strip-object : (strip (turn "{R}" false).stdout == "") ≡ false
unfolding strip
strip-object = refl

loads-object : loads (strip (turn "{R}" false).stdout) ≡ some (obj verdict_result)
unfolding strip
loads-object = refl

valid-object : validate_result review verdict_result ≡ ok tt
unfolding validate_result check_task check_verdict
valid-object = refl

extract_structured-whole_example :
    extract_structured loads review (turn "{R}" false).stdout ≡ ok (some verdict_result)
extract_structured-whole_example =
    extract_structured-whole loads review (turn "{R}" false).stdout verdict_result strip-object
      loads-object valid-object

abbrev returned : AdapterResult
returned = record {
  value = verdict_result;
  evidence = entry "adapter" (str "claude") (
      entry "adapter_version" (str "1") (
        entry "task" (str "review")
          (entry "session_id" (str "s") (entry "turn_id" (str "t") empty))));
}

abbrev one_start : List String
one_start = "claude-review-root-0123456789abcdef" ∷ []

invoke-result : invoke (adapter "{W}") review "do" "/w" none [] ≡ (ok returned, one_start)
unfolding invoke extract_structured
invoke-result = refl

invoke-IsChecked_example : IsChecked (adapter "{W}") review "do" "/w" none [] one_start returned
invoke-IsChecked_example =
    invoke-IsChecked (adapter "{W}") review "do" "/w" none [] one_start returned invoke-result

-- A reader of one text, an array of an empty text.
abbrev one_array : String → Option Value
one_array s = if s == "[\"\"]" then some (arr (cons (str "") nil)) else none

one_array-shrinks : (t : String) (v : Value) → one_array t ≡ some v → fits (size t) v ≡ true
unfolding fits
one_array-shrinks t v e = elim (Bool-cases (t == "[\"\"]")) [
  | inl s ↦
      let p : t ≡ "[\"\"]" = ground (arith, eq_iff t "[\"\"]") in
      let q : arr (cons (str "") nil) ≡ v = ground arith in rw (p, ← q) refl
  | inr s ↦ absurd (ground arith)
]

nodes_of-enough_example :
    all_nodes (walk_with (walk_texts one_array 9)) (roots one_array "[\"\"]")
    ≡ nodes_of one_array "[\"\"]"
nodes_of-enough_example = nodes_of-enough one_array one_array-shrinks "[\"\"]" 9 (omega arith)
