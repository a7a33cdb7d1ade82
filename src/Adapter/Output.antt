-- ===== src/Adapter/Output.antt =====
-- src/ai_runtime/adapters/cli.py: `_walk`, `_extract_structured` and `_validate_result`, which look
-- for the structured result of a task in what a command-line tool prints. `json.loads` is an
-- argument.
pub mod Accepts
pub mod Levels
pub mod Sizes
use Prim.Native.Char.{Char, code}
use design_document.Base.{
  ℕ, zero, suc, ◌+◌, String, Bool, true, false, not, ◌&&◌, ◌||◌, Option, none, some, List, [], ◌∷◌,
  ◌++◌, ◌==◌, any, all, nat_eq, if◌then◌else◌, Result, ok, err, guard, ◌>>◌,
}
use design_document.Json.{
  Value, null, bool, int, negative, float, str, arr, obj, Items, nil, cons, Dict, empty, entry, get,
}
use design_document.Text.{strip, splitlines, decimal}
use design_document.Identifier.{is_hex_text}

pub data StructuredTask : Type 0 where
  plan implement review : StructuredTask

abbrev pub required_keys : StructuredTask → List String
required_keys plan = "summary" ∷ "steps" ∷ "acceptance_criteria" ∷ "risks" ∷ []
required_keys implement = "summary" ∷ "tests" ∷ "commit" ∷ []
required_keys review = "verdict" ∷ "summary" ∷ "findings" ∷ []

abbrev pub list_fields : StructuredTask → List String
list_fields plan = "steps" ∷ "acceptance_criteria" ∷ "risks" ∷ []
list_fields implement = "tests" ∷ []
list_fields review = "findings" ∷ []

-- An `AdapterError`, or the `TypeError` of a test for membership of a value that has no hash.
pub data Failure : Type 0 where
  adapter_error : String → Failure
  type_error : Failure

abbrev pub holds : String → Dict → Bool
holds k d = elim (get k d) [ none ↦ false | some v ↦ true ]

abbrev pub keys_in : List String → Dict → Bool
keys_in keys empty = true
keys_in keys (entry k v d) = any (λ j. j == k) keys && keys_in keys d

-- `required.issubset(node)`
abbrev pub has_keys : List String → Dict → Bool
has_keys keys d = all (λ k. holds k d) keys

abbrev pub is_text : Option Value → Bool
is_text (some (str s)) = true
is_text _ = false

abbrev pub are_texts : Items → Bool
are_texts nil = true
are_texts (cons v items) = is_text (some v) && are_texts items

abbrev pub is_text_list : Option Value → Bool
is_text_list (some (arr items)) = are_texts items
is_text_list _ = false

-- `str(value.get("commit", ""))`, as far as it can be 40 hexadecimal digits: the text of any other
-- value has a bracket, a sign, a point or another letter in it.
unfoldable pub commit_text : Option Value → String
commit_text (some (str s)) = s
commit_text (some (int n)) = decimal n
commit_text _ = ""

-- `value.get("verdict") not in {...}`
unfoldable pub check_verdict : Option Value → Result Failure Unit
check_verdict (some (str s)) =
    guard ((s == "approve") || (s == "changes_requested"))
      (adapter_error "structured review verdict is invalid")
check_verdict (some (arr items)) = err type_error
check_verdict (some (obj d)) = err type_error
check_verdict _ = err (adapter_error "structured review verdict is invalid")

unfoldable pub check_task : StructuredTask → Dict → Result Failure Unit
unfolding check_verdict commit_text
check_task plan d = ok tt
check_task implement d =
    guard (is_hex_text 40 (commit_text (get "commit" d)))
      (adapter_error "structured implementation commit must be a 40-character Git object ID")
check_task review d = check_verdict (get "verdict" d)

-- `_validate_result`
unfoldable pub validate_result : StructuredTask → Dict → Result Failure Unit
unfolding check_task
validate_result task d =
    guard (has_keys (required_keys task) d && keys_in (required_keys task) d)
      (adapter_error "structured result fields differ from schema")
    >> guard (is_text (get "summary" d)) (adapter_error "structured summary must be a string")
    >> guard (all (λ k. is_text_list (get k d)) (list_fields task))
        (adapter_error "structured field must be an array of strings")
    >> check_task task d

abbrev drop_prefix : String → String → Option String
drop_prefix String.[] s = some s
drop_prefix (String.◌∷◌ c p) String.[] = none
drop_prefix (String.◌∷◌ c p) (String.◌∷◌ d s) =
    let rest = drop_prefix p s in if nat_eq (code c) (code d) then rest else none

abbrev push : Char → Option String → Option String
push c none = none
push c (some s) = some (String.◌∷◌ c s)

-- The text before a "```" at the end.
abbrev before_fence : String → Option String
before_fence String.[] = none
before_fence (String.◌∷◌ c s) =
    let rest = before_fence s in if String.◌∷◌ c s == "```" then some "" else push c rest

abbrev lower : ℕ → ℕ → Bool
lower c l = nat_eq c l || nat_eq (c + 32) l

-- `(?:json)?`, in any case.
abbrev drop_language : String → String
drop_language (String.◌∷◌ j (String.◌∷◌ s (String.◌∷◌ o (String.◌∷◌ n rest)))) =
    if lower (code j) b'j' && lower (code s) b's' && lower (code o) b'o' && lower (code n) b'n'
    then rest
    else String.◌∷◌ j (String.◌∷◌ s (String.◌∷◌ o (String.◌∷◌ n rest)))
drop_language s = s

abbrev inside : Option String → Option String
inside none = none
inside (some s) = before_fence s

abbrev pub unfenced : String → Option String → String
unfenced s none = s
unfenced s (some body) = strip (drop_language body)

-- The group of the pattern of a fenced block, or the text itself.
unfoldable pub unfence : String → String
unfolding strip
unfence s = unfenced s (inside (drop_prefix "```" s))

abbrev opens : String → Bool
opens String.[] = false
opens (String.◌∷◌ c s) = nat_eq (code c) b'{' || nat_eq (code c) b'['

abbrev candidate : (String → Option Value) → String → Option Value
candidate loads s = if opens s then loads s else none

unfoldable mutual
  -- `_walk`, where `texts` walks what a text holds.
  pub walk_with : (String → List Value) → Value → List Value
  walk_with texts (obj d) = obj d ∷ walk_dict texts d
  walk_with texts (arr items) = arr items ∷ walk_items texts items
  walk_with texts (str s) = str s ∷ texts s
  walk_with texts v = v ∷ []

  pub walk_items : (String → List Value) → Items → List Value
  walk_items texts nil = []
  walk_items texts (cons v items) = walk_with texts v ++ walk_items texts items

  pub walk_dict : (String → List Value) → Dict → List Value
  walk_dict texts empty = []
  walk_dict texts (entry k v d) = walk_with texts v ++ walk_dict texts d

-- What `n` levels of JSON text within JSON text hold.
unfoldable pub walk_texts : (String → Option Value) → ℕ → String → List Value
unfolding walk_with walk_items walk_dict unfence
walk_texts loads zero s = []
walk_texts loads (suc n) s = elim (candidate loads (unfence (strip s))) [
  | none ↦ []
  | some v ↦ walk_with (walk_texts loads n) v
]

abbrev loaded : (String → Option Value) → List String → List Value
loaded loads [] = []
loaded loads (line ∷ lines) = elim (loads line) [
  | none ↦ loaded loads lines
  | some v ↦ v ∷ loaded loads lines
]

-- The whole output, and then each line.
unfoldable pub roots : (String → Option Value) → String → List Value
unfolding strip splitlines
roots loads output =
    (if strip output == "" then [] else loaded loads (strip output ∷ []))
    ++ loaded loads (splitlines output)

abbrev tried :
    Result Failure Unit → Dict → Result Failure (Option Dict) → Result Failure (Option Dict)
tried (ok u) d rest = ok (some d)
tried (err type_error) d rest = err type_error
tried (err (adapter_error s)) d rest = rest

-- The inner loop.
unfoldable pub search : StructuredTask → List Value → Result Failure (Option Dict)
unfolding validate_result
search task [] = ok none
search task (obj d ∷ nodes) =
    let rest = search task nodes in
    if has_keys (required_keys task) d then tried (validate_result task d) d rest else rest
search task (v ∷ nodes) = search task nodes

abbrev pub all_nodes : (Value → List Value) → List Value → List Value
all_nodes nodes [] = []
all_nodes nodes (v ∷ vs) = nodes v ++ all_nodes nodes vs

abbrev pub size : String → ℕ
size String.[] = 0
size (String.◌∷◌ c s) = suc (size s)

-- A text within a JSON text is shorter than that, so the output's size bounds the levels.
unfoldable pub nodes_of : (String → Option Value) → String → List Value
unfolding roots walk_with walk_texts
nodes_of loads output = all_nodes (walk_with (walk_texts loads (size output))) (roots loads output)

-- `_extract_structured`
unfoldable pub extract_structured :
    (String → Option Value) → StructuredTask → String → Result Failure (Option Dict)
unfolding search nodes_of
extract_structured loads task output = search task (nodes_of loads output)
