-- ===== src/Adapter/Output/Accepts.antt =====
-- Which results `_validate_result` and `_extract_structured` let through.
use design_document.Base.{
  ◌≡◌, ◌≢◌, refl, ap, String, true, any, all, Option, none, some, List, [], ◌∷◌, ◌==◌, arith,
  Result, ok, err, ◌⊎◌, inl, inr, Bool-cases, eq_iff, false,
}
use design_document.Json.{Value, null, bool, int, negative, float, str, arr, obj, Items, Dict, get}
use design_document.Identifier.{is_hex_text}
use design_document.Text.{strip}
use design_document.Adapter.Output.{
  StructuredTask, plan, implement, review, Failure, adapter_error, type_error, required_keys,
  list_fields, has_keys, keys_in, is_text, are_texts, is_text_list, commit_text, check_verdict,
  check_task, validate_result, search, tried, nodes_of, extract_structured, roots, walk_with,
  loaded,
}

-- What the schema of a task asks of its result.
pub record IsResult (task : StructuredTask) (d : Dict) : Type 0 where
  pub complete : has_keys (required_keys task) d ≡ true
  pub closed : keys_in (required_keys task) d ≡ true
  pub summary : (s : String) × (get "summary" d ≡ some (str s))
  pub lists :
      (k : String)
      → any (λ j. j == k) (list_fields task) ≡ true
      → (items : Items) × (get k d ≡ some (arr items)) × (are_texts items ≡ true)
  pub commit : task ≡ implement → is_hex_text 40 (commit_text (get "commit" d)) ≡ true
  pub verdict :
      task ≡ review
      → (get "verdict" d ≡ some (str "approve"))
        ⊎ (get "verdict" d ≡ some (str "changes_requested"))

is_text-some : (o : Option Value) → is_text o ≡ true → (s : String) × (o ≡ some (str s))
is_text-some (some (str s)) e = (s, refl)
is_text-some none e = cc
is_text-some (some null) e = cc
is_text-some (some (bool b)) e = cc
is_text-some (some (int n)) e = cc
is_text-some (some (negative n)) e = cc
is_text-some (some (float s)) e = cc
is_text-some (some (arr items)) e = cc
is_text-some (some (obj d)) e = cc

is_text_list-some :
    (o : Option Value)
    → is_text_list o ≡ true
    → (items : Items) × (o ≡ some (arr items)) × (are_texts items ≡ true)
is_text_list-some (some (arr items)) e = (items, refl, e)
is_text_list-some none e = cc
is_text_list-some (some null) e = cc
is_text_list-some (some (bool b)) e = cc
is_text_list-some (some (int n)) e = cc
is_text_list-some (some (negative n)) e = cc
is_text_list-some (some (float s)) e = cc
is_text_list-some (some (str s)) e = cc
is_text_list-some (some (obj d)) e = cc

all-lists :
    (keys : List String) (d : Dict) (k : String)
    → all (λ j. is_text_list (get j d)) keys ≡ true
    → any (λ j. j == k) keys ≡ true
    → is_text_list (get k d) ≡ true
all-lists [] d k a e = cc
all-lists (j ∷ keys) d k a e = elim (Bool-cases (j == k)) [
  | inl s ↦ let p : j ≡ k = ground (arith, eq_iff j k) in rw (← p) (ground arith)
  | inr s ↦ all-lists keys d k (ground arith) (ground arith)
]

check_verdict-text :
    (o : Option Value)
    → check_verdict o ≡ ok tt
    → (o ≡ some (str "approve")) ⊎ (o ≡ some (str "changes_requested"))
unfolding check_verdict
check_verdict-text (some (str s)) e = elim (Bool-cases (s == "approve")) [
  | inl a ↦ inl (ap (λ t. some (str t)) (ground (arith, eq_iff s "approve")))
  | inr a ↦ inr (ap (λ t. some (str t)) (ground (arith, eq_iff s "changes_requested")))
]
check_verdict-text none e = cc
check_verdict-text (some null) e = cc
check_verdict-text (some (bool b)) e = cc
check_verdict-text (some (int n)) e = cc
check_verdict-text (some (negative n)) e = cc
check_verdict-text (some (float s)) e = cc
check_verdict-text (some (arr items)) e = cc
check_verdict-text (some (obj d)) e = cc

check_task-verdict :
    (task : StructuredTask) (d : Dict)
    → check_task task d ≡ ok tt
    → task ≡ review
    → (get "verdict" d ≡ some (str "approve")) ⊎ (get "verdict" d ≡ some (str "changes_requested"))
unfolding check_task
check_task-verdict plan d e p = absurd (ground arith)
check_task-verdict implement d e p = absurd (ground arith)
check_task-verdict review d e p = check_verdict-text (get "verdict" d) e

check_task-commit :
    (task : StructuredTask) (d : Dict)
    → check_task task d ≡ ok tt
    → task ≡ implement
    → is_hex_text 40 (commit_text (get "commit" d)) ≡ true
unfolding check_task
check_task-commit plan d e p = absurd (ground arith)
check_task-commit implement d e p = ground arith
check_task-commit review d e p = absurd (ground arith)

pub validate_result-IsResult :
    (task : StructuredTask) (d : Dict) → validate_result task d ≡ ok tt → IsResult task d
unfolding validate_result
validate_result-IsResult task d e = record {
  complete = ground arith;
  closed = ground arith;
  summary = is_text-some (get "summary" d) (ground arith);
  lists = λ k m. is_text_list-some (get k d) (all-lists (list_fields task) d k (ground arith) m);
  commit = check_task-commit task d (ground arith);
  verdict = check_task-verdict task d (ground arith);
}

tried-IsResult :
    (task : StructuredTask) (r : Result Failure Unit) (c d : Dict)
    (rest : Result Failure (Option Dict))
    → validate_result task c ≡ r
    → tried r c rest ≡ ok (some d)
    → (rest ≡ ok (some d) → IsResult task d)
    → IsResult task d
tried-IsResult task (ok tt) c d rest v e k =
    let same : c ≡ d = ground arith in rw (← same) (validate_result-IsResult task c v)
tried-IsResult task (err type_error) c d rest v e k = cc
tried-IsResult task (err (adapter_error s)) c d rest v e k = k e

search-IsResult :
    (task : StructuredTask) (nodes : List Value) (d : Dict)
    → search task nodes ≡ ok (some d)
    → IsResult task d
unfolding search
search-IsResult task [] d e = absurd (ground arith)
search-IsResult task (obj c ∷ nodes) d e = elim (Bool-cases (has_keys (required_keys task) c)) [
  | inl h ↦
      tried-IsResult task (validate_result task c) c d (search task nodes) refl (ground arith)
        (search-IsResult task nodes d)
  | inr h ↦ search-IsResult task nodes d (ground arith)
]
search-IsResult task (null ∷ nodes) d e = search-IsResult task nodes d e
search-IsResult task (bool b ∷ nodes) d e = search-IsResult task nodes d e
search-IsResult task (int n ∷ nodes) d e = search-IsResult task nodes d e
search-IsResult task (negative n ∷ nodes) d e = search-IsResult task nodes d e
search-IsResult task (float s ∷ nodes) d e = search-IsResult task nodes d e
search-IsResult task (str s ∷ nodes) d e = search-IsResult task nodes d e
search-IsResult task (arr items ∷ nodes) d e = search-IsResult task nodes d e

tried-err :
    (r : Result Failure Unit) (c : Dict) (rest : Result Failure (Option Dict)) (x : String)
    → rest ≢ err (adapter_error x)
    → tried r c rest ≢ err (adapter_error x)
tried-err (ok tt) c rest x n e = absurd (ground arith)
tried-err (err type_error) c rest x n e = absurd (ground arith)
tried-err (err (adapter_error s)) c rest x n e = n e

-- A candidate that fails its checks is passed over.
pub search-err :
    (task : StructuredTask) (nodes : List Value) (x : String)
    → search task nodes ≢ err (adapter_error x)
unfolding search
search-err task [] x e = absurd (ground arith)
search-err task (obj c ∷ nodes) x e = elim (Bool-cases (has_keys (required_keys task) c)) [
  | inl h ↦
      tried-err (validate_result task c) c (search task nodes) x (search-err task nodes x)
        (ground arith)
  | inr h ↦ search-err task nodes x (ground arith)
]
search-err task (null ∷ nodes) x e = search-err task nodes x e
search-err task (bool b ∷ nodes) x e = search-err task nodes x e
search-err task (int n ∷ nodes) x e = search-err task nodes x e
search-err task (negative n ∷ nodes) x e = search-err task nodes x e
search-err task (float s ∷ nodes) x e = search-err task nodes x e
search-err task (str s ∷ nodes) x e = search-err task nodes x e
search-err task (arr items ∷ nodes) x e = search-err task nodes x e

-- Whatever a command-line tool prints, a result that is extracted from it meets the schema of the
-- task: it has exactly the fields of the schema, a text as summary and lists of texts, for an
-- implementation a commit whose text is 40 hexadecimal digits, and for a review one of the two
-- verdicts.
pub extract_structured-IsResult :
    (loads : String → Option Value) (task : StructuredTask) (output : String) (d : Dict)
    → extract_structured loads task output ≡ ok (some d)
    → IsResult task d
unfolding extract_structured
extract_structured-IsResult loads task output d e = search-IsResult task (nodes_of loads output) d e

-- A tool that prints one JSON object that passes the validation has that object as its result.
pub extract_structured-whole :
    (loads : String → Option Value) (task : StructuredTask) (output : String) (d : Dict)
    → (strip output == "") ≡ false
    → loads (strip output) ≡ some (obj d)
    → validate_result task d ≡ ok tt
    → extract_structured loads task output ≡ ok (some d)
unfolding extract_structured search nodes_of roots walk_with
extract_structured-whole loads task output d n l v =
    let r : IsResult task d = validate_result-IsResult task d v in
    rw (extract_structured, nodes_of, roots, n, loaded, l, search, v, r.complete) refl
