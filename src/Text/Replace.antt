-- ===== src/Text/Replace.antt =====
-- Python's `str.replace`, and the rendering of launch commands of
-- src/ai_runtime/runtime/feature_sessions.py.
use Prim.Native.Char.{code}
use Prim.Native.String.{◌++◌}
use design_document.Base.{
  ℕ, zero, suc, pred, String, Bool, true, false, ◌&&◌, List, [], ◌∷◌, nat_eq, if◌then◌else◌,
}

starts_with : String → String → Bool
starts_with String.[] s = true
starts_with (String.◌∷◌ c p) String.[] = false
starts_with (String.◌∷◌ c p) (String.◌∷◌ d s) = nat_eq (code c) (code d) && starts_with p s

size : String → ℕ
size String.[] = 0
size (String.◌∷◌ c s) = suc (size s)

-- From left to right; the number says how many characters of a match are still to be passed.
replace_from : String → String → ℕ → String → String
unfolding starts_with size
replace_from old new n String.[] = ""
replace_from old new (suc n) (String.◌∷◌ c s) = replace_from old new n s
replace_from old new zero (String.◌∷◌ c s) =
    let rest = replace_from old new zero s in
    let past = replace_from old new (pred (size old)) s in
    if starts_with old (String.◌∷◌ c s) then new ++ past else String.◌∷◌ c rest

-- `s.replace(old, new)` for a text `old` that is not empty.
unfoldable pub replace : String → String → String → String
unfolding replace_from
replace old new s = replace_from old new zero s

-- The replacements of a mapping, one after the other.
replace_all : List (String × String) → String → String
unfolding replace
replace_all [] item = item
replace_all ((key, value) ∷ values) item =
    replace_all values (replace ("{" ++ (key ++ "}")) value item)

-- `_render`
unfoldable pub render : List String → List (String × String) → List String
unfolding replace_all
render [] values = []
render (item ∷ command) values = replace_all values item ∷ render command values
