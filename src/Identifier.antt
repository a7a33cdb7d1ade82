-- ===== src/Identifier.antt =====
-- The identifiers that become file, branch and session names: `_safe_feature_id` of
-- src/ai_runtime/git/workspace.py and `_safe_identifier` of src/ai_runtime/runtime/sessions.py.
use Prim.Native.Char.{code}
use design_document.Base.{
  ℕ, zero, suc, pred, String, Bool, true, false, ◌&&◌, ◌||◌, nat_eq, leb, if◌then◌else◌, ◌==◌,
}

is_alphanumeric : ℕ → Bool
is_alphanumeric c =
    (leb b'a' c && leb c b'z') || (leb b'A' c && leb c b'Z') || (leb b'0' c && leb c b'9')

is_id_char : ℕ → Bool
unfolding is_alphanumeric
is_id_char c = is_alphanumeric c || nat_eq c b'.' || nat_eq c b'_' || nat_eq c b'-'

-- `[A-Za-z0-9._-]{0,n}`
id_rest : ℕ → String → Bool
unfolding is_id_char
id_rest n String.[] = true
id_rest zero (String.◌∷◌ c s) = false
id_rest (suc n) (String.◌∷◌ c s) = is_id_char (code c) && id_rest n s

-- `[A-Za-z0-9][A-Za-z0-9._-]{0,maximum - 1}`
unfoldable pub is_safe_identifier : ℕ → String → Bool
unfolding id_rest
is_safe_identifier maximum String.[] = false
is_safe_identifier maximum (String.◌∷◌ c s) = is_alphanumeric (code c) && id_rest (pred maximum) s

unfoldable pub is_safe_feature_id : String → Bool
unfolding is_safe_identifier
is_safe_feature_id = is_safe_identifier 64

is_hex : ℕ → Bool
is_hex c = (leb b'a' c && leb c b'f') || (leb b'0' c && leb c b'9')

-- `[0-9a-f]{n}`
unfoldable pub is_hex_text : ℕ → String → Bool
unfolding is_hex
is_hex_text zero String.[] = true
is_hex_text zero (String.◌∷◌ c s) = false
is_hex_text (suc n) String.[] = false
is_hex_text (suc n) (String.◌∷◌ c s) = is_hex (code c) && is_hex_text n s

-- `re.sub(r"[^A-Za-z0-9_-]", "-", s)`
unfoldable pub dashed : String → String
unfolding is_alphanumeric
dashed String.[] = ""
dashed (String.◌∷◌ c s) =
    let rest = dashed s in
    let plain = is_alphanumeric (code c) || nat_eq (code c) b'_' in
    if plain then String.◌∷◌ c rest else String.◌∷◌ "-" rest

-- `s[:n]`
unfoldable pub take_chars : ℕ → String → String
take_chars zero s = ""
take_chars (suc n) String.[] = ""
take_chars (suc n) (String.◌∷◌ c s) = String.◌∷◌ c (take_chars n s)

drop_dashes : String → String
drop_dashes String.[] = ""
drop_dashes (String.◌∷◌ c s) =
    let rest = drop_dashes s in if nat_eq (code c) b'-' then rest else String.◌∷◌ c s

cut_dashes : String → String
cut_dashes String.[] = ""
cut_dashes (String.◌∷◌ c s) =
    let rest = cut_dashes s in
    if nat_eq (code c) b'-' && (rest == "") then "" else String.◌∷◌ c rest

-- `s.strip("-")`
unfoldable pub strip_dashes : String → String
unfolding drop_dashes cut_dashes
strip_dashes s = cut_dashes (drop_dashes s)
