-- ===== src/Text.antt =====
-- Python's `str.strip`, `str.splitlines` and one `split(" ", 1)`.
pub mod Decimal
pub mod Replace
use Prim.Native.Nat.{◌/◌, ◌%◌, suc}
use Prim.Native.String.{◌++◌}
use Prim.Native.Char.{Char, code}
use design_document.Base.{
  zero, suc, ℕ, String, Bool, ◌&&◌, ◌||◌, List, [], ◌∷◌, ◌==◌, nat_eq, leb, if◌then◌else◌, ltb,
  false,
}

-- `str.isspace`
is_space : ℕ → Bool
is_space c =
    (leb 9 c && leb c 13)
    || (leb 28 c && leb c 32)
    || nat_eq c 133
    || nat_eq c 160
    || nat_eq c 5760
    || (leb 8192 c && leb c 8202)
    || nat_eq c 8232
    || nat_eq c 8233
    || nat_eq c 8239
    || nat_eq c 8287
    || nat_eq c 12288

unfoldable pub lstrip : String → String
unfolding is_space
lstrip String.[] = ""
lstrip (String.◌∷◌ c s) = let rest = lstrip s in if is_space (code c) then rest else String.◌∷◌ c s

unfoldable pub rstrip : String → String
unfolding is_space
rstrip String.[] = ""
rstrip (String.◌∷◌ c s) =
    let rest = rstrip s in if is_space (code c) && (rest == "") then "" else String.◌∷◌ c rest

unfoldable pub strip : String → String
unfolding lstrip rstrip
strip s = rstrip (lstrip s)

abbrev pub push_line : Char → List String → List String
push_line c [] = String.◌∷◌ c "" ∷ []
push_line c (line ∷ lines) = String.◌∷◌ c line ∷ lines

-- The characters that end a line.
unfoldable pub is_line_end : ℕ → Bool
is_line_end c =
    (leb 10 c && leb c 13)
    || (leb 28 c && leb c 30)
    || nat_eq c 133
    || nat_eq c 8232
    || nat_eq c 8233

-- A carriage return ahead of a line feed ends no line of its own.
abbrev pub joins_next : ℕ → String → Bool
joins_next c String.[] = false
joins_next c (String.◌∷◌ d s) = nat_eq c 13 && nat_eq (code d) 10

-- The text up to each end of a line; an empty last line is no line.
unfoldable pub splitlines : String → List String
unfolding is_line_end
splitlines String.[] = []
splitlines (String.◌∷◌ c s) =
    let rest = splitlines s in
    if joins_next (code c) s
    then rest
    else if is_line_end (code c)
    then "" ∷ rest
    else push_line c rest

abbrev first_cons : Char → String × String → String × String
first_cons c (a, b) = (String.◌∷◌ c a, b)

-- The parts before and after the first space.
unfoldable pub split_space : String → String × String
split_space String.[] = ("", "")
split_space (String.◌∷◌ c s) =
    let rest = split_space s in if nat_eq (code c) 32 then ("", s) else first_cons c rest

-- The decimal text of a number.
unfoldable pub digit : ℕ → String
digit n =
    if nat_eq n 0
    then "0"
    else if nat_eq n 1
    then "1"
    else if nat_eq n 2
    then "2"
    else if nat_eq n 3
    then "3"
    else if nat_eq n 4
    then "4"
    else if nat_eq n 5
    then "5"
    else if nat_eq n 6
    then "6"
    else if nat_eq n 7
    then "7"
    else if nat_eq n 8
    then "8"
    else "9"

-- Every step divides by ten, so a fuel of the number itself is enough.
unfoldable pub decimal_on : ℕ → ℕ → String
unfolding digit
decimal_on zero n = digit (n % 10)
decimal_on (suc fuel) n =
    let rest = decimal_on fuel (n / 10) in if ltb n 10 then digit n else (rest ++ digit (n % 10))

unfoldable pub decimal : ℕ → String
unfolding decimal_on
decimal n = decimal_on n n
