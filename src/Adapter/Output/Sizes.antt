-- ===== src/Adapter/Output/Sizes.antt =====
-- `str.strip` and the removal of a fence give no longer text.
use design_document.Base.{
  ℕ, suc, ◌≤◌, String, Bool, true, false, Option, none, some, ◌==◌, arith, nat_eq, if◌then◌else◌,
}
use Prim.Native.Char.{Char, code}
use design_document.Text.{strip, lstrip, rstrip}
use design_document.Adapter.Output.{
  size, unfence, drop_prefix, before_fence, drop_language, inside, push, unfenced,
}

size-lstrip : (s : String) → size (lstrip s) ≤ size s
unfolding lstrip
size-lstrip String.[] = omega arith
size-lstrip (String.◌∷◌ c s) = ground (arith, size-lstrip s)

size-dropped :
    (b : Bool) (c : Char) (s : String) (n : ℕ)
    → size s ≤ n
    → size (if b then "" else String.◌∷◌ c s) ≤ suc n
size-dropped true c s n l = omega (arith, l)
size-dropped false c s n l = omega (arith, l)

size-kept :
    (b : Bool) (c : Char) (s : String) (n : ℕ)
    → size s ≤ n
    → size (if b then s else String.◌∷◌ c s) ≤ suc n
size-kept true c s n l = omega (arith, l)
size-kept false c s n l = omega (arith, l)

size-rstrip : (s : String) → size (rstrip s) ≤ size s
unfolding rstrip
size-rstrip String.[] = omega arith
size-rstrip (String.◌∷◌ c s) = size-dropped _ c (rstrip s) (size s) (size-rstrip s)

pub size-strip : (s : String) → size (strip s) ≤ size s
unfolding strip
size-strip s = omega (arith, size-rstrip (lstrip s), size-lstrip s)

-- A text that was found is no longer than the one that was searched.
abbrev Within : Option String → ℕ → Type 0
Within none n = Unit
Within (some s) n = size s ≤ n

if-Within :
    (b : Bool) (o p : Option String) (n : ℕ)
    → Within o n
    → Within p n
    → Within (if b then o else p) n
if-Within true o p n a b = a
if-Within false o p n a b = b

Within-suc : (o : Option String) (n : ℕ) → Within o n → Within o (suc n)
Within-suc none n w = tt
Within-suc (some s) n w = omega (arith, w)

drop_prefix-Within : (p s : String) → Within (drop_prefix p s) (size s)
drop_prefix-Within String.[] s = omega arith
drop_prefix-Within (String.◌∷◌ c p) String.[] = tt
drop_prefix-Within (String.◌∷◌ c p) (String.◌∷◌ d s) =
    if-Within (nat_eq (code c) (code d)) _ _ _
      (Within-suc (drop_prefix p s) (size s) (drop_prefix-Within p s)) tt

push-Within : (c : Char) (o : Option String) (n : ℕ) → Within o n → Within (push c o) (suc n)
push-Within c none n w = tt
push-Within c (some s) n w = omega (arith, w)

before_fence-Within : (s : String) → Within (before_fence s) (size s)
before_fence-Within String.[] = tt
before_fence-Within (String.◌∷◌ c s) =
    if-Within (String.◌∷◌ c s == "```") _ _ _ (omega arith)
      (push-Within c (before_fence s) (size s) (before_fence-Within s))

if-size :
    (b : Bool) (x y : String) (n : ℕ) → size x ≤ n → size y ≤ n → size (if b then x else y) ≤ n
if-size true x y n l k = l
if-size false x y n l k = k

size-drop_language : (s : String) → size (drop_language s) ≤ size s
size-drop_language String.[] = omega arith
size-drop_language (String.◌∷◌ j String.[]) = omega arith
size-drop_language (String.◌∷◌ j (String.◌∷◌ s String.[])) = omega arith
size-drop_language (String.◌∷◌ j (String.◌∷◌ s (String.◌∷◌ o String.[]))) = omega arith
size-drop_language (String.◌∷◌ j (String.◌∷◌ s (String.◌∷◌ o (String.◌∷◌ n rest)))) =
    if-size _ rest (String.◌∷◌ j (String.◌∷◌ s (String.◌∷◌ o (String.◌∷◌ n rest)))) _ (omega arith)
      (omega arith)

Within-trans : (o : Option String) (m n : ℕ) → Within o m → m ≤ n → Within o n
Within-trans none m n w l = tt
Within-trans (some s) m n w l = omega (arith, w, l)

inside-Within : (o : Option String) (n : ℕ) → Within o n → Within (inside o) n
inside-Within none n w = tt
inside-Within (some s) n w = Within-trans (before_fence s) (size s) n (before_fence-Within s) w

size-unfenced : (s : String) (o : Option String) → Within o (size s) → size (unfenced s o) ≤ size s
size-unfenced s none w = omega arith
size-unfenced s (some body) w =
    omega (arith, w, size-strip (drop_language body), size-drop_language body)

pub size-unfence : (s : String) → size (unfence s) ≤ size s
unfolding unfence
size-unfence s =
    size-unfenced s (inside (drop_prefix "```" s))
      (inside-Within (drop_prefix "```" s) (size s) (drop_prefix-Within "```" s))
