-- ===== src/Adapter/Output/Levels.antt =====
-- The walk through JSON text within JSON text: as many levels as the output has characters are
-- enough.
use design_document.Adapter.Output.Sizes.{size-strip, size-unfence}
use design_document.Base.{
  ℕ, zero, suc, ◌<◌, ◌≤◌, ◌≡◌, refl, ap, String, Bool, true, false, ◌&&◌, Option, some, List, [],
  ◌∷◌, ◌++◌, ◌==◌, arith, inl, inr, Bool-cases, Option-cases, ltb, if◌then◌else◌, ◌∙◌, sym,
}
use Prim.Native.Char.{Char, code}
use design_document.Json.{
  Value, null, bool, int, negative, float, str, arr, obj, Items, nil, cons, Dict, empty, entry,
}
use design_document.Text.{strip, splitlines, push_line, joins_next, is_line_end}
use design_document.Adapter.Output.{
  walk_with, walk_items, walk_dict, walk_texts, size, unfence, candidate, opens, roots, loaded,
  all_nodes, nodes_of,
}

-- Every text in a value has fewer than `n` characters.
unfoldable mutual
  pub fits : ℕ → Value → Bool
  fits n (str s) = ltb (size s) n
  fits n (arr items) = fits_items n items
  fits n (obj d) = fits_dict n d
  fits n v = true

  pub fits_items : ℕ → Items → Bool
  fits_items n nil = true
  fits_items n (cons v items) = fits n v && fits_items n items

  pub fits_dict : ℕ → Dict → Bool
  fits_dict n empty = true
  fits_dict n (entry k v d) = fits n v && fits_dict n d

module _ (f g : String → List Value) (n : ℕ) (same : (s : String) → size s < n → f s ≡ g s) where
  mutual
    unfolding walk_with fits

    walk_with-same : (v : Value) → fits n v ≡ true → walk_with f v ≡ walk_with g v
    walk_with-same (str s) e = ap (λ l. str s ∷ l) (same s (ground arith))
    walk_with-same (arr items) e = ap (λ l. arr items ∷ l) (walk_items-same items e)
    walk_with-same (obj d) e = ap (λ l. obj d ∷ l) (walk_dict-same d e)
    walk_with-same null e = refl
    walk_with-same (bool b) e = refl
    walk_with-same (int k) e = refl
    walk_with-same (negative k) e = refl
    walk_with-same (float s) e = refl

    walk_items-same :
        (items : Items) → fits_items n items ≡ true → walk_items f items ≡ walk_items g items
    walk_items-same nil e = refl
    walk_items-same (cons v items) e =
        rw (walk_with-same v (ground arith), walk_items-same items (ground arith)) refl

    walk_dict-same : (d : Dict) → fits_dict n d ≡ true → walk_dict f d ≡ walk_dict g d
    walk_dict-same empty e = refl
    walk_dict-same (entry k v d) e =
        rw (walk_with-same v (ground arith), walk_dict-same d (ground arith)) refl

mutual
  unfolding fits

  fits_mono : (m n : ℕ) (v : Value) → m ≤ n → fits m v ≡ true → fits n v ≡ true
  fits_mono m n (str s) l e = ground arith
  fits_mono m n (arr items) l e = fits_items_mono m n items l e
  fits_mono m n (obj d) l e = fits_dict_mono m n d l e
  fits_mono m n null l e = refl
  fits_mono m n (bool b) l e = refl
  fits_mono m n (int k) l e = refl
  fits_mono m n (negative k) l e = refl
  fits_mono m n (float s) l e = refl

  fits_items_mono :
      (m n : ℕ) (items : Items) → m ≤ n → fits_items m items ≡ true → fits_items n items ≡ true
  fits_items_mono m n nil l e = refl
  fits_items_mono m n (cons v items) l e =
      rw (fits_mono m n v l (ground arith), fits_items_mono m n items l (ground arith)) refl

  fits_dict_mono : (m n : ℕ) (d : Dict) → m ≤ n → fits_dict m d ≡ true → fits_dict n d ≡ true
  fits_dict_mono m n empty l e = refl
  fits_dict_mono m n (entry k v d) l e =
      rw (fits_mono m n v l (ground arith), fits_dict_mono m n d l (ground arith)) refl

abbrev Each : ℕ → List String → Type 0
Each n [] = Unit
Each n (line ∷ lines) = (size line ≤ n) × Each n lines

Each-suc : (n : ℕ) (lines : List String) → Each n lines → Each (suc n) lines
Each-suc n [] e = tt
Each-suc n (line ∷ lines) (l, e) = (omega (arith, l), Each-suc n lines e)

if-Each : (n : ℕ) (b : Bool) (x y : List String) → Each n x → Each n y → Each n (if b then x else y)
if-Each n true x y p q = p
if-Each n false x y p q = q

abbrev AllFit : ℕ → List Value → Type 0
AllFit n [] = Unit
AllFit n (v ∷ vs) = (fits n v ≡ true) × AllFit n vs

AllFit-append : (n : ℕ) (vs ws : List Value) → AllFit n vs → AllFit n ws → AllFit n (vs ++ ws)
AllFit-append n [] ws p q = q
AllFit-append n (v ∷ vs) ws (e, p) q = (e, AllFit-append n vs ws p q)

push_line-Each :
    (c : Char) (n : ℕ) (lines : List String) → Each n lines → Each (suc n) (push_line c lines)
push_line-Each c n [] e = (omega arith, tt)
push_line-Each c n (line ∷ lines) (l, e) = (omega (arith, l), Each-suc n lines e)

splitlines-Each : (s : String) → Each (size s) (splitlines s)
unfolding splitlines
splitlines-Each String.[] = tt
splitlines-Each (String.◌∷◌ c s) =
    let later = Each-suc (size s) (splitlines s) (splitlines-Each s) in
    if-Each (suc (size s)) (joins_next (code c) s) _ _ later (
      if-Each (suc (size s)) (is_line_end (code c)) _ _ (omega arith, later)
        (push_line-Each c (size s) (splitlines s) (splitlines-Each s)))

module _ (loads : String → Option Value)
    (shrinks : (t : String) (v : Value) → loads t ≡ some v → fits (size t) v ≡ true) where
  loaded-AllFit : (n : ℕ) (lines : List String) → Each n lines → AllFit n (loaded loads lines)
  loaded-AllFit n [] e = tt
  loaded-AllFit n (line ∷ lines) (l, e) = elim (Option-cases (loads line)) [
    | inl r ↦ rw (r, loaded) (loaded-AllFit n lines e)
    | inr (v, r) ↦
        rw (r, loaded) (fits_mono (size line) n v l (shrinks line v r), loaded-AllFit n lines e)
  ]

  whole-AllFit :
      (n : ℕ) (s : String) (b : Bool)
      → size s ≤ n
      → AllFit n (if b then [] else loaded loads (s ∷ []))
  whole-AllFit n s true l = tt
  whole-AllFit n s false l = loaded-AllFit n (s ∷ []) (l, tt)

  roots-AllFit : (output : String) → AllFit (size output) (roots loads output)
  unfolding roots
  roots-AllFit output =
      AllFit-append (size output)
        (if strip output == "" then [] else loaded loads (strip output ∷ []))
        (loaded loads (splitlines output))
        (whole-AllFit (size output) (strip output) (strip output == "") (size-strip output))
        (loaded-AllFit (size output) (splitlines output) (splitlines-Each output))

  walk_texts-empty : (m : ℕ) → walk_texts loads m "" ≡ []
  unfolding walk_texts
  walk_texts-empty zero = refl
  walk_texts-empty (suc m) = refl

  candidate-fits :
      (s t : String) (v : Value)
      → candidate loads t ≡ some v
      → size t ≤ size s
      → fits (size s) v ≡ true
  candidate-fits s t v e l = elim (Bool-cases (opens t)) [
    | inl o ↦ fits_mono (size t) (size s) v l (shrinks t v (ground arith))
    | inr o ↦ absurd (ground arith)
  ]

  size-searched : (s : String) → size (unfence (strip s)) ≤ size s
  size-searched s = omega (arith, size-unfence (strip s), size-strip s)

  -- More levels than a text has characters make no difference.
  walk_texts-enough :
      (k m : ℕ) (s : String) → size s ≤ k → size s ≤ m → walk_texts loads k s ≡ walk_texts loads m s
  unfolding walk_texts
  walk_texts-enough k m String.[] p q = walk_texts-empty k ∙ sym (walk_texts-empty m)
  walk_texts-enough zero m (String.◌∷◌ c s) p q = absurd (omega (arith, p))
  walk_texts-enough (suc k) zero (String.◌∷◌ c s) p q = absurd (omega (arith, q))
  walk_texts-enough (suc k) (suc m) (String.◌∷◌ c s) p q =
      elim (Option-cases (candidate loads (unfence (strip (String.◌∷◌ c s))))) [
        | inl n ↦ rw (walk_texts, n) refl
        | inr (v, e) ↦
            rw (walk_texts, e)
              (walk_with-same (walk_texts loads k) (walk_texts loads m) (suc (size s))
                (λ t l. walk_texts-enough k m t (omega (arith, p, l)) (omega (arith, q, l))) v
                (candidate-fits (String.◌∷◌ c s) (unfence (strip (String.◌∷◌ c s))) v e
                  (size-searched (String.◌∷◌ c s))))
      ]

  all_nodes-same :
      (k m n : ℕ) (vs : List Value)
      → n ≤ k
      → n ≤ m
      → AllFit n vs
      → all_nodes (walk_with (walk_texts loads k)) vs
        ≡ all_nodes (walk_with (walk_texts loads m)) vs
  all_nodes-same k m n [] p q f = refl
  all_nodes-same k m n (v ∷ vs) p q (e, f) =
      rw
        (
          walk_with-same (walk_texts loads k) (walk_texts loads m) n
              (λ t l. walk_texts-enough k m t (omega (arith, p, l)) (omega (arith, q, l))) v e,
          all_nodes-same k m n vs p q f,
        )
        refl

  -- If `json.loads` answers with values whose texts are shorter than the text that it reads, the
  -- levels that `extract_structured` goes down are enough: with any larger number of them the
  -- nodes are the same.
  pub nodes_of-enough :
      (output : String) (n : ℕ)
      → size output ≤ n
      → all_nodes (walk_with (walk_texts loads n)) (roots loads output) ≡ nodes_of loads output
  unfolding nodes_of
  nodes_of-enough output n l =
      all_nodes-same n (size output) (size output) (roots loads output) l (omega arith)
        (roots-AllFit output)
