-- ===== src/Json/Equal.antt =====
-- Python's `==` on JSON values: an object has no order, and `True` and `False` are 1 and 0. A `float`
-- is known only by its text, so that it equals the same text and no `int`.
use design_document.Base.{
  ℕ, String, ◌≡◌, ap, sym, Bool, true, false, ◌&&◌, Option, none, some, eq_iff, nat_eq, ◌==◌, suc,
}
use design_document.Json.{
  Value, null, bool, int, negative, float, str, arr, obj, Items, nil, cons, Dict, empty, entry, get,
}

bit : Bool → ℕ
bit true = 1
bit false = 0

keys : Dict → ℕ
keys empty = 0
keys (entry k v d) = suc (keys d)

is_there : Option Value → Bool
is_there none = false
is_there (some v) = true

or_null : Option Value → Value
or_null none = null
or_null (some v) = v

unfoldable mutual
  unfolding bit keys is_there or_null

  pub same_value : Value → Value → Bool
  same_value null null = true
  same_value (bool a) (bool b) = nat_eq (bit a) (bit b)
  same_value (bool a) (int n) = nat_eq (bit a) n
  same_value (int m) (bool b) = nat_eq m (bit b)
  same_value (int m) (int n) = nat_eq m n
  same_value (negative m) (negative n) = nat_eq m n
  same_value (float a) (float b) = a == b
  same_value (str a) (str b) = a == b
  same_value (arr xs) (arr ys) = same_items xs ys
  same_value (obj d) (obj e) = nat_eq (keys d) (keys e) && is_within d e
  same_value _ _ = false

  same_items : Items → Items → Bool
  same_items nil nil = true
  same_items (cons v xs) (cons u ys) = same_value v u && same_items xs ys
  same_items _ _ = false

  -- Each entry of the first object is in the second.
  is_within : Dict → Dict → Bool
  is_within empty e = true
  is_within (entry k v d) e =
      is_there (get k e) && same_value v (or_null (get k e)) && is_within d e

pub same_value-str : (s : String) (v : Value) → same_value (str s) v ≡ true → v ≡ str s
unfolding same_value
same_value-str s (str t) h = ap str (sym ((eq_iff s t).0 h))
same_value-str s null h = cc
same_value-str s (bool b) h = cc
same_value-str s (int n) h = cc
same_value-str s (negative n) h = cc
same_value-str s (float t) h = cc
same_value-str s (arr items) h = cc
same_value-str s (obj d) h = cc
