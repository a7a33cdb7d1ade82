-- ===== src/Json.antt =====
-- The JSON values that events, payloads and adapter results are made of, and Python's `dict` with
-- text keys: `d.get(k)`, `d[k] = v`, `d.pop(k)` and `{**d, **e}` in insertion order. An `int` is a
-- sign and a size; a `float` is known only by its text.
pub mod Equal
use design_document.Base.{
  ℕ, String, ◌≡◌, refl, Bool, Option, none, some, arith, ◌==◌, eq_iff, eq_refl, if◌then◌else◌,
}

mutual
  pub data Value : Type 0 where
    null : Value
    bool : Bool → Value
    int : ℕ → Value
    negative : ℕ → Value
    float : String → Value
    str : String → Value
    arr : Items → Value
    obj : Dict → Value

  pub data Items : Type 0 where
    nil : Items
    cons : Value → Items → Items

  pub data Dict : Type 0 where
    empty : Dict
    entry : String → Value → Dict → Dict

abbrev pub get : String → Dict → Option Value
get k empty = none
get k (entry j v d) = if j == k then some v else get k d

abbrev pub set : String → Value → Dict → Dict
set k v empty = entry k v empty
set k v (entry j w d) = if j == k then entry j v d else entry j w (set k v d)

abbrev pub pop : String → Dict → Dict
pop k empty = empty
pop k (entry j v d) = let rest = pop k d in if j == k then d else entry j v rest

-- `{**d, **e}`
abbrev pub merge : Dict → Dict → Dict
merge d empty = d
merge d (entry k v e) = merge (set k v d) e

abbrev pub as_str : Value → Option String
as_str (str s) = some s
as_str _ = none

abbrev pub as_obj : Value → Option Dict
as_obj (obj d) = some d
as_obj _ = none

abbrev pub get_str : String → Dict → Option String
get_str k d = elim (get k d) [ some (str s) ↦ some s | _ ↦ none ]

abbrev pub get_obj : String → Dict → Option Dict
get_obj k d = elim (get k d) [ some (obj e) ↦ some e | _ ↦ none ]

abbrev pub get_nat : String → Dict → Option ℕ
get_nat k d = elim (get k d) [ some (int n) ↦ some n | _ ↦ none ]

pub get-set :
    (k j : String) (v : Value) (d : Dict) → get j (set k v d) ≡ (if k == j then some v else get j d)
get-set k j v empty = refl
get-set k j v (entry i w d) = ground (arith, eq_iff k j, eq_iff i k, eq_iff i j, get-set k j v d)

pub get-set_self : (k : String) (v : Value) (d : Dict) → get k (set k v d) ≡ some v
get-set_self k v d = ground (arith, get-set k k v d, eq_refl k)
