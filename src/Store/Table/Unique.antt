-- ===== src/Store/Table/Unique.antt =====
-- A UNIQUE column: its lookups find at most one row, and a row that breaks no constraint keeps it
-- unique.
use design_document.Base.{
  ℕ, String, ◌≡◌, refl, Bool, false, Option, none, some, List, [], ◌∷◌, ◌++◌, arith, any, find,
  ◌==◌, eq_iff, if◌then◌else◌,
}
use design_document.Store.Event.{PreparedEvent}
use design_document.Store.Table.{Row, find_key, find_id, clashes, violates}

abbrev pub with : (Row → String) → String → List Row → Option Row
with column k = find (λ r. column r == k)

abbrev pub Distinct : (Row → String) → List Row → Type 0
Distinct column [] = Unit
Distinct column (r ∷ rows) = (with column (column r) rows ≡ none) × Distinct column rows

pub find-append {ℓ} :
    {A : Type ℓ} (p : A → Bool) (xs : List A) (y : A)
    → find p xs ≡ none
    → find p (xs ++ y ∷ []) ≡ (if p y then some y else none)
find-append p [] y h = refl
find-append p (x ∷ xs) y h = ground (arith, find-append p xs y)

pub Distinct-append :
    (column : Row → String) (rows : List Row) (r : Row)
    → Distinct column rows
    → with column (column r) rows ≡ none
    → Distinct column (rows ++ r ∷ [])
Distinct-append column [] r d h = (refl, tt)
Distinct-append column (q ∷ rows) r d h = (
  ground (
    arith,
    find-append (λ x. column x == column q) rows r,
    d.0,
    eq_iff (column q) (column r),
    eq_iff (column r) (column q),
  ),
  Distinct-append column rows r d.1 (ground arith),
)

module _ (e : PreparedEvent) (position : ℕ) where
  find_key-none :
      (rows : List Row)
      → any (clashes e position) rows ≡ false
      → with (λ r. r.idempotency_key) e.idempotency_key rows ≡ none
  find_key-none [] h = refl
  find_key-none (r ∷ rows) h = ground (arith, find_key-none rows)

  find_id-none :
      (rows : List Row)
      → any (clashes e position) rows ≡ false
      → with (λ r. r.event_id) e.event_id rows ≡ none
  find_id-none [] h = refl
  find_id-none (r ∷ rows) h = ground (arith, find_id-none rows)

  -- An accepted row has a new identity.
  pub violates-fresh :
      (rows : List Row)
      → violates e position rows ≡ false
      → (find_key e.idempotency_key rows ≡ none) × (find_id e.event_id rows ≡ none)
  unfolding violates find_key find_id
  violates-fresh rows h = (find_key-none rows (ground arith), find_id-none rows (ground arith))
