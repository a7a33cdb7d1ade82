-- ===== src/Store/Table/Order.antt =====
-- The positions of a table and the sequences of a stream count up without a gap, so that SELECT
-- MAX and the last sequence of a stream are the two lengths.
use design_document.Base.{
  ℕ, suc, ◌+◌, max, String, ◌≡◌, refl, ◌⊎◌, Bool, Option, none, some, List, [], ◌∷◌, ◌++◌, arith,
  length, keep, ◌==◌, if◌then◌else◌,
}
use design_document.Store.Table.{Row, max_position, in_stream, max_sequence}

-- Some number of the rows counts up from `k`.
abbrev pub Counts : (Row → ℕ) → ℕ → List Row → Type 0
Counts column k [] = Unit
Counts column k (r ∷ rows) = (column r ≡ k) × Counts column (suc k) rows

pub Counts-append :
    (column : Row → ℕ) (k : ℕ) (rows : List Row) (r : Row)
    → Counts column k rows
    → column r ≡ k + length rows
    → Counts column k (rows ++ r ∷ [])
Counts-append column k [] r c e = (omega arith, tt)
Counts-append column k (q ∷ rows) r c e =
    (c.0, Counts-append column (suc k) rows r c.1 (omega arith))

max_position_bound :
    (k : ℕ) (rows : List Row)
    → Counts (λ r. r.global_position) (suc k) rows
    → max k (max_position rows) ≡ k + length rows
unfolding max_position
max_position_bound k [] c = omega arith
max_position_bound k (r ∷ rows) c = omega (arith, max_position_bound (suc k) rows c.1, c.0)

pub max_position-eq-length :
    (rows : List Row) → Counts (λ r. r.global_position) 1 rows → max_position rows ≡ length rows
max_position-eq-length rows c = omega (arith, max_position_bound 0 rows c)

abbrev at_least : ℕ → Option ℕ → ℕ
at_least k none = k
at_least k (some n) = max k n

max_sequence_bound :
    (k : ℕ) (rows : List Row)
    → Counts (λ r. r.sequence) (suc k) rows
    → at_least k (max_sequence rows) ≡ k + length rows
unfolding max_sequence
max_sequence_bound k [] c = omega arith
max_sequence_bound k (r ∷ rows) c = ground (arith, max_sequence_bound (suc k) rows c.1, c.0)

pub max_sequence-eq-length :
    (rows : List Row)
    → Counts (λ r. r.sequence) 1 rows
    → ((max_sequence rows ≡ none) × (length rows ≡ 0)) ⊎ (max_sequence rows ≡ some (length rows))
max_sequence-eq-length rows c = ground (arith, max_sequence_bound 0 rows c)

pub keep-append {ℓ} :
    {A : Type ℓ} (p : A → Bool) (xs ys : List A) → keep p (xs ++ ys) ≡ keep p xs ++ keep p ys
keep-append p [] ys = refl
keep-append p (x ∷ xs) ys = ground (arith, keep-append p xs ys)

-- A new row joins its own stream and no other.
pub in_stream-append :
    (s : String) (rows : List Row) (r : Row)
    → in_stream s (rows ++ r ∷ [])
      ≡ in_stream s rows ++ (if r.aggregate_stream == s then r ∷ [] else [])
unfolding in_stream
in_stream-append s rows r = keep-append (λ q. q.aggregate_stream == s) rows (r ∷ [])
