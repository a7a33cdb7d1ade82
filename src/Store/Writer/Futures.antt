-- ===== src/Store/Writer/Futures.antt =====
-- The futures of one `EventWriter`.
use design_document.Base.{
  ℕ, ◌≡◌, true, Option, none, some, List, [], ◌∷◌, ◌++◌, arith, length, All, nat_eq, if◌then◌else◌,
  String, Bool-cases, inl, inr, Bool, false,
}
use design_document.Store.Errors.{StoreError}
use design_document.Store.Append.{Outcome}
use design_document.Store.Writer.{
  Request, Settlement, settle, is_done, settle_batch, fail_batch, receipt, is_raced, cancelled,
  later, exception,
}

-- What the future of a ticket holds.
unfoldable pub settlement_of : ℕ → List (ℕ × Settlement) → Option Settlement
settlement_of t [] = none
settlement_of t ((u, x) ∷ fs) = if nat_eq u t then some x else settlement_of t fs

-- What is in a future stays there.
abbrev pub Keeps : List (ℕ × Settlement) → List (ℕ × Settlement) → Type 0
Keeps fs gs = (t : ℕ) (x : Settlement) → settlement_of t fs ≡ some x → settlement_of t gs ≡ some x

settlement-is_done :
    (t : ℕ) (x : Settlement) (fs : List (ℕ × Settlement))
    → settlement_of t fs ≡ some x
    → is_done t fs ≡ true
unfolding settlement_of
settlement-is_done t x [] e = cc
settlement-is_done t x ((u, y) ∷ fs) e = ground (arith, settlement-is_done t x fs)

is_done-settlement :
    (t : ℕ) (fs : List (ℕ × Settlement))
    → is_done t fs ≡ true
    → (x : Settlement) × (settlement_of t fs ≡ some x)
unfolding settlement_of
is_done-settlement t [] e = cc
is_done-settlement t ((u, y) ∷ fs) e = elim (Bool-cases (nat_eq u t)) [
  | inl h ↦ (y, ground arith)
  | inr h ↦ let (x, p) = is_done-settlement t fs (ground arith) in (x, ground arith)
]

pub settle-Keeps : (t : ℕ) (x : Settlement) (fs : List (ℕ × Settlement)) → Keeps fs (settle t x fs)
unfolding settle settlement_of
settle-Keeps t x fs u y e = ground (arith, settlement-is_done u y fs e)

pub settle-is_done :
    (t : ℕ) (x : Settlement) (fs : List (ℕ × Settlement)) → is_done t (settle t x fs) ≡ true
unfolding settle
settle-is_done t x fs = ground arith

Keeps-is_done :
    (fs gs : List (ℕ × Settlement)) (t : ℕ)
    → Keeps fs gs
    → is_done t fs ≡ true
    → is_done t gs ≡ true
Keeps-is_done fs gs t k e =
    let (x, p) = is_done-settlement t fs e in settlement-is_done t x gs (k t x p)

-- The branches of a loop that a race may end.
if-futures {ℓ} :
    (P : List (ℕ × Settlement) × Bool → Type ℓ) (b : Bool) (x y : List (ℕ × Settlement) × Bool)
    → P x
    → P y
    → P (if b then x else y)
if-futures P true x y p q = p
if-futures P false x y p q = q

pub settle_batch-Keeps :
    (race : Option ℕ) (batch_id : String) (n : ℕ) (batch : List Request) (outcomes : List Outcome)
    (fs : List (ℕ × Settlement))
    → Keeps fs (settle_batch race batch_id n batch outcomes fs).0
unfolding settle_batch
settle_batch-Keeps race batch_id n [] outcomes fs t x e = e
settle_batch-Keeps race batch_id n (r ∷ batch) [] fs t x e = e
settle_batch-Keeps race batch_id n (r ∷ batch) (o ∷ outcomes) fs t x e =
    if-futures (λ p. Keeps fs p.0) (is_raced race r.ticket fs) _ _
      (settle-Keeps r.ticket cancelled fs)
      (λ t x e.
        settle_batch-Keeps (later race) batch_id n batch outcomes _ t x
          (settle-Keeps r.ticket (receipt batch_id n o) fs t x e))
      t x e

pub fail_batch-Keeps :
    (race : Option ℕ) (x : StoreError) (batch : List Request) (fs : List (ℕ × Settlement))
    → Keeps fs (fail_batch race x batch fs).0
unfolding fail_batch
fail_batch-Keeps race x [] fs t y e = e
fail_batch-Keeps race x (r ∷ batch) fs t y e =
    if-futures (λ p. Keeps fs p.0) (is_raced race r.ticket fs) _ _
      (settle-Keeps r.ticket cancelled fs)
      (λ t y e.
        fail_batch-Keeps (later race) x batch _ t y (settle-Keeps r.ticket (exception x) fs t y e))
      t y e

abbrev pub AllDone : List (ℕ × Settlement) → List Request → Type 0
AllDone fs rs = All (λ (r : Request). is_done r.ticket fs ≡ true) rs

pub AllDone-Keeps :
    (fs gs : List (ℕ × Settlement)) (rs : List Request)
    → Keeps fs gs
    → AllDone fs rs
    → AllDone gs rs
AllDone-Keeps fs gs [] k h = tt
AllDone-Keeps fs gs (r ∷ rs) k h =
    (Keeps-is_done fs gs r.ticket k h.0, AllDone-Keeps fs gs rs k h.1)

pub AllDone-append :
    (fs : List (ℕ × Settlement)) (rs qs : List Request)
    → AllDone fs rs
    → AllDone fs qs
    → AllDone fs (rs ++ qs)
AllDone-append fs [] qs h k = k
AllDone-append fs (r ∷ rs) qs h k = (h.0, AllDone-append fs rs qs h.1 k)

-- A loop that does not raise settles every future of the batch.
pub settle_batch-AllDone :
    (race : Option ℕ) (batch_id : String) (n : ℕ) (batch : List Request) (outcomes : List Outcome)
    (fs : List (ℕ × Settlement))
    → length outcomes ≡ length batch
    → (settle_batch race batch_id n batch outcomes fs).1 ≡ false
    → AllDone (settle_batch race batch_id n batch outcomes fs).0 batch
unfolding settle_batch
settle_batch-AllDone race batch_id n [] outcomes fs e f = tt
settle_batch-AllDone race batch_id n (r ∷ batch) [] fs e f = absurd (omega arith)
settle_batch-AllDone race batch_id n (r ∷ batch) (o ∷ outcomes) fs e f =
    let gs = settle r.ticket (receipt batch_id n o) fs in
    if-futures (λ p. p.1 ≡ false → AllDone p.0 (r ∷ batch)) (is_raced race r.ticket fs) _ _
      (λ f. absurd (ground arith))
      (λ f. (
        Keeps-is_done gs _ r.ticket (settle_batch-Keeps (later race) batch_id n batch outcomes gs)
            (settle-is_done r.ticket (receipt batch_id n o) fs),
        settle_batch-AllDone (later race) batch_id n batch outcomes gs (omega arith) f,
      ))
      f

pub fail_batch-AllDone :
    (race : Option ℕ) (x : StoreError) (batch : List Request) (fs : List (ℕ × Settlement))
    → (fail_batch race x batch fs).1 ≡ false
    → AllDone (fail_batch race x batch fs).0 batch
unfolding fail_batch
fail_batch-AllDone race x [] fs e = tt
fail_batch-AllDone race x (r ∷ batch) fs e =
    let gs = settle r.ticket (exception x) fs in
    if-futures (λ p. p.1 ≡ false → AllDone p.0 (r ∷ batch)) (is_raced race r.ticket fs) _ _
      (λ f. absurd (ground arith))
      (λ f. (
        Keeps-is_done gs _ r.ticket (fail_batch-Keeps (later race) x batch gs)
            (settle-is_done r.ticket (exception x) fs),
        fail_batch-AllDone (later race) x batch gs f,
      ))
      e
