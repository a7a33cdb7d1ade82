-- ===== src/Base/Results.antt =====
-- Code that may raise: the value, or the exception.
use mathlib.Core.Path.{◌≡◌, refl}
use mathlib.Core.Bool.{Bool, true, false}
use mathlib.Core.Logic.{◌⊎◌, inl, inr}
use mathlib.Core.Option.{Option, none, some}

pub data Result {ℓ} (X V : Type ℓ) : Type ℓ where
  ok : V → Result X V
  err : X → Result X V

pub Result-cases {ℓ} :
    {X V : Type ℓ} (r : Result X V) → ((v : V) × (r ≡ ok v)) ⊎ ((x : X) × (r ≡ err x))
Result-cases (ok v) = inl (v, refl)
Result-cases (err x) = inr (x, refl)

-- `if value is None: raise x`
abbrev pub or_raise {ℓ} : {X V : Type ℓ} → Option V → X → Result X V
or_raise (some v) x = ok v
or_raise none x = err x

-- `if not test: raise x`
abbrev pub guard : {X : Type 0} → Bool → X → Result X Unit
guard false x = err x
guard true x = ok tt

-- The next statement, which a raise skips.
infixl 5 ◌>>=◌
abbrev pub ◌>>=◌ {ℓ} : {X V W : Type ℓ} → Result X V → (V → Result X W) → Result X W
err x >>= next = err x
ok v >>= next = next v

infixl 5 ◌>>◌
abbrev pub ◌>>◌ : {X W : Type 0} → Result X Unit → Result X W → Result X W
first >> second = first >>= λ _. second

-- A successful chain has a successful first step.
pub >>=-eq-ok {ℓ} :
    {X V W : Type ℓ} (r : Result X V) (next : V → Result X W) {w : W}
    → (r >>= next) ≡ ok w
    → (v : V) × (r ≡ ok v) × (next v ≡ ok w)
>>=-eq-ok (err x) next e = cc
>>=-eq-ok (ok v) next e = (v, refl, e)
