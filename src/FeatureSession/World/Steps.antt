-- ===== src/FeatureSession/World/Steps.antt =====
-- An act that returns did so in each of its steps.
use design_document.Base.{◌≡◌, refl, ap, Bool, true, false, Option, none, some, Result, ok, err}
use design_document.Session.State.{SessionError}
use design_document.FeatureSession.World.{World, Act, go_on, ◌>>=◌, ◌>>◌, require, from, pure}

module _ {W A B C : Type 0} where
  go_on-ok :
      (r : Result SessionError A) (w₁ : World W) (next : A → Act W B) {b : B} {w' : World W}
      → go_on r next w₁ ≡ (ok b, w')
      → ((a : A) → r ≡ ok a → next a w₁ ≡ (ok b, w') → C)
      → C
  go_on-ok (err x) w₁ next h k = cc
  go_on-ok (ok a) w₁ next h k = k a refl h

  pub and_then :
      (m : Act W A) {next : A → Act W B} {b : B} {w w' : World W}
      → (m >>= next) w ≡ (ok b, w')
      → ((a : A) (w₁ : World W) → m w ≡ (ok a, w₁) → next a w₁ ≡ (ok b, w') → C)
      → C
  and_then m {next} {w = w} h k =
      go_on-ok (m w).0 (m w).1 next h (λ a e. k a (m w).1 (ap (λ r. (r, (m w).1)) e))

module _ {W B C : Type 0} where
  pub checked :
      (t : Bool) (x : SessionError) (m : Act W B) {b : B} {w w' : World W}
      → (require t x >> m) w ≡ (ok b, w')
      → (t ≡ true → m w ≡ (ok b, w') → C)
      → C
  checked false x m h k = cc
  checked true x m h k = k refl h

module _ {W A C : Type 0} where
  pub present_in :
      (o : Option A) (x : SessionError) {a : A} {w w' : World W}
      → from o x w ≡ (ok a, w')
      → (o ≡ some a → w ≡ w' → C)
      → C
  present_in none x h k = cc
  present_in (some b) x {a} h k =
      k (ap (λ (p : Result SessionError A × World W). elim p.0 [ ok v ↦ some v | err y ↦ none ]) h)
        (ap (λ p. p.1) h)

  pub returned : {a b : A} {w w' : World W} → pure a w ≡ (ok b, w') → (a ≡ b → w ≡ w' → C) → C
  returned {a} h k =
      k (ap (λ (p : Result SessionError A × World W). elim p.0 [ ok v ↦ v | err y ↦ a ]) h)
        (ap (λ p. p.1) h)

-- A test that is the last step.
pub required :
    {W : Type 0} (t : Bool) (x : SessionError) (w w' : World W)
    → require t x w ≡ (ok tt, w')
    → t ≡ true
required false x w w' h = cc
required true x w w' h = refl

pub required_same :
    {W : Type 0} (t : Bool) (x : SessionError) (w w' : World W)
    → require t x w ≡ (ok tt, w')
    → w ≡ w'
required_same false x w w' h = cc
required_same true x w w' h = ap (λ p. p.1) h

module _ {W A B : Type 0} where
  pub raises :
      (m : Act W A) (next : A → Act W B) {x : SessionError} {w w' : World W}
      → m w ≡ (err x, w')
      → (m >>= next) w ≡ (err x, w')
  raises m next {x} {w} {w'} h = ap (λ (p : Result SessionError A × World W). go_on p.0 next p.1) h

  pub continues :
      (m : Act W A) (next : A → Act W B) {a : A} {w w' : World W}
      → m w ≡ (ok a, w')
      → (m >>= next) w ≡ next a w'
  continues m next h = ap (λ (p : Result SessionError A × World W). go_on p.0 next p.1) h
