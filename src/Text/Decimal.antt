-- ===== src/Text/Decimal.antt =====
-- The fuel of `decimal` is enough.
use Prim.Native.Nat.{◌/◌}
use design_document.Base.{ℕ, zero, suc, ◌≤◌, ◌≡◌, refl, subst, arith, ltb, Bool-cases, inl, inr}
use design_document.Text.{decimal_on}

-- More fuel than the number does not change its text.
pub decimal_on-enough : (fuel n : ℕ) → n ≤ fuel → decimal_on fuel n ≡ decimal_on (suc fuel) n
unfolding decimal_on
decimal_on-enough zero n h =
    let e : zero ≡ n = omega arith in subst (λ k. decimal_on 0 k ≡ decimal_on 1 k) e refl
decimal_on-enough (suc fuel) n h = elim (Bool-cases (ltb n 10)) [
  | inl small ↦ ground arith
  | inr large ↦ ground (arith, decimal_on-enough fuel (n / 10) (omega arith))
]
