-- ===== src/FeatureSession/Recovery/Generations.antt =====
-- The loop of `replace_root` over the generations of a root, with enough fuel.
use design_document.Base.{
  ℕ, zero, suc, ◌+◌, ◌<◌, ◌≤◌, ◌≡◌, refl, Bool, true, false, some, arith, Bool-cases, ltb, inl, inr,
}
use design_document.FeatureSession.World.{Setup}
use design_document.FeatureSession.Recovery.{next_generation}

-- The first free generation from `n` on.
pub record IsFirstFree (taken : ℕ → Bool) (n m : ℕ) : Type 0 where
  pub later : n ≤ m
  pub free : taken m ≡ false
  pub first : (i : ℕ) → n ≤ i → i < m → taken i ≡ true

IsFirstFree-here : (taken : ℕ → Bool) (n : ℕ) → taken n ≡ false → IsFirstFree taken n n
IsFirstFree-here taken n free = record {
  later = omega arith;
  free = free;
  first = λ i a b. absurd (omega (arith, a, b));
}

free_later : (taken : ℕ → Bool) (n j : ℕ) → n ≤ j → taken n ≡ true → taken j ≡ false → n + 1 ≤ j
free_later taken n j a t f = elim (Bool-cases (ltb n j)) [
  | inl l ↦ ground arith
  | inr l ↦ let e : n ≡ j = ground arith in absurd (ground (arith, e, t, f))
]

IsFirstFree-next :
    (taken : ℕ → Bool) (n m : ℕ)
    → taken n ≡ true
    → IsFirstFree taken (n + 1) m
    → IsFirstFree taken n m
IsFirstFree-next taken n m t r = record {
  later = omega (arith, r.later);
  free = r.free;
  first = λ i a b. elim (Bool-cases (ltb n i)) [
    | inl l ↦ r.first i (ground arith) b
    | inr l ↦ let e : n ≡ i = ground arith in rw (← e) t
  ];
}

module _ {W : Type 0} (setup : Setup W) where
  -- When one of the `fuel` generations from `n` on is free, the loop ends with the first that is.
  pub next_generation-finds :
      (fuel : ℕ) (taken : ℕ → Bool) (n j : ℕ)
      → n ≤ j
      → j < n + fuel
      → taken j ≡ false
      → (m : ℕ) × (next_generation setup fuel taken n ≡ some m) × IsFirstFree taken n m
  unfolding next_generation
  next_generation-finds zero taken n j a b f = absurd (omega (arith, a, b))
  next_generation-finds (suc fuel) taken n j a b f = elim (Bool-cases (taken n)) [
    | inr free ↦ (n, rw (next_generation, free) refl, IsFirstFree-here taken n free)
    | inl t ↦
        let apart : n + 1 ≤ j = free_later taken n j a t f in
        let (m, e, r) = next_generation-finds fuel taken (n + 1) j apart (omega (arith, b)) f in
        (m, rw (next_generation, t) e, IsFirstFree-next taken n m t r)
  ]
