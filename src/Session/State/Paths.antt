-- ===== src/Session/State/Paths.antt =====
-- Chains of allowed transitions.
use design_document.Base.{
  ◌≡◌, sym, ◌∙◌, subst, Bool-cases, true, Option, String, arith, ok, inl, inr,
}
use design_document.Session.State.{
  SessionState, starting, ready, busy, unavailable, terminating, terminated, recovery_required,
  draining, SessionRecord, allowed, is, transition,
}

infix 40 ◌⟶*◌
pub data ◌⟶*◌ : SessionState → SessionState → Type 0 where
  stay : {s : SessionState} → s ⟶* s
  move : {s t u : SessionState} → allowed s t ≡ true → t ⟶* u → s ⟶* u

pub ⟶*-trans : {s t u : SessionState} → s ⟶* t → t ⟶* u → s ⟶* u
⟶*-trans stay q = q
⟶*-trans (move a p) q = move a (⟶*-trans p q)

-- `terminated` is final.
pub from_terminated : {s t : SessionState} → s ⟶* t → s ≡ terminated → t ≡ terminated
unfolding allowed
from_terminated stay e = e
from_terminated (move {s = starting} a p) e = cc
from_terminated (move {s = ready} a p) e = cc
from_terminated (move {s = busy} a p) e = cc
from_terminated (move {s = unavailable} a p) e = cc
from_terminated (move {s = terminating} a p) e = cc
from_terminated (move {s = terminated} a p) e = cc
from_terminated (move {s = recovery_required} a p) e = cc
from_terminated (move {s = draining} a p) e = cc

same_state : (a b : SessionState) → is a b ≡ true → a ≡ b
same_state a b h = ground arith

pub transition-path :
    (r r' : SessionRecord) (s : SessionState) (diagnostic kind : Option String)
    → transition r s diagnostic kind ≡ ok r'
    → (r.state ⟶* r'.state) × (r'.state ≡ s)
unfolding transition
transition-path r r' s diagnostic kind h = elim (Bool-cases (is s r.state)) [
  | inl same ↦
      let e : r'.state ≡ s = ground arith in
      (subst (λ x. r.state ⟶* x) (sym (same_state s r.state same) ∙ sym e) stay, e)
  | inr other ↦
      let e : r'.state ≡ s = ground arith in
      (subst (λ x. r.state ⟶* x) (sym e) (move (ground arith) stay), e)
]
