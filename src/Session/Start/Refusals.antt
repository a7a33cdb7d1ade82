-- ===== src/Session/Start/Refusals.antt =====
-- Sessions that `start` and `resume_or_reconstruct` do not launch again.
use design_document.Base.{
  String, ◌≡◌, refl, ◌∙◌, inl, inr, true, false, ◌&&◌, Option, none, some, List, arith, ok, err,
  Bool-cases,
}
use design_document.Session.State.{
  SessionState, recovery_required, terminated, SessionError, unavailable_error, recovery_error, is,
  transition, allowed, invalid_transition,
}
use design_document.Session.Spec.{SessionSpec, Digests, bind, is_bound}
use design_document.Session.Cell.{
  Terminal, Cell, Outcome, Observation, ◌>>=◌, raise_after, is_live, move_to, observe, when,
}
use design_document.Session.Start.{
  Launch, start, start_again, restart, is_idle, resume_or_reconstruct, resume_observed,
}

observe-terminated :
    (t : Terminal) (c : Cell)
    → c.session.state ≡ terminated
    → observe t c ≡ (ok (record { state = terminated; live = is_live t c; is_ready = false }), c)
unfolding observe when
observe-terminated t c e = ground arith

move_to-terminated :
    (s : SessionState) (d k : Option String) (c : Cell)
    → c.session.state ≡ terminated
    → is s terminated ≡ false
    → move_to s d k c ≡ (err (invalid_transition terminated s), c)
unfolding move_to transition allowed
move_to-terminated s d k c e n = ground arith

-- The operation raises and leaves the session as it is.
abbrev pub Refuses : Cell → Outcome Observation → Type 0
Refuses c m = (x : SessionError) × (m ≡ (err x, c))

restart-terminated :
    (h : Digests) (t : Terminal) (s : SessionSpec) (l : Launch) (o : Observation) (c : Cell)
    → c.session.state ≡ terminated
    → o.is_ready ≡ false
    → Refuses c (restart h t s l o c)
unfolding restart is_idle
restart-terminated h t s l o c e r = elim (Bool-cases (is_live t c)) [
  | inl v ↦ (
    recovery_error "existing tmux identity is live but not safely reusable",
    rw (r, restart, v) refl,
  )
  | inr v ↦ (unavailable_error "existing session is not reusable", rw (r, restart, v, e) refl)
]

-- `start` on a terminated session raises, and the session stays as it is.
pub start-terminated :
    (h : Digests) (t : Terminal) (s : SessionSpec) (l : Launch) (c : Cell)
    → c.session.state ≡ terminated
    → Refuses c (start h t s l (some c))
unfolding start start_again
start-terminated h t s l c e = elim (Bool-cases (is_bound c.session.binding (bind h s))) [
  | inl b ↦
      let (x, r) =
        restart-terminated h t s l
          (record { state = terminated; live = is_live t c; is_ready = false }) c e refl in
      (x, rw (b, start_again, observe-terminated t c e) r)
  | inr b ↦ (
    invalid_transition terminated recovery_required,
    rw
        (
          b,
          start_again,
          move_to-terminated recovery_required (some "session_binding_drift") none c e refl,
        )
        refl,
  )
]

-- What a recovery must not touch.
pub record IsPreserved (c c' : Cell) : Type 0 where
  pub binding : c'.session.binding ≡ c.session.binding
  pub identity : c'.session.identity_sha256 ≡ c.session.identity_sha256
  pub requests : c'.requests ≡ c.requests
  pub responses : c'.responses ≡ c.responses

observe-IsPreserved : (t : Terminal) (c : Cell) → IsPreserved c (observe t c).1
unfolding observe when move_to transition
observe-IsPreserved t c = record {
  binding = ground arith;
  identity = ground arith;
  requests = ground arith;
  responses = ground arith;
}

move_to-IsPreserved :
    (s : SessionState) (d k : Option String) (c : Cell) → IsPreserved c (move_to s d k c).1
unfolding move_to transition
move_to-IsPreserved s d k c = record {
  binding = ground arith;
  identity = ground arith;
  requests = ground arith;
  responses = ground arith;
}

-- The operation returns the observation of a session that is ready, or raises.
abbrev pub IsReadyOrRaises : Outcome Observation → Type 0
IsReadyOrRaises (ok o, c) = o.is_ready ≡ true
IsReadyOrRaises (err x, c) = Unit

IsPreserved-trans : (a b c : Cell) → IsPreserved a b → IsPreserved b c → IsPreserved a c
IsPreserved-trans a b c p q = record {
  binding = q.binding ∙ p.binding;
  identity = q.identity ∙ p.identity;
  requests = q.requests ∙ p.requests;
  responses = q.responses ∙ p.responses;
}

raise_after-IsPreserved :
    (m : Outcome Unit) (x : SessionError) (c : Cell)
    → IsPreserved c m.1
    → IsReadyOrRaises (raise_after m x) × IsPreserved c (raise_after {A = Observation} m x).1
raise_after-IsPreserved (ok u, c') x c p = (tt, p)
raise_after-IsPreserved (err y, c') x c p = (tt, p)

module _ (h : Digests) (t : Terminal) (s : SessionSpec) (l : Launch) where
  observed-dirty :
      (command : Option (List String)) (o : Observation) (c : Cell)
      → let m = resume_observed h t s l false command o c in IsReadyOrRaises m × IsPreserved c m.1
  unfolding resume_observed
  observed-dirty command o c = elim (Bool-cases (o.live && o.is_ready)) [
    | inl r ↦
        rw (r, resume_observed)
          (
            ground arith,
            record { binding = refl; identity = refl; requests = refl; responses = refl },
          )
    | inr r ↦
        rw (r, resume_observed)
          (raise_after-IsPreserved
            (move_to recovery_required (some "dirty_worktree_preserved") none c)
            (recovery_error "dirty worktree preserved; recovery requires maintainer action") c
            (move_to-IsPreserved recovery_required (some "dirty_worktree_preserved") none c))
  ]

  resumed-dirty :
      (command : Option (List String)) (c : Cell) (m : Outcome Observation)
      → IsPreserved c m.1
      → let n = m >>= resume_observed h t s l false command in IsReadyOrRaises n × IsPreserved c n.1
  resumed-dirty command c (err x, c') p = (tt, p)
  resumed-dirty command c (ok o, c') p =
      let d = observed-dirty command o c' in (d.0, IsPreserved-trans c c' _ p d.1)

  -- With a worktree that is not clean, a session on file is recovered only if it is ready as it is:
  -- else `resume_or_reconstruct` raises. Either way nothing is launched, and the session keeps its
  -- binding, its identity, and its requests and responses.
  pub resume-dirty :
      (command : Option (List String)) (c : Cell)
      → let m = resume_or_reconstruct h t s l false command (some c) in
        IsReadyOrRaises m × IsPreserved c m.1
  unfolding resume_or_reconstruct
  resume-dirty command c = resumed-dirty command c (observe t c) (observe-IsPreserved t c)
