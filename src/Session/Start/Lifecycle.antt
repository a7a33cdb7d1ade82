-- ===== src/Session/Start/Lifecycle.antt =====
-- `start` and `resume_or_reconstruct` move a session on file along the lifecycle table, the record that
-- `start` writes anew included.
use design_document.Base.{
  String, Bool, true, Option, none, some, List, [], ◌∷◌, arith, ◌≡◌, refl, Bool-cases, inl, inr,
  not, ◌&&◌, ◌==◌, subst, sym,
}
use design_document.Session.State.{
  SessionState, starting, ready, unavailable, recovery_required, allowed,
}
use design_document.Session.State.Paths.{◌⟶*◌, stay, move, ⟶*-trans}
use design_document.Session.Spec.{SessionSpec, Digests, bind, is_bound}
use design_document.Session.Cell.{
  Terminal, Cell, Outcome, Observation, is_live, equals, move_to, observe,
}
use design_document.Session.Cell.Lifecycle.{
  Follows, Follows-raise, Follows-if, Follows-bind, move_to-Follows, raise_after-Follows,
  observe-Follows,
}
use design_document.Session.Start.{
  Launch, Look, start, start_again, restart, launch, launched, wait_ready, trusted, prompted,
  is_idle, accepts_trust, recover, rebind, resume_observed, resume_or_reconstruct,
}

Follows-from :
    {A : Type 0} {s u : SessionState} (m : Outcome A) → s ⟶* u → Follows u m → Follows s m
Follows-from m p f = record { path = ⟶*-trans p f.path }

prompted-Follows :
    (after : Terminal) (look : Look) (c : Cell) (wait : Cell → Outcome Observation)
    → Follows c.session.state (wait c)
    → Follows c.session.state (prompted after look c wait)
unfolding prompted
prompted-Follows after look c wait w =
    Follows-if look.prompt _ _
      (Follows-bind (move_to ready none none c) (λ _. observe after)
        (move_to-Follows ready none none c) (λ _. observe-Follows after))
      w

trusted-Follows :
    (s : SessionSpec) (after : Terminal) (look : Look) (c : Cell)
    (wait : Cell → Outcome Observation)
    → Follows c.session.state (wait c)
    → Follows c.session.state (trusted s after look c wait)
unfolding trusted
trusted-Follows s after look c wait w =
    let p = prompted-Follows after look c wait w in
    Follows-if (not look.trust) _ _ p (
      Follows-if (not (accepts_trust s)) _ _
        (raise_after-Follows _ _
          (move_to-Follows recovery_required (some "trust_prompt_blocked") none c))
        (Follows-if look.keys_sent _ _ p (Follows-raise _ c)))

wait_ready-Follows :
    (s : SessionSpec) (after : Terminal) (looks : List Look) (c : Cell)
    → Follows c.session.state (wait_ready s after looks c)
unfolding wait_ready
wait_ready-Follows s after [] c =
    raise_after-Follows _ _ (move_to-Follows recovery_required (some "readiness_timeout") none c)
wait_ready-Follows s after (look ∷ looks) c =
    Follows-if (not look.live) _ _
      (raise_after-Follows _ _
        (move_to-Follows unavailable (some "process_exited_before_readiness") none c))
      (Follows-if (not (equals look.identity c.session.identity_sha256)) _ _
        (raise_after-Follows _ _
          (move_to-Follows recovery_required (some "stale_session_identity") none c))
        (trusted-Follows s after look c (wait_ready s after looks)
          (wait_ready-Follows s after looks c)))

launch-Follows : (s : SessionSpec) (l : Launch) (c : Cell) → Follows c.session.state (launch s l c)
unfolding launch
launch-Follows s l c =
    Follows-if (not l.created) _ _
      (raise_after-Follows _ _ (move_to-Follows unavailable (some "launch_failed") none c))
      (Follows-if (not l.options_set) _ _ (Follows-raise _ c)
        (wait_ready-Follows s l.after l.looks c))

idle-path : (s : SessionState) → is_idle s ≡ true → s ⟶* starting
unfolding is_idle allowed
idle-path s e = move (ground arith) stay

module _ (h : Digests) (t : Terminal) (s : SessionSpec) (l : Launch) where
  launched-state : (c : Cell) → (launched h s l.identity (some c)).session.state ≡ starting
  unfolding launched
  launched-state c = refl

  -- The record that `start` writes anew goes to `starting`, which it writes only over an idle session.
  relaunch-Follows :
      (c : Cell)
      → is_idle c.session.state ≡ true
      → Follows c.session.state (launch s l (launched h s l.identity (some c)))
  relaunch-Follows c idle =
      Follows-from _ (subst (λ u. c.session.state ⟶* u) (sym (launched-state c)) (idle-path _ idle))
        (launch-Follows s l (launched h s l.identity (some c)))

  restart-Follows : (o : Observation) (c : Cell) → Follows c.session.state (restart h t s l o c)
  unfolding restart
  restart-Follows o c = Follows-if o.is_ready _ _ (Follows-raise _ c) (
      Follows-if (is_live t c) _ _ (Follows-raise _ c)
        (elim (Bool-cases (is_idle c.session.state)) [
          | inl idle ↦ rw (idle) (relaunch-Follows c idle)
          | inr other ↦ rw (other) (Follows-raise _ c)
        ]))

  start_again-Follows : (c : Cell) → Follows c.session.state (start_again h t s l c)
  unfolding start_again
  start_again-Follows c =
      Follows-if (not (is_bound c.session.binding (bind h s))) _ _
        (raise_after-Follows _ _
          (move_to-Follows recovery_required (some "session_binding_drift") none c))
        (Follows-bind (observe t c) (restart h t s l) (observe-Follows t c) restart-Follows)

  pub start-Follows : (c : Cell) → Follows c.session.state (start h t s l (some c))
  unfolding start
  start-Follows c = start_again-Follows c

  rebind-state : (kind : String) (c : Cell) → (rebind h s kind c).session.state ≡ c.session.state
  unfolding rebind
  rebind-state kind c = ground arith

  recover-Follows : (kind : String) (c : Cell) → Follows c.session.state (recover h t s l kind c)
  unfolding recover
  recover-Follows kind c =
      subst (λ u. Follows u (recover h t s l kind c)) (rebind-state kind c)
        (Follows-bind (move_to starting none (some kind) (rebind h s kind c))
          (λ _. start_again h t s l) (move_to-Follows starting none (some kind) (rebind h s kind c))
          (λ _. start_again-Follows))

module _ (h : Digests) (t : Terminal) (s : SessionSpec) (l : Launch) where
  resume_observed-Follows :
      (clean : Bool) (command : Option (List String)) (o : Observation) (c : Cell)
      → Follows c.session.state (resume_observed h t s l clean command o c)
  unfolding resume_observed
  resume_observed-Follows clean command o c =
      Follows-if (o.live && o.is_ready) _ _ (Follows-raise _ c) (
        Follows-if (not clean) _ _
          (raise_after-Follows _ _
            (move_to-Follows recovery_required (some "dirty_worktree_preserved") none c))
          (Follows-if (not (c.session.adapter_version == s.adapter_version)) _ _
            (raise_after-Follows _ _
              (move_to-Follows recovery_required (some "adapter_version_drift") none c))
            (recover-Follows h t _ l _ c)))

  pub resume-Follows :
      (clean : Bool) (command : Option (List String)) (c : Cell)
      → Follows c.session.state (resume_or_reconstruct h t s l clean command (some c))
  unfolding resume_or_reconstruct
  resume-Follows clean command c =
      Follows-bind (observe t c) (resume_observed h t s l clean command) (observe-Follows t c)
        (resume_observed-Follows clean command)
