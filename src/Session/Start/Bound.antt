-- ===== src/Session/Start/Bound.antt =====
-- Which session `start` hands back.
use design_document.Base.{
  String, ◌≡◌, refl, sym, ap, ◌∙◌, ◌⊎◌, inl, inr, Bool, true, false, not, Option, none, some, List,
  [], ◌∷◌, eq_refl, arith, if◌then◌else◌, ok, err, subst, Bool-cases,
}
use design_document.Session.State.{
  SessionState, ready, busy, SessionError, transition, allowed, Binding,
}
use design_document.Session.Spec.{SessionSpec, Digests, bind, is_bound, same_option}
use design_document.Session.Cell.{
  Terminal, Cell, Outcome, Observation, ◌>>=◌, raise_after, is_live, equals, move_to, observe, when,
  identity_matches, cwd_matches,
}
use design_document.Session.Start.{
  Launch, Look, start, start_again, restart, launch, launched, wait_ready, trusted, prompted,
  is_idle, accepts_trust,
}

move_to-binding :
    (s : SessionState) (d k : Option String) (c : Cell)
    → (move_to s d k c).1.session.binding ≡ c.session.binding
unfolding move_to transition
move_to-binding s d k c = ground arith

observe-binding : (t : Terminal) (c : Cell) → (observe t c).1.session.binding ≡ c.session.binding
unfolding observe when move_to transition
observe-binding t c = ground arith

same_option_refl : (o : Option String) → same_option o o ≡ true
same_option_refl none = refl
same_option_refl (some s) = eq_refl s

is_bound_refl : (b : Binding) → is_bound b b ≡ true
unfolding is_bound
is_bound_refl b = ground (
  arith,
  eq_refl b.adapter,
  eq_refl b.adapter_version,
  eq_refl b.launch_sha256,
  eq_refl b.role,
  eq_refl b.cwd,
  eq_refl b.policy_revision,
  eq_refl b.capability_revision,
  same_option_refl b.feature_id,
  same_option_refl b.capability_sha256,
  same_option_refl b.repository_identity_sha256,
  same_option_refl b.parent_root_id,
  same_option_refl b.fork_mode,
  same_option_refl b.worktree_binding,
)

-- What holds when an operation returns.
abbrev pub Returns : {A : Type 0} → (A → Cell → Type 0) → Outcome A → Type 0
Returns P (ok a, c) = P a c
Returns P (err x, c) = Unit

module _ {A : Type 0} (P : A → Cell → Type 0) where
  Returns-if :
      (b : Bool) (m n : Outcome A) → Returns P m → Returns P n → Returns P (if b then m else n)
  Returns-if true m n p q = p
  Returns-if false m n p q = q

  Returns-raise_after : (m : Outcome Unit) (x : SessionError) → Returns P (raise_after m x)
  Returns-raise_after (ok u, c) x = tt
  Returns-raise_after (err y, c) x = tt

Returns-bind :
    {A B : Type 0} (P : B → Cell → Type 0) (m : Outcome A) (f : A → Cell → Outcome B)
    → ((a : A) (c : Cell) → m ≡ (ok a, c) → Returns P (f a c))
    → Returns P (m >>= f)
Returns-bind P (ok a, c) f k = k a c refl
Returns-bind P (err x, c) f k = tt

-- The session runs in tmux under the identity and in the directory of its record.
pub record IsOwn (t : Terminal) (c : Cell) : Type 0 where
  pub own : identity_matches t c ≡ true
  pub placed : cwd_matches t c ≡ true
  pub usable : (c.session.state ≡ ready) ⊎ (c.session.state ≡ busy)

observe-IsOwn :
    (t : Terminal) (c c' : Cell) (o : Observation)
    → observe t c ≡ (ok o, c')
    → o.is_ready ≡ true
    → IsOwn t c'
unfolding observe when move_to transition allowed
observe-IsOwn t c c' o e r = ground arith

module _ (h : Digests) (t : Terminal) (s : SessionSpec) (l : Launch) where
  -- What `start` promises of the session that it returns.
  pub record IsStarted (o : Observation) (c : Cell) : Type 0 where
    pub bound : is_bound c.session.binding (bind h s) ≡ true
    pub ready : o.is_ready ≡ true → IsOwn t c ⊎ IsOwn l.after c

  abbrev IsBound : Cell → Type 0
  IsBound c = is_bound c.session.binding (bind h s) ≡ true

  abbrev Asked : Terminal → Type 0
  Asked u = (u ≡ t) ⊎ (u ≡ l.after)

  observed-result :
      (u : Terminal) (c : Cell) (m : Outcome Observation)
      → observe u c ≡ m
      → Asked u
      → IsBound c
      → Returns IsStarted m
  observed-result u c (err x, c') e w b = tt
  observed-result u c (ok o, c') e w b = record {
    bound =
        ap (λ (n : Outcome Observation). is_bound n.1.session.binding (bind h s)) (sym e)
        ∙ rw (observe-binding u c) b;
    ready = λ r.
        let own = observe-IsOwn u c c' o e r in
        elim w [
          | inl p ↦ inl (subst (λ v. IsOwn v c') p own)
          | inr p ↦ inr (subst (λ v. IsOwn v c') p own)
        ];
  }

  observed : (u : Terminal) (c : Cell) → Asked u → IsBound c → Returns IsStarted (observe u c)
  observed u c w b = observed-result u c (observe u c) refl w b

  move_to-Bound :
      (st : SessionState) (d k : Option String) (c : Cell)
      → IsBound c
      → IsBound (move_to st d k c).1
  move_to-Bound st d k c b = rw (move_to-binding st d k c) b

  prompted-IsStarted :
      (look : Look) (c : Cell) (wait : Cell → Outcome Observation)
      → IsBound c
      → Returns IsStarted (wait c)
      → Returns IsStarted (prompted l.after look c wait)
  unfolding prompted
  prompted-IsStarted look c wait b w =
      Returns-if IsStarted look.prompt _ _
        (Returns-bind IsStarted (move_to ready none none c) (λ _. observe l.after)
          λ a c' e.
            observed l.after c' (inr refl)
              (subst (λ (m : Outcome Unit). IsBound m.1) e (move_to-Bound ready none none c b)))
        w

  trusted-IsStarted :
      (look : Look) (c : Cell) (wait : Cell → Outcome Observation)
      → IsBound c
      → Returns IsStarted (wait c)
      → Returns IsStarted (trusted s l.after look c wait)
  unfolding trusted
  trusted-IsStarted look c wait b w =
      let p = prompted-IsStarted look c wait b w in
      Returns-if IsStarted (not look.trust) _ _ p (
        Returns-if IsStarted (not (accepts_trust s)) _ _ (Returns-raise_after IsStarted _ _)
          (Returns-if IsStarted look.keys_sent _ _ p tt))

  wait_ready-IsStarted :
      (looks : List Look) (c : Cell) → IsBound c → Returns IsStarted (wait_ready s l.after looks c)
  unfolding wait_ready
  wait_ready-IsStarted [] c b = Returns-raise_after IsStarted _ _
  wait_ready-IsStarted (look ∷ looks) c b =
      Returns-if IsStarted (not look.live) _ _ (Returns-raise_after IsStarted _ _) (
        Returns-if IsStarted (not (equals look.identity c.session.identity_sha256)) _ _
          (Returns-raise_after IsStarted _ _)
          (trusted-IsStarted look c (wait_ready s l.after looks) b
            (wait_ready-IsStarted looks c b)))

  launch-IsStarted : (c : Cell) → IsBound c → Returns IsStarted (launch s l c)
  unfolding launch
  launch-IsStarted c b =
      Returns-if IsStarted (not l.created) _ _ (Returns-raise_after IsStarted _ _)
        (Returns-if IsStarted (not l.options_set) _ _ tt (wait_ready-IsStarted l.looks c b))

  launched-Bound : (old : Option Cell) → IsBound (launched h s l.identity old)
  unfolding launched
  launched-Bound none = is_bound_refl (bind h s)
  launched-Bound (some c) = is_bound_refl (bind h s)

  restart-IsStarted :
      (o : Observation) (c c₀ : Cell)
      → observe t c₀ ≡ (ok o, c)
      → IsBound c₀
      → Returns IsStarted (restart h t s l o c)
  unfolding restart
  restart-IsStarted o c c₀ e b =
      Returns-if IsStarted o.is_ready _ _ (subst (Returns IsStarted) e (observed t c₀ (inl refl) b))
        (Returns-if IsStarted (is_live t c) _ _ tt (
          Returns-if IsStarted (not (is_idle c.session.state)) _ _ tt
            (launch-IsStarted (launched h s l.identity (some c)) (launched-Bound (some c)))))

  start_again-IsStarted : (c : Cell) → Returns IsStarted (start_again h t s l c)
  unfolding start_again
  start_again-IsStarted c = elim (Bool-cases (is_bound c.session.binding (bind h s))) [
    | inl b ↦
        rw (b, start_again)
          (Returns-bind IsStarted (observe t c) (restart h t s l)
            λ o c' e. restart-IsStarted o c' c e b)
    | inr b ↦ rw (b, start_again) (Returns-raise_after IsStarted _ _)
  ]

  -- A session that `start` returns, new or found, has the adapter, version, launch command,
  -- repository, policy, capability, parent, fork mode and worktree of the specification; and if it
  -- is reported ready, it runs in tmux under the identity on file and in its directory.
  pub start-IsStarted : (old : Option Cell) → Returns IsStarted (start h t s l old)
  unfolding start
  start-IsStarted none = launch-IsStarted (launched h s l.identity none) (launched-Bound none)
  start-IsStarted (some c) = start_again-IsStarted c
