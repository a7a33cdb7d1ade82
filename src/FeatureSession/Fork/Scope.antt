-- ===== src/FeatureSession/Fork/Scope.antt =====
-- What a fork that returns was allowed to do.
use mathlib.Core.Option.{some-injective}
use design_document.Base.{
  String, ◌≡◌, ◌≢◌, refl, sym, ◌∙◌, Bool, true, not, ◌&&◌, Option, none, some, ◌==◌, any, arith,
  eq_iff, if◌then◌else◌, ok, Bool-cases, inl, inr, subst, ◌⊎◌,
}
use Prim.Native.String.{◌++◌}
use design_document.Session.State.{ready, SessionRecord, SessionError, is}
use design_document.Session.Cell.{Observation}
use design_document.FeatureSession.Declaration.{
  Declaration, is_validated, lookup, has_words, validated,
}
use design_document.FeatureSession.World.{Setup, World, Act, from, require, raise}
use design_document.FeatureSession.World.Steps.{
  and_then, checked, present_in, required, required_same,
}
use design_document.FeatureSession.Factory.{FeatureSessionRequest, declared, root_record, same_text}
use design_document.FeatureSession.Fork.{
  role_scope, writer_scope, parent_is_ready, validate_feature_scope, native_fork, synthetic_fork,
  create_from_root, in_worktree, present, recovery_error, unavailable_error,
}

module _ {W : Type 0} (setup : Setup W) where
  -- Which directory a role may write to.
  pub record IsInScope (d : Declaration) (q : FeatureSessionRequest) : Type 0 where
    pub writes :
        q.role ≡ "implementer"
        → (d.adapter ≡ "codex")
          × (d.writes_workspace ≡ true)
          × (q.worktree_binding ≡ some q.cwd)
          × (q.cwd ≢ setup.repository)
          × ((root : String) × (setup.worktree_root ≡ some root)
              × (q.cwd ≡ root ++ ("/" ++ q.feature_id)))
    pub reads : q.role ≢ "implementer" → q.worktree_binding ≡ none

  abbrev Writes : Declaration → FeatureSessionRequest → Type 0
  Writes d q =
      (d.adapter ≡ "codex")
      × (d.writes_workspace ≡ true)
      × (q.worktree_binding ≡ some q.cwd)
      × (q.cwd ≢ setup.repository)
      × ((root : String) × (setup.worktree_root ≡ some root)
          × (q.cwd ≡ root ++ ("/" ++ q.feature_id)))

  bound_to_cwd : (o : Option String) (cwd : String) → same_text o cwd ≡ true → o ≡ some cwd
  bound_to_cwd none cwd e = cc
  bound_to_cwd (some b) cwd e = ground (arith, eq_iff b cwd)

  generated :
      (o : Option String) (q : FeatureSessionRequest)
      → in_worktree setup o q ≡ true
      → (root : String) × (o ≡ some root) × (q.cwd ≡ root ++ ("/" ++ q.feature_id))
  generated none q e = cc
  generated (some root) q e =
      (root, refl, ground (arith, eq_iff q.cwd (root ++ ("/" ++ q.feature_id))))

  writer_scope-Writes :
      (d : Declaration) (q : FeatureSessionRequest) (w w' : World W)
      → writer_scope setup d q w ≡ (ok tt, w')
      → Writes d q
  unfolding writer_scope
  writer_scope-Writes d q w w' h =
      checked ((d.adapter == "codex") && d.writes_workspace) _ _ h λ codex h₁.
        checked (same_text q.worktree_binding q.cwd) _ _ h₁ λ bound h₂.
          checked (not (q.cwd == setup.repository)) _ _ h₂ λ apart h₃. (
            ground (arith, eq_iff d.adapter "codex"),
            ground arith,
            bound_to_cwd q.worktree_binding q.cwd bound,
            λ e. ground (arith, eq_iff q.cwd setup.repository),
            generated setup.worktree_root q
                (required (in_worktree setup setup.worktree_root q) _ w w' h₃),
          )

  role_scope-IsInScope :
      (d : Declaration) (q : FeatureSessionRequest) (w w' : World W)
      → role_scope setup d q w ≡ (ok tt, w')
      → IsInScope d q
  unfolding role_scope
  role_scope-IsInScope d q w w' h = elim (Bool-cases (q.role == "implementer")) [
    | inl e ↦ record {
      writes = λ r. writer_scope-Writes d q w w' (
          subst
            (λ (b : Bool).
              (if b
                  then writer_scope setup d q
                  else require (not (present q.worktree_binding))
                      (recovery_error "read-only feature roles cannot own a writer worktree"))
                w
              ≡ (ok tt, w'))
            e h);
      reads = λ n. absurd (n (ground (arith, eq_iff q.role "implementer")));
    }
    | inr e ↦ record {
      writes = λ r. absurd (ground (arith, eq_iff q.role "implementer"));
      reads = λ n. ground arith;
    }
  ]

  -- What `_validate_feature_scope` has checked when it returns.
  pub record IsChecked (d : Declaration) (q : FeatureSessionRequest) (w : World W) : Type 0 where
    pub owned : any (λ role. role == q.role) d.roles ≡ true
    pub scope : IsInScope d q
    pub parent : SessionRecord
    pub on_file : root_record setup d.adapter w ≡ (ok parent, w)
    pub usable : parent.state ≡ ready

  writer_scope-same :
      (d : Declaration) (q : FeatureSessionRequest) (w w' : World W)
      → writer_scope setup d q w ≡ (ok tt, w')
      → w ≡ w'
  unfolding writer_scope
  writer_scope-same d q w w' h =
      checked ((d.adapter == "codex") && d.writes_workspace) _ _ h λ codex h₁.
        checked (same_text q.worktree_binding q.cwd) _ _ h₁ λ bound h₂.
          checked (not (q.cwd == setup.repository)) _ _ h₂
            λ apart h₃. required_same (in_worktree setup setup.worktree_root q) _ w w' h₃

  role_scope-same :
      (d : Declaration) (q : FeatureSessionRequest) (w w' : World W)
      → role_scope setup d q w ≡ (ok tt, w')
      → w ≡ w'
  unfolding role_scope
  role_scope-same d q w w' h = elim (Bool-cases (q.role == "implementer")) [
    | inl e ↦ writer_scope-same d q w w' (ground arith)
    | inr e ↦
        required_same (not (present q.worktree_binding))
          (recovery_error "read-only feature roles cannot own a writer worktree") w w'
          (ground arith)
  ]

  parent_is_ready-ready :
      (root : SessionRecord) (w w' : World W)
      → parent_is_ready setup root w ≡ (ok tt, w')
      → root.state ≡ ready
  unfolding parent_is_ready
  parent_is_ready-ready root w w' h = checked (is root.state ready) _ _ h λ at_rest h₁. ground arith

  root_record-same :
      (adapter : String) (w w' : World W) (r : SessionRecord)
      → root_record setup adapter w ≡ (ok r, w')
      → w ≡ w'
  unfolding root_record
  root_record-same adapter w w' r h = present_in _ _ h λ e same. same

  validate-IsChecked :
      (d : Declaration) (q : FeatureSessionRequest) (w w' : World W) (r : SessionRecord)
      → validate_feature_scope setup d q w ≡ (ok r, w')
      → IsChecked d q w
  unfolding validate_feature_scope
  validate-IsChecked d q w w' r h = checked (any (λ role. role == q.role) d.roles) _ _ h λ owns h₁.
      and_then (role_scope setup d q) h₁ λ u w₁ e₁ h₂.
        and_then (root_record setup d.adapter) h₂ λ root w₂ e₂ h₃.
          and_then (parent_is_ready setup root) h₃ λ u₂ w₃ e₃ h₄. record {
            owned = owns;
            scope = role_scope-IsInScope d q w w₁ e₁;
            parent = root;
            on_file =
                let same = role_scope-same d q w w₁ e₁ ∙ root_record-same d.adapter w₁ w₂ root e₂ in
                subst (λ v. root_record setup d.adapter v ≡ (ok root, v)) (sym same)
                  (subst (λ v. root_record setup d.adapter v ≡ (ok root, w₂))
                    (root_record-same d.adapter w₁ w₂ root e₂) e₂);
            usable = parent_is_ready-ready root w₂ w₃ e₃;
          }

  -- What holds of a fork that returns.
  pub record IsForked (q : FeatureSessionRequest) (w : World W) : Type 0 where
    pub declaration : Declaration
    pub known : lookup q.adapter setup.capabilities ≡ some declaration
    pub channel : declaration.structured_terminal_events ≡ validated
    pub checks : IsChecked declaration q w

  declared-known :
      (adapter : String) (w w' : World W) (d : Declaration)
      → declared setup adapter w ≡ (ok d, w')
      → (lookup adapter setup.capabilities ≡ some d) × (w ≡ w')
  unfolding declared
  declared-known adapter w w' d h = present_in _ _ h λ e same. (e, same)

  from-same :
      {A : Type 0} (o : Option A) (x : SessionError) (w w' : World W) (a : A)
      → from o x w ≡ (ok a, w')
      → w ≡ w'
  from-same o x w w' a h = present_in o x h λ e same. same

  native_fork-IsForked :
      (q : FeatureSessionRequest) (w w' : World W) (o : Observation)
      → native_fork setup q w ≡ (ok o, w')
      → IsForked q w
  unfolding native_fork
  native_fork-IsForked q w w' o h = and_then (declared setup q.adapter) h λ d w₁ e₁ h₁.
      checked
        (is_validated d.native_fork
          && has_words d.native_fork_command
          && is_validated d.structured_terminal_events)
        _ _ h₁
        λ able h₂.
          and_then
            (from d.native_fork_command
              (unavailable_error "native fork command/channel is not validated"))
            h₂
            λ command w₂ e₂ h₃. and_then (validate_feature_scope setup d q) h₃ λ root w₃ e₃ h₄.
              let k = declared-known q.adapter w w₁ d e₁ in
              record {
                declaration = d;
                known = k.0;
                channel = ground arith;
                checks =
                    subst (IsChecked d q) (sym (k.1 ∙ from-same _ _ w₁ w₂ command e₂))
                      (validate-IsChecked d q w₂ w₃ root e₃);
              }

  synthetic_fork-IsForked :
      (q : FeatureSessionRequest) (w w' : World W) (o : Observation)
      → synthetic_fork setup q w ≡ (ok o, w')
      → IsForked q w × (present q.reconstruction_provenance_sha256 ≡ true)
  unfolding synthetic_fork
  synthetic_fork-IsForked q w w' o h = and_then (declared setup q.adapter) h λ d w₁ e₁ h₁.
      and_then
        (from d.synthetic_launch_command (unavailable_error "synthetic fork is not declared")) h₁
        λ command w₂ e₂ h₂. checked (is_validated d.structured_terminal_events) _ _ h₂ λ able h₃.
          checked (present q.reconstruction_provenance_sha256) _ _ h₃ λ proven h₄.
            and_then (validate_feature_scope setup d q) h₄ λ root w₃ e₃ h₅.
              let k = declared-known q.adapter w w₁ d e₁ in
              (
                record {
                  declaration = d;
                  known = k.0;
                  channel = ground arith;
                  checks =
                      subst (IsChecked d q) (sym (k.1 ∙ from-same _ _ w₁ w₂ command e₂))
                        (validate-IsChecked d q w₂ w₃ root e₃);
                },
                proven,
              )

  abbrev branch : Declaration → FeatureSessionRequest → Act W Observation
  branch d q =
      if is_validated d.native_fork
      then native_fork setup q
      else if has_words d.synthetic_launch_command
      then synthetic_fork setup q
      else raise (unavailable_error "no eligible fork strategy")

  same_declaration :
      (q : FeatureSessionRequest) (w : World W) (d : Declaration) (f : IsForked q w)
      → lookup q.adapter setup.capabilities ≡ some d
      → f.declaration ≡ d
  same_declaration q w d f k = some-injective _ _ (sym f.known ∙ k)

  Forks : FeatureSessionRequest → World W → Type 0
  Forks q w =
      (f : IsForked q w) × ((f.declaration.native_fork ≡ validated)
        ⊎ (present q.reconstruction_provenance_sha256 ≡ true))

  branch-IsForked :
      (q : FeatureSessionRequest) (d : Declaration) (w w' : World W) (o : Observation)
      → lookup q.adapter setup.capabilities ≡ some d
      → branch d q w ≡ (ok o, w')
      → Forks q w
  unfolding Forks
  branch-IsForked q d w w' o k h = elim (Bool-cases (is_validated d.native_fork)) [
    | inl e ↦
        let f = native_fork-IsForked q w w' o (ground arith) in
        (f, inl (rw (same_declaration q w d f k) (ground arith)))
    | inr e ↦ elim (Bool-cases (has_words d.synthetic_launch_command)) [
      | inl s ↦ let (f, p) = synthetic_fork-IsForked q w w' o (ground arith) in (f, inr p)
      | inr s ↦ absurd (ground arith)
    ]
  ]

  -- A fork that is returned is of an adapter with a current declaration and a validated event
  -- channel, for a role that the adapter owns, from a root on file that is ready. An implementer is
  -- Codex, and works in the generated worktree of its feature, which is not the integration
  -- worktree; no other role binds a worktree. Without a validated native fork there is a
  -- reconstruction provenance.
  pub create_from_root-IsForked :
      (q : FeatureSessionRequest) (w w' : World W) (o : Observation)
      → create_from_root setup q w ≡ (ok o, w')
      → (f : IsForked q w) × ((f.declaration.native_fork ≡ validated)
          ⊎ (present q.reconstruction_provenance_sha256 ≡ true))
  unfolding create_from_root Forks
  create_from_root-IsForked q w w' o h = and_then (declared setup q.adapter) h λ d w₁ e₁ h₁.
      checked (is_validated d.structured_terminal_events) _ _ h₁ λ able h₂.
        let k = declared-known q.adapter w w₁ d e₁ in
        branch-IsForked q d w w' o k.0 (subst (λ v. branch d q v ≡ (ok o, w')) (sym k.1) h₂)
