-- ===== src/FeatureSession/Declaration/Laws.antt =====
-- What a checked declaration may claim, and how long a registered one lasts.
use design_document.Base.{
  String, ◌≡◌, refl, Bool, true, false, ◌&&◌, Option, none, some, List, [], ◌∷◌, ◌==◌, eq_iff,
  eq_refl, arith, if◌then◌else◌, ok, err, Option-cases, Bool-cases, inl, inr, ◌⊎◌, Result-cases, ap,
}
use design_document.FeatureSession.Declaration.{
  Declaration, CapabilityValidation, validated, fail_closed, check_declaration, Registry, lookup,
  put, register, require, is_same, is_validated, same_words, same_command, same_option,
  TrustPromptBehavior, TerminationBehavior, same_bool, same_trust, same_termination, same_texts,
  same_claims,
}

-- The limits on the claims of a declaration.
pub record IsSound (d : Declaration) : Type 0 where
  pub proven :
      (d.persistent_root ≡ validated)
        ⊎ (d.native_fork ≡ validated)
        ⊎ (d.resume ≡ validated)
        ⊎ (d.structured_terminal_events ≡ validated)
        ⊎ (d.merge_authority ≡ true)
      → (sha : String) × (d.validation_provenance_sha256 ≡ some sha)
  pub forks : d.native_fork ≡ validated → (c : List String) × (d.native_fork_command ≡ some c)
  pub resumes : d.resume ≡ validated → (c : List String) × (d.resume_command ≡ some c)
  pub merges : d.merge_authority ≡ true → (d.adapter ≡ "claude") × (d.temporary ≡ false)
  pub advises :
      d.adapter ≡ "antigravity"
      → (d.temporary ≡ true) × (d.merge_authority ≡ false) × (d.native_fork ≡ fail_closed)

-- A declaration that can be built claims a validated capability or merge authority only with a
-- provenance, a native fork or a resume only with its command, and merge authority only for a
-- Claude that is not temporary; Antigravity is temporary, has no merge authority and no native fork.
pub check_declaration-IsSound : (d : Declaration) → check_declaration d ≡ ok tt → IsSound d
unfolding check_declaration
check_declaration-IsSound d e = record {
  proven = λ c. elim (Option-cases d.validation_provenance_sha256) [
    | inl n ↦ absurd (ground arith)
    | inr s ↦ s
  ];
  forks =
      λ c. elim (Option-cases d.native_fork_command) [ inl n ↦ absurd (ground arith) | inr s ↦ s ];
  resumes = λ c. elim (Option-cases d.resume_command) [ inl n ↦ absurd (ground arith) | inr s ↦ s ];
  merges = λ c. ground (arith, eq_iff d.adapter "claude");
  advises = λ c. ground (arith, eq_iff d.adapter "antigravity");
}

lookup-put :
    (m n : String) (d : Declaration) (registry : Registry)
    → lookup n (put m d registry) ≡ (if m == n then some d else lookup n registry)
unfolding lookup put
lookup-put m n d [] = refl
lookup-put m n d ((k, e) ∷ registry) =
    ground (arith, eq_iff k m, eq_iff k n, eq_iff m n, lookup-put m n d registry)

-- Registrations in a row; one that is refused changes nothing.
unfoldable pub register_all : List Declaration → Registry → Registry
register_all [] registry = registry
register_all (d ∷ ds) registry = elim (register d registry) [
  | ok r ↦ register_all ds r
  | err x ↦ register_all ds registry
]

same_words-eq : (a b : List String) → same_words a b ≡ true → a ≡ b
unfolding same_words
same_words-eq [] [] e = refl
same_words-eq [] (b ∷ bs) e = cc
same_words-eq (a ∷ as_) [] e = cc
same_words-eq (a ∷ as_) (b ∷ bs) e = ground (arith, eq_iff a b, same_words-eq as_ bs)

same_command-eq : (a b : Option (List String)) → same_command a b ≡ true → a ≡ b
unfolding same_command
same_command-eq none none e = refl
same_command-eq none (some b) e = cc
same_command-eq (some a) none e = cc
same_command-eq (some a) (some b) e = ap some (same_words-eq a b e)

same_option-eq : (a b : Option String) → same_option a b ≡ true → a ≡ b
same_option-eq none none e = refl
same_option-eq none (some b) e = cc
same_option-eq (some a) none e = cc
same_option-eq (some a) (some b) e = ground (arith, eq_iff a b)

same_trust-eq : (a b : TrustPromptBehavior) → same_trust a b ≡ true → a ≡ b
same_trust-eq a b e = ground arith

same_termination-eq : (a b : TerminationBehavior) → same_termination a b ≡ true → a ≡ b
same_termination-eq a b e = ground arith

same_validation-eq :
    (a b : CapabilityValidation) → same_bool (is_validated a) (is_validated b) ≡ true → a ≡ b
same_validation-eq a b e = ground arith

and-left : (a b : Bool) → (a && b) ≡ true → a ≡ true
and-left a b e = ground arith

and-right : (a b : Bool) → (a && b) ≡ true → b ≡ true
and-right a b e = ground arith

same_bool-eq : (a b : Bool) → same_bool a b ≡ true → a ≡ b
same_bool-eq a b e = ground arith

-- The parts of two declarations that two halves of the comparison make equal.
record SameTexts (a b : Declaration) : Type 0 where
  adapter : a.adapter ≡ b.adapter
  adapter_version : a.adapter_version ≡ b.adapter_version
  revision : a.declaration_revision ≡ b.declaration_revision
  roles : a.roles ≡ b.roles
  root : a.root_launch_command ≡ b.root_launch_command
  readiness : a.root_readiness ≡ b.root_readiness
  synthetic : a.synthetic_launch_command ≡ b.synthetic_launch_command
  native : a.native_fork_command ≡ b.native_fork_command
  resumed : a.resume_command ≡ b.resume_command

same_texts-SameTexts : (a b : Declaration) → same_texts a b ≡ true → SameTexts a b
unfolding same_texts
same_texts-SameTexts a b e = record {
  adapter = ground (arith, eq_iff a.adapter b.adapter);
  adapter_version = ground (arith, eq_iff a.adapter_version b.adapter_version);
  revision = ground (arith, eq_iff a.declaration_revision b.declaration_revision);
  roles = same_words-eq a.roles b.roles (ground arith);
  root = same_words-eq a.root_launch_command b.root_launch_command (ground arith);
  readiness = ground (arith, eq_iff a.root_readiness b.root_readiness);
  synthetic = same_command-eq a.synthetic_launch_command b.synthetic_launch_command (ground arith);
  native = same_command-eq a.native_fork_command b.native_fork_command (ground arith);
  resumed = same_command-eq a.resume_command b.resume_command (ground arith);
}

record SameClaims (a b : Declaration) : Type 0 where
  persists : a.persistent_root ≡ b.persistent_root
  forks : a.native_fork ≡ b.native_fork
  resumes : a.resume ≡ b.resume
  events : a.structured_terminal_events ≡ b.structured_terminal_events
  provenance : a.validation_provenance_sha256 ≡ b.validation_provenance_sha256
  writes : a.writes_workspace ≡ b.writes_workspace
  merges : a.merge_authority ≡ b.merge_authority
  temporary : a.temporary ≡ b.temporary
  trust : a.trust_prompt ≡ b.trust_prompt
  ends : a.termination ≡ b.termination

same_claims-SameClaims : (a b : Declaration) → same_claims a b ≡ true → SameClaims a b
unfolding same_claims
same_claims-SameClaims a b e = record {
  persists = same_validation-eq a.persistent_root b.persistent_root (ground arith);
  forks = same_validation-eq a.native_fork b.native_fork (ground arith);
  resumes = same_validation-eq a.resume b.resume (ground arith);
  events =
      same_validation-eq a.structured_terminal_events b.structured_terminal_events (ground arith);
  provenance =
      same_option-eq a.validation_provenance_sha256 b.validation_provenance_sha256 (ground arith);
  writes = same_bool-eq a.writes_workspace b.writes_workspace (ground arith);
  merges = same_bool-eq a.merge_authority b.merge_authority (ground arith);
  temporary = same_bool-eq a.temporary b.temporary (ground arith);
  trust = same_trust-eq a.trust_prompt b.trust_prompt (ground arith);
  ends = same_termination-eq a.termination b.termination (ground arith);
}

is_same-eq : (a b : Declaration) → is_same a b ≡ true → a ≡ b
unfolding is_same
is_same-eq a b e =
    let t : SameTexts a b =
      same_texts-SameTexts a b (and-left (same_texts a b) (same_claims a b) e) in
    let c : SameClaims a b =
      same_claims-SameClaims a b (and-right (same_texts a b) (same_claims a b) e) in
    cc (
      t.adapter, t.adapter_version, t.revision, t.roles, t.root, t.readiness, t.synthetic, t.native,
      t.resumed, c.persists, c.forks, c.resumes, c.events, c.provenance, c.writes, c.merges,
      c.temporary, c.trust, c.ends,
    )

register-lookup :
    (n : String) (d e : Declaration) (registry r : Registry)
    → lookup n registry ≡ some d
    → register e registry ≡ ok r
    → lookup n r ≡ some d
unfolding register
register-lookup n d e registry r h k = elim (Bool-cases (e.adapter == n)) [
  | inl s ↦
      let p : e.adapter ≡ n = ground (arith, eq_iff e.adapter n) in
      let q : lookup e.adapter registry ≡ some d = rw p h in
      let same : is_same d e ≡ true = ground arith in
      let put_e : put e.adapter e registry ≡ r = ground arith in
      rw (← put_e, lookup-put e.adapter n e registry, s, is_same-eq d e same) refl
  | inr s ↦
      let put_e : put e.adapter e registry ≡ r = ground arith in
      rw (← put_e, lookup-put e.adapter n e registry, s) h
]

register_all-lookup :
    (n : String) (d : Declaration) (ds : List Declaration) (registry : Registry)
    → lookup n registry ≡ some d
    → lookup n (register_all ds registry) ≡ some d
unfolding register_all
register_all-lookup n d [] registry h = h
register_all-lookup n d (e ∷ ds) registry h = elim (Result-cases (register e registry)) [
  | inl (r, k) ↦
      rw (register_all, k) (register_all-lookup n d ds r (register-lookup n d e registry r h k))
  | inr (x, k) ↦ rw (register_all, k) (register_all-lookup n d ds registry h)
]

-- Once a declaration is registered, `require` answers with it for ever: no later registrations, of
-- other declarations of the same adapter among them, replace it.
pub register-require :
    (d : Declaration) (registry r : Registry) (ds : List Declaration)
    → register d registry ≡ ok r
    → require d.adapter (register_all ds r) ≡ ok d
unfolding register require
register-require d registry r ds k =
    let put_d : put d.adapter d registry ≡ r = ground arith in
    let here : lookup d.adapter r ≡ some d =
      rw (← put_d, lookup-put d.adapter d.adapter d registry, eq_refl d.adapter) refl in
    rw (require, register_all-lookup d.adapter d ds r here) refl
