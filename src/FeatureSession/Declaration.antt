-- ===== src/FeatureSession/Declaration.antt =====
-- src/ai_runtime/runtime/feature_sessions.py: `PersistentAdapterDeclaration`, its checks, and
-- `CapabilityRegistry`. The readiness patterns of a declaration are one text here.
pub mod Laws
use design_document.Base.{
  ℕ, String, Bool, true, false, not, ◌&&◌, ◌||◌, Option, none, some, List, [], ◌∷◌, ◌==◌,
  if◌then◌else◌, Result, ok, err, guard, ◌>>◌, map,
}
use design_document.Identifier.{is_safe_identifier, is_hex_text}
use design_document.Session.State.{SessionError, unavailable_error, recovery_error, value_error}
use design_document.Session.Spec.{
  TrustPromptBehavior, reject, accept_disposable_only, not_applicable, present, each, same_option,
  no_words,
}

pub data CapabilityValidation : Type 0 where
  validated fail_closed : CapabilityValidation

abbrev pub is_validated : CapabilityValidation → Bool
is_validated validated = true
is_validated fail_closed = false

pub data TerminationBehavior : Type 0 where
  graceful_then_kill kill_session : TerminationBehavior

pub record Declaration : Type 0 where
  pub adapter : String
  pub adapter_version : String
  pub declaration_revision : String
  pub roles : List String
  pub root_launch_command : List String
  pub root_readiness : String
  pub synthetic_launch_command : Option (List String)
  pub native_fork_command : Option (List String)
  pub resume_command : Option (List String)
  pub persistent_root : CapabilityValidation
  pub native_fork : CapabilityValidation
  pub resume : CapabilityValidation
  pub structured_terminal_events : CapabilityValidation
  pub validation_provenance_sha256 : Option String
  pub writes_workspace : Bool
  pub merge_authority : Bool
  pub temporary : Bool
  pub trust_prompt : TrustPromptBehavior
  pub termination : TerminationBehavior

abbrev pub has_words : Option (List String) → Bool
has_words none = false
has_words (some words) = true

abbrev implies : Bool → Bool → Bool
implies a b = not a || b

-- `__post_init__`
unfoldable pub check_declaration : Declaration → Result SessionError Unit
check_declaration d =
    let proven = present d.validation_provenance_sha256 in
    guard (is_safe_identifier 48 d.adapter) (value_error "adapter")
    >> guard (is_safe_identifier 128 d.declaration_revision) (value_error "declaration_revision")
    >> guard
        (not (d.adapter_version == "")
          && not (no_words d.root_launch_command)
          && not (no_words d.roles))
        (value_error "declaration requires version, root launch, and roles")
    >> guard (each d.validation_provenance_sha256 (is_hex_text 64))
        (value_error "validation provenance must be a SHA-256 digest")
    >> guard (implies (is_validated d.native_fork) (has_words d.native_fork_command && proven))
        (value_error "validated native fork requires command mapping and provenance")
    >> guard (implies (is_validated d.persistent_root) proven)
        (value_error "validated persistent root requires validation provenance")
    >> guard (implies (is_validated d.resume) (has_words d.resume_command && proven))
        (value_error "validated resume requires command mapping and provenance")
    >> guard (implies (is_validated d.structured_terminal_events) proven)
        (value_error "validated terminal events require validation provenance")
    >> guard (implies d.merge_authority ((d.adapter == "claude") && not d.temporary))
        (value_error "only a non-temporary Claude declaration may claim merge authority")
    >> guard (implies d.merge_authority proven)
        (value_error "merge authority requires explicit validation provenance")
    >> guard
        (implies (d.adapter == "antigravity")
          (d.temporary && not d.merge_authority && not (is_validated d.native_fork)))
        (value_error "Antigravity must remain temporary, advisory, and synthetic")

same_words : List String → List String → Bool
same_words [] [] = true
same_words (a ∷ as_) (b ∷ bs) = (a == b) && same_words as_ bs
same_words _ _ = false

same_command : Option (List String) → Option (List String) → Bool
unfolding same_words
same_command none none = true
same_command (some a) (some b) = same_words a b
same_command _ _ = false

abbrev same_bool : Bool → Bool → Bool
same_bool true b = b
same_bool false b = not b

abbrev same_trust : TrustPromptBehavior → TrustPromptBehavior → Bool
same_trust reject reject = true
same_trust accept_disposable_only accept_disposable_only = true
same_trust not_applicable not_applicable = true
same_trust _ _ = false

abbrev same_termination : TerminationBehavior → TerminationBehavior → Bool
same_termination graceful_then_kill graceful_then_kill = true
same_termination kill_session kill_session = true
same_termination _ _ = false

same_texts : Declaration → Declaration → Bool
unfolding same_words same_command
same_texts a b =
    (a.adapter == b.adapter)
    && (a.adapter_version == b.adapter_version)
    && (a.declaration_revision == b.declaration_revision)
    && same_words a.roles b.roles
    && same_words a.root_launch_command b.root_launch_command
    && (a.root_readiness == b.root_readiness)
    && same_command a.synthetic_launch_command b.synthetic_launch_command
    && same_command a.native_fork_command b.native_fork_command
    && same_command a.resume_command b.resume_command

same_claims : Declaration → Declaration → Bool
same_claims a b =
    same_bool (is_validated a.persistent_root) (is_validated b.persistent_root)
    && same_bool (is_validated a.native_fork) (is_validated b.native_fork)
    && same_bool (is_validated a.resume) (is_validated b.resume)
    && same_bool (is_validated a.structured_terminal_events)
        (is_validated b.structured_terminal_events)
    && same_option a.validation_provenance_sha256 b.validation_provenance_sha256
    && same_bool a.writes_workspace b.writes_workspace
    && same_bool a.merge_authority b.merge_authority
    && same_bool a.temporary b.temporary
    && same_trust a.trust_prompt b.trust_prompt
    && same_termination a.termination b.termination

-- The equality of the dataclass; `roles` is a set, given without repetitions in one fixed order.
unfoldable pub is_same : Declaration → Declaration → Bool
unfolding same_texts same_claims
is_same a b = same_texts a b && same_claims a b

-- The dictionary of `CapabilityRegistry`.
abbrev pub Registry : Type 0
Registry = List (String × Declaration)

unfoldable pub lookup : String → Registry → Option Declaration
lookup name [] = none
lookup name ((n, d) ∷ registry) = if n == name then some d else lookup name registry

unfoldable pub put : String → Declaration → Registry → Registry
put name d [] = (name, d) ∷ []
put name d ((n, e) ∷ registry) =
    let rest = put name d registry in if n == name then (n, d) ∷ registry else (n, e) ∷ rest

abbrev drifts : Declaration → Option Declaration → Bool
drifts d none = false
drifts d (some current) = not (is_same current d)

unfoldable pub register : Declaration → Registry → Result SessionError Registry
unfolding put lookup
register d registry =
    if drifts d (lookup d.adapter registry)
    then err (recovery_error "capability declaration changed; explicit revalidation required")
    else ok (put d.adapter d registry)

unfoldable pub require : String → Registry → Result SessionError Declaration
unfolding lookup
require name registry = elim (lookup name registry) [
  | none ↦ err (unavailable_error "no current capability declaration")
  | some d ↦ ok d
]

unfoldable pub versions : Registry → List (String × String)
versions registry = map (λ p. (p.0, p.1.adapter_version)) registry
