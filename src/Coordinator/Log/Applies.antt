-- ===== src/Coordinator/Log/Applies.antt =====
-- What `_append` answers.
use design_document.Base.{◌+◌, String, ◌≡◌, refl, sym, ◌∙◌, some, Result, ok, eq_refl}
use design_document.Json.{Dict}
use design_document.Feature.State.{FeatureState, apply_event, project_feature}
use design_document.Feature.NewEvent.Accepted.{project_feature-new_event}
use design_document.Coordinator.World.{store_error, key_error, Ports, World}
use design_document.Coordinator.World.Inversion.{and_then, lifted}
use design_document.Coordinator.Log.{append, correlation, fresh_id, write_event, build, draft_of}

abbrev pub stamped : FeatureState → String → String → FeatureState
stamped s c event_id = record s {
  sequence = s.sequence + 1;
  correlation_id = some c;
  last_event_id = some event_id;
}

ok-injective : {X A : Type 0} (a b : A) → ◌≡◌ {A = Result X A} (ok a) (ok b) → a ≡ b
ok-injective a b h = cc

module _ {R L : Type 0} (ports : Ports R L) where
  -- An append that returns answers with its own event applied to the state that it was given.
  pub append-applies :
      (s s' : FeatureState) (event_type : String) (payload producer : Dict) (purpose : String)
      (w w' : World R L)
      → append ports s event_type payload producer purpose w ≡ (ok s', w')
      → (c event_id : String) × (s' ≡ apply_event event_type payload (stamped s c event_id))
  unfolding append build
  append-applies s s' event_type payload producer purpose w w' h =
      and_then (correlation ports s) h λ c w₁ e₁ h₁.
        and_then (fresh_id ports "evt-") h₁ λ event_id w₂ e₂ h₂.
          and_then (build ports (draft_of ports s event_type payload producer purpose c) event_id)
            h₂
            λ event w₃ e₃ h₃. and_then (write_event ports event) h₃ λ u w₄ e₄ h₄.
              lifted key_error (project_feature s event) h₄ λ projected same.
                lifted store_error _ e₃ λ built same'.
                  let d = draft_of ports s event_type payload producer purpose c in
                  (
                    c,
                    event_id,
                    ok-injective _ _ (
                        sym projected
                        ∙ project_feature-new_event ports.platform d event_id
                            (ports.time_text w₂.outside) event s built
                        ∙ rw (eq_refl s.feature_id) refl),
                  )
