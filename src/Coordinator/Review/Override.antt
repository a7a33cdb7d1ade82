-- ===== src/Coordinator/Review/Override.antt =====
-- What a maintainer's decisions need and grant.
use design_document.Base.{
  ℕ, ◌+◌, ◌≤◌, ◌<◌, leb, String, ◌≡◌, ap, true, not, ◌&&◌, none, arith, ◌==◌, ok,
}
use design_document.Text.{strip}
use design_document.Json.{get_str}
use design_document.Feature.State.{FeatureState, approved, awaiting_human_approval, apply_event}
use design_document.Coordinator.World.{Ports, World, or_empty}
use design_document.Coordinator.World.Inversion.{and_then, checked}
use design_document.Coordinator.Log.{state_of}
use design_document.Coordinator.Log.Applies.{append-applies}
use design_document.Coordinator.Guards.{
  in_phase, is_text, assert_not_blocked, assert_adapter_profile, effective_fix_cycle_limit,
}
use design_document.Coordinator.Review.{
  is_limit_block, unblock, override_in, override_fix_cycle_limit, approve_merge,
}

module _ {R L : Type 0} (ports : Ports R L) where
  -- The state that the override was decided on, and the state after it.
  pub record Overrides (s s' : FeatureState) : Type 0 where
    pub at_limit : is_limit_block s.blocked ≡ true
    pub unblocked : s'.blocked ≡ none
    pub phase_kept : s'.phase ≡ s.phase
    pub cycles_kept : s'.fix_cycles ≡ s.fix_cycles
    pub more : s'.fix_cycles < effective_fix_cycle_limit ports s'
    pub bounded : effective_fix_cycle_limit ports s' ≤ s.fix_cycles + ports.config.max_fix_cycles

  unblock-Overrides :
      (s s' : FeatureState) (n : ℕ) (who why : String) (w w' : World R L)
      → is_limit_block s.blocked ≡ true
      → (leb 1 n && leb n ports.config.max_fix_cycles) ≡ true
      → unblock ports s n who why w ≡ (ok s', w')
      → Overrides s s'
  unfolding unblock apply_event effective_fix_cycle_limit
  unblock-Overrides s s' n who why w w' blocked range h =
      let (c, event_id, e) = append-applies ports s s' "feature.unblocked" _ _ _ w w' h in
      record {
        at_limit = blocked;
        unblocked = ap (λ q. q.blocked) e;
        phase_kept = ap (λ q. q.phase) e;
        cycles_kept = ap (λ q. q.fix_cycles) e;
        more = ground (arith, ap (λ q. q.fix_cycles) e, ap (λ q. q.cycle_allowance) e);
        bounded = ground (arith, ap (λ q. q.cycle_allowance) e);
      }

  -- An override that returns was made on a feature that the fix-cycle limit had blocked; it lifts
  -- the block, keeps the phase and the count, and allows at least one more cycle, and no more than
  -- the configured number of them.
  pub override_fix_cycle_limit-Overrides :
      (feature_id : String) (n : ℕ) (who why : String) (s' : FeatureState) (w w' : World R L)
      → override_fix_cycle_limit ports feature_id n who why w ≡ (ok s', w')
      → (s : FeatureState) × (w₁ : World R L) × (state_of ports feature_id w ≡ (ok s, w₁))
        × Overrides s s'
  unfolding override_fix_cycle_limit override_in
  override_fix_cycle_limit-Overrides feature_id n who why s' w w' h =
      and_then (state_of ports feature_id) h λ s w₁ e₁ h₁.
        and_then (assert_adapter_profile ports s) h₁ λ u w₂ e₂ h₂.
          checked (is_limit_block s.blocked) _ _ h₂ λ blocked h₃.
            checked (leb 1 n && leb n ports.config.max_fix_cycles) _ _ h₃ λ range h₄.
              checked (not (strip why == "")) _ _ h₄
                λ reason h₅. (s, w₁, e₁, unblock-Overrides s s' n who why w₂ w' blocked range h₅)

  not_blocked :
      (s : FeatureState) (w w' : World R L) {u : Unit}
      → assert_not_blocked s w ≡ (ok u, w')
      → s.blocked ≡ none
  unfolding assert_not_blocked
  not_blocked s w w' h = ground arith

  -- A human approval that returns was allowed by the configuration and was given to a feature that
  -- was not blocked, waited for it, and had exactly the approved head as its implementation; the
  -- feature is then approved.
  pub approve_merge-binds :
      (feature_id expected_head who : String) (s' : FeatureState) (w w' : World R L)
      → approve_merge ports feature_id expected_head who w ≡ (ok s', w')
      → (s : FeatureState) × (w₁ : World R L) × (state_of ports feature_id w ≡ (ok s, w₁))
        × (s.blocked ≡ none)
        × (in_phase s awaiting_human_approval ≡ true)
        × (ports.config.allow_temporary_human_review_override ≡ true)
        × (is_text (get_str "head" (or_empty s.implementation)) expected_head ≡ true)
        × (s'.phase ≡ approved)
  unfolding approve_merge apply_event
  approve_merge-binds feature_id expected_head who s' w w' h =
      and_then (state_of ports feature_id) h λ s w₁ e₁ h₁.
        and_then (assert_adapter_profile ports s) h₁ λ u w₂ e₂ h₂.
          and_then (assert_not_blocked s) h₂ λ v w₃ e₃ h₃.
            checked (in_phase s awaiting_human_approval) _ _ h₃ λ waits h₄.
              checked ports.config.allow_temporary_human_review_override _ _ h₄ λ allowed h₅.
                checked (is_text (get_str "head" (or_empty s.implementation)) expected_head) _ _ h₅
                  λ bound h₆.
                    let (c, event_id, e) =
                      append-applies ports s s' "merge.approved" _ _ _ w₃ w' h₆ in
                    (s, w₁, e₁, not_blocked s w₂ w₃ e₃, waits, allowed, bound, ap (λ q. q.phase) e)
