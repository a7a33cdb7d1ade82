-- ===== src/Coordinator/Dispatch/Stops.antt =====
-- Where the dispatch loop stops.
use design_document.Base.{
  ℕ, zero, suc, String, ◌≡◌, refl, Bool, true, false, Option, none, some, arith, subst,
  Option-cases, ok, ◌⊎◌, inl, inr, if◌then◌else◌,
}
use design_document.Feature.State.{
  FeatureState, FeaturePhase, new, requested, plan_ready, plan_approved, implementing,
  implementation_ready, reviewing, changes_requested, awaiting_human_approval, approved, merging,
  completed,
}
use design_document.Coordinator.World.{policy_error, Ports, World, Run}
use design_document.Coordinator.World.Inversion.{and_then, checked}
use design_document.Coordinator.Log.{state_of}
use design_document.Coordinator.Guards.{has_profile, assert_adapter_profile}
use design_document.Coordinator.Review.Verdict.{is_blocked}
use design_document.Coordinator.Dispatch.{
  Round, stops, goes_on, step_of, take, round, go_round, run_until_gate,
}

-- The phases in which the loop waits for somebody, given whether plans are approved by itself.
abbrev pub waits : Bool → FeaturePhase → Bool
waits auto plan_ready = if auto then false else true
waits auto new = true
waits auto awaiting_human_approval = true
waits auto approved = true
waits auto merging = true
waits auto completed = true
waits auto _ = false

module _ {R L : Type 0} (ports : Ports R L) where
  take-stops :
      (s s' : FeatureState) (m : Option (Run (World R L) FeatureState)) (w w' : World R L)
      → take ports s m w ≡ (ok (stops s'), w')
      → (s ≡ s') × (w ≡ w') × (m ≡ none)
  unfolding take
  take-stops s s' none w w' h = ground arith
  take-stops s s' (some step) w w' h = and_then step h λ t w₁ e₁ h₁. cc

  step_of-none :
      (feature_id : String) (auto : Bool) (s : FeatureState) (p : FeaturePhase)
      → step_of ports feature_id auto s p ≡ none
      → waits auto p ≡ true
  unfolding step_of
  step_of-none feature_id auto s requested e = cc
  step_of-none feature_id true s plan_ready e = cc
  step_of-none feature_id false s plan_ready e = refl
  step_of-none feature_id auto s plan_approved e = cc
  step_of-none feature_id auto s changes_requested e = cc
  step_of-none feature_id auto s implementing e = cc
  step_of-none feature_id auto s implementation_ready e = cc
  step_of-none feature_id auto s reviewing e = cc
  step_of-none feature_id auto s new e = refl
  step_of-none feature_id auto s awaiting_human_approval e = refl
  step_of-none feature_id auto s approved e = refl
  step_of-none feature_id auto s merging e = refl
  step_of-none feature_id auto s completed e = refl

  state_of-pure :
      (feature_id : String) (s : FeatureState) (w w' : World R L)
      → state_of ports feature_id w ≡ (ok s, w')
      → w ≡ w'
  unfolding state_of
  state_of-pure feature_id s w w' h = ground arith

  -- A state at which the loop may stop: the one that the log holds, blocked or waiting.
  pub record IsGate (feature_id : String) (auto : Bool) (s : FeatureState) (w : World R L)
      : Type 0 where
    pub current : state_of ports feature_id w ≡ (ok s, w)
    pub reason : (is_blocked s ≡ true) ⊎ (waits auto s.phase ≡ true)

  stop-IsGate :
      (feature_id : String) (auto : Bool) (s s' : FeatureState) (w₁ w₂ w' : World R L)
      → state_of ports feature_id w₁ ≡ (ok s, w₂)
      → take ports s
          (elim s.blocked [ none ↦ step_of ports feature_id auto s s.phase | some b ↦ none ])
          w₂
        ≡ (ok (stops s'), w')
      → IsGate feature_id auto s' w'
  stop-IsGate feature_id auto s s' w₁ w₂ w' e h =
      let (same, here, nothing) = take-stops s s' _ w₂ w' h in
      let fits : IsGate feature_id auto s w₂ = record {
        current =
            subst (λ v. state_of ports feature_id v ≡ (ok s, w₂))
              (state_of-pure feature_id s w₁ w₂ e) e;
        reason = elim (Option-cases s.blocked) [
          | inl free ↦ inr (step_of-none feature_id auto s s.phase (ground arith))
          | inr (b, blocked) ↦ inl (rw blocked refl)
        ];
      } in
      subst (λ (p : FeatureState × World R L). IsGate feature_id auto p.0 p.1) (ground arith) fits

  round-IsGate :
      (feature_id : String) (auto : Bool) (s' : FeatureState) (w w' : World R L)
      → round ports feature_id auto w ≡ (ok (stops s'), w')
      → IsGate feature_id auto s' w'
  unfolding round assert_adapter_profile
  round-IsGate feature_id auto s' w w' h = and_then (state_of ports feature_id) h λ s w₁ e₁ h₁.
      checked (has_profile ports s) (policy_error "adapter drift") (take ports s _) h₁
        λ fits h₂. stop-IsGate feature_id auto s s' w w₁ w' e₁ h₂

  go_round-IsGate :
      (feature_id : String) (auto : Bool) (s' : FeatureState)
      (m : Run (World R L) (Option FeatureState)) (r : Round) (w w₁ w' : World R L)
      → ((v v' : World R L) → m v ≡ (ok (some s'), v') → IsGate feature_id auto s' v')
      → round ports feature_id auto w ≡ (ok r, w₁)
      → go_round ports m r w₁ ≡ (ok (some s'), w')
      → IsGate feature_id auto s' w'
  unfolding go_round
  go_round-IsGate feature_id auto s' m (stops s) w w₁ w' k e h =
      round-IsGate feature_id auto s' w w' (ground arith)
  go_round-IsGate feature_id auto s' m goes_on w w₁ w' k e h = k w₁ w' h

  -- When the loop returns, within any fuel, it returns the state that the log then holds, and that
  -- state is blocked or in a phase in which the loop waits for a decision: it never stops with work
  -- left that it could dispatch.
  pub run_until_gate-IsGate :
      (fuel : ℕ) (feature_id : String) (auto : Bool) (s' : FeatureState) (w w' : World R L)
      → run_until_gate ports fuel feature_id auto w ≡ (ok (some s'), w')
      → IsGate feature_id auto s' w'
  unfolding run_until_gate
  run_until_gate-IsGate zero feature_id auto s' w w' h = cc
  run_until_gate-IsGate (suc fuel) feature_id auto s' w w' h =
      and_then (round ports feature_id auto) h λ r w₁ e₁ h₁.
        go_round-IsGate feature_id auto s' (run_until_gate ports fuel feature_id auto) r w w₁ w'
          (run_until_gate-IsGate fuel feature_id auto s') e₁ h₁
