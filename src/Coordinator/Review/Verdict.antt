-- ===== src/Coordinator/Review/Verdict.antt =====
-- What a review does to a feature.
use design_document.Base.{
  ◌+◌, leb, String, ◌≡◌, ◌∙◌, ap, Bool, true, false, none, some, arith, ok, ◌⊎◌, inl, inr,
  Bool-cases, Option, eq_iff,
}
use design_document.Json.{Dict, get_str}
use design_document.Feature.State.{
  FeatureState, changes_requested, approved, awaiting_human_approval, apply_event,
}
use design_document.Git.Command.{head, require_clean}
use design_document.Coordinator.World.{Reply, Ports, World, on_git, or_empty}
use design_document.Coordinator.World.Inversion.{and_then, checked}
use design_document.Coordinator.Log.{append}
use design_document.Coordinator.Log.Applies.{append-applies, stamped}
use design_document.Coordinator.Guards.{is_text, effective_fix_cycle_limit, workspace_from_state}
use design_document.Coordinator.Plan.{acknowledge}
use design_document.Coordinator.Review.{
  review_payload, block, limit_detail, block_at_limit, request_changes, approve_by_reviewer,
  recommend, conclude_review, reviewer_turn, review, Workspace,
}

abbrev pub is_blocked : FeatureState → Bool
is_blocked s = elim s.blocked [ none ↦ false | some b ↦ true ]

module _ {R L : Type 0} (ports : Ports R L) where
  -- The reviewer asks for changes.
  pub record AsksForChanges (s s' : FeatureState) : Type 0 where
    pub phase_is : s'.phase ≡ changes_requested
    pub counted : s'.fix_cycles ≡ s.fix_cycles + 1
    pub stopped :
        leb (effective_fix_cycle_limit ports s) (s.fix_cycles + 1) ≡ true → is_blocked s' ≡ true
    pub going :
        leb (effective_fix_cycle_limit ports s) (s.fix_cycles + 1) ≡ false → s'.blocked ≡ s.blocked

  -- The reviewer approves, with the authority to do so or as advice.
  pub record Approves (s s' : FeatureState) : Type 0 where
    pub authorised : ports.reviewer.capability.merge_authority ≡ true → s'.phase ≡ approved
    pub advised :
        ports.reviewer.capability.merge_authority ≡ false → s'.phase ≡ awaiting_human_approval
    pub kept : s'.fix_cycles ≡ s.fix_cycles
    pub unblocked : s'.blocked ≡ s.blocked

  block-applies :
      (s s' : FeatureState) (reason : String) (detail : Dict) (w w' : World R L)
      → block ports s reason detail w ≡ (ok s', w')
      → (payload : Dict) × (c event_id : String) × (s'
          ≡ apply_event "feature.blocked" payload (stamped s c event_id))
  unfolding block
  block-applies s s' reason detail w w' h =
      let (c, event_id, e) = append-applies ports s s' "feature.blocked" _ _ _ w w' h in
      (_, c, event_id, e)

  block_at_limit-cases :
      (payload : Dict) (p s' : FeatureState) (w w' : World R L)
      → block_at_limit ports payload p w ≡ (ok s', w')
      → ((leb (effective_fix_cycle_limit ports p) p.fix_cycles ≡ true)
          × ((detail : Dict) × (c event_id : String) × (s'
                ≡ apply_event "feature.blocked" detail (stamped p c event_id))))
        ⊎ ((leb (effective_fix_cycle_limit ports p) p.fix_cycles ≡ false) × (s' ≡ p))
  unfolding block_at_limit
  block_at_limit-cases payload p s' w w' h =
      elim (Bool-cases (leb (effective_fix_cycle_limit ports p) p.fix_cycles)) [
        | inl e ↦ inl (
          e,
          block-applies p s' "review_fix_cycle_limit" (limit_detail ports payload p) w w'
              (ground arith),
        )
        | inr e ↦ inr (e, ground arith)
      ]

  counted_changes :
      (s p s' : FeatureState) (payload : Dict) (c event_id : String)
      → p ≡ apply_event "changes.requested" payload (stamped s c event_id)
      → ((leb (effective_fix_cycle_limit ports p) p.fix_cycles ≡ true)
          × ((detail : Dict) × (c event_id : String) × (s'
                ≡ apply_event "feature.blocked" detail (stamped p c event_id))))
        ⊎ ((leb (effective_fix_cycle_limit ports p) p.fix_cycles ≡ false) × (s' ≡ p))
      → AsksForChanges s s'
  unfolding apply_event effective_fix_cycle_limit
  counted_changes s p s' payload c event_id e (inl (reached, (detail, d, id, b))) = record {
    phase_is = ap (λ q. q.phase) b ∙ ap (λ q. q.phase) e;
    counted = ap (λ q. q.fix_cycles) b ∙ ap (λ q. q.fix_cycles) e;
    stopped = λ r. ap is_blocked b;
    going = λ r. ground (arith, ap (λ q. q.fix_cycles) e, ap (effective_fix_cycle_limit ports) e);
  }
  counted_changes s p s' payload c event_id e (inr (below, same)) = record {
    phase_is = ap (λ q. q.phase) same ∙ ap (λ q. q.phase) e;
    counted = ap (λ q. q.fix_cycles) same ∙ ap (λ q. q.fix_cycles) e;
    stopped = λ r. ground (arith, ap (λ q. q.fix_cycles) e, ap (effective_fix_cycle_limit ports) e);
    going = λ r. ap (λ q. q.blocked) same ∙ ap (λ q. q.blocked) e;
  }

  request_changes-AsksForChanges :
      (s s' : FeatureState) (reply : Reply) (w w' : World R L)
      → request_changes ports s reply w ≡ (ok s', w')
      → AsksForChanges s s'
  unfolding request_changes
  request_changes-AsksForChanges s s' reply w w' h =
      and_then (append ports s "changes.requested" (review_payload ports s reply) _ _) h
        λ p w₁ e₁ h₁. and_then (acknowledge ports ports.reviewer reply) h₁ λ u w₂ e₂ h₂.
          let (c, event_id, applied) =
            append-applies ports s p "changes.requested" (review_payload ports s reply) _ _ w w₁
              e₁ in
          counted_changes s p s' (review_payload ports s reply) c event_id applied
            (block_at_limit-cases (review_payload ports s reply) p s' w₂ w' h₂)

  approve_by_reviewer-phase :
      (s s' : FeatureState) (reply : Reply) (w w' : World R L)
      → approve_by_reviewer ports s reply w ≡ (ok s', w')
      → (s'.phase ≡ approved) × (s'.fix_cycles ≡ s.fix_cycles) × (s'.blocked ≡ s.blocked)
  unfolding approve_by_reviewer apply_event
  approve_by_reviewer-phase s s' reply w w' h =
      and_then (append ports s "merge.approved" _ _ _) h λ p w₁ e₁ h₁.
        and_then (acknowledge ports ports.reviewer reply) h₁ λ u w₂ e₂ h₂.
          let (c, event_id, e) = append-applies ports s p "merge.approved" _ _ _ w w₁ e₁ in
          let same : s' ≡ p = ground arith in
          (
            ap (λ q. q.phase) same ∙ ap (λ q. q.phase) e,
            ap (λ q. q.fix_cycles) same ∙ ap (λ q. q.fix_cycles) e,
            ap (λ q. q.blocked) same ∙ ap (λ q. q.blocked) e,
          )

  recommend-phase :
      (s s' : FeatureState) (reply : Reply) (w w' : World R L)
      → recommend ports s reply w ≡ (ok s', w')
      → (s'.phase ≡ awaiting_human_approval)
        × (s'.fix_cycles ≡ s.fix_cycles)
        × (s'.blocked ≡ s.blocked)
  unfolding recommend apply_event review_payload
  recommend-phase s s' reply w w' h =
      and_then (append ports s "implementation.progress" _ _ _) h λ p w₁ e₁ h₁.
        and_then (acknowledge ports ports.reviewer reply) h₁ λ u w₂ e₂ h₂.
          let (c, event_id, e) = append-applies ports s p "implementation.progress" _ _ _ w w₁ e₁ in
          let same : s' ≡ p = ground arith in
          (
            ap (λ q. q.phase) same ∙ ap (λ q. q.phase) e,
            ap (λ q. q.fix_cycles) same ∙ ap (λ q. q.fix_cycles) e,
            ap (λ q. q.blocked) same ∙ ap (λ q. q.blocked) e,
          )

  -- What follows the answer of the reviewer, by its verdict.
  abbrev pub Decides : FeatureState → FeatureState → Reply → Type 0
  Decides s s' reply =
      ((get_str "verdict" reply.value ≡ some "changes_requested") × AsksForChanges s s')
      ⊎ ((get_str "verdict" reply.value ≡ some "approve") × Approves s s')

  -- The steps of a review, each from the world that the one before left.
  pub record IsReviewed (s s' : FeatureState) (w w' : World R L) : Type 0 where
    pub workspace : Workspace
    pub found : String
    pub reply : Reply
    pub w₁ : World R L
    pub w₂ : World R L
    pub w₃ : World R L
    pub w₄ : World R L
    pub placed : workspace_from_state ports s w ≡ (ok workspace, w₁)
    pub read : on_git (head ports.git workspace.path) w₁ ≡ (ok found, w₂)
    pub same_head : get_str "head" (or_empty s.implementation) ≡ some found
    pub clean : on_git (require_clean ports.git workspace.path) w₂ ≡ (ok tt, w₃)
    pub answered : reviewer_turn ports s workspace w₃ ≡ (ok reply, w₄)
    pub concluded : conclude_review ports s reply w₄ ≡ (ok s', w')
    pub decided : Decides s s' reply

  is_text-some : (o : Option String) (t : String) → is_text o t ≡ true → o ≡ some t
  is_text-some none t e = cc
  is_text-some (some u) t e = ap some ((eq_iff u t).0 e)

  conclude_review-Decides :
      (s s' : FeatureState) (reply : Reply) (w w' : World R L)
      → conclude_review ports s reply w ≡ (ok s', w')
      → Decides s s' reply
  unfolding conclude_review
  conclude_review-Decides s s' reply w w' h =
      elim (Bool-cases (is_text (get_str "verdict" reply.value) "changes_requested")) [
        | inl asks ↦
            inl
              (is_text-some _ _ asks, request_changes-AsksForChanges s s' reply w w' (ground arith))
        | inr other ↦ elim (Bool-cases (is_text (get_str "verdict" reply.value) "approve")) [
          | inr neither ↦ absurd (ground arith)
          | inl approves ↦ inr (
            is_text-some _ _ approves,
            record {
              authorised = λ m. (approve_by_reviewer-phase s s' reply w w' (ground arith)).0;
              advised = λ m. (recommend-phase s s' reply w w' (ground arith)).0;
              kept = ground (
                arith,
                approve_by_reviewer-phase s s' reply w w',
                recommend-phase s s' reply w w',
              );
              unblocked = ground (
                arith,
                approve_by_reviewer-phase s s' reply w w',
                recommend-phase s s' reply w w',
              );
            },
          )
        ]
      ]

  -- A review that returns read the recorded head in the clean worktree of the feature, and then
  -- asked the reviewer. If the verdict of the answer is `changes_requested`, it counts a fix cycle
  -- and blocks the feature if the count reaches the limit in force, and otherwise leaves it blocked
  -- or not as it was; if it is `approve`, the feature is approved if the reviewer has merge
  -- authority and otherwise waits for a human. There is no other verdict.
  pub review-AsksForChanges-or-Approves :
      (s s' : FeatureState) (w w' : World R L)
      → review ports s w ≡ (ok s', w')
      → IsReviewed s s' w w'
  unfolding review
  review-AsksForChanges-or-Approves s s' w w' h =
      and_then (workspace_from_state ports s) h λ workspace w₁ e₁ h₁.
        and_then (on_git (head ports.git workspace.path)) h₁ λ found w₂ e₂ h₂.
          checked (is_text (get_str "head" (or_empty s.implementation)) found) _ _ h₂ λ recorded h₃.
            and_then (on_git (require_clean ports.git workspace.path)) h₃ λ u w₃ e₃ h₄.
              and_then (reviewer_turn ports s workspace) h₄ λ reply w₄ e₄ h₅. record {
                workspace = workspace;
                found = found;
                reply = reply;
                w₁ = w₁;
                w₂ = w₂;
                w₃ = w₃;
                w₄ = w₄;
                placed = e₁;
                read = e₂;
                same_head = is_text-some _ _ recorded;
                clean = e₃;
                answered = e₄;
                concluded = h₅;
                decided = conclude_review-Decides s s' reply w₄ w' h₅;
              }
