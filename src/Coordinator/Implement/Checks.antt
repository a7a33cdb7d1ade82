-- ===== src/Coordinator/Implement/Checks.antt =====
-- What was checked of an implementer's work before it is recorded.
use design_document.Base.{String, ◌≡◌, subst, sym, true, not, some, List, arith, ◌==◌, eq_iff, ok}
use design_document.Feature.State.{FeatureState}
use design_document.Git.Lease.{Lease, validate}
use design_document.Git.Command.{head, require_clean}
use design_document.Git.Workspace.{
  Workspace, Inspection, ref_snapshot, local_config_sha256, inspect_implementation,
}
use design_document.Coordinator.World.{Reply, Ports, World, on_git, lease_error, Prompt, or_empty}
use design_document.Coordinator.World.Inversion.{and_then, checked, lifted}
use design_document.Coordinator.Guards.{workspace_from_state, expected_worktree_head}
use design_document.Coordinator.Plan.{invoke}
use design_document.Coordinator.Writer.{or_text, places, current_lease, validate_lease}
use design_document.Coordinator.Implement.{
  same_refs, packet, implementer_turn, record_implementation, implement, implement_prompt,
  plan_artifact, findings_packet,
}

module _ {R L : Type 0} (ports : Ports R L) where
  -- What was asked before a turn and after it, each from the world that the one before left: the
  -- references but the feature's branch, the local configuration, the turn itself, the lease in the
  -- world that the turn left, and there again the references and the configuration, and the
  -- inspection of the new head.
  pub record TurnIsChecked (s : FeatureState) (ws : Workspace) (lease : Lease)
      (started_head : String) (before after : World R L) (reply : Reply) (i : Inspection)
      : Type 0 where
    pub refs : List (String × String)
    pub refs_after : List (String × String)
    pub config : String
    pub prompt : Prompt
    pub w₁ : World R L
    pub w₂ : World R L
    pub turned : World R L
    pub w₃ : World R L
    pub w₄ : World R L
    pub first_refs :
        on_git (ref_snapshot ports.git (places ports) (some ws.branch)) before ≡ (ok refs, w₁)
    pub first_config : on_git (local_config_sha256 ports.git (places ports)) w₁ ≡ (ok config, w₂)
    pub asked :
        prompt
        ≡ implement_prompt
            (or_empty s.request)
            (plan_artifact s)
            ws.base_head
            started_head
            (findings_packet s started_head)
            s.fix_cycles
    pub ran : invoke ports ports.implementer prompt ws.path s.feature_id w₂ ≡ (ok reply, turned)
    pub still_held : validate turned.files lease (ports.now turned.outside) ≡ ok tt
    pub second_refs :
        on_git (ref_snapshot ports.git (places ports) (some ws.branch)) turned ≡ (ok refs_after, w₃)
    pub refs_kept : same_refs refs_after refs ≡ true
    pub second_config : on_git (local_config_sha256 ports.git (places ports)) w₃ ≡ (ok config, w₄)
    pub inspected : on_git (inspect_implementation ports.git ws) w₄ ≡ (ok i, after)
    pub new_commit : not (i.head == started_head) ≡ true

  validate_lease-ok :
      (lease : Lease) (w w' : World R L) {u : Unit}
      → validate_lease ports lease w ≡ (ok u, w')
      → (validate w.files lease (ports.now w.outside) ≡ ok tt) × (w ≡ w')
  unfolding validate_lease
  validate_lease-ok lease w w' h =
      lifted lease_error (validate w.files lease (ports.now w.outside)) h λ e same. (e, same)

  packet-same :
      (p q : Prompt) (w w' : World R L) → packet ports p w ≡ (ok q, w') → (q ≡ p) × (w' ≡ w)
  unfolding packet
  packet-same p q w w' h = (ground arith, ground arith)

  implementer_turn-TurnIsChecked :
      (s : FeatureState) (ws : Workspace) (lease : Lease) (started_head : String) (reply : Reply)
      (i : Inspection) (w w' : World R L)
      → implementer_turn ports s ws lease started_head w ≡ (ok (reply, i), w')
      → TurnIsChecked s ws lease started_head w w' reply i
  unfolding implementer_turn
  implementer_turn-TurnIsChecked s ws lease started_head reply i w w' h =
      and_then (on_git (ref_snapshot ports.git (places ports) (some ws.branch))) h λ refs w₁ e₁ h₁.
        and_then (on_git (local_config_sha256 ports.git (places ports))) h₁ λ config w₂ e₂ h₂.
          and_then (packet ports _) h₂ λ prompt w₃ e₃ h₃.
            and_then (invoke ports ports.implementer prompt ws.path s.feature_id) h₃ λ r w₄ e₄ h₄.
              and_then (validate_lease ports lease) h₄ λ u w₅ e₅ h₅.
                and_then (on_git (ref_snapshot ports.git (places ports) (some ws.branch))) h₅
                  λ refs' w₆ e₆ h₆. checked (same_refs refs' refs) _ _ h₆ λ kept h₇.
                    and_then (on_git (local_config_sha256 ports.git (places ports))) h₇
                      λ config' w₇ e₇ h₈. checked (config' == config) _ _ h₈ λ same h₉.
                        and_then (on_git (inspect_implementation ports.git ws)) h₉ λ j w₈ e₈ k.
                          checked (not (j.head == started_head)) _ _ k λ fresh k'.
                            let (valid, here) = validate_lease-ok lease w₄ w₅ e₅ in
                            let (packed, unchanged) = packet-same _ prompt w₂ w₃ e₃ in
                            let same_i : j ≡ i = ground arith in
                            let same_r : r ≡ reply = ground arith in
                            let same_w : w₈ ≡ w' = ground arith in
                            record {
                              refs = refs;
                              refs_after = refs';
                              config = config;
                              prompt = prompt;
                              w₁ = w₁;
                              w₂ = w₂;
                              turned = w₄;
                              w₃ = w₆;
                              w₄ = w₇;
                              first_refs = e₁;
                              first_config = e₂;
                              asked = packed;
                              ran =
                                  subst
                                    (λ (v : World R L).
                                      invoke ports ports.implementer prompt ws.path s.feature_id v
                                      ≡ (ok reply, w₄))
                                    unchanged
                                    (subst
                                      (λ (t : Reply).
                                        invoke ports ports.implementer prompt ws.path s.feature_id
                                          w₃
                                        ≡ (ok t, w₄))
                                      same_r e₄);
                              still_held = valid;
                              second_refs =
                                  subst
                                    (λ (v : World R L).
                                      on_git
                                        (ref_snapshot ports.git (places ports) (some ws.branch)) v
                                      ≡ (ok refs', w₆))
                                    (sym here) e₆;
                              refs_kept = kept;
                              second_config = rw (← (eq_iff config' config).0 same) e₇;
                              inspected =
                                  subst
                                    (λ (v : World R L).
                                      on_git (inspect_implementation ports.git ws) w₇ ≡ (ok i, v))
                                    same_w
                                    (subst
                                      (λ (t : Inspection).
                                        on_git (inspect_implementation ports.git ws) w₇
                                        ≡ (ok t, w₈))
                                      same_i e₈);
                              new_commit =
                                  subst (λ (t : Inspection). not (t.head == started_head) ≡ true)
                                    same_i fresh;
                            }

  -- The steps of an implementation, each from the world that the one before left.
  pub record IsImplemented (s s' : FeatureState) (w w' : World R L) : Type 0 where
    pub workspace : Workspace
    pub lease : Lease
    pub reply : Reply
    pub inspection : Inspection
    pub w₁ : World R L
    pub w₂ : World R L
    pub w₃ : World R L
    pub w₄ : World R L
    pub w₅ : World R L
    pub placed : workspace_from_state ports s w ≡ (ok workspace, w₁)
    pub held : current_lease ports s w₁ ≡ (ok lease, w₂)
    pub clean : on_git (require_clean ports.git workspace.path) w₂ ≡ (ok tt, w₃)
    pub started :
        on_git (head ports.git workspace.path) w₃
        ≡ (ok (or_text (expected_worktree_head ports s) workspace.base_head), w₄)
    pub turn :
        TurnIsChecked s workspace lease
          (or_text (expected_worktree_head ports s) workspace.base_head)
          w₄
          w₅
          reply
          inspection
    pub recorded : record_implementation ports s (reply, inspection) w₅ ≡ (ok s', w')

  -- An implementation that is recorded was made in the feature's clean worktree from the head that
  -- the log expects. In the world that the turn left, the lease was still valid, every other branch,
  -- every tag and the local configuration were as before the turn, and the new commit passed
  -- inspection; what is recorded is the answer of that turn and that inspection.
  pub implement-TurnIsChecked :
      (s s' : FeatureState) (w w' : World R L)
      → implement ports s w ≡ (ok s', w')
      → IsImplemented s s' w w'
  unfolding implement
  implement-TurnIsChecked s s' w w' h = and_then (workspace_from_state ports s) h λ ws w₁ e₁ h₁.
      and_then (current_lease ports s) h₁ λ lease w₂ e₂ h₂.
        and_then (on_git (require_clean ports.git ws.path)) h₂ λ u w₃ e₃ h₃.
          and_then (on_git (head ports.git ws.path)) h₃ λ found w₄ e₄ h₄.
            let start = or_text (expected_worktree_head ports s) ws.base_head in
            checked (found == start) _ _ h₄ λ expected h₅.
              and_then (implementer_turn ports s ws lease start) h₅ λ (reply, i) w₅ e₅ h₆. record {
                workspace = ws;
                lease = lease;
                reply = reply;
                inspection = i;
                w₁ = w₁;
                w₂ = w₂;
                w₃ = w₃;
                w₄ = w₄;
                w₅ = w₅;
                placed = e₁;
                held = e₂;
                clean = e₃;
                started = rw (← (eq_iff found start).0 expected) e₄;
                turn = implementer_turn-TurnIsChecked s ws lease start reply i w₄ w₅ e₅;
                recorded = h₆;
              }
