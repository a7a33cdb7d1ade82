-- ===== src/Coordinator/Dispatch/Expiry.antt =====
-- A lease that expires between the record of the implementation and the request of its review.
use design_document.Base.{ℕ, suc, ◌≤◌, ◌≡◌, Bool, true, none, some, arith, eq_refl, ok, err}
use design_document.Json.{get_nat}
use design_document.Identifier.{is_safe_feature_id}
use design_document.Feature.State.{FeatureState, implementation_ready}
use design_document.Git.Lease.{Lease, LeaseFiles, read, validate, expired}
use design_document.Coordinator.World.{lease_error, Ports, World, or_empty}
use design_document.Coordinator.Log.{state_of}
use design_document.Coordinator.Guards.{has_profile, assert_adapter_profile}
use design_document.Coordinator.Writer.{
  read_lease, validate_lease, revoke_held, revoke_implementation_lease,
}
use design_document.Coordinator.Review.{request_review}
use design_document.Coordinator.Dispatch.{step_of, take, round, run_until_gate}

-- The lease in force is the state's, and it is over.
pub record HasExpired (files : LeaseFiles) (now : ℕ) (s : FeatureState) (l : Lease) : Type 0 where
  pub safe : is_safe_feature_id s.feature_id ≡ true
  pub in_force : files.lease_file s.feature_id ≡ some l
  pub own : l.feature_id ≡ s.feature_id
  pub token : get_nat "fencing_token" (or_empty s.workspace) ≡ some l.fencing_token
  pub over : l.expires_at ≤ now

module _ {R L : Type 0} (ports : Ports R L) where
  validate-HasExpired :
      (files : LeaseFiles) (now : ℕ) (s : FeatureState) (l : Lease)
      → HasExpired files now s l
      → validate files l now ≡ err expired
  unfolding validate
  validate-HasExpired files now s l x = ground (
    arith,
    x.safe,
    x.in_force,
    x.own,
    x.over,
    eq_refl l.feature_id,
    eq_refl l.owner,
    eq_refl l.workspace,
    eq_refl l.lease_id,
  )

  revoke_held-HasExpired :
      (s : FeatureState) (l : Lease) (w : World R L)
      → HasExpired w.files (ports.now w.outside) s l
      → revoke_held ports s (some l) w ≡ (err (lease_error expired), w)
  unfolding revoke_held validate_lease
  revoke_held-HasExpired s l w x =
      ground (arith, x.token, validate-HasExpired w.files (ports.now w.outside) s l x)

  request_review-HasExpired :
      (s : FeatureState) (l : Lease) (w : World R L)
      → HasExpired w.files (ports.now w.outside) s l
      → request_review ports s w ≡ (err (lease_error expired), w)
  unfolding request_review revoke_implementation_lease read_lease read
  request_review-HasExpired s l w x =
      ground (arith, x.safe, x.in_force, revoke_held-HasExpired s l w x)

  -- If the lease ended after `implementation.ready` was written and before it was revoked, the loop
  -- raises at the request of the review, with any fuel but none, and changes nothing, so that the next call
  -- finds what this one found.
  pub run_until_gate-HasExpired :
      (fuel : ℕ) (auto : Bool) (s : FeatureState) (l : Lease) (w : World R L)
      → state_of ports s.feature_id w ≡ (ok s, w)
      → has_profile ports s ≡ true
      → s.blocked ≡ none
      → s.phase ≡ implementation_ready
      → HasExpired w.files (ports.now w.outside) s l
      → run_until_gate ports (suc fuel) s.feature_id auto w ≡ (err (lease_error expired), w)
  unfolding run_until_gate round assert_adapter_profile take step_of
  run_until_gate-HasExpired fuel auto s l w e p b i x =
      ground (arith, e, p, b, i, request_review-HasExpired s l w x)
