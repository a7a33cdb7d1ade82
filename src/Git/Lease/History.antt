-- ===== src/Git/Lease/History.antt =====
-- Any sequence of lease operations, by any processes, one under the lock at a time.
use design_document.Base.{
  ℕ, ◌≤◌, String, ◌≡◌, false, some, List, [], ◌∷◌, arith, eq_iff, Result, ok, err, Result-cases,
  Bool-cases, inl, inr,
}
use design_document.Git.Lease.{
  Lease, LeaseFiles, LeaseError, Acquisition, replaced, bad_feature_id, same_lease, acquire,
  validate, revoke,
}
use design_document.Identifier.{is_safe_feature_id}
use design_document.Git.Lease.Fencing.{
  issued, IsFenced, acquire-token, acquire-IsFenced, revoke-IsFenced,
}

pub data LeaseCall : Type 0 where
  acquires : Acquisition → ℕ → String → LeaseCall
  revokes : Lease → LeaseCall

abbrev after_acquire : LeaseFiles → Result LeaseError (LeaseFiles × Lease) → LeaseFiles
after_acquire files (err x) = files
after_acquire files (ok (files', lease)) = files'

abbrev after_revoke : LeaseFiles → Result LeaseError LeaseFiles → LeaseFiles
after_revoke files (err x) = files
after_revoke files (ok files') = files'

-- A call that raises leaves the files as they were.
pub step : LeaseFiles → LeaseCall → LeaseFiles
step files (acquires a now uuid) = after_acquire files (acquire files a now uuid)
step files (revokes lease) = after_revoke files (revoke files lease)

unfoldable pub run : LeaseFiles → List LeaseCall → LeaseFiles
unfolding step
run files [] = files
run files (c ∷ calls) = run (step files c) calls

-- The lease is not in force, and its token is on record.
pub record IsSuperseded (files : LeaseFiles) (old : Lease) : Type 0 where
  pub spent : old.fencing_token ≤ issued files old.feature_id
  pub displaced : (l : Lease) → files.lease_file old.feature_id ≡ some l → same_lease l old ≡ false

step-IsFenced : (files : LeaseFiles) (c : LeaseCall) → IsFenced files → IsFenced (step files c)
unfolding step
step-IsFenced files (acquires a now uuid) f = elim (Result-cases (acquire files a now uuid)) [
  | inl ((files', l), e) ↦ rw (e, step) (acquire-IsFenced files files' a now uuid l f e)
  | inr (x, e) ↦ rw (e, step) f
]
step-IsFenced files (revokes lease) f = elim (Result-cases (revoke files lease)) [
  | inl (files', e) ↦ rw (e, step) (revoke-IsFenced files files' lease f e)
  | inr (x, e) ↦ rw (e, step) f
]

acquire-IsSuperseded :
    (files files' : LeaseFiles) (a : Acquisition) (now : ℕ) (uuid : String) (l old : Lease)
    → IsFenced files
    → acquire files a now uuid ≡ ok (files', l)
    → IsSuperseded files old
    → IsSuperseded files' old
acquire-IsSuperseded files files' a now uuid l old f e s = record {
  spent = ground (
    arith,
    acquire-token files files' a now uuid l f e,
    s.spent,
    eq_iff a.feature_id old.feature_id,
  );
  displaced = λ k h. ground (
    arith,
    acquire-token files files' a now uuid l f e,
    s.spent,
    s.displaced k,
    eq_iff a.feature_id old.feature_id,
  );
}

revoke-IsSuperseded :
    (files files' : LeaseFiles) (lease old : Lease)
    → revoke files lease ≡ ok files'
    → IsSuperseded files old
    → IsSuperseded files' old
unfolding revoke
revoke-IsSuperseded files files' lease old e s = record {
  spent = ground (arith, s.spent);
  displaced = λ k h. ground (arith, s.displaced k);
}

step-IsSuperseded :
    (files : LeaseFiles) (c : LeaseCall) (old : Lease)
    → IsFenced files
    → IsSuperseded files old
    → IsSuperseded (step files c) old
unfolding step
step-IsSuperseded files (acquires a now uuid) old f s =
    elim (Result-cases (acquire files a now uuid)) [
      | inl ((files', l), e) ↦
          rw (e, step) (acquire-IsSuperseded files files' a now uuid l old f e s)
      | inr (x, e) ↦ rw (e, step) s
    ]
step-IsSuperseded files (revokes lease) old f s = elim (Result-cases (revoke files lease)) [
  | inl (files', e) ↦ rw (e, step) (revoke-IsSuperseded files files' lease old e s)
  | inr (x, e) ↦ rw (e, step) s
]

run-IsSuperseded :
    (files : LeaseFiles) (calls : List LeaseCall) (old : Lease)
    → IsFenced files
    → IsSuperseded files old
    → IsSuperseded (run files calls) old
unfolding run
run-IsSuperseded files [] old f s = s
run-IsSuperseded files (c ∷ calls) old f s =
    run-IsSuperseded (step files c) calls old (step-IsFenced files c f)
      (step-IsSuperseded files c old f s)

validate-IsSuperseded :
    (files : LeaseFiles) (old : Lease) (now : ℕ)
    → IsSuperseded files old
    → (x : LeaseError) × (validate files old now ≡ err x)
unfolding validate
validate-IsSuperseded files old now s = elim (Bool-cases (is_safe_feature_id old.feature_id)) [
  | inr bad ↦ (bad_feature_id, ground arith)
  | inl safe ↦ (replaced, grind (arith, s.displaced))
]

-- Once a lease was superseded, by a later grant or by its revocation, it fails validation at every
-- later time, whatever acquires and revocations follow: a paused writer cannot pass with it.
pub superseded_stays_invalid :
    (files : LeaseFiles) (calls : List LeaseCall) (old : Lease) (now : ℕ)
    → IsFenced files
    → IsSuperseded files old
    → (x : LeaseError) × (validate (run files calls) old now ≡ err x)
superseded_stays_invalid files calls old now f s =
    validate-IsSuperseded (run files calls) old now (run-IsSuperseded files calls old f s)

issued-step :
    (files : LeaseFiles) (c : LeaseCall) (id : String)
    → IsFenced files
    → issued files id ≤ issued (step files c) id
unfolding step
issued-step files (acquires a now uuid) id f = elim (Result-cases (acquire files a now uuid)) [
  | inl ((files', l), e) ↦
      rw (e, step)
        (ground (arith, acquire-token files files' a now uuid l f e, eq_iff a.feature_id id))
  | inr (x, e) ↦ rw (e, step) (omega arith)
]
issued-step files (revokes lease) id f = unfold revoke in ground arith

-- Over any history the last issued token of a feature never falls, and the token on the lease in
-- force is never above it: revoking and granting again does not bring an old token back.
pub issued-run :
    (files : LeaseFiles) (calls : List LeaseCall) (id : String)
    → IsFenced files
    → (issued files id ≤ issued (run files calls) id) × IsFenced (run files calls)
unfolding run
issued-run files [] id f = (omega arith, f)
issued-run files (c ∷ calls) id f =
    let (grown, fenced) = issued-run (step files c) calls id (step-IsFenced files c f) in
    (omega (arith, issued-step files c id f), fenced)
