-- ===== src/Git/Lease/Fencing.antt =====
-- Fencing tokens only grow, and a lease that was superseded never validates again.
use design_document.Base.{
  ℕ, ◌+◌, ◌≤◌, ◌<◌, String, ◌≡◌, ◌≢◌, some, arith, eq_iff, eq_refl, ltb, ok, err, ◌⊎◌, inl, inr,
  Option-cases, Bool-cases,
}
use design_document.Git.Lease.{
  Lease, LeaseFiles, LeaseError, Acquisition, active, bad_ttl, bad_feature_id, or_zero, token_of,
  update, acquire, revoke,
}
use design_document.Identifier.{is_safe_feature_id}

abbrev pub issued : LeaseFiles → String → ℕ
issued files id = or_zero (files.token_file id)

-- The token of the current lease is on record.
pub record IsFenced (files : LeaseFiles) : Type 0 where
  pub on_record : (id : String) → token_of (files.lease_file id) ≤ issued files id
  pub own_file : (id : String) (l : Lease) → files.lease_file id ≡ some l → l.feature_id ≡ id

-- A successful `acquire` either answers with the lease in force, held by the same owner for the same
-- workspace and not yet expired, and changes no file; or it issues the token after the last one of
-- the feature, records it, and makes the new lease the one in force.
pub acquire-token :
    (files files' : LeaseFiles) (a : Acquisition) (now : ℕ) (uuid : String) (lease : Lease)
    → IsFenced files
    → acquire files a now uuid ≡ ok (files', lease)
    → ((files' ≡ files)
        × (files.lease_file a.feature_id ≡ some lease)
        × (now < lease.expires_at)
        × (lease.owner ≡ a.owner)
        × (lease.workspace ≡ a.workspace))
      ⊎ ((lease.fencing_token ≡ issued files a.feature_id + 1)
          × (issued files' a.feature_id ≡ lease.fencing_token)
          × (files'.lease_file a.feature_id ≡ some lease)
          × (files'.lease_file ≡ update files.lease_file a.feature_id (some lease))
          × (files'.token_file ≡ update files.token_file a.feature_id (some lease.fencing_token)))
unfolding acquire
acquire-token files files' a now uuid lease f h =
    elim (Option-cases (files.lease_file a.feature_id)) [
      | inl e ↦ ground (arith, eq_refl a.feature_id, f.on_record a.feature_id)
      | inr (l, e) ↦ ground (
        arith,
        eq_refl a.feature_id,
        f.on_record a.feature_id,
        eq_iff l.owner a.owner,
        eq_iff l.workspace a.workspace,
      )
    ]

-- A feature that has a live lease of another owner, or for another workspace, gets no second one.
pub acquire-exclusive :
    (files : LeaseFiles) (a : Acquisition) (now : ℕ) (uuid : String) (l : Lease)
    → files.lease_file a.feature_id ≡ some l
    → now < l.expires_at
    → (l.owner ≢ a.owner) ⊎ (l.workspace ≢ a.workspace)
    → (x : LeaseError) × (acquire files a now uuid ≡ err x)
unfolding acquire
acquire-exclusive files a now uuid l e live other = elim (Bool-cases (ltb 0 a.ttl_seconds)) [
  | inr bad ↦ (bad_ttl, ground arith)
  | inl good ↦ elim (Bool-cases (is_safe_feature_id a.feature_id)) [
    | inr bad ↦ (bad_feature_id, ground arith)
    | inl safe ↦ (
      active l.owner l.fencing_token,
      ground (arith, eq_iff l.owner a.owner, eq_iff l.workspace a.workspace),
    )
  ]
]

pub acquire-IsFenced :
    (files files' : LeaseFiles) (a : Acquisition) (now : ℕ) (uuid : String) (lease : Lease)
    → IsFenced files
    → acquire files a now uuid ≡ ok (files', lease)
    → IsFenced files'
unfolding acquire
acquire-IsFenced files files' a now uuid lease f h = record {
  on_record =
      λ id. ground (arith, f.on_record id, f.on_record a.feature_id, eq_iff a.feature_id id);
  own_file = λ id l e. ground (arith, f.own_file id l, eq_iff a.feature_id id);
}

pub revoke-IsFenced :
    (files files' : LeaseFiles) (lease : Lease)
    → IsFenced files
    → revoke files lease ≡ ok files'
    → IsFenced files'
unfolding revoke
revoke-IsFenced files files' lease f h = record {
  on_record = λ id. ground (arith, f.on_record id, eq_iff lease.feature_id id);
  own_file = λ id l e. ground (arith, f.own_file id l, eq_iff lease.feature_id id);
}
