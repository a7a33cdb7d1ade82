-- ===== src/Git/Lease.antt =====
-- src/ai_runtime/git/workspace.py: `LeaseManager`. The files of the lease directory are maps from
-- feature ids, since a safe id is its own file name; `acquire` and `revoke` run under the lock file,
-- and `read` and `validate`, which take no lock, see the files at one moment. A time is a number, so
-- the text of `expires_at` and its parser are left out; the clock and the generated id are arguments.
pub mod Fencing
pub mod History
use design_document.Base.{
  ℕ, zero, suc, ◌+◌, ◌*◌, max, String, Bool, true, false, not, ◌&&◌, ◌||◌, Option, none, some, List,
  [], ◌∷◌, ◌==◌, nat_eq, ltb, leb, if◌then◌else◌, Result, ok, err, ◌>>=◌, ◌>>◌, guard,
}
use design_document.Identifier.{is_safe_feature_id}

pub data LeaseError : Type 0 where
  bad_feature_id bad_ttl : LeaseError
  active : String → ℕ → LeaseError
  replaced expired superseded : LeaseError

pub record Lease : Type 0 where
  pub feature_id : String
  pub owner : String
  pub workspace : String
  pub fencing_token : ℕ
  pub lease_id : String
  pub expires_at : ℕ

abbrev pub same_lease : Lease → Lease → Bool
same_lease a b =
    (a.feature_id == b.feature_id)
    && (a.owner == b.owner)
    && (a.workspace == b.workspace)
    && nat_eq a.fencing_token b.fencing_token
    && (a.lease_id == b.lease_id)
    && nat_eq a.expires_at b.expires_at

-- `{id}.json` and `{id}.token`.
pub record LeaseFiles : Type 0 where
  pub lease_file : String → Option Lease
  pub token_file : String → Option ℕ

abbrev pub update {ℓ} : {A : Type ℓ} → (String → Option A) → String → Option A → String → Option A
update f k v j = if k == j then v else f j

abbrev pub or_zero : Option ℕ → ℕ
or_zero none = 0
or_zero (some n) = n

abbrev pub token_of : Option Lease → ℕ
token_of none = 0
token_of (some l) = l.fencing_token

unfoldable pub read : LeaseFiles → String → Result LeaseError (Option Lease)
read files feature_id = do
  guard (is_safe_feature_id feature_id) bad_feature_id
  ok (files.lease_file feature_id)

-- The new token, once the token file holds it.
unfoldable pub next_token : LeaseFiles → String → Option Lease → LeaseFiles × ℕ
next_token files feature_id current =
    let token = max (or_zero (files.token_file feature_id)) (token_of current) + 1 in
    (record files { token_file = update files.token_file feature_id (some token) }, token)

pub record Acquisition : Type 0 where
  pub feature_id : String
  pub owner : String
  pub workspace : String
  pub ttl_seconds : ℕ

-- A clock reading in microseconds, and the next `uuid4().hex`.
abbrev pub second : ℕ
second = 1000000

grant : LeaseFiles → Acquisition → ℕ → String → Option Lease → LeaseFiles × Lease
unfolding next_token
grant files a now uuid current =
    let (counted, token) = next_token files a.feature_id current in
    let lease = lease_of token in
    (record counted { lease_file = update counted.lease_file a.feature_id (some lease) }, lease)
  where
    lease_of : ℕ → Lease
    lease_of token = record {
      feature_id = a.feature_id;
      owner = a.owner;
      workspace = a.workspace;
      fencing_token = token;
      lease_id = uuid;
      expires_at = now + a.ttl_seconds * second;
    }

acquire_over :
    LeaseFiles → Acquisition → ℕ → String → Option Lease → Result LeaseError (LeaseFiles × Lease)
unfolding grant
acquire_over files a now uuid none = ok (grant files a now uuid none)
acquire_over files a now uuid (some current) =
    if ltb now current.expires_at
    then if (current.owner == a.owner) && (current.workspace == a.workspace)
      then ok (files, current)
      else err (active current.owner current.fencing_token)
    else ok (grant files a now uuid (some current))

unfoldable pub acquire :
    LeaseFiles → Acquisition → ℕ → String → Result LeaseError (LeaseFiles × Lease)
unfolding acquire_over read
acquire files a now uuid = do
  guard (ltb 0 a.ttl_seconds) bad_ttl
  current ← read files a.feature_id
  acquire_over files a now uuid current

validate_current : Option Lease → Lease → ℕ → Result LeaseError Unit
validate_current none lease now = err replaced
validate_current (some current) lease now =
    if not (same_lease current lease)
    then err replaced
    else if leb current.expires_at now
    then err expired
    else ok tt

unfoldable pub validate : LeaseFiles → Lease → ℕ → Result LeaseError Unit
unfolding validate_current read
validate files lease now = do
  current ← read files lease.feature_id
  validate_current current lease now

revoke_current : LeaseFiles → Lease → Option Lease → Result LeaseError LeaseFiles
revoke_current files lease none = ok files
revoke_current files lease (some current) =
    if not (current.lease_id == lease.lease_id)
      || not (nat_eq current.fencing_token lease.fencing_token)
    then err superseded
    else ok (record files { lease_file = update files.lease_file lease.feature_id none })

unfoldable pub revoke : LeaseFiles → Lease → Result LeaseError LeaseFiles
unfolding revoke_current read
revoke files lease = do current ← read files lease.feature_id; revoke_current files lease current
