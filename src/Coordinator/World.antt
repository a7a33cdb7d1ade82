-- ===== src/Coordinator/World.antt =====
-- src/ai_runtime/runtime/coordinator.py: what the coordinator acts on, and the actions' sequencing.
-- The world is the outside, which Git commands and agents change, the lease files, the event log
-- and the sessions of the supervisor. What was written before a raise stays written.
pub mod Inversion
use Prim.Native.Nat.{◌/◌, ◌%◌}
use Prim.Native.String.{◌++◌}
use design_document.Base.{
  ℕ, zero, suc, String, Bool, true, false, Option, none, some, List, ltb, nat_eq, if◌then◌else◌,
  Result, ok, err,
}
use design_document.Json.{Value, null, str, Dict, get, get_str}
use design_document.Store.Errors.{StoreError}
use design_document.Store.Event.{Platform}
use design_document.Feature.State.{Missing}
use design_document.Git.Lease.{LeaseFiles, LeaseError}
use design_document.Git.Command.{Git, GitError, GitPort}
use design_document.Session.State.{SessionError}
use design_document.Session.Cell.{Cell}

pub data Failure : Type 0 where
  policy_error recovery_error adapter_error : String → Failure
  git_error : GitError → Failure
  lease_error : LeaseError → Failure
  store_error : StoreError → Failure
  session_failure : SessionError → Failure
  key_error : Missing → Failure

-- What a model turn gives back.
pub record Reply : Type 0 where
  pub value : Dict
  pub evidence : Dict

pub record Capability : Type 0 where
  pub name : String
  pub version : String
  pub temporary : Bool
  pub merge_authority : Bool

-- The texts that a turn is asked with, by what goes into them.
pub data Prompt : Type 0 where
  plan_prompt : Dict → Prompt
  implement_prompt : Dict → Dict → String → String → Option Dict → ℕ → Prompt
  review_prompt : Dict → Dict → Dict → Option Dict → ℕ → ℕ → Option String → Prompt

-- An adapter's turn for a prompt, a directory and a feature, and its acknowledgement.
pub record Adapter (R : Type 0) : Type 0 where
  pub capability : Capability
  pub invoke : Prompt → String → String → R → Result String Reply × R
  pub acknowledge : Reply → R → Result String Unit × R

-- `EventWriter`: `iter_events` of one stream, and `append`.
pub record Log (L : Type 0) : Type 0 where
  pub stored : L → String → Result StoreError (List Dict)
  pub append : Dict → L → Result StoreError Unit × L

pub record RuntimeConfig : Type 0 where
  pub repository : String
  pub worktree_root : String
  pub base_ref : String
  pub policy_revision : String
  pub lease_ttl_seconds : ℕ
  pub allow_temporary_human_review_override : Bool
  pub max_fix_cycles : ℕ
  pub feature_packet_bytes : ℕ

pub record Ports (R L : Type 0) : Type 0 where
  pub config : RuntimeConfig
  pub platform : Platform
  pub git : GitPort R
  pub planner : Adapter R
  pub implementer : Adapter R
  pub reviewer : Adapter R
  pub log : Log L
  -- The size in bytes of a prompt's text.
  pub prompt_bytes : Prompt → ℕ
  -- Python's `str` of a value that is no text.
  pub other_text : Value → String
  -- `uuid.uuid4().hex`, `utc_now()` and the clock of the leases.
  pub uuid : R → String × R
  pub time_text : R → String
  pub now : R → ℕ
  -- What `has-session` last says of a terminal that is told to end.
  pub absent : R → String → Bool

pub record World (R L : Type 0) : Type 0 where
  pub outside : R
  pub files : LeaseFiles
  pub log : L
  pub sessions : List Cell

abbrev pub Run : Type 0 → Type 0 → Type 0
Run W A = W → Result Failure A × W

module _ {W A B : Type 0} where
  abbrev pub go_on : Result Failure A → (A → Run W B) → Run W B
  go_on (err x) next w = (err x, w)
  go_on (ok a) next w = next a w

  infixl 5 ◌>>=◌
  abbrev pub ◌>>=◌ : Run W A → (A → Run W B) → Run W B
  ◌>>=◌ first next w = let (r, w') = first w in go_on r next w'

module _ {W A B : Type 0} where
  infixl 5 ◌>>◌
  abbrev pub ◌>>◌ : Run W A → Run W B → Run W B
  first >> second = first >>= λ _. second

module _ {W A : Type 0} where
  abbrev pub pure : A → Run W A
  pure a w = (ok a, w)

  abbrev pub raise : Failure → Run W A
  raise x w = (err x, w)

  abbrev pub lift : {X : Type 0} → (X → Failure) → Result X A → Run W A
  lift f (ok a) w = (ok a, w)
  lift f (err x) w = (err (f x), w)

module _ {W : Type 0} where
  -- `if not test: raise`
  abbrev pub require : Bool → Failure → Run W Unit
  require false x = raise x
  require true x = pure tt

module _ {R L A : Type 0} where
  abbrev pub outside_of :
      {X : Type 0} → (X → Failure) → World R L → Result X A × R → Result Failure A × World R L
  outside_of f w (ok a, r) = (ok a, record w { outside = r })
  outside_of f w (err x, r) = (err (f x), record w { outside = r })

  -- An action on the outside, its exceptions among the runtime's.
  unfoldable pub on_outside :
      {X : Type 0} → (X → Failure) → (R → Result X A × R) → Run (World R L) A
  on_outside f m w = outside_of f w (m w.outside)

  unfoldable pub on_git : Git R A → Run (World R L) A
  unfolding on_outside
  on_git = on_outside git_error

-- `state.field or {}`
abbrev pub or_empty : Option Dict → Dict
or_empty none = Dict.empty
or_empty (some d) = d

-- `d.get(k)` put into another object.
abbrev pub get_or_null : String → Dict → Value
get_or_null k d = elim (get k d) [ none ↦ null | some v ↦ v ]

-- `str` of an entry.
abbrev pub text_of : (Value → String) → Value → String
text_of other (str s) = s
text_of other v = other v
