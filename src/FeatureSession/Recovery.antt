-- ===== src/FeatureSession/Recovery.antt =====
-- src/ai_runtime/runtime/feature_sessions.py: `resume_or_reconstruct`, `terminate`
-- and `replace_root` of the factory. `dataclasses.replace` checks a specification again.
pub mod Ended
pub mod Generations
use Prim.Native.String.{◌++◌}
use design_document.Base.{
  ℕ, zero, suc, ◌+◌, String, Bool, true, false, not, ◌&&◌, ◌||◌, Option, none, some, List, [], ◌∷◌,
  map, ◌==◌, if◌then◌else◌, Result, ok, err,
}
use design_document.Text.{decimal, strip}
use design_document.Text.Replace.{render}
use design_document.Session.State.{
  SessionState, ready, recovery_required, terminated, SessionRecord, SessionError, session_error,
  unavailable_error, recovery_error, value_error, is,
}
use design_document.Session.Spec.{SessionSpec, filled, same_option}
use design_document.Session.Cell.{Observation}
use design_document.Session.Reconcile.{ReconcileReport, no_items}
use design_document.FeatureSession.Channel.{Channel, cleanup_session}
use design_document.FeatureSession.Declaration.{
  Declaration, is_validated, has_words, lookup, versions,
}
use design_document.FeatureSession.World.{
  Supervisor, Setup, World, Act, ◌>>=◌, ◌>>◌, pure, raise, lift, from, on_sessions, on_channel,
  channel_of, asks, require,
}
use design_document.FeatureSession.Factory.{
  declared, root_spec, root_record, root_of, write_root, same_text, synthetic, mode_text,
  checked_spec,
}
use design_document.FeatureSession.Fork.{spec_of_record, or_text}

module _ {W : Type 0} (setup : Setup W) where
  abbrev sup : Supervisor W
  sup = setup.supervisor

  -- The specification of a synthetic reconstruction.
  unfoldable pub reconstructed : SessionRecord → SessionSpec → List String → SessionSpec
  reconstructed r spec command = record spec {
    launch_command = render command (
        ("session_id", r.session_id)
        ∷ ("cwd", r.cwd)
        ∷ ("state_dir", setup.state_dir)
        ∷ ("feature_id", or_text r.feature_id "feature")
        ∷ ("role", r.role)
        ∷ ("attempt", decimal r.attempt)
        ∷ ("parent_session_id", or_text r.parent_root_id "root")
        ∷ []);
    fork_mode = some (mode_text synthetic);
    resume_reference_sha256 = none;
  }

  abbrev resume_words : SessionRecord → Option (List String) → Option (List String)
  resume_words r none = none
  resume_words r (some command) = some (
      render command
        (("cwd", r.cwd) ∷ ("state_dir", setup.state_dir) ∷ ("session_id", r.session_id) ∷ []))

  -- The command by which the session would be resumed, if it can be.
  unfoldable pub resume_command_of : Declaration → SessionRecord → Option (List String)
  resume_command_of d r =
      if filled r.resume_reference_sha256 && is_validated d.resume
      then resume_words r d.resume_command
      else none

  -- A feature whose adapter has a synthetic launch command.
  abbrev synthetic_command : Declaration → SessionRecord → Option (List String)
  synthetic_command d r = if r.session_kind == "feature" then d.synthetic_launch_command else none

  abbrev adapted :
      SessionRecord → SessionSpec → Option (List String) → Option (List String) → SessionSpec
  adapted r spec (some resume) other = spec
  adapted r spec none none = spec
  adapted r spec none (some command) = reconstructed r spec command

  abbrev or_record : Option SessionRecord → SessionRecord → SessionRecord
  or_record none r = r
  or_record (some s) r = s

  -- The second attempt, after a resume has failed.
  fall_back : SessionRecord → SessionSpec → List String → Act W Observation
  fall_back r spec command = do
    found ← asks (sup.read r.session_id)
    live ← asks (sup.is_live (or_record found r))
    if live then on_sessions (sup.kill (or_record found r)) else pure tt
    second ← checked_spec setup (reconstructed r spec command)
    on_sessions (sup.resume_or_reconstruct second true none)

  -- `SessionUnavailableError` and `SessionRecoveryRequiredError`.
  abbrev is_caught : SessionError → Bool
  is_caught (unavailable_error text) = true
  is_caught (recovery_error text) = true
  is_caught _ = false

  -- An empty command is no command for the second attempt.
  abbrev nonempty : Option (List String) → Option (List String)
  nonempty (some (word ∷ words)) = some (word ∷ words)
  nonempty _ = none

  resumed :
      SessionRecord
      → SessionSpec
      → Bool
      → Option (List String)
      → Option (List String)
      → Result SessionError Observation × World W
      → Result SessionError Observation × World W
  unfolding fall_back
  resumed r spec clean resume command (ok o, w) = (ok o, w)
  resumed r spec clean none command (err x, w) = (err x, w)
  resumed r spec clean (some words) command (err x, w) =
      if not (is_caught x) || not clean
      then (err x, w)
      else elim (nonempty command) [ none ↦ (err x, w) | some other ↦ fall_back r spec other w ]

  attempt_resume :
      SessionRecord
      → SessionSpec
      → Bool
      → Option (List String)
      → Option (List String)
      → Act W Observation
  unfolding resumed
  attempt_resume r spec clean resume command w =
      resumed r spec clean resume command
        (on_sessions (sup.resume_or_reconstruct spec clean resume) w)

  -- `resume_or_reconstruct`
  unfoldable pub factory_resume : String → Bool → Act W Observation
  unfolding attempt_resume resume_command_of
  factory_resume session_id clean = do
    found ← asks (sup.read session_id)
    r ← from found (unavailable_error "session is not registered")
    d ← declared setup r.adapter
    spec ← spec_of_record setup d r
    first ← checked_spec setup (adapted r spec (resume_command_of d r) (synthetic_command d r))
    attempt_resume r first clean (resume_command_of d r) (synthetic_command d r)

  -- `terminate`
  unfoldable pub terminate_feature : String → Act W Unit
  terminate_feature session_id = do
    found ← asks (sup.read session_id)
    r ← from found (unavailable_error "session is not registered")
    require (not (r.session_kind == "root"))
        (session_error "root termination requires controlled replacement or shutdown")
    cleanup ← on_channel session_id (λ c. (ok (cleanup_session setup.codec c), c))
    require cleanup.cleaned (recovery_error "feature has unacknowledged terminal event evidence")
    on_sessions (sup.terminate session_id)

  abbrev generation_name : String → ℕ → String
  generation_name adapter n = adapter ++ ("-root-r" ++ decimal n)

  -- The loop over the generations; `none` when the fuel is used up.
  unfoldable pub next_generation : ℕ → (ℕ → Bool) → ℕ → Option ℕ
  next_generation zero taken n = none
  next_generation (suc fuel) taken n =
      let rest = next_generation fuel taken (n + 1) in if taken n then rest else some n

  abbrev is_some : {A : Type 0} → Option A → Bool
  is_some none = false
  is_some (some a) = true

  -- `replace_root`; `fuel` bounds the generations that are tried.
  unfoldable pub replace_root : ℕ → String → String → Act W Observation
  unfolding next_generation
  replace_root fuel adapter reason = do
    require (not (strip reason == "")) (value_error "root replacement requires a reason")
    d ← declared setup adapter
    old ← root_record setup adapter
    on_sessions (sup.drain old.session_id)
    on_sessions (sup.terminate old.session_id)
    generation ←
        asks (λ s. next_generation fuel (λ n. is_some (sup.read (generation_name adapter n) s)) 2)
    n ← from generation (session_error "no free generation")
    spec ← root_spec setup d (generation_name adapter n)
    o ← on_sessions (sup.start spec)
    on_sessions (sup.mark_replaced old.session_id (generation_name adapter n))
    write_root setup adapter (generation_name adapter n)
    pure o
