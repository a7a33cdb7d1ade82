-- ===== src/FeatureSession/Recovery/Ended.antt =====
-- A root that is terminated while `active-roots.json` still names it, as `replace_root` leaves it
-- when the new root does not start.
use design_document.FeatureSession.World.Steps.{continues, raises}
use design_document.Base.{
  ℕ, String, ◌≡◌, refl, sym, ◌∙◌, not, some, ◌==◌, ok, err, Bool-cases, Option-cases, Result-cases,
  inl, inr, ◌⊎◌, subst,
}
use design_document.Session.State.{
  terminated, SessionRecord, SessionError, value_error, unavailable_error,
}
use design_document.Session.Spec.{SessionSpec, check_spec}
use design_document.Text.{strip}
use design_document.FeatureSession.Declaration.{Declaration, is_validated, lookup}
use design_document.FeatureSession.World.{
  Supervisor, Setup, World, Act, ◌>>=◌, require, on_sessions,
}
use design_document.FeatureSession.Factory.{
  declared, root_spec, root_spec_of, checked_spec, root_record, root_of, provision_root,
  provision_as,
}
use design_document.FeatureSession.Recovery.{replace_root}

-- What the factory relies on for a session that is terminated: the supervisor neither starts nor
-- drains it, and leaves it as it is.
pub record IsLawful {W : Type 0} (s : Supervisor W) : Type 0 where
  pub named : (id : String) (w : W) (r : SessionRecord) → s.read id w ≡ some r → r.session_id ≡ id
  pub start_ended :
      (spec : SessionSpec) (w : W) (r : SessionRecord)
      → s.read spec.session_id w ≡ some r
      → r.state ≡ terminated
      → (x : SessionError) × (s.start spec w ≡ (err x, w))
  pub drain_ended :
      (id : String) (w : W) (r : SessionRecord)
      → s.read id w ≡ some r
      → r.state ≡ terminated
      → (x : SessionError) × (s.drain id w ≡ (err x, w))

module _ {W : Type 0} (setup : Setup W) (law : IsLawful setup.supervisor) where
  -- The act raises and changes nothing.
  abbrev pub Refused : {A : Type 0} → Act W A → World W → Type 0
  Refused act w = (x : SessionError) × (act w ≡ (err x, w))

  module _ {A B : Type 0} where
    Refused-first :
        (m : Act W A) (next : A → Act W B) (w : World W) → Refused m w → Refused (m >>= next) w
    Refused-first m next w (x, e) = (x, raises m next e)

    Refused-next :
        (m : Act W A) (next : A → Act W B) (a : A) (w : World W)
        → m w ≡ (ok a, w)
        → Refused (next a) w
        → Refused (m >>= next) w
    Refused-next m next a w e (x, r) = (x, continues m next e ∙ r)

  -- A root that has ended.
  pub record HasEnded (adapter : String) (w : World W) : Type 0 where
    pub id : String
    pub session : SessionRecord
    pub active : root_of setup adapter w ≡ some id
    pub on_file : setup.supervisor.read id w.sessions ≡ some session
    pub over : session.state ≡ terminated

  root_spec-cases :
      (d : Declaration) (id : String) (w : World W)
      → (root_spec setup d id w ≡ (ok (root_spec_of setup d id), w))
        ⊎ Refused (root_spec setup d id) w
  unfolding root_spec checked_spec
  root_spec-cases d id w = elim (Result-cases (check_spec setup.is_dir (root_spec_of setup d id))) [
    | inl (u, c) ↦ inl (rw c refl)
    | inr (x, c) ↦ inr (x, rw c refl)
  ]

  start-Refused :
      (spec : SessionSpec) (w : World W) (r : SessionRecord)
      → setup.supervisor.read spec.session_id w.sessions ≡ some r
      → r.state ≡ terminated
      → Refused (on_sessions (setup.supervisor.start spec)) w
  unfolding on_sessions
  start-Refused spec w r e t = let (x, q) = law.start_ended spec w.sessions r e t in (x, rw q refl)

  drain-Refused :
      (id : String) (w : World W) (r : SessionRecord)
      → setup.supervisor.read id w.sessions ≡ some r
      → r.state ≡ terminated
      → Refused (on_sessions (setup.supervisor.drain id)) w
  unfolding on_sessions
  drain-Refused id w r e t = let (x, q) = law.drain_ended id w.sessions r e t in (x, rw q refl)

  provision_as-Refused :
      (adapter id : String) (d : Declaration) (w : World W) (r : SessionRecord)
      → setup.supervisor.read id w.sessions ≡ some r
      → r.state ≡ terminated
      → Refused (provision_as setup adapter d id) w
  unfolding provision_as root_spec_of
  provision_as-Refused adapter id d w r e t = elim (root_spec-cases d id w) [
    | inr q ↦ Refused-first (root_spec setup d id) _ w q
    | inl ok_spec ↦ Refused-next (root_spec setup d id) _ (root_spec_of setup d id) w ok_spec (
        Refused-first (on_sessions (setup.supervisor.start (root_spec_of setup d id))) _ w
          (start-Refused (root_spec_of setup d id) w r e t))
  ]

  declared-cases :
      (adapter : String) (w : World W)
      → ((d : Declaration) × (declared setup adapter w ≡ (ok d, w)))
        ⊎ Refused (declared setup adapter) w
  unfolding declared
  declared-cases adapter w = elim (Option-cases (lookup adapter setup.capabilities)) [
    | inl n ↦ inr (unavailable_error "no current capability declaration", rw n refl)
    | inr (d, e) ↦ inl (d, rw e refl)
  ]

  provision_root-Refused :
      (adapter : String) (w : World W)
      → HasEnded adapter w
      → Refused (provision_root setup adapter) w
  unfolding provision_root
  provision_root-Refused adapter w h = elim (declared-cases adapter w) [
    | inr q ↦ Refused-first (declared setup adapter) _ w q
    | inl (d, e) ↦
        Refused-next (declared setup adapter) _ d w e
          (elim (Bool-cases (is_validated d.persistent_root)) [
            | inr f ↦
                (unavailable_error "persistent root readiness/identity is fail-closed", rw f refl)
            | inl v ↦
                let (x, q) = provision_as-Refused adapter h.id d w h.session h.on_file h.over in
                (x, rw (v, h.active) q)
          ])
  ]

  root_record-found :
      (adapter : String) (w : World W) (h : HasEnded adapter w)
      → root_record setup adapter w ≡ (ok h.session, w)
  unfolding root_record
  root_record-found adapter w h = rw (root_record, h.active, h.on_file) refl

  replace_root-Refused :
      (fuel : ℕ) (adapter reason : String) (w : World W)
      → HasEnded adapter w
      → Refused (replace_root setup fuel adapter reason) w
  unfolding replace_root
  replace_root-Refused fuel adapter reason w h = elim (Bool-cases (not (strip reason == ""))) [
    | inr e ↦ (value_error "root replacement requires a reason", rw (replace_root, e) refl)
    | inl e ↦
        Refused-next
          (require (not (strip reason == "")) (value_error "root replacement requires a reason")) _
          tt w (rw e refl)
          (elim (declared-cases adapter w) [
            | inr q ↦ Refused-first (declared setup adapter) _ w q
            | inl (d, k) ↦ Refused-next (declared setup adapter) _ d w k (
                Refused-next (root_record setup adapter) _ h.session w
                  (root_record-found adapter w h)
                  (Refused-first (on_sessions (setup.supervisor.drain h.session.session_id)) _ w (
                    drain-Refused h.session.session_id w h.session
                      (subst (λ (i : String). setup.supervisor.read i w.sessions ≡ some h.session)
                        (sym (law.named h.id w.sessions h.session h.on_file)) h.on_file)
                      h.over)))
          ])
  ]

  -- While the root on file of an adapter is terminated, neither `provision_root` nor `replace_root`
  -- can give it another one: both raise and change nothing.
  pub ended_root-stuck :
      (fuel : ℕ) (adapter reason : String) (w : World W)
      → HasEnded adapter w
      → Refused (provision_root setup adapter) w
        × Refused (replace_root setup fuel adapter reason) w
  ended_root-stuck fuel adapter reason w h =
      (provision_root-Refused adapter w h, replace_root-Refused fuel adapter reason w h)
