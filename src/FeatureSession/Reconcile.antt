-- ===== src/FeatureSession/Reconcile.antt =====
-- src/ai_runtime/runtime/feature_sessions.py: `reconcile` of the factory. The report's lists are in
-- the order of the loop; the source sorts them and drops repetitions.
use design_document.Base.{
  String, Bool, true, false, not, ◌&&◌, Option, none, some, List, [], ◌∷◌, ◌++◌, ◌==◌,
  if◌then◌else◌, ok,
}
use design_document.Session.State.{recovery_required, terminated, SessionRecord, is}
use design_document.Session.Reconcile.{no_items}
use design_document.FeatureSession.Channel.{pending_results}
use design_document.FeatureSession.Channel.Known.{acknowledge_known_events}
use design_document.FeatureSession.Declaration.{Declaration, lookup, versions}
use design_document.FeatureSession.World.{
  Supervisor, Setup, Act, ◌>>=◌, ◌>>◌, pure, on_sessions, on_channel, asks,
}
use design_document.FeatureSession.Factory.{root_of, same_text}
use design_document.FeatureSession.Fork.{or_text}

pub record FactoryReconcileReport : Type 0 where
  pub roots : List String
  pub features : List String
  pub recovery_required : List String
  pub completed_unacknowledged : List String
  pub orphaned_parent : List String

abbrev pub empty_report : FactoryReconcileReport
empty_report = record {
  roots = [];
  features = [];
  recovery_required = [];
  completed_unacknowledged = [];
  orphaned_parent = [];
}

-- What one record adds to the report.
pub data Finding : Type 0 where
  passed_over : Finding
  active_root : Finding
  feature_found : Bool → Bool → Finding
  needs_recovery : Finding

abbrev when_true : Bool → String → List String → List String
when_true true id ids = id ∷ ids
when_true false id ids = ids

unfoldable pub add : String → Finding → FactoryReconcileReport → FactoryReconcileReport
add id passed_over r = r
add id active_root r = record r { roots = id ∷ r.roots }
add id (feature_found orphaned unacked) r = record r {
  features = id ∷ r.features;
  completed_unacknowledged = when_true unacked id r.completed_unacknowledged;
  orphaned_parent = when_true orphaned id r.orphaned_parent;
}
add id needs_recovery r = record r { recovery_required = id ∷ r.recovery_required }

-- The parent is missing or has ended.
abbrev pub is_orphan : Option SessionRecord → Bool
is_orphan none = true
is_orphan (some parent) = is parent.state terminated

module _ {W : Type 0} (setup : Setup W) where
  abbrev sup : Supervisor W
  sup = setup.supervisor

  unfoldable pub is_current : Declaration → SessionRecord → Bool
  is_current d r =
      (r.policy_revision == setup.policy_revision)
      && (r.capability_revision == d.declaration_revision)
      && same_text r.capability_sha256 (setup.digest d)

  drifted_session : SessionRecord → Act W Finding
  drifted_session r =
      if is r.state recovery_required
      then pure needs_recovery
      else on_sessions
          (sup.transition r recovery_required "policy_or_capability_drift_on_reconcile")
        >> pure needs_recovery

  acknowledge_all : String → List String → Act W Unit
  acknowledge_all id [] = pure tt
  acknowledge_all id (event ∷ events) =
      on_channel id (acknowledge_known_events setup.codec id (event ∷ events)) >> pure tt

  feature_session : List String → SessionRecord → Act W Finding
  unfolding acknowledge_all
  feature_session accepted r = do
    parent ← asks (sup.read (or_text r.parent_root_id ""))
    acknowledge_all r.session_id accepted
    pending ← on_channel r.session_id (λ c. (ok (pending_results setup.codec c), c))
    pure (feature_found (is_orphan parent) (not (no_items pending)))

  root_session : SessionRecord → Act W Finding
  root_session r w =
      if same_text (root_of setup r.adapter w) r.session_id
      then pure active_root w
      else pure passed_over w

  current_session : List String → SessionRecord → Act W Finding
  unfolding root_session feature_session
  current_session accepted r =
      if r.session_kind == "root"
      then root_session r
      else if r.session_kind == "feature"
      then feature_session accepted r
      else pure passed_over

  declared_session : List String → SessionRecord → Option Declaration → Act W Finding
  unfolding drifted_session current_session
  declared_session accepted r none = pure needs_recovery
  declared_session accepted r (some d) =
      if is_current d r then current_session accepted r else drifted_session r

  -- One round of the loop.
  unfoldable pub reconcile_record : List String → SessionRecord → Act W Finding
  unfolding declared_session
  reconcile_record accepted r =
      if is r.state terminated
      then pure passed_over
      else declared_session accepted r (lookup r.adapter setup.capabilities)

  unfoldable pub reconcile_records : List String → List SessionRecord → Act W FactoryReconcileReport
  unfolding reconcile_record add
  reconcile_records accepted [] = pure empty_report
  reconcile_records accepted (r ∷ records) = do
    finding ← reconcile_record accepted r
    report ← reconcile_records accepted records
    pure (add r.session_id finding report)

  -- `reconcile`, with the identifiers of the events that the store has.
  unfoldable pub factory_reconcile : List String → Act W FactoryReconcileReport
  unfolding reconcile_records
  factory_reconcile accepted = do
    base ← on_sessions (sup.reconcile (versions setup.capabilities))
    records ← asks sup.records
    report ← reconcile_records accepted records
    pure (record report { recovery_required = base.recovery_required ++ report.recovery_required })
