-- ===== src/Adapter/Invoke/Checked.antt =====
-- What `invoke` does with a turn that has come back.
use design_document.Base.{
  ◌≡◌, ap, refl, String, Bool, true, false, not, Option, none, some, nat_eq, arith, Result, ok, err,
  if◌then◌else◌, any, subst, Bool-cases, inr, inl, Option-cases, Result-cases, sym,
}
use design_document.Json.{Dict}
use design_document.Session.State.{SessionError, invalid_transition}
use design_document.Adapter.Output.{
  StructuredTask, Failure, adapter_error, type_error, validate_result, nodes_of, extract_structured,
}
use design_document.Adapter.Output.Accepts.{IsResult, search-err, extract_structured-IsResult}
use design_document.Adapter.Invoke.{
  TurnObservation, AdapterResult, Raised, failed, escaped, Transport, Adapter, conclude, extracted,
  revalidated, raise_rejected, performed, invoke, same_task, session_id_of, unavailable_error,
  run_turn, spec_of, recovery_error, turn_id_of, session_error, value_error,
}

module _ {W : Type 0} (a : Adapter W) (t : Transport W) (task : StructuredTask) where
  -- The turn was rejected for some reason.
  abbrev IsRejected : TurnObservation → W → Result SessionError Unit → W → Type 0
  IsRejected o w r w' =
      (reason : String) × (t.reject_turn o.session_id o.turn_id reason w ≡ (r, w'))

  -- What holds after a turn has come back.
  abbrev pub Concluded : TurnObservation → W → Result Raised AdapterResult × W → Type 0
  Concluded o w (ok r, w') =
      (w' ≡ w) × (o.timed_out ≡ false) × (o.exit_code ≡ 0) × IsResult task r.value
  Concluded o w (err (failed (adapter_error s)), w') = IsRejected o w (ok tt) w'
  Concluded o w (err (failed type_error), w') = w' ≡ w
  Concluded o w (err (escaped x), w') = IsRejected o w (err x) w'

  raise_rejected-Concluded :
      (o : TurnObservation) (reason s : String) (w : W) (m : Result SessionError Unit × W)
      → t.reject_turn o.session_id o.turn_id reason w ≡ m
      → Concluded o w (raise_rejected a (adapter_error s) m)
  raise_rejected-Concluded o reason s w (ok tt, w') e = (reason, e)
  raise_rejected-Concluded o reason s w (err x, w') e = (reason, e)

  revalidated-Concluded :
      (o : TurnObservation) (d : Dict) (r : Result Failure Unit) (w : W)
      → o.timed_out ≡ false
      → o.exit_code ≡ 0
      → IsResult task d
      → Concluded o w (revalidated a t task o d r w)
  unfolding revalidated
  revalidated-Concluded o d (ok tt) w p q k = (refl, p, q, k)
  revalidated-Concluded o d (err type_error) w p q k = refl
  revalidated-Concluded o d (err (adapter_error s)) w p q k =
      raise_rejected-Concluded o "structured_result_contract_violation" s w _ refl

  extracted-Concluded :
      (o : TurnObservation) (r : Result Failure (Option Dict)) (w : W)
      → extract_structured a.loads task o.stdout ≡ r
      → o.timed_out ≡ false
      → o.exit_code ≡ 0
      → Concluded o w (extracted a t task o r w)
  unfolding extracted extract_structured
  extracted-Concluded o (ok none) w e p q =
      raise_rejected-Concluded o "invalid_structured_result" "no valid structured result" w _ refl
  extracted-Concluded o (ok (some d)) w e p q =
      revalidated-Concluded o d (validate_result task d) w p q
        (extract_structured-IsResult a.loads task o.stdout d e)
  extracted-Concluded o (err type_error) w e p q = refl
  extracted-Concluded o (err (adapter_error s)) w e p q =
      absurd (search-err task (nodes_of a.loads o.stdout) s e)

  if-Concluded :
      (o : TurnObservation) (w : W) (b : Bool) (m n : Result Raised AdapterResult × W)
      → Concluded o w m
      → (b ≡ false → Concluded o w n)
      → Concluded o w (if b then m else n)
  if-Concluded o w true m n p q = p
  if-Concluded o w false m n p q = q refl

  -- After a turn has come back, `invoke` answers with a result only if the turn did not time out and
  -- ended with 0, the result meets the schema of the task, and the turn stays on file; an
  -- `AdapterError` is raised after the turn was rejected, and an error of the supervisor only if it
  -- refused to reject it; a `TypeError` leaves the turn as it is.
  pub conclude-Concluded : (o : TurnObservation) (w : W) → Concluded o w (conclude a t task o w)
  unfolding conclude
  conclude-Concluded o w =
      if-Concluded o w o.timed_out _ _
        (raise_rejected-Concluded o "adapter_timeout" "timed out" w _ refl)
        λ p.
          if-Concluded o w (not (nat_eq o.exit_code 0)) _ _
            (raise_rejected-Concluded o "adapter_nonzero_exit" "exited" w _ refl)
            λ q.
              extracted-Concluded o (extract_structured a.loads task o.stdout) w refl p
                (ground arith)

module _ {W : Type 0} (a : Adapter W) where
  -- What `invoke` promises of a result.
  pub record IsChecked (task : StructuredTask) (prompt cwd : String) (feature_id : Option String)
      (w w' : W) (r : AdapterResult) : Type 0 where
    pub supported : any (same_task task) a.roles ≡ true
    pub transport : Transport W
    pub bound : a.supervisor ≡ some transport
    pub session_id : String
    pub safe : session_id_of a task cwd feature_id ≡ ok session_id
    pub turn : TurnObservation
    pub ran :
        run_turn a transport
          (spec_of a task cwd feature_id session_id)
          (turn_id_of a task prompt cwd)
          w
        ≡ (ok turn, w')
    pub in_time : turn.timed_out ≡ false
    pub exited : turn.exit_code ≡ 0
    pub result : IsResult task r.value

  performed-cases :
      (t : Transport W) (task : StructuredTask) (m : Result SessionError TurnObservation × W)
      (r : AdapterResult) (w' : W)
      → performed a t task m ≡ (ok r, w')
      → (o : TurnObservation) × (m ≡ (ok o, w'))
        × (o.timed_out ≡ false)
        × (o.exit_code ≡ 0)
        × IsResult task r.value
  performed-cases t task (ok o, w) r w' e =
      let c : Concluded a t task o w (ok r, w') =
        subst (Concluded a t task o w) e (conclude-Concluded a t task o w) in
      let (same, p, q, k) = c in (o, ap (λ v. (ok o, v)) (sym same), p, q, k)
  performed-cases t task (err (unavailable_error s), w) r w' e = absurd (ground arith)
  performed-cases t task (err (recovery_error s), w) r w' e = absurd (ground arith)
  performed-cases t task (err (session_error s), w) r w' e = absurd (ground arith)
  performed-cases t task (err (value_error s), w) r w' e = absurd (ground arith)
  performed-cases t task (err (invalid_transition s u), w) r w' e = absurd (ground arith)

  -- A result that `invoke` returns is of a task that the adapter supports, was produced by the bound
  -- supervisor in the session that the adapter, the task and the directory name, by a turn in time
  -- that ended with 0, and meets the schema of the task; since the turn nothing has changed.
  pub invoke-IsChecked :
      (task : StructuredTask) (prompt cwd : String) (feature_id : Option String) (w w' : W)
      (r : AdapterResult)
      → invoke a task prompt cwd feature_id w ≡ (ok r, w')
      → IsChecked task prompt cwd feature_id w w' r
  unfolding invoke
  invoke-IsChecked task prompt cwd feature_id w w' r e =
      elim (Bool-cases (any (same_task task) a.roles)) [
        | inr n ↦ absurd (ground arith)
        | inl s ↦ elim (Option-cases a.supervisor) [
          | inl n ↦ absurd (ground arith)
          | inr (t, b) ↦ elim (Result-cases (session_id_of a task cwd feature_id)) [
            | inr (x, n) ↦ absurd (ground arith)
            | inl (id, i) ↦
                let (turn, ran, in_time, exited, result) =
                  performed-cases t task
                    (run_turn a t (spec_of a task cwd feature_id id) (turn_id_of a task prompt cwd)
                      w)
                    r w' (ground arith) in
                record {
                  supported = s;
                  transport = t;
                  bound = b;
                  session_id = id;
                  safe = i;
                  turn = turn;
                  ran = ran;
                  in_time = in_time;
                  exited = exited;
                  result = result;
                }
          ]
        ]
      ]
