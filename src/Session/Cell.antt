-- ===== src/Session/Cell.antt =====
-- src/ai_runtime/runtime/sessions.py: `SessionSupervisor`'s operations on one registered session.
-- A cell is its record and its spool directory. The terminal multiplexer is asked through a record
-- of answers, fixed during one operation; what a waiting loop sees is a list of polls. The text of
-- outputs and the evidence that holds no identity are left out.
pub mod Lifecycle
pub mod History
use design_document.Base.{
  ℕ, suc, ◌+◌, String, Bool, true, false, not, ◌&&◌, ◌||◌, Option, none, some, List, [], ◌∷◌, ◌++◌,
  keep, find, any, ◌==◌, nat_eq, if◌then◌else◌, Result, ok, err,
}
use design_document.Identifier.{is_safe_identifier}
use design_document.Session.State.{
  SessionState, starting, ready, busy, unavailable, terminating, terminated, recovery_required,
  draining, SessionRecord, SessionError, invalid_transition, session_error, unavailable_error,
  recovery_error, value_error, is, transition,
}

-- tmux: `has-session`, the identity option and the pane's directory.
pub record Terminal : Type 0 where
  pub live : String → Bool
  pub identity : String → Option String
  pub current_path : String → Option String

-- A response file: its name's turn, and the two identities in it.
pub record Response : Type 0 where
  pub name : String
  pub turn_id : String
  pub prompt_sha256 : String

pub record Cell : Type 0 where
  pub session : SessionRecord
  pub requests : List String
  pub responses : List Response

-- What was written before a raise stays written.
abbrev pub Outcome : Type 0 → Type 0
Outcome A = Result SessionError A × Cell

infixl 5 ◌>>=◌ ◌>>◌
abbrev pub ◌>>=◌ : {A B : Type 0} → Outcome A → (A → Cell → Outcome B) → Outcome B
(ok a, c) >>= f = f a c
(err x, c) >>= f = (err x, c)

abbrev pub ◌>>◌ : {B : Type 0} → Outcome Unit → (Cell → Outcome B) → Outcome B
m >> k = m >>= λ _. k

-- Writes, then raises; a refused transition raises in its own way.
abbrev pub raise_after : {A : Type 0} → Outcome Unit → SessionError → Outcome A
raise_after m x = m >>= λ _ c. (err x, c)

abbrev pub is_live : Terminal → Cell → Bool
is_live t c = t.live c.session.tmux_name

abbrev pub equals : Option String → String → Bool
equals none s = false
equals (some a) s = a == s

unfoldable pub identity_matches : Terminal → Cell → Bool
identity_matches t c =
    is_live t c && equals (t.identity c.session.tmux_name) c.session.identity_sha256

unfoldable pub cwd_matches : Terminal → Cell → Bool
cwd_matches t c = is_live t c && equals (t.current_path c.session.tmux_name) c.session.cwd

settle : Cell → Result SessionError SessionRecord → Outcome Unit
settle c (ok r) = (ok tt, record c { session = r })
settle c (err x) = (err x, c)

-- `self._transition(record, state, ...)`
unfoldable pub move_to : SessionState → Option String → Option String → Cell → Outcome Unit
unfolding transition settle
move_to s diagnostic kind c = settle c (transition c.session s diagnostic kind)

abbrev pub settled_down : SessionState → Bool
settled_down s = is s terminated || is s terminating || is s recovery_required

pub record Observation : Type 0 where
  pub state : SessionState
  pub live : Bool
  pub is_ready : Bool

unfoldable pub when : Bool → (Cell → Outcome Unit) → Cell → Outcome Unit
when true f c = f c
when false f c = (ok tt, c)

unfoldable pub observe : Terminal → Cell → Outcome Observation
unfolding identity_matches cwd_matches move_to when
observe t c =
    let live = is_live t c in
    let own = identity_matches t c in
    let placed = cwd_matches t c in
    when (live && (not own || not placed) && not (settled_down c.session.state))
      (move_to recovery_required
        (some (if not own then "stale_session_identity" else "session_cwd_mismatch")) none)
      c
    >> λ c₁.
        let usable = own && placed && (is c₁.session.state ready || is c₁.session.state busy) in
        when (not live && not (settled_down c₁.session.state))
          (move_to unavailable (some "tmux_session_absent") none) c₁
        >> λ c₂. (ok (record { state = c₂.session.state; live = live; is_ready = usable }), c₂)

pub record TurnRequest : Type 0 where
  pub turn_id : String
  pub cwd : String
  pub prompt_sha256 : String

abbrev pub drop_request : String → Cell → Cell
drop_request turn c = record c { requests = keep (λ q. not (q == turn)) c.requests }

abbrev pub drop_response : String → Cell → Cell
drop_response turn c = record c { responses = keep (λ q. not (q.name == turn)) c.responses }

abbrev pub response_for : String → Cell → Option Response
response_for turn c = find (λ q. q.name == turn) c.responses

-- `_read_turn`: a response of another turn or prompt is refused.
unfoldable pub read_turn : TurnRequest → Response → Cell → Outcome Response
unfolding move_to
read_turn q answer c =
    if not (answer.turn_id == q.turn_id) || not (answer.prompt_sha256 == q.prompt_sha256)
    then raise_after (move_to recovery_required (some "stale_turn_identity") none c)
        (recovery_error "completed response has stale turn identity")
    else (ok answer, drop_request q.turn_id c)

-- One look of the waiting loop of `send_turn`; the list ends at the deadline.
pub data Poll : Type 0 where
  arrived : Response → Poll
  died : Poll
  quiet : Poll

await_turn : TurnRequest → List Poll → Cell → Outcome Response
unfolding read_turn
await_turn q [] c =
    raise_after
      (move_to recovery_required (some "turn_deadline_ambiguous") none (drop_request q.turn_id c))
      (recovery_error "turn exceeded its bounded deadline; outcome is ambiguous")
await_turn q (arrived answer ∷ polls) c =
    read_turn q answer (record c { responses = answer ∷ c.responses })
await_turn q (died ∷ polls) c =
    raise_after
      (move_to unavailable (some "agent_died_during_turn") none (drop_request q.turn_id c))
      (unavailable_error "agent session died during a turn")
await_turn q (quiet ∷ polls) c = await_turn q polls c

-- Both `send-keys` commands are checked.
deliver : Bool → TurnRequest → List Poll → Cell → Outcome Response
unfolding await_turn
deliver sent q polls c =
    move_to busy none none (record c { requests = q.turn_id ∷ c.requests }) >> λ c'.
    if sent then await_turn q polls c' else (err (session_error "tmux send-keys failed"), c')

refuse_turn : Cell → Outcome Response
refuse_turn c =
    raise_after
      (when (not (is c.session.state unavailable) && not (is c.session.state recovery_required))
        (move_to unavailable (some "turn_without_ready_transport") none) c)
      (unavailable_error "persistent transport is not ready; no fallback was attempted")

fresh_turn : Terminal → String → Bool → TurnRequest → List Poll → Cell → Outcome Response
unfolding deliver refuse_turn identity_matches
fresh_turn t cwd sent q polls c =
    if not (q.cwd == cwd)
    then raise_after (move_to recovery_required (some "turn_cwd_outside_session_scope") none c)
        (recovery_error "turn cwd differs from the registered session scope")
    else if not (is c.session.state ready) || not (is_live t c) || not (identity_matches t c)
    then refuse_turn c
    else deliver sent q polls c

-- `send_turn` for a specification whose working directory is `cwd`.
unfoldable pub send_turn :
    Terminal → String → Bool → TurnRequest → List Poll → Cell → Outcome Response
unfolding fresh_turn when move_to
send_turn t cwd sent q polls c = elim (response_for q.turn_id c) [
  | none ↦ fresh_turn t cwd sent q polls c
  | some answer ↦
      when (is c.session.state recovery_required)
        (move_to busy none (some "completed_turn_recovered")) c
      >> read_turn q answer
]

unfoldable pub acknowledge_turn : String → Cell → Outcome Unit
unfolding when move_to
acknowledge_turn turn c =
    when (is c.session.state busy || is c.session.state recovery_required)
      (move_to ready (some "turn_acknowledged") none) (drop_response turn (drop_request turn c))

unfoldable pub reject_turn : String → String → Cell → Outcome Unit
unfolding move_to
reject_turn turn reason c =
    move_to recovery_required (some reason) none (drop_response turn (drop_request turn c))

-- `absent` is the last answer of `has-session`, after the grace period and the kill.
unfoldable pub terminate : Bool → Cell → Outcome Unit
unfolding when move_to
terminate absent c =
    if is c.session.state terminated
    then (ok tt, c)
    else when (not (is c.session.state terminating)) (move_to terminating none none) c >> λ c'.
        move_to terminated (some "terminal_absent") none
          (record c' { requests = []; responses = [] })
        >> λ c''.
            (ok tt, record c'' { session = record c''.session { cleanup_evidence = some absent } })

unfoldable pub drain : Cell → Outcome Unit
unfolding move_to
drain c =
    if not (c.session.session_kind == "root")
    then (err (session_error "only root sessions use controlled drain"), c)
    else if is c.session.state draining
    then (ok tt, c)
    else if not (is c.session.state ready) && not (is c.session.state busy)
    then (err (recovery_error "root is not eligible for controlled drain"), c)
    else move_to draining (some "controlled_root_replacement") none c

unfoldable pub mark_replaced : String → Cell → Outcome Unit
mark_replaced by c =
    if not (is c.session.state terminated)
    then (err (recovery_error "root must be terminated before replacement is recorded"), c)
    else if not (is_safe_identifier 128 by)
    then (err (value_error "replacement_session_id"), c)
    else (ok tt, record c { session = record c.session { replaced_by = some by } })
