-- ===== src/Session/Cell/Lifecycle.antt =====
-- Every operation on a session moves it along the lifecycle table.
use design_document.Base.{
  String, Bool, true, false, ◌||◌, Option, none, some, List, [], ◌∷◌, if◌then◌else◌, Result, ok,
  err, Result-cases, Option-cases, inl, inr,
}
use design_document.Session.State.{
  SessionState, ready, terminated, busy, recovery_required, SessionError, is, transition,
}
use design_document.Session.State.Paths.{◌⟶*◌, stay, ⟶*-trans, transition-path}
use design_document.Session.Cell.{
  Terminal, Cell, Outcome, Response, TurnRequest, Poll, arrived, died, quiet, ◌>>=◌, ◌>>◌,
  raise_after, settle, move_to, when, observe, read_turn, await_turn, deliver, refuse_turn,
  fresh_turn, send_turn, response_for, acknowledge_turn, reject_turn, terminate, drain,
  mark_replaced, drop_request, drop_response,
}

-- The state that an operation leaves is reached from the state that it met.
pub record Follows {A : Type 0} (s : SessionState) (m : Outcome A) : Type 0 where
  pub path : s ⟶* m.1.session.state

pub Follows-raise :
    {A : Type 0} (r : Result SessionError A) (c : Cell) → Follows c.session.state (r, c)
Follows-raise r c = record { path = stay }

module _ {A : Type 0} {s : SessionState} where
  pub Follows-if :
      (b : Bool) (m n : Outcome A) → Follows s m → Follows s n → Follows s (if b then m else n)
  Follows-if true m n p q = p
  Follows-if false m n p q = q

pub Follows-bind :
    {A B : Type 0} {s : SessionState} (m : Outcome A) (f : A → Cell → Outcome B)
    → Follows s m
    → ((a : A) (c : Cell) → Follows c.session.state (f a c))
    → Follows s (m >>= f)
Follows-bind (ok a, c) f p k = record { path = ⟶*-trans p.path (k a c).path }
Follows-bind (err x, c) f p k = record { path = p.path }

pub move_to-Follows :
    (t : SessionState) (d k : Option String) (c : Cell) → Follows c.session.state (move_to t d k c)
unfolding move_to
move_to-Follows t d k c = elim (Result-cases (transition c.session t d k)) [
  | inl (r, e) ↦ record { path = rw (e, settle) (transition-path c.session r t d k e).0 }
  | inr (x, e) ↦ record { path = rw (e, settle) stay }
]

pub when-Follows :
    (b : Bool) (f : Cell → Outcome Unit) (c : Cell)
    → Follows c.session.state (f c)
    → Follows c.session.state (when b f c)
unfolding when
when-Follows true f c p = p
when-Follows false f c p = record { path = stay }

pub raise_after-Follows :
    {A : Type 0} {s : SessionState} (m : Outcome Unit) (x : SessionError)
    → Follows s m
    → Follows {A = A} s (raise_after m x)
raise_after-Follows m x p = Follows-bind m (λ _ c. (err x, c)) p (λ _ c. record { path = stay })

pub ruleset moves =
    (Follows-if, Follows-bind, Follows-raise, raise_after-Follows, when-Follows, move_to-Follows)

pub observe-Follows : (t : Terminal) (c : Cell) → Follows c.session.state (observe t c)
unfolding observe
observe-Follows t c = search moves

dropped :
    (q : TurnRequest) (answer : Response) (c : Cell)
    → Follows {A = Response} c.session.state (ok answer, drop_request q.turn_id c)
dropped q answer c = record { path = stay }

read_turn-Follows :
    (q : TurnRequest) (answer : Response) (c : Cell)
    → Follows c.session.state (read_turn q answer c)
unfolding read_turn
read_turn-Follows q answer c = search (moves, dropped)

move_dropped :
    (turn : String) (t : SessionState) (d k : Option String) (c : Cell)
    → Follows c.session.state (move_to t d k (drop_request turn c))
move_dropped turn t d k c = move_to-Follows t d k (drop_request turn c)

await_turn-Follows :
    (q : TurnRequest) (polls : List Poll) (c : Cell)
    → Follows c.session.state (await_turn q polls c)
unfolding await_turn
await_turn-Follows q [] c = search (moves, move_dropped)
await_turn-Follows q (arrived answer ∷ polls) c =
    read_turn-Follows q answer (record c { responses = answer ∷ c.responses })
await_turn-Follows q (died ∷ polls) c = search (moves, move_dropped)
await_turn-Follows q (quiet ∷ polls) c = await_turn-Follows q polls c

move_requested :
    (turn : String) (t : SessionState) (d k : Option String) (c : Cell)
    → Follows c.session.state (move_to t d k (record c { requests = turn ∷ c.requests }))
move_requested turn t d k c = move_to-Follows t d k (record c { requests = turn ∷ c.requests })

deliver-Follows :
    (sent : Bool) (q : TurnRequest) (polls : List Poll) (c : Cell)
    → Follows c.session.state (deliver sent q polls c)
unfolding deliver
deliver-Follows sent q polls c = search (moves, move_requested, await_turn-Follows)

refuse_turn-Follows : (c : Cell) → Follows c.session.state (refuse_turn c)
unfolding refuse_turn
refuse_turn-Follows c = search moves

fresh_turn-Follows :
    (t : Terminal) (cwd : String) (sent : Bool) (q : TurnRequest) (polls : List Poll) (c : Cell)
    → Follows c.session.state (fresh_turn t cwd sent q polls c)
unfolding fresh_turn
fresh_turn-Follows t cwd sent q polls c = search (moves, deliver-Follows, refuse_turn-Follows)

recovered-Follows :
    (q : TurnRequest) (answer : Response) (b : Bool) (d k : Option String) (c : Cell)
    → Follows c.session.state (when b (move_to busy d k) c >> read_turn q answer)
recovered-Follows q answer b d k c = search (moves, read_turn-Follows)

pub send_turn-Follows :
    (t : Terminal) (cwd : String) (sent : Bool) (q : TurnRequest) (polls : List Poll) (c : Cell)
    → Follows c.session.state (send_turn t cwd sent q polls c)
unfolding send_turn
send_turn-Follows t cwd sent q polls c = elim (Option-cases (response_for q.turn_id c)) [
  | inl e ↦ rw (e, send_turn) (fresh_turn-Follows t cwd sent q polls c)
  | inr (answer, e) ↦
      rw (e, send_turn)
        (recovered-Follows q answer (is c.session.state recovery_required) none
          (some "completed_turn_recovered") c)
]

pub acknowledge_turn-Follows :
    (turn : String) (c : Cell) → Follows c.session.state (acknowledge_turn turn c)
unfolding acknowledge_turn
acknowledge_turn-Follows turn c =
    let cleared = drop_response turn (drop_request turn c) in
    when-Follows (is c.session.state busy || is c.session.state recovery_required)
      (move_to ready (some "turn_acknowledged") none) cleared
      (move_to-Follows ready (some "turn_acknowledged") none cleared)

pub reject_turn-Follows :
    (turn reason : String) (c : Cell) → Follows c.session.state (reject_turn turn reason c)
unfolding reject_turn
reject_turn-Follows turn reason c =
    move_to-Follows recovery_required (some reason) none (drop_response turn (drop_request turn c))

finish-Follows :
    (absent : Bool) (c : Cell)
    → Follows c.session.state (
        move_to terminated
          (some "terminal_absent")
          none
          (record c { requests = []; responses = [] })
        >> λ c''.
            (ok tt, record c'' { session = record c''.session { cleanup_evidence = some absent } }))
finish-Follows absent c =
    Follows-bind _ _ (move_to-Follows _ _ _ (record c { requests = []; responses = [] }))
      (λ _ c''. record { path = stay })

pub terminate-Follows : (absent : Bool) (c : Cell) → Follows c.session.state (terminate absent c)
unfolding terminate
terminate-Follows absent c = search (moves, finish-Follows)

pub drain-Follows : (c : Cell) → Follows c.session.state (drain c)
unfolding drain
drain-Follows c = search moves

replaced-Follows :
    (by : String) (c : Cell)
    → Follows {A = Unit} c.session.state
        (ok tt, record c { session = record c.session { replaced_by = some by } })
replaced-Follows by c = record { path = stay }

pub mark_replaced-Follows : (by : String) (c : Cell) → Follows c.session.state (mark_replaced by c)
unfolding mark_replaced
mark_replaced-Follows by c = search (moves, replaced-Follows)
