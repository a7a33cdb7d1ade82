-- ===== src/FeatureSession/Implementation.antt =====
-- The supervisor of src/ai_runtime/runtime/sessions.py as the factory sees it: the operations of
-- `Session` on the registry, a list of sessions. What tmux answers, and how one launch goes, is fixed
-- for the operations between two questions.
use design_document.Base.{
  String, ◌≡◌, refl, sym, ap, ◌∙◌, Bool, false, Option, none, some, List, [], ◌∷◌, map, ◌==◌, arith,
  eq_iff, if◌then◌else◌, Result, ok, err, Bool-cases, inl, inr, Option-cases,
}
use design_document.Session.State.{
  terminated, SessionRecord, SessionError, unavailable_error, recovery_error, session_error,
}
use design_document.Session.Spec.{SessionSpec, Digests}
use design_document.Session.Cell.{
  Terminal, Cell, Outcome, observe, terminate, drain, mark_replaced, move_to,
}
use design_document.Session.Start.{Launch, start, resume_or_reconstruct}
use design_document.Session.Start.Refusals.{start-terminated}
use design_document.Session.Reconcile.{reconcile}
use design_document.FeatureSession.World.{Supervisor}
use design_document.FeatureSession.Recovery.Ended.{IsLawful}

-- A registry has one file for an identifier: the first of the list.
unfoldable pub cell_of : String → List Cell → Option Cell
cell_of id [] = none
cell_of id (c ∷ cells) = if c.session.session_id == id then some c else cell_of id cells

unfoldable pub keep_cell : String → Cell → List Cell → List Cell
keep_cell id c [] = c ∷ []
keep_cell id c (d ∷ cells) =
    let rest = keep_cell id c cells in if d.session.session_id == id then c ∷ cells else d ∷ rest

abbrev session_of : Option Cell → Option SessionRecord
session_of none = none
session_of (some c) = some c.session

unfoldable pub read_session : String → List Cell → Option SessionRecord
unfolding cell_of
read_session id cells = session_of (cell_of id cells)

module _ {A : Type 0} where
  abbrev stored : String → Outcome A → List Cell → Result SessionError A × List Cell
  stored id (r, c) cells = (r, keep_cell id c cells)

  abbrev on_found :
      String → (Cell → Outcome A) → Option Cell → List Cell → Result SessionError A × List Cell
  on_found id f none cells = (err (unavailable_error "session is not registered"), cells)
  on_found id f (some c) cells = stored id (f c) cells

  -- An operation on a session that has to be registered.
  unfoldable pub on_cell :
      String → (Cell → Outcome A) → List Cell → Result SessionError A × List Cell
  unfolding keep_cell cell_of
  on_cell id f cells = on_found id f (cell_of id cells) cells

abbrev version_in : List (String × String) → String → Option String
version_in [] adapter = none
version_in ((name, v) ∷ vs) adapter = if name == adapter then some v else version_in vs adapter

module _ (h : Digests) (t : Terminal) (l : Launch) (absent : Bool) where
  unfoldable pub supervisor : Supervisor (List Cell)
  unfolding on_cell read_session keep_cell cell_of start resume_or_reconstruct
  supervisor = record {
    read = read_session;
    records = map (λ c. c.session);
    start = λ spec cells.
        stored spec.session_id (start h t spec l (cell_of spec.session_id cells)) cells;
    observe = λ spec. on_cell spec.session_id (observe t);
    resume_or_reconstruct = λ spec clean command cells.
        stored spec.session_id
          (resume_or_reconstruct h t spec l clean command (cell_of spec.session_id cells)) cells;
    transition = λ r state reason. on_cell r.session_id (move_to state (some reason) none);
    terminate = λ id. on_cell id (terminate absent);
    drain = λ id. on_cell id drain;
    mark_replaced = λ id by. on_cell id (mark_replaced by);
    reconcile = λ versions.
        reconcile t (record { acknowledged = λ turn. false; version = version_in versions });
    is_live = λ r cells. t.live r.tmux_name;
    kill = λ r cells. (ok tt, cells);
    notify = λ r notice cells. (ok tt, cells);
  }

cell_of-named :
    (id : String) (cells : List Cell) (c : Cell)
    → cell_of id cells ≡ some c
    → c.session.session_id ≡ id
unfolding cell_of
cell_of-named id [] c e = cc
cell_of-named id (d ∷ cells) c e =
    ground (arith, eq_iff d.session.session_id id, cell_of-named id cells c)

keep_cell-same :
    (id : String) (cells : List Cell) (c : Cell)
    → cell_of id cells ≡ some c
    → keep_cell id c cells ≡ cells
unfolding cell_of keep_cell
keep_cell-same id [] c e = cc
keep_cell-same id (d ∷ cells) c e = ground (arith, keep_cell-same id cells c)

read-cell :
    (id : String) (cells : List Cell) (r : SessionRecord)
    → read_session id cells ≡ some r
    → (c : Cell) × (cell_of id cells ≡ some c) × (c.session ≡ r)
unfolding read_session
read-cell id cells r e = elim (Option-cases (cell_of id cells)) [
  | inl n ↦ absurd (ground arith)
  | inr (c, f) ↦ (c, f, ground arith)
]

-- The state of a terminated session refuses the drain.
drain-terminated :
    (c : Cell) → c.session.state ≡ terminated → (x : SessionError) × (drain c ≡ (err x, c))
unfolding drain
drain-terminated c e = elim (Bool-cases (c.session.session_kind == "root")) [
  | inl k ↦ (recovery_error "root is not eligible for controlled drain", rw (drain, k, e) refl)
  | inr k ↦ (session_error "only root sessions use controlled drain", rw (drain, k) refl)
]

module _ (h : Digests) (t : Terminal) (l : Launch) (absent : Bool) where
  start_ended :
      (spec : SessionSpec) (cells : List Cell) (r : SessionRecord)
      → read_session spec.session_id cells ≡ some r
      → r.state ≡ terminated
      → (x : SessionError) × ((supervisor h t l absent).start spec cells ≡ (err x, cells))
  unfolding supervisor
  start_ended spec cells r e over =
      let (c, f, s) = read-cell spec.session_id cells r e in
      let (x, q) = start-terminated h t spec l c (rw s over) in
      (x, rw (f, q, keep_cell-same spec.session_id cells c f) refl)

  drain_ended :
      (id : String) (cells : List Cell) (r : SessionRecord)
      → read_session id cells ≡ some r
      → r.state ≡ terminated
      → (x : SessionError) × ((supervisor h t l absent).drain id cells ≡ (err x, cells))
  unfolding supervisor on_cell
  drain_ended id cells r e over =
      let (c, f, s) = read-cell id cells r e in
      let (x, q) = drain-terminated c (rw s over) in
      (x, rw (f, q, keep_cell-same id cells c f) refl)

  -- The interface that the factory relies on is met.
  pub supervisor-IsLawful : IsLawful (supervisor h t l absent)
  unfolding supervisor
  supervisor-IsLawful = record {
    named = λ id cells r e.
        let (c, f, s) = read-cell id cells r e in
        ap (λ (p : SessionRecord). p.session_id) (sym s) ∙ cell_of-named id cells c f;
    start_ended = start_ended;
    drain_ended = drain_ended;
  }
