-- ===== src/Lib.antt =====
-- AI Multi-Agent Runtime: the event log, the projection of a feature, the Git gates and leases,
-- the agent sessions, and the coordinator that joins them.
--
-- The runtime coordinates agents by events. A draft becomes an event (`Feature/NewEvent.antt`,
-- `new_event` of src/ai_runtime/events.py), the store validates it and appends it in one SQLite
-- transaction per group (`Store`, src/ai_runtime/store/event_store.py), and a reader replays the
-- committed rows into the state of a feature (`Feature/State.antt`, `project_feature` of
-- src/ai_runtime/runtime/state.py). Leases with fencing tokens and Git worktrees isolate the
-- implementation of a feature (`Git`, src/ai_runtime/git/workspace.py), and the agents live in
-- supervised terminal sessions (`Session`, src/ai_runtime/runtime/sessions.py).
--
-- Store/Event.antt: `prepare_event`, each check in the source's order. JSON values are `Json.antt`;
--   `json.dumps`, `json.loads`, SHA-256 and the time parser are the record `Platform`.
-- Store/Table.antt: the `events` table as a list of rows, oldest first, with the constraints of
--   `_SCHEMA`. Store/Append.antt: `append_group` and `_insert_one`; the argument `fault` says before
--   which submission the storage fails, if it does. Store/Read.antt: `_decode_row`, `iter_events`
--   and `replay`.
-- Store/Writer.antt: `EventWriter` of src/ai_runtime/store/writer.py, its queue, thread and futures;
--   Store/Writer/Steps.antt has the relation of all interleavings of its callers and the thread, one
--   step for each stretch of code under the lock or between two calls that wait. A future can be
--   cancelled between two steps, or within one between the thread's test of it and its settling.
-- Git/Lease.antt: `LeaseManager`. `acquire` and `revoke` run one at a time under a file lock, and
--   `read` and `validate` read the one lease file, which is replaced as a whole, so a history of
--   calls by any number of processes is a list. Git/Command.antt and Git/Workspace.antt: the methods
--   of `GitWorkspaceManager` over a port that runs a command in a world of any type.
-- Session/State.antt: `_TRANSITIONS` and `_transition`. Session/Cell.antt: the supervisor's
--   operations on one session, its record and its spool of requests and responses. The terminal's
--   answers are fixed during one operation, but a waiting loop sees a list of polls that ends at the
--   deadline. Session/Reconcile.antt: `reconcile`, over all sessions. Session/Spec.antt: `SessionSpec`
--   with its checks; Session/Start.antt: `start`, `_wait_ready` and `resume_or_reconstruct`, where a
--   launch is a record of what tmux answers during it.
-- FeatureSession: src/ai_runtime/runtime/feature_sessions.py. Channel is
--   `StructuredTerminalEventChannel`, its directories as lists of named files, with
--   `acknowledge_known_events` in Channel/Known; Declaration has `PersistentAdapterDeclaration` and
--   `CapabilityRegistry`; Factory, Fork, Events, Recovery and Reconcile have the operations of
--   `FeatureSessionFactory` on the world of FeatureSession/World.antt. The supervisor is an interface
--   with laws there, and FeatureSession/Implementation.antt fills it with the operations of `Session`.
-- Coordinator: src/ai_runtime/runtime/coordinator.py. Coordinator/World.antt has the world that its
--   operations act on, as `Run` actions that may raise: the outside, the lease files, the log and
--   the sessions; Log, Guards, Plan, Writer, Implement, Review and Merge have the operations, and
--   Dispatch the loop `run_until_gate`. The log is an interface of two operations, `iter_events`
--   and `append`; adapters are what a turn answers and how it changes the outside.
-- Adapter: src/ai_runtime/adapters. Output has `_extract_structured` and `_validate_result` of cli.py,
--   Invoke has `_SubprocessAdapter.invoke` and `acknowledge` over the calls of a supervisor.
-- Base, Json (with Python's `==` on values in Json/Equal.antt), Identifier and Text have what these
-- share. The `Tests` modules run the parts on small inputs.
--
-- Four loops run on fuel. `run_until_gate` takes one unit for a round and answers `none` when it is
-- still running, so that its theorems hold for every fuel; the decimal text of a number has the
-- number itself as its fuel, and every step divides by ten; and `replace_root` looks for a free
-- generation among as many as its fuel says, which is enough as soon as one of them is free
-- (FeatureSession/Recovery/Generations.antt). The walk through JSON text within JSON text may go as
-- many levels down as the output has characters, which is enough if `json.loads` answers with shorter
-- texts (Adapter/Output/Levels.antt). All others go down a list. Numbers are Python's, without a
-- bound.
--
-- Not modelled: the text of prompts, the command lines of the agents' tools, the worker processes,
-- the runtime's own command line, and the benchmarks, which are input and output or measure other
-- programs; opening and closing the database; the wait of `EventWriter.close` for its thread;
-- readiness patterns, which are asked through their matches; durations, time stamps in records, and
-- the text of errors beyond what tells them apart. A file of the terminal channel holds the value
-- that is written to it: writing it as JSON text and reading that text are left out. `json.loads`
-- answers with a value or refuses the text; that it can also raise for an integer of too many digits
-- or for nesting that is too deep is left out.
pub mod Base
pub mod Json
pub mod Identifier
pub mod Text
pub mod Store
pub mod Feature
pub mod Git
pub mod Session
pub mod FeatureSession
pub mod Adapter
pub mod Coordinator
