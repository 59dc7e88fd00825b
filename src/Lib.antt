-- ===== src/Lib.antt =====
-- spica is a durable workflow engine: one leader turns the commands of an append-only log into events,
-- and folds ("applies") every event into a projection of rows, which it can rebuild from the log. This
-- library models the domain values, the log, the appliers, the projection store, the handlers that decide
-- a command, the leader's attempts at one, and the drivers that replay a log.
--
-- Parts and files, with paths from the repository's root:
-- - Base, HashMap: numbers, byte strings, lists, `i64`, results, and Rust's `HashMap` and `HashSet` as
--   association lists, whose order no statement depends on.
-- - Machinery: crates/machinery/src/name.rs (plain and generated names, their text and its parser) and
--   timestamp.rs. Machinery/Decimal is the decimal text of a `u64`, as `format!` and `str::parse` of
--   the standard library make and read it.
-- - Types: crates/engine-types/src/types: kinds, references and metadata (meta.rs), errors (error.rs,
--   reject.rs), executions, threads, activities, tasks with leases and retries, flows, events, commands
--   and deadlines. A mark takes `&mut self`: it returns the row and the answer.
-- - LogStream: crates/logstream/src/memory.rs: `append`, `read` and `stream_read`.
-- - Storage: Contract is the trait `StorageTxn` of crates/engine-types/src/storage/mod.rs; View is the
--   abstract store it promises; Memory is crates/storage/src/memory.rs: the store, the buffered batch
--   of a transaction, its reads (Reads, Txn), its commit (Landing) and the direct operations (Direct).
--   Fold is the effect of a call: a result, which may be a storage error or a panic, and the store that
--   is left.
-- - Applier: crates/engine/src/applier.rs and applier/appliers: one function per applier, all 25 of
--   them, and `dispatch_event`; Births also models `mint_generated_seq` of crates/engine/src/working.rs.
-- - StreamProcessor: `run_follower` and `recover_leader` of crates/engine/src/stream_processor.rs, with
--   `apply_event` and `commit_at_noop` of follower.rs, and the append adapter of log.rs (Closing).
-- - Asl: the data of a machine definition (crates/asl/src), and StatePath, the paths to its states.
-- - Elements: what turns a command into entries. Handle is the collector of crates/engine/src/handler.rs
--   with its overlay, an effect that reads and writes the working store, appends entries, takes stamps
--   and mints ids; Interface holds what it takes from elsewhere. StateHandler is the trait of
--   elements/state_handler.rs, States its eight implementations; Settle, Activity, Thread, Execution,
--   Task and Flow are the other files of elements with the handlers on them, and Dispatch is
--   `dispatch_command` of handlers/dispatch.rs. Keeps carries a property of the working state from the
--   primitive steps through all of them; Leader/Agreement and Leader/Invariants instantiate it.
-- - Leader: `process_command` of crates/engine/src/leader.rs, with its attempts and refusals.
-- - Scheduler: a round of the loop of crates/scheduler/src/in_memory.rs.
-- - Examples: concrete inputs.
--
-- How the parts meet: an applier is a function of a `StorageTxn`, so it runs over the in-memory
-- transaction and over the abstract store alike. Storage/Simulates says that one implementation does
-- what another does; Applier/Simulation lifts it to every event, StreamProcessor/Replay to a whole log.
-- A handler folds each event into the working store as it appends it, and the leader commits that store;
-- a follower folds the appended entries.
--
-- Choices and bounds. A JSON value is a type parameter: the domain, the log and the store never look into
-- it, and the handlers make and read one through the operations of `Json`. A text is the list of its bytes. An `f64` is its bit pattern, and the arithmetic that the
-- retry backoff does with it is a parameter (`Floats`). A `u32`, `u64` or `i64` that the code adds to
-- keeps its wrap-around, as in a release build; log positions are `i64`, and the statements say where
-- they must fit. Locks and asynchronous waits are not modelled: one writer holds a store, so a call is
-- one step, and a transaction carries the rows that it began on. The recovery loop runs on fuel, and one
-- turn more than the log has entries is enough. A `continue` or an early return is a branch.
--
-- A handler is a function of the working state: a clock and an id generator are functions of how often
-- they were asked. A `debug_assert!` evaluates its condition only in a build with debug assertions,
-- which is a parameter, since some conditions mark a row. A `usize` difference wraps around at 2 ^ 64.
-- JSON values, JSONata, the trimming of a text, the parser of definitions, checksums and floats are
-- parameters.
--
-- Not modelled: the live loop of `run_leader` around a command, the texts of refusals, parsing and
-- validation of definitions (serde), the evaluation of expressions, the persistent stores on RocksDB,
-- the registry of custom handlers, the server, the client, the command line and the wire format.
pub mod Base
pub mod HashMap
pub mod Machinery
pub mod Types
pub mod Asl
pub mod Storage
pub mod Applier
pub mod LogStream
pub mod StreamProcessor
pub mod Elements
pub mod Leader
pub mod Examples
pub mod Scheduler
