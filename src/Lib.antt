-- ===== src/Lib.antt =====
-- LanBridge synchronises folders between two computers of a local network. For each task one device
-- is the primary, whose files count, and the other the secondary, which receives them and returns
-- its own changes on request. A run of a task (src-tauri/src/commands/mod.rs) scans the folder,
-- compares it with the baselines of the last run (core/planner.rs), checks the planned actions
-- against what the peer reports, sends them (transport/) and writes the outcome to the database
-- (state/repository.rs). Paths below are relative to src-tauri/src.
--
-- Model.antt is core/model.rs. Planner.antt is core/planner.rs: plan_sync over lists of snapshots
-- and baselines, its maps as look-ups of the last entry of a path. Its sort is a parameter, as the
-- comparator is no total order and the standard library then leaves the order open. Conflict.antt
-- is core/conflict.rs: detect_conflict and the search for a free conflict name, which runs on fuel:
-- one unit for each candidate tried, so that any amount above the position of the first free
-- candidate is enough.
--
-- Repository.antt is state/repository.rs: a table is a list of rows, and each method of a
-- repository a function on it in the child of the table (Snapshots, Baselines, Pending, History,
-- Deferred, Tasks, Devices, Peers); Replacement has the transaction of replace_for_task, Trees the
-- deletion of a tree and Patterns what SQLite documents of LIKE; Keyed has the statements of SQL
-- that they share, Columns the text of enumerations. An order that SQL leaves open is the order of
-- insertion.
--
-- SyncRuns.antt and Trackers.antt are app_state.rs: each operation under the mutex is a function on
-- the map it guards, a hash map being an association list (Base/Assoc), an instant its
-- milliseconds. SyncRuns/Requests has the calls of run_sync_now as events of one sequence for all
-- threads.
--
-- Actions.antt and its children are the functions of commands/mod.rs between the plan and the
-- network: Recovery (recovered deletions and repairs), Compress (deletions below a deleted
-- directory), Priority (the order of transfers), Remote (what is checked before a deletion or an
-- overwriting), Returns (the secondary's checks), Metadata (the test whether a tree has changed),
-- Selection (the paths of a return and their order), Roots (folders of tasks that overlap),
-- Candidates and Reached (the addresses of a peer, and the one that is taken). A look-up in a map
-- of the source is an argument where the function only looks up its own path. Persist.antt has the
-- functions persist_network_successes, persist_secondary_pull_successes and
-- persist_return_successes: the statements of a turn of their loops, carried out up to the first
-- that fails, and in Conflicts the transaction of persist_secondary_conflict_success; which
-- statements fail, the hashes and the metadata of files are arguments.
--
-- Server.antt is transport/server.rs: TaskRootRegistry with its roots, peers, incoming transfers
-- and leases. Access has registration and authorization, Incoming and Chunks the handlers of an
-- incoming file in both protocols, Leases, Steps and Ends the invariant, Transfers sequences of
-- operations, Finished the end of a file, Deletions the check of a deletion's target. The content
-- hash is a parameter, and what the file system answers to a handler (the path checks, the
-- precondition of the target, the writes, the flush, the commit) an argument.
--
-- Connection.antt is transport/connection.rs, with the questions to an address in Probes, over the
-- answers of the network: the global maps of progress, cancelled and deferred transfers and
-- protocols as one record, with each function under its mutex on it, and the connection manager in
-- Manager. Discovery.antt is transport/discovery.rs: the state that the workers share, the devices
-- that the listing gives, the scores and the announcements' addresses. What a peer answers and the
-- clock are arguments.
--
-- PathSafety.antt is core/path_safety.rs: a path is the list of its names, and a file system
-- answers for its paths; making a directory gives another file system. Parents has the creation of
-- directories, Guards the guard of a mutation. Transient.antt is core/transient.rs over a tree of
-- entries.
--
-- Base.antt has the shared notation and lemmas: native numbers and their decimal text (Decimal),
-- lists, integers, texts, sorting by insertion (which gives what every stable sort gives where the
-- comparator is a total order), what is documented of sort_by (SortLaws), hash maps (Assoc) and
-- hash sets (Sets). Examples.antt has the concrete runs.
--
-- Not modelled: the executor, scanner and history store, which act on the file system; sockets, the
-- loops that send and receive the chunks of a file, and the texts of errors; migrations,
-- cryptography, platforms, the user interface and the vendored window library. Revisions and byte
-- counts are natural numbers, as they stay far below 64 bits; saturating_add keeps its bound.
-- SQLite's LIKE is a parameter of the remove_tree methods. The end of an incoming file is one step,
-- where the source releases its locks between taking the transfer out, looking up the root and
-- releasing the lease. The creation of a task is not modelled, only its check of the roots. The
-- foreign key of peer_connection_state, which refuses the row of a device that is not paired, and
-- the refusal of revisions above 63 bits are left out. The removal of transient files is that of a
-- run without errors.
pub mod Base
pub mod Model
pub mod PathSafety
pub mod Persist
pub mod Planner
pub mod Conflict
pub mod Connection
pub mod Discovery
pub mod Repository
pub mod SyncRuns
pub mod Trackers
pub mod Transient
pub mod Actions
pub mod Server
mod Examples
