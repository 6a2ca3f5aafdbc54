-- ===== src/Repository.antt =====
-- src-tauri/src/state/repository.rs: the tables of the database. A table is the list of its rows in
-- the order of insertion, a statement that writes returns the new table.
pub mod Columns
pub mod Keyed
pub mod Snapshots
pub mod Replacement
pub mod Baselines
pub mod Pending
pub mod Peers
pub mod History
pub mod Tasks
pub mod Devices
pub mod Deferred
pub mod Trees
pub mod Patterns
