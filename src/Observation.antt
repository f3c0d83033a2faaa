-- ===== src/Observation.antt =====
-- src/app_contracts/observation_store.py: the append-only journal of observations, in memory and in
-- SQLite, and the gate that records an intent before its effect.
pub mod EventSchema
pub mod CheckpointSchema
pub mod Checks
pub mod Memory
pub mod Sqlite
pub mod Pairs
pub mod Dispatch
pub mod Stored
pub mod AppendOnly
pub mod OneShot
pub mod Rows
pub mod Refinement
