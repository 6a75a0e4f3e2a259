-- ===== src/Operational.antt =====
-- The snapshots in which the states of the series, the runs and the inventory are kept:
-- ingestion/state_repository.py and ingestion/operational_repository.py.
pub mod Sanitize
pub mod Snapshot
pub mod Values
pub mod States
pub mod Runs
mod Samples
