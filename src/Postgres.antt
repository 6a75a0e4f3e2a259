-- ===== src/Postgres.antt =====
-- The replica of the current Gold build in PostgreSQL: its contracts, the plan of a delta, the
-- repository that applies it, and the service that synchronises.
pub mod Contracts
pub mod Rows
pub mod Delta
pub mod Tables
pub mod Repository
pub mod Replica
pub mod Sync
mod Samples
