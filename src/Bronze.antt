-- ===== src/Bronze.antt =====
-- The Bronze layer: which series are loaded (application/contracts.py, application/registry.py), what
-- is requested for each (application/planner.py, application/ports/market_data.py), what is remembered
-- of a request (application/state.py, application/operational_records.py), how a series is committed
-- (ingestion/bronze_uow.py), and the run of several series (application/bronze_orchestration.py).
pub mod Contracts
pub mod Registry
pub mod Planner
pub mod Prepare
pub mod State
pub mod Commit
pub mod Records
pub mod Orchestration
pub mod Adapters
mod Samples
