-- ===== src/Lib.antt =====
-- Verification library of market-regime-loader, a loader of daily market data with a Bronze, a
-- Silver and a Gold layer.
--
-- The Bronze layer keeps what was fetched of each series. Bronze.Contracts and Bronze.Registry model the
-- series (application/contracts.py, application/registry.py), Bronze.Planner what is requested
-- (application/planner.py, application/ports/market_data.py), Bronze.State and Bronze.Records what is
-- remembered and recorded (application/state.py, application/operational_records.py), Bronze.Commit
-- the compensated commit (ingestion/bronze_uow.py: commit_success) over a disk that maps paths to bytes, and
-- Bronze.Orchestration the run of one series and of several (application/bronze_orchestration.py:
-- run_series, run_many) over a unit of work that is given, whose commit does nothing where it raises, and
-- Bronze.Adapters the registry of providers (application/ports/provider_registry.py).
--
-- The Gold layer is a directory of immutable builds with one authoritative catalog. Catalog models
-- the catalog: its rows and their resolution by consumers (application/gold_catalog.py) in Catalog.Rows
-- and Catalog.Resolution, and what the repository lets into the file
-- (ingestion/gold_catalog_repository.py) in Catalog.Repository. Gold models the life of a build: the
-- publisher (application/gold_publication.py: GoldPublisher.publish, reconcile, _promoted_records,
-- _finalize_failed_if_uncommitted) in Gold.Publication, and the retention service
-- (application/gold_retention.py: GoldRetentionPolicy.select_for_mark, GoldRetentionService.run) in
-- Gold.Retention. Both reach the catalog file, the clock, the bundle store, the views, the mirror and
-- the sweeper through Gold.Ports: a record of functions of the number of calls made so far, each of
-- which may fail, so that a theorem about every such record covers every sequence of faults. The
-- state is the catalog file with the trace of what was done outside.
--
-- Gold.Sweeper is the deletion of a build's files (ingestion/gold_retention_store.py: GoldBundleSweeper.sweep)
-- at the paths of application/paths.py.
--
-- Pipeline models the facade over the layers (application/daily_pipeline.py: run_daily, gold_build,
-- _source_command), whose services are called in turn; its state is the list of the stages entered.
--
-- Operational models the snapshots of states, runs and inventory (ingestion/state_repository.py,
-- ingestion/operational_repository.py): Operational.Snapshot is what they have in common, with the format of
-- the rows as a record whose laws the three fill, and Operational.Sanitize the removal of secrets.
--
-- Postgres models the replica of the current build in PostgreSQL. Postgres.Contracts has the values
-- (application/postgres_sync.py), Postgres.Rows the bytes of a row's digest and the conversion of the frame, and
-- Postgres.Delta the plan (application/postgres_delta.py); Postgres.Tables has the rows and the statements and
-- Postgres.Repository the methods over a connection (ingestion/postgres_gold_repository.py), and Postgres.Sync
-- the service (application/postgres_sync_service.py: GoldPostgresDeltaSync.sync), which takes the
-- repository as a record of its methods. The database is modelled by what the SQL statements do to the
-- tables inside one transaction, for one client; the world has the committed tables beside those of the
-- transaction. The hash is a parameter, and a float is its bit pattern of 64 bits.
--
-- Parquet models the upsert of frames (ingestion/parquet_repository.py: diff_frames, merge_frames) that
-- Bronze and Silver store their months by, and
-- Bronze.Prepare the normalisation before it (ingestion/bronze_uow.py: _stable_incoming); a row gives a value or a null for every column.
--
-- Http models the transport of the providers (application/retry.py: RetryPolicy;
-- ingestion/httpx_adapter.py: HttpxTransport.send): the bounded loop over a client that is given, whose
-- state is the number of requests made and the sleeps.
--
-- Methods are state-passing functions that return or raise (Prelude.Effects); what was changed before
-- a raise stays changed. All of them are structurally recursive, and no fuel is used. Times are
-- microseconds with or without a zone, text is its code points, integers are unbounded as in Python.
-- The sort of a data frame is a parameter, of which the theorems assume that it reorders its rows.
--
-- Dates are ordinals, of which the first is 1. Not modelled: the text of messages, logging, the file formats, and the network.
pub mod Prelude
pub mod Bronze
pub mod Catalog
pub mod Gold
pub mod Http
pub mod Parquet
pub mod Operational
pub mod Pipeline
pub mod Postgres
