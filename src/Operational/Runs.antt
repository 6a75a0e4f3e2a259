-- ===== src/Operational/Runs.antt =====
-- ingestion/operational_repository.py: the audit records of the runs, and the inventory, each in one
-- file.
pub mod Stored
pub mod Audit
use market_regime_loader.Prelude.{
  ℕ, ℤ, aware, microseconds, ◌≡◌, refl, Str, str_eq, Datetime, Date, Bool, not, Option, none, some,
  List, [], ◌∷◌,
}
use market_regime_loader.Prelude.Effects.{Result, ok, bind}
use market_regime_loader.Bronze.Contracts.{Provider}
use market_regime_loader.Bronze.Planner.{OperationMode}
use market_regime_loader.Bronze.Records.{IngestionRunRecord, InventoryRecord, RunStatus, check_run}
use market_regime_loader.Operational.Sanitize.{sanitize}
use market_regime_loader.Operational.Values.{
  provider_value, provider_of, mode_value, mode_of, status_value, status_of,
  provider_of-provider_value,
}
use market_regime_loader.Operational.Snapshot.{Env, Format, Action, read, write, upsert}

-- `RUN_SCHEMA`: a `Datetime(us, UTC)` is its microseconds.
pub record RunRow : Type 0 where
  pub run_id : Str
  pub provider : Str
  pub series_id : Str
  pub mode : Str
  pub requested_start : Option Date
  pub requested_end : Option Date
  pub fetched_rows : ℤ
  pub accepted_rows : ℤ
  pub inserted_rows : ℤ
  pub revised_rows : ℤ
  pub written_partitions : ℤ
  pub status : Str
  pub started_at_utc : ℕ
  pub completed_at_utc : ℕ
  pub error_category : Option Str
  pub error_message : Option Str

-- An `IngestionRunRecord` with the texts of its error, in place of the error itself.
pub record AuditRecord : Type 0 where
  pub run : IngestionRunRecord
  pub error_category : Option Str
  pub error_message : Option Str

-- An element of `rows` in `_run_frame`
unfoldable pub run_row : List Str → AuditRecord → RunRow
unfolding sanitize
run_row secrets r = record {
  run_id = r.run.run_id;
  provider = provider_value r.run.provider;
  series_id = r.run.series_id;
  mode = mode_value r.run.mode;
  requested_start = r.run.requested_start;
  requested_end = r.run.requested_end;
  fetched_rows = r.run.fetched_rows;
  accepted_rows = r.run.accepted_rows;
  inserted_rows = r.run.inserted_rows;
  revised_rows = r.run.revised_rows;
  written_partitions = r.run.written_partitions;
  status = status_value r.run.status;
  started_at_utc = microseconds r.run.started_at_utc;
  completed_at_utc = microseconds r.run.completed_at_utc;
  error_category = sanitize secrets r.error_category;
  error_message = sanitize secrets r.error_message;
}

-- The run of a row, without its texts.
abbrev pub stored_run : RunRow → Provider → OperationMode → RunStatus → IngestionRunRecord
stored_run row provider mode status = record {
  run_id = row.run_id;
  provider = provider;
  series_id = row.series_id;
  mode = mode;
  requested_start = row.requested_start;
  requested_end = row.requested_end;
  fetched_rows = row.fetched_rows;
  accepted_rows = row.accepted_rows;
  inserted_rows = row.inserted_rows;
  revised_rows = row.revised_rows;
  written_partitions = row.written_partitions;
  status = status;
  started_at_utc = aware row.started_at_utc;
  completed_at_utc = aware row.completed_at_utc;
  error = none;
}

-- An element of the result of `read_runs`, which is validated as every run record is.
unfoldable pub run_of_row : RunRow → Result AuditRecord
unfolding provider_of mode_of status_of check_run
run_of_row row = bind (provider_of row.provider) (λ provider. bind (mode_of row.mode) (λ mode.
    bind (status_of row.status) (λ status.
      bind (check_run (stored_run row provider mode status)) (λ run. ok (record {
        run = run;
        error_category = row.error_category;
        error_message = row.error_message;
      })))))

-- `item.run_id != record.run_id`
abbrev pub other_run : AuditRecord → AuditRecord → Bool
other_run r item = not (str_eq item.run.run_id r.run.run_id)

module _ (sort : List RunRow → List RunRow) (secrets : List Str) where
  -- `_run_frame`
  unfoldable pub run_format : Format AuditRecord RunRow
  unfolding run_row run_of_row
  run_format = record {
    encode = run_row secrets;
    decode = run_of_row;
    key = λ (row : RunRow). row.run_id ∷ [];
    sort = sort;
  }

  module _ (env : Env) where
    unfoldable pub read_runs : Action RunRow (List AuditRecord)
    unfolding read run_format
    read_runs = read run_format env

    unfoldable pub write_runs : List AuditRecord → Action RunRow Unit
    unfolding write run_format
    write_runs = write run_format env

    unfoldable pub upsert_run : AuditRecord → Action RunRow Unit
    unfolding upsert run_format
    upsert_run r = upsert run_format env other_run r

-- `INVENTORY_SCHEMA`
pub record InventoryRow : Type 0 where
  pub series_id : Str
  pub provider : Str
  pub min_observation_date : Option Date
  pub max_observation_date : Option Date
  pub row_count : ℤ
  pub duplicate_key_count : ℤ
  pub file_count : ℤ

unfoldable pub inventory_row : InventoryRecord → InventoryRow
inventory_row r = record {
  series_id = r.series_id;
  provider = provider_value r.provider;
  min_observation_date = r.min_observation_date;
  max_observation_date = r.max_observation_date;
  row_count = r.row_count;
  duplicate_key_count = r.duplicate_key_count;
  file_count = r.file_count;
}

unfoldable pub inventory_of_row : InventoryRow → Result InventoryRecord
unfolding provider_of
inventory_of_row row = bind (provider_of row.provider) (λ provider. ok (record {
  series_id = row.series_id;
  provider = provider;
  min_observation_date = row.min_observation_date;
  max_observation_date = row.max_observation_date;
  row_count = row.row_count;
  duplicate_key_count = row.duplicate_key_count;
  file_count = row.file_count;
}))

module _ (sort : List InventoryRow → List InventoryRow) where
  -- `_inventory_frame`
  unfoldable pub inventory_format : Format InventoryRecord InventoryRow
  unfolding inventory_row inventory_of_row
  inventory_format = record {
    encode = inventory_row;
    decode = inventory_of_row;
    key = λ (row : InventoryRow). row.series_id ∷ [];
    sort = sort;
  }

  module _ (env : Env) where
    unfoldable pub read_inventory : Action InventoryRow (List InventoryRecord)
    unfolding read inventory_format
    read_inventory = read inventory_format env

    unfoldable pub write_inventory : List InventoryRecord → Action InventoryRow Unit
    unfolding write inventory_format
    write_inventory = write inventory_format env
