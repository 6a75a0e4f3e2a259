-- ===== src/Bronze/Records.antt =====
-- application/operational_records.py: the audit record of a run, and application/ports/bronze.py: what
-- is staged for a series.
use market_regime_loader.Prelude.{
  ℕ, ℤ, pos, int_eq, is_negative, Str, Datetime, datetime_lt, mixed, Date, Bool, true, false, not,
  ◌&&◌, ◌||◌, Option, [], ◌∷◌, any,
}
use market_regime_loader.Prelude.Effects.{Exn, Result, ok, value_error, type_error, refuse, ◌⨟◌}
use market_regime_loader.Bronze.Contracts.{Provider, SeriesContract, is_blank}
use market_regime_loader.Bronze.Planner.{ObservationBounds, OperationMode}

pub record InventoryRecord : Type 0 where
  pub series_id : Str
  pub provider : Provider
  pub min_observation_date : Option Date
  pub max_observation_date : Option Date
  pub row_count : ℤ
  pub duplicate_key_count : ℤ
  pub file_count : ℤ

-- `InventoryRecord.planning_latest`
abbrev pub planning_latest : InventoryRecord → Option Date
planning_latest r = r.max_observation_date

pub data RunStatus : Type 0 where
  success failed : RunStatus

abbrev pub is_failed : RunStatus → Bool
is_failed RunStatus.failed = true
is_failed RunStatus.success = false

pub record IngestionRunRecord : Type 0 where
  pub run_id : Str
  pub provider : Provider
  pub series_id : Str
  pub mode : OperationMode
  pub requested_start : Option Date
  pub requested_end : Option Date
  pub fetched_rows : ℤ
  pub accepted_rows : ℤ
  pub inserted_rows : ℤ
  pub revised_rows : ℤ
  pub written_partitions : ℤ
  pub status : RunStatus
  pub started_at_utc : Datetime
  pub completed_at_utc : Datetime
  -- `error_category`, with the exception that it is the class of
  pub error : Option Exn

abbrev pub non_zero : ℤ → Bool
non_zero n = not (int_eq n (pos 0))

-- The run claims that it has written something.
abbrev pub claims_writes : IngestionRunRecord → Bool
claims_writes r =
    non_zero r.inserted_rows || (non_zero r.revised_rows || non_zero r.written_partitions)

-- `IngestionRunRecord.__post_init__`
unfoldable pub check_run : IngestionRunRecord → Result IngestionRunRecord
check_run r =
    refuse (is_blank r.run_id) value_error
    ⨟ refuse
        (any is_negative (
          r.fetched_rows ∷ r.accepted_rows ∷ r.inserted_rows ∷ r.revised_rows ∷ r.written_partitions
          ∷ []))
        value_error
    ⨟ refuse (mixed (r.completed_at_utc ∷ r.started_at_utc ∷ [])) type_error
    ⨟ refuse (datetime_lt r.completed_at_utc r.started_at_utc) value_error
    ⨟ refuse (is_failed r.status && claims_writes r) value_error
    ⨟ ok r

-- `PreparedBronze`, with the heights of its difference's frames.
pub record PreparedBronze (Frame : Type 0) : Type 0 where
  pub contract : SeriesContract
  pub merged : Frame
  pub inserts : ℕ
  pub revisions : ℕ
  pub post_bounds : ObservationBounds
  pub written_partitions : ℕ
