-- ===== src/Bronze/State.antt =====
-- application/state.py: the progress that is remembered of a series, and when it advances.
pub mod Progress
use market_regime_loader.Prelude.{
  ℤ, is_negative, Str, Datetime, Date, Bool, not, ◌||◌, Option, none, some, if◌then◌else◌, true,
  false, or_else, ◌==◌, ◌&&◌,
}
use market_regime_loader.Prelude.Effects.{Result, ok, err, value_error, refuse, ◌⨟◌}
use market_regime_loader.Bronze.Contracts.{Provider}
use market_regime_loader.Bronze.Planner.{
  ObservationBounds, OperationMode, is_reconcile, FetchInstruction, logical_start,
}

pub record IngestionState : Type 0 where
  pub provider : Provider
  pub series_id : Str
  pub last_success_utc : Option Datetime
  pub last_observed_date : Option Date
  pub last_requested_start : Option Date
  pub last_requested_end : Option Date
  pub mode : Option OperationMode
  pub fetched_row_count : ℤ
  pub accepted_row_count : ℤ
  pub changed_row_count : ℤ
  pub last_reconcile_utc : Option Datetime

abbrev pub latest_of : Option Date → Option Date → Result (Option Date)
latest_of none maximum = ok maximum
latest_of (some observed) none = err value_error
latest_of (some observed) (some maximum) =
    if not (observed == maximum) then ok (some maximum) else ok (some observed)

-- `IngestionState.authoritative_latest`
unfoldable pub authoritative_latest : IngestionState → ObservationBounds → Result (Option Date)
authoritative_latest s bounds = latest_of s.last_observed_date bounds.maximum

-- What a run tells of itself.
pub record Run : Type 0 where
  pub committed_at_utc : Datetime
  pub authoritative_bounds : ObservationBounds
  pub fetched_rows : ℤ
  pub accepted_rows : ℤ
  pub changed_rows : ℤ
  pub durable_bronze : Bool
  pub durable_success_manifest : Bool

abbrev pub advanced : IngestionState → FetchInstruction → Run → IngestionState
advanced prior plan run = record prior {
  last_success_utc = some run.committed_at_utc;
  last_observed_date = run.authoritative_bounds.maximum;
  last_requested_start = logical_start plan;
  last_requested_end = some plan.request_end;
  mode = some plan.mode;
  fetched_row_count = run.fetched_rows;
  accepted_row_count = run.accepted_rows;
  changed_row_count = run.changed_rows;
  last_reconcile_utc =
      if is_reconcile plan.mode then some run.committed_at_utc else prior.last_reconcile_utc;
}

unfoldable pub advance_state : IngestionState → FetchInstruction → Run → Result IngestionState
advance_state prior plan run =
    if not run.durable_bronze || not run.durable_success_manifest
    then ok prior
    else refuse (is_negative run.fetched_rows) value_error
      ⨟ refuse (is_negative run.accepted_rows) value_error
      ⨟ refuse (is_negative run.changed_rows) value_error
      ⨟ ok (advanced prior plan run)
