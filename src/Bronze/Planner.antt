-- ===== src/Bronze/Planner.antt =====
-- application/planner.py: what is requested of a provider, from the dates that Bronze has;
-- application/ports/market_data.py: the request that a provider is given.
pub mod Plans
use market_regime_loader.Prelude.{
  ℕ, ◌-◌, ℤ, is_negative, to_nat, Date, Bool, true, false, not, ◌&&◌, Option, none, some, ltb,
  if◌then◌else◌, or_else, is_none,
}
use market_regime_loader.Prelude.Effects.{
  Result, ok, err, value_error, assertion_error, overflow_error, bind, refuse, ◌⨟◌,
}
use market_regime_loader.Bronze.Contracts.{SeriesContract, FetchCapability}

-- `ObservationBounds` of application/ports/lake.py
pub record ObservationBounds : Type 0 where
  pub minimum : Option Date
  pub maximum : Option Date

pub data OperationMode : Type 0 where
  bootstrap update reconcile : OperationMode

abbrev pub is_bootstrap : OperationMode → Bool
is_bootstrap OperationMode.bootstrap = true
is_bootstrap _ = false

abbrev pub is_update : OperationMode → Bool
is_update OperationMode.update = true
is_update _ = false

abbrev pub is_reconcile : OperationMode → Bool
is_reconcile OperationMode.reconcile = true
is_reconcile _ = false

pub record FetchInstruction : Type 0 where
  pub mode : OperationMode
  pub request_start : Option Date
  pub request_end : Date
  pub maximum_history : Bool
  pub filter_start : Option Date
  pub filter_end : Option Date

-- `PlannerConfig.__post_init__`; the overlap is then a number of days.
unfoldable pub planner_config : ℤ → Result ℕ
planner_config overlap_days =
    refuse (is_negative overlap_days) value_error ⨟ ok (to_nat overlap_days)

abbrev pub mode_of : Option Date → Bool → Result OperationMode
mode_of none explicit_reconcile = refuse explicit_reconcile value_error ⨟ ok OperationMode.bootstrap
mode_of (some _) explicit_reconcile =
    if explicit_reconcile then ok OperationMode.reconcile else ok OperationMode.update

unfoldable pub choose_mode : ObservationBounds → Bool → Result OperationMode
choose_mode bounds explicit_reconcile = mode_of bounds.maximum explicit_reconcile

abbrev pub full_history : OperationMode → Date → FetchInstruction
full_history mode today = record {
  mode = mode;
  request_start = none;
  request_end = today;
  maximum_history = true;
  filter_start = none;
  filter_end = none;
}

-- `latest - timedelta(days=...)`: the first date has the ordinal 1.
abbrev pub days_before : Date → ℕ → Result Date
days_before latest days = refuse (not (ltb days latest)) overflow_error ⨟ ok (latest - days)

abbrev pub window : FetchCapability → Date → Date → FetchInstruction
window FetchCapability.date_range start today = record {
  mode = OperationMode.update;
  request_start = some start;
  request_end = today;
  maximum_history = false;
  filter_start = some start;
  filter_end = some today;
}
window FetchCapability.full_file start today = record {
  mode = OperationMode.update;
  request_start = none;
  request_end = today;
  maximum_history = false;
  filter_start = some start;
  filter_end = some today;
}

abbrev pub plan_since :
    SeriesContract → OperationMode → Option Date → Date → ℕ → Result FetchInstruction
plan_since contract mode none today overlap_days = err assertion_error
plan_since contract mode (some latest) today overlap_days =
    refuse (ltb today latest) value_error
    ⨟ (if is_reconcile mode
        then ok (full_history mode today)
        else bind (days_before latest overlap_days)
            (λ start. ok (window contract.fetch_capability start today)))

unfoldable pub build_plan :
    SeriesContract → ObservationBounds → Date → Bool → ℕ → Result FetchInstruction
unfolding choose_mode
build_plan contract bounds today explicit_reconcile overlap_days =
    bind (choose_mode bounds explicit_reconcile) (λ mode.
      if is_bootstrap mode
      then ok (full_history mode today)
      else plan_since contract mode bounds.maximum today overlap_days)

pub record ProviderRequest : Type 0 where
  pub operation : OperationMode
  pub logical_start : Option Date
  pub logical_end : Date
  pub maximum_history : Bool

abbrev pub starts_after : Option Date → Date → Bool
starts_after none logical_end = false
starts_after (some start) logical_end = ltb logical_end start

-- `ProviderRequest.__post_init__`
unfoldable pub check_request : ProviderRequest → Result ProviderRequest
check_request r =
    refuse (starts_after r.logical_start r.logical_end) value_error
    ⨟ refuse (is_update r.operation && is_none r.logical_start) value_error
    ⨟ refuse (not (is_update r.operation) && not r.maximum_history) value_error
    ⨟ ok r

-- `plan.filter_start or plan.request_start`
abbrev pub logical_start : FetchInstruction → Option Date
logical_start plan = or_else plan.filter_start plan.request_start

-- `BronzeOrchestrator._provider_request` of application/bronze_orchestration.py
unfoldable pub provider_request : FetchInstruction → Result ProviderRequest
unfolding check_request
provider_request plan = check_request (record {
  operation = plan.mode;
  logical_start = logical_start plan;
  logical_end = plan.request_end;
  maximum_history = plan.maximum_history;
})
