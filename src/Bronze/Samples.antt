-- ===== src/Bronze/Samples.antt =====
-- Runs of the planner, the commit and the orchestrator on small inputs.
use mathlib.Core.List.{Memᴰ}
use market_regime_loader.Prelude.{
  ℕ, ◌≡◌, ◌↔◌, ◌⊎◌, refl, arith, pos, true, false, Option, none, some, List, [], ◌∷◌, Str, codes,
  str_eq, Date, aware, ◌==◌, if◌then◌else◌,
}
use market_regime_loader.Prelude.Effects.{Result, ok, external, is_exception}
use market_regime_loader.Prelude.Hoare.{Post}
use market_regime_loader.Prelude.Dict.{get}
use market_regime_loader.Bronze.Contracts.{
  Provider, NativeShape, FetchCapability, SeriesContract, validate_series_registry,
}
use market_regime_loader.Bronze.Registry.{initial_series, series, series_contract}
use market_regime_loader.Bronze.Registry.Lookup.{validate_series_registry-get, series_contract_iff}
use market_regime_loader.Bronze.Planner.{
  ObservationBounds, OperationMode, FetchInstruction, ProviderRequest, window, build_plan,
  provider_request,
}
use market_regime_loader.Bronze.Planner.Plans.{
  Planned, IsPlannable, request_of, build_plan-Planned, build_plan-IsPlannable,
  provider_request-build_plan,
}
use market_regime_loader.Bronze.State.{
  IngestionState, Run, advanced, advance_state, authoritative_latest,
}
use market_regime_loader.Bronze.State.Progress.{
  Remembers, authoritative_latest-maximum, advance_state-authoritative_latest,
}
use market_regime_loader.Bronze.Adapters.{adapter_registry, resolve, resolve-adapter_registry}
use market_regime_loader.Bronze.Commit
use market_regime_loader.Bronze.Commit.Atomic.{Installed, commit_success-Post}
use market_regime_loader.Bronze.Orchestration
use market_regime_loader.Bronze.Orchestration.Staging.{Commits}
use market_regime_loader.Bronze.Orchestration.Series.{Fails, run_series-Post}
use market_regime_loader.Bronze.Orchestration.Batch.{Batched, commits, run_many-Post}

abbrev vix : SeriesContract
vix =
    series (codes "vix") Provider.cboe (codes "VIX_History.csv") (codes "index_points")
      NativeShape.ohlc FetchCapability.full_file

abbrev move : SeriesContract
move =
    series (codes "move") Provider.yahoo (codes "^MOVE") (codes "index_points") NativeShape.ohlc
      FetchCapability.date_range

validate_series_registry-get_example :
    (get str_eq (codes "move") ((codes "vix", vix) ∷ (codes "move", move) ∷ []) ≡ some move)
    ↔ (Memᴰ move (vix ∷ move ∷ []) × (move.series_id ≡ codes "move"))
unfolding validate_series_registry
validate_series_registry-get_example =
    validate_series_registry-get (vix ∷ move ∷ []) ((codes "vix", vix) ∷ (codes "move", move) ∷ [])
      refl (codes "move") move

series_contract_iff_example :
    (series_contract (codes "vix") ≡ ok vix)
    ↔ (Memᴰ vix initial_series × (vix.series_id ≡ codes "vix"))
series_contract_iff_example = series_contract_iff (codes "vix") vix

-- Bronze has the dates 700 to 730.
abbrev month : ObservationBounds
month = record { minimum = some 700; maximum = some 730 }

build_plan-Planned_example :
    (plan : FetchInstruction) × (build_plan move month 735 false 7 ≡ ok plan)
    × Planned (some 730) false 735 7 plan
build_plan-Planned_example = build_plan-Planned move month 735 false 7 (omega arith, omega arith)

abbrev delta : FetchInstruction
delta = window FetchCapability.date_range 723 735

planned_delta : build_plan move month 735 false 7 ≡ ok delta
unfolding build_plan
planned_delta = refl

build_plan-IsPlannable_example : IsPlannable (some 730) false 735 7
build_plan-IsPlannable_example = build_plan-IsPlannable move month 735 false 7 delta planned_delta

provider_request-build_plan_example :
    (provider_request delta ≡ ok (request_of delta)) × (delta.request_end ≡ 735)
provider_request-build_plan_example =
    provider_request-build_plan move month 735 false 7 delta planned_delta

abbrev first_state : IngestionState
first_state = record {
  provider = Provider.yahoo;
  series_id = codes "move";
  last_success_utc = none;
  last_observed_date = some 729;
  last_requested_start = none;
  last_requested_end = none;
  mode = none;
  fetched_row_count = pos 0;
  accepted_row_count = pos 0;
  changed_row_count = pos 0;
  last_reconcile_utc = none;
}

authoritative_latest-maximum_example : some 730 ≡ month.maximum
unfolding authoritative_latest
authoritative_latest-maximum_example =
    authoritative_latest-maximum first_state month (some 730) refl

abbrev durable : Run
durable = record {
  committed_at_utc = aware 5;
  authoritative_bounds = month;
  fetched_rows = pos 9;
  accepted_rows = pos 9;
  changed_rows = pos 2;
  durable_bronze = true;
  durable_success_manifest = true;
}

advance_state-authoritative_latest_example :
    ((advanced first_state delta durable ≡ first_state) × (true ≡ false))
    ⊎ ((true ≡ true)
        × Remembers first_state delta durable (advanced first_state delta durable)
        × (false ≡ false)
        × (authoritative_latest (advanced first_state delta durable) month ≡ ok (some 730)))
unfolding advance_state
advance_state-authoritative_latest_example =
    advance_state-authoritative_latest first_state (advanced first_state delta durable) delta
      durable refl

-- A commit whose state file cannot be replaced.
abbrev disk_env : Commit.Env
disk_env = record {
  read = λ n. ok tt;
  write = λ n. if n == 9 then Commit.write_failed (external 3) else Commit.written;
  fault = λ n stage. ok tt;
  restore = λ n. ok tt;
}

abbrev old_files : Commit.Files
old_files path = if str_eq path (codes "runs") then some (1 ∷ []) else none

abbrev disk : Commit.Disk
disk = record { files = old_files; calls = 0 }

commit_success-Post_example :
    Post
      (λ _ d'.
        Installed
          (codes "runs")
          (codes "state")
          (λ c. ok (2 ∷ []))
          (λ c. ok (3 ∷ []))
          ((codes "m", 4 ∷ []) ∷ [])
          old_files
          d'.files)
      (λ _ d'. (p : Str) → d'.files p ≡ old_files p)
      (Commit.commit_success disk_env
        (codes "runs")
        (codes "state")
        (λ c. ok (2 ∷ []))
        (λ c. ok (3 ∷ []))
        ((codes "m", 4 ∷ []) ∷ [])
        disk)
commit_success-Post_example =
    commit_success-Post disk_env (codes "runs") (codes "state") (λ c. ok (2 ∷ []))
      (λ c. ok (3 ∷ [])) ((codes "m", 4 ∷ []) ∷ []) disk (λ n. refl)

abbrev from_yahoo : Provider → Option (ℕ → SeriesContract → ProviderRequest → Result (List Date))
from_yahoo Provider.yahoo = some (λ n c request. ok (733 ∷ 734 ∷ []))
from_yahoo _ = none

-- Two series, of which one has no provider.
abbrev batch_env : Orchestration.Env (List Date)
batch_env = record {
  registry = (codes "vix", vix) ∷ (codes "move", move) ∷ [];
  providers = from_yahoo;
  bounds = λ n c. ok month;
  state = λ n c. ok first_state;
  prepare = λ n c frame. ok (record {
    contract = c;
    merged = frame;
    inserts = 1;
    revisions = 0;
    post_bounds = record { minimum = some 700; maximum = some 734 };
    written_partitions = 1;
  });
  commit_success = λ n prepared run next. ok tt;
  record_failure = λ n run. ok tt;
  overlap_days = 7;
  clock = λ n. ok (aware n);
  run_id_factory = λ n id. ok (codes "run");
  height = λ frame. 2;
  observation_dates = λ frame. some frame;
}

abbrev start : Orchestration.World
start = record { calls = 0; fetched_rows = 0; accepted_rows = 0; trace = [] }

one_commit_of_two :
    (λ (x : Result Orchestration.BatchRunResult × Orchestration.World). commits x.1)
      (Orchestration.run_many batch_env
        (codes "vix" ∷ codes "move" ∷ [])
        OperationMode.update
        735
        start)
    ≡ 1
unfolding Orchestration.run_many str_eq
one_commit_of_two = refl

run_series-Post_example :
    Post
      (Commits batch_env (codes "move") [])
      (λ _ w'. Fails batch_env [] w')
      (Orchestration.run_series batch_env (codes "move") OperationMode.update 735 start)
run_series-Post_example = run_series-Post batch_env (codes "move") OperationMode.update 735 start

run_many-Post_example :
    Post
      (Batched batch_env (codes "vix" ∷ codes "move" ∷ []) (commits start) [] [])
      (λ e _. is_exception e ≡ false)
      (Orchestration.run_many batch_env
        (codes "vix" ∷ codes "move" ∷ [])
        OperationMode.update
        735
        start)
run_many-Post_example =
    run_many-Post batch_env (codes "vix" ∷ codes "move" ∷ []) OperationMode.update 735 start

-- An adapter is the contract that it serves.
resolve-adapter_registry_example :
    resolve
      (λ (c : SeriesContract). c.provider)
      ((Provider.cboe, vix) ∷ (Provider.yahoo, move) ∷ [])
      Provider.yahoo
    ≡ ok move
unfolding adapter_registry
resolve-adapter_registry_example =
    resolve-adapter_registry (λ (c : SeriesContract). c.provider) (vix ∷ move ∷ [])
      ((Provider.cboe, vix) ∷ (Provider.yahoo, move) ∷ []) move refl (Memᴰ.tail (Memᴰ.head refl))
