-- ===== src/Bronze/Orchestration.antt =====
-- application/bronze_orchestration.py: `BronzeOrchestrator`, the run of one series and of several.
--
-- The registry, the providers, the unit of work, the clock and the factory of run ids are given as
-- functions that may fail at any call. The world counts the calls, has the two row counts of the run
-- under way (local variables of `run_series`, which its exception handler reads), and the trace of what the
-- unit of work has made durable. A frame is the data frame library's, of which the code asks the height and
-- the observation dates.
pub mod Staging
pub mod Series
pub mod Batch
use market_regime_loader.Prelude.{
  ℕ, suc, ◌+◌, pos, Str, str_eq, Datetime, naive, aware, Date, Bool, true, false, not, ◌&&◌, ◌||◌,
  Option, none, some, List, [], ◌∷◌, ◌++◌, ltb, ◌==◌, if◌then◌else◌, is_some, any,
}
use market_regime_loader.Prelude.Effects.{
  Exn, Result, ok, err, value_error, key_error, assertion_error, is_exception, refuse, ◌⨟◌, Exec,
  pure, raise, lift, gets, bind, catch, recover, ◌>>=◌, ◌>>◌,
}
use market_regime_loader.Prelude.Dict.{get}
use market_regime_loader.Bronze.Contracts.{Provider, SeriesContract}
use market_regime_loader.Bronze.Registry.{or_unknown}
use market_regime_loader.Bronze.Planner.{
  ObservationBounds, OperationMode, is_bootstrap, is_update, is_reconcile, FetchInstruction,
  build_plan, ProviderRequest, logical_start, provider_request,
}
use market_regime_loader.Bronze.State.{IngestionState, Run, advance_state}
use market_regime_loader.Bronze.Records.{IngestionRunRecord, RunStatus, check_run, PreparedBronze}

pub record Env (Frame : Type 0) : Type 0 where
  pub registry : List (Str × SeriesContract)
  pub providers : Provider → Option (ℕ → SeriesContract → ProviderRequest → Result Frame)
  pub bounds : ℕ → SeriesContract → Result ObservationBounds
  pub state : ℕ → SeriesContract → Result IngestionState
  pub prepare : ℕ → SeriesContract → Frame → Result (PreparedBronze Frame)
  pub commit_success :
      ℕ → PreparedBronze Frame → IngestionRunRecord → IngestionState → Result (Unit {0})
  pub record_failure : ℕ → IngestionRunRecord → Result (Unit {0})
  pub overlap_days : ℕ
  pub clock : ℕ → Result Datetime
  pub run_id_factory : ℕ → Str → Result Str
  pub height : Frame → ℕ
  -- the values of the column `observation_date` that are not null, if there is that column
  pub observation_dates : Frame → Option (List Date)

-- What has become durable.
pub data Effect : Type 0 where
  committed : IngestionRunRecord → IngestionState → Effect
  failure_recorded : IngestionRunRecord → Effect

pub record World : Type 0 where
  pub calls : ℕ
  pub fetched_rows : ℕ
  pub accepted_rows : ℕ
  pub trace : List Effect

abbrev pub Action : Type 0 → Type 0
Action A = Exec World A

abbrev pub call : {A : Type 0} → (ℕ → Result A) → Action A
call f w = (f w.calls, record w { calls = suc w.calls })

abbrev pub log : Effect → Action Unit
log e w = (ok tt, record w { trace = w.trace ++ e ∷ [] })

abbrev pub set_fetched : ℕ → Action Unit
set_fetched n w = (ok tt, record w { fetched_rows = n })

abbrev pub set_accepted : ℕ → Action Unit
set_accepted n w = (ok tt, record w { accepted_rows = n })

pub record SeriesRunResult : Type 0 where
  pub series_id : Str
  pub provider : Provider
  pub run_id : Str
  pub mode : OperationMode
  pub request_start : Option Date
  pub request_end : Date
  pub maximum_history : Bool
  pub inserted_rows : ℕ
  pub revised_rows : ℕ
  pub written_partitions : ℕ

pub record BatchRunResult : Type 0 where
  pub successes : List SeriesRunResult
  pub failures : List Str

abbrev pub or_missing : {A : Type 0} → Option A → Result A
or_missing none = err key_error
or_missing (some a) = ok a

abbrev pub utc : Datetime → Result Datetime
utc (naive _) = err value_error
utc (aware t) = ok (aware t)

abbrev pub outside : Date → Date → Date → Bool
outside start end_date d = ltb d start || ltb end_date d

abbrev pub check_dates : Option (List Date) → Date → Date → Result (Unit {0})
check_dates none start end_date = err value_error
check_dates (some dates) start end_date = refuse (any (outside start end_date) dates) value_error

abbrev pub check_window : Option (List Date) → Option Date → Date → Result (Unit {0})
check_window dates none end_date = err assertion_error
check_window dates (some start) end_date = check_dates dates start end_date

module _ {Frame : Type 0} (env : Env Frame) where
  -- `_utc_now`
  unfoldable pub utc_now : Action Datetime
  utc_now = do now ← call env.clock; lift (utc now)

  -- `_enforce_window`
  unfoldable pub enforce_window : Frame → FetchInstruction → Result (Unit {0})
  enforce_window frame plan =
      if not (is_update plan.mode) || (env.height frame == 0)
      then ok tt
      else check_window (env.observation_dates frame) (logical_start plan) plan.request_end

  -- `_success_run`
  abbrev pub success_run :
      Str
      → SeriesContract
      → FetchInstruction
      → Datetime
      → Datetime
      → ℕ
      → ℕ
      → PreparedBronze Frame
      → IngestionRunRecord
  success_run run_id contract plan started completed fetched accepted prepared = record {
    run_id = run_id;
    provider = contract.provider;
    series_id = contract.series_id;
    mode = plan.mode;
    requested_start = logical_start plan;
    requested_end = some plan.request_end;
    fetched_rows = pos fetched;
    accepted_rows = pos accepted;
    inserted_rows = pos prepared.inserts;
    revised_rows = pos prepared.revisions;
    written_partitions = pos prepared.written_partitions;
    status = RunStatus.success;
    started_at_utc = started;
    completed_at_utc = completed;
    error = none;
  }

  abbrev pub failed_run :
      Str
      → SeriesContract
      → FetchInstruction
      → Datetime
      → Datetime
      → ℕ
      → ℕ
      → Exn
      → IngestionRunRecord
  failed_run run_id contract plan started completed fetched accepted e = record {
    run_id = run_id;
    provider = contract.provider;
    series_id = contract.series_id;
    mode = plan.mode;
    requested_start = logical_start plan;
    requested_end = some plan.request_end;
    fetched_rows = pos fetched;
    accepted_rows = pos accepted;
    inserted_rows = pos 0;
    revised_rows = pos 0;
    written_partitions = pos 0;
    status = RunStatus.failed;
    started_at_utc = started;
    completed_at_utc = completed;
    error = some e;
  }

  abbrev pub run_of : Datetime → ℕ → ℕ → PreparedBronze Frame → Run
  run_of completed fetched accepted prepared = record {
    committed_at_utc = completed;
    authoritative_bounds = prepared.post_bounds;
    fetched_rows = pos fetched;
    accepted_rows = pos accepted;
    changed_rows = pos (prepared.inserts + prepared.revisions);
    durable_bronze = true;
    durable_success_manifest = true;
  }

  abbrev pub result_of :
      Str → Str → SeriesContract → FetchInstruction → PreparedBronze Frame → SeriesRunResult
  result_of series_id run_id contract plan prepared = record {
    series_id = series_id;
    provider = contract.provider;
    run_id = run_id;
    mode = plan.mode;
    request_start = logical_start plan;
    request_end = plan.request_end;
    maximum_history = plan.maximum_history;
    inserted_rows = prepared.inserts;
    revised_rows = prepared.revisions;
    written_partitions = prepared.written_partitions;
  }

  -- `run_series`: the staging of what the provider returned.
  unfoldable pub stage :
      SeriesContract
      → (ℕ → SeriesContract → ProviderRequest → Result Frame)
      → FetchInstruction
      → Action (PreparedBronze Frame)
  unfolding enforce_window provider_request
  stage contract fetch plan = do
    request ← lift (provider_request plan)
    incoming ← call (λ n. fetch n contract request)
    set_fetched (env.height incoming)
    lift (enforce_window incoming plan)
    set_accepted (env.height incoming)
    call (λ n. env.prepare n contract incoming)

  -- `run_series`: the commit of what is staged.
  unfoldable pub commit :
      Str
      → Str
      → SeriesContract
      → FetchInstruction
      → Datetime
      → PreparedBronze Frame
      → Action SeriesRunResult
  unfolding utc_now check_run advance_state
  commit series_id run_id contract plan started prepared = do
    completed ← utc_now
    fetched ← gets (λ (w : World). w.fetched_rows)
    accepted ← gets (λ (w : World). w.accepted_rows)
    run ←
        lift
          (check_run (success_run run_id contract plan started completed fetched accepted prepared))
    prior ← call (λ n. env.state n contract)
    next_state ← lift (advance_state prior plan (run_of completed fetched accepted prepared))
    call (λ n. env.commit_success n prepared run next_state)
    log (committed run next_state)
    pure (result_of series_id run_id contract plan prepared)

  -- `run_series`: the handler of its `try`.
  unfoldable pub record_failed :
      Str → SeriesContract → FetchInstruction → Datetime → Exn → Action SeriesRunResult
  unfolding utc_now check_run
  record_failed run_id contract plan started e = if not (is_exception e) then raise e else do
    completed ← utc_now
    fetched ← gets (λ (w : World). w.fetched_rows)
    accepted ← gets (λ (w : World). w.accepted_rows)
    run ← lift (check_run (failed_run run_id contract plan started completed fetched accepted e))
    call (λ n. env.record_failure n run)
    log (failure_recorded run)
    raise e

  unfoldable pub checked_plan :
      SeriesContract → OperationMode → Date → ObservationBounds → Result FetchInstruction
  unfolding build_plan
  checked_plan contract operation today bounds =
      refuse (is_bootstrap operation && is_some bounds.maximum) value_error
      ⨟ bind (build_plan contract bounds today (is_reconcile operation) env.overlap_days) (λ plan.
        refuse (is_bootstrap operation && not (is_bootstrap plan.mode)) value_error
        ⨟ refuse
            (is_update operation
              && (is_some bounds.maximum && (not (is_update plan.mode) || plan.maximum_history)))
            assertion_error
        ⨟ ok plan)

  unfoldable pub run_series : Str → OperationMode → Date → Action SeriesRunResult
  unfolding utc_now stage commit record_failed checked_plan str_eq
  run_series series_id operation today = do
    contract ← lift (or_unknown (get str_eq series_id env.registry))
    fetch ← lift (or_missing (env.providers contract.provider))
    bounds ← call (λ n. env.bounds n contract)
    plan ← lift (checked_plan contract operation today bounds)
    run_id ← call (λ n. env.run_id_factory n series_id)
    started ← utc_now
    set_fetched 0
    set_accepted 0
    catch
        (do
          prepared ← stage contract fetch plan
          commit series_id run_id contract plan started prepared)
        (record_failed run_id contract plan started)

  -- One round of `run_many`: the result, or none where an `Exception` was caught.
  unfoldable pub try_series : Str → OperationMode → Date → Action (Option SeriesRunResult)
  unfolding run_series
  try_series series_id operation today =
      catch (do result ← run_series series_id operation today; pure (some result))
        (λ e. if is_exception e then pure none else raise e)

  abbrev pub add_success : List SeriesRunResult → Option SeriesRunResult → List SeriesRunResult
  add_success successes none = successes
  add_success successes (some result) = successes ++ result ∷ []

  abbrev pub add_failure : List Str → Str → Option SeriesRunResult → List Str
  add_failure failures series_id none = failures ++ series_id ∷ []
  add_failure failures series_id (some _) = failures

  abbrev pub run_rest :
      List Str → OperationMode → Date → List SeriesRunResult → List Str → Action BatchRunResult
  run_rest [] operation today successes failures =
      pure (record { successes = successes; failures = failures })
  run_rest (series_id ∷ series_ids) operation today successes failures = do
    outcome ← try_series series_id operation today
    run_rest series_ids operation today (add_success successes outcome)
        (add_failure failures series_id outcome)

  unfoldable pub run_many : List Str → OperationMode → Date → Action BatchRunResult
  unfolding try_series
  run_many series_ids operation today = run_rest series_ids operation today [] []
