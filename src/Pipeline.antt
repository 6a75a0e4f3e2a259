-- ===== src/Pipeline.antt =====
-- application/daily_pipeline.py: the commands over the layers, above all the strict daily one.
--
-- The services behind the facade are functions that may fail at any call. The world counts the calls
-- and has the stages that were entered, each before its service is called. Silver is built and read for
-- several series at once (application/parallelism.py), which is one call here; the calculation of the features
-- and of the Gold frame is the services'.
pub mod Logs
pub mod Daily
pub mod Commands
mod Samples
use market_regime_loader.Prelude.{
  ℕ, suc, Str, codes, str_eq, Date, Bool, true, false, not, ◌&&◌, ◌||◌, Option, none, some, List,
  [], ◌∷◌, ◌++◌, map, keep, any, count, ltb, if◌then◌else◌, is_none,
}
use market_regime_loader.Prelude.Effects.{
  Exn, Result, ok, err, value_error, key_error, provider_batch_error, is_exception, refuse,
  traverse, bind, Exec, pure, raise, lift, catch, ◌⨟◌, ◌>>=◌, ◌>>◌,
}
use market_regime_loader.Prelude.Dict.{get, has}
use market_regime_loader.Bronze.Contracts.{SeriesContract}
use market_regime_loader.Bronze.Planner.{OperationMode}
use market_regime_loader.Bronze.Orchestration.{SeriesRunResult, BatchRunResult}
use market_regime_loader.Gold.Retention.{GoldRetentionResult}

pub data Stage : Type 0 where
  recovery : Stage
  bronze : OperationMode → List Str → Stage
  silver : List Str → Stage
  gold_frame publication retention inventory : Stage

pub record Env (Frame : Type 0) : Type 0 where
  pub series_registry : List (Str × SeriesContract)
  pub run_id_factory : ℕ → Str → Result Str
  pub event_sink : ℕ → Result (Unit {0})
  pub reconcile : ℕ → Result (Unit {0})
  pub run_many : ℕ → List Str → OperationMode → Date → Result BatchRunResult
  pub build_silver : ℕ → List SeriesContract → Result (Unit {0})
  pub read_silver : ℕ → List (Str × SeriesContract) → Result (List (Str × Frame))
  pub is_empty : Frame → Bool
  pub volatility_series : List Str
  pub macro_series : List Str
  pub build_features : ℕ → List Frame → List Frame → Result (Frame × Frame)
  pub assemble : ℕ → Frame → Frame → List (Str × Frame) → Result Frame
  pub publish : ℕ → Frame → Result Str
  pub run_retention : ℕ → Result GoldRetentionResult
  pub refresh_inventory : ℕ → Result (Unit {0})

pub record World : Type 0 where
  pub calls : ℕ
  pub entered : List Stage

abbrev pub Action : Type 0 → Type 0
Action A = Exec World A

abbrev pub call : {A : Type 0} → (ℕ → Result A) → Action A
call f w = (f w.calls, record w { calls = suc w.calls })

abbrev pub enter : Stage → Action Unit
enter s w = (ok tt, record w { entered = w.entered ++ s ∷ [] })

-- `PipelineCommandResult`, without the command's name
pub record PipelineCommandResult : Type 0 where
  pub run_id : Str
  pub selected_series : List Str
  pub bronze : Option BatchRunResult
  pub gold_build_id : Option Str
  pub retention : Option GoldRetentionResult

abbrev pub or_all : List Str → List Str → List Str
or_all [] registered = registered
or_all (id ∷ series_ids) registered = id ∷ series_ids

abbrev pub batch_failed : List Str → Result (Unit {0})
batch_failed [] = ok tt
batch_failed (id ∷ failures) = err (provider_batch_error (id ∷ failures))

abbrev pub or_key_error : {A : Type 0} → Option A → Result A
or_key_error none = err key_error
or_key_error (some a) = ok a

module _ {Frame : Type 0} (env : Env Frame) where
  unfoldable pub resolve_series : List Str → Result (List Str)
  unfolding str_eq
  resolve_series series_ids =
      let selected = or_all series_ids (map (λ (id, _). id) env.series_registry) in
      refuse (any (λ id. ltb 1 (count (str_eq id) selected)) selected) value_error
      ⨟ refuse (any (λ id. not (has str_eq id env.series_registry)) selected) value_error
      ⨟ ok selected

  -- `_event`
  abbrev pub event : Action Unit
  event = call env.event_sink

  -- `_start`
  abbrev pub start : Str → Action Str
  start command = do run_id ← call (λ n. env.run_id_factory n command); event; pure run_id

  -- What `except Exception` does around each command: `_finish`, and the exception again.
  abbrev pub finish_failed : {A : Type 0} → Exn → Action A
  finish_failed e = if is_exception e then (do event; raise e) else raise e

  abbrev pub log_successes : List SeriesRunResult → Action Unit
  log_successes [] = pure tt
  log_successes (result ∷ results) = do event; log_successes results

  abbrev pub log_failures : List Str → Action Unit
  log_failures [] = pure tt
  log_failures (id ∷ failures) = do
    lift (or_key_error (get str_eq id env.series_registry))
    event
    log_failures failures

  -- `_log_bronze_results`
  unfoldable pub log_bronze_results : BatchRunResult → Action Unit
  unfolding str_eq
  log_bronze_results batch = do log_successes batch.successes; log_failures batch.failures; event

  -- `_build_selected_silver`
  unfoldable pub build_selected_silver : List Str → Action Unit
  unfolding str_eq
  build_selected_silver selected = do
    event
    contracts ← lift (traverse (λ id. or_key_error (get str_eq id env.series_registry)) selected)
    enter (silver selected)
    call (λ n. env.build_silver n contracts)
    event

  abbrev pub frames_of : List Str → List (Str × Frame) → Result (List Frame)
  frames_of ids frames = traverse (λ id. or_key_error (get str_eq id frames)) ids

  -- `_canonical_gold`
  unfoldable pub canonical_gold : Action Frame
  unfolding str_eq
  canonical_gold = do
    event
    enter gold_frame
    frames ← call (λ n. env.read_silver n env.series_registry)
    lift (refuse (any (λ (_, frame). env.is_empty frame) frames) value_error)
    volatility_frames ← lift (frames_of env.volatility_series frames)
    macro_frames ← lift (frames_of env.macro_series frames)
    features ← call (λ n. env.build_features n volatility_frames macro_frames)
    frame ← call (λ n. env.assemble n features.0 features.1 frames)
    event
    pure frame

  -- `run_daily`, from the publication on.
  unfoldable pub publish_and_prune :
      Str → List Str → BatchRunResult → Frame → Action PipelineCommandResult
  publish_and_prune run_id selected batch frame = do
    enter publication
    build_id ← call (λ n. env.publish n frame)
    event
    enter retention
    pruned ← call env.run_retention
    event
    enter inventory
    call env.refresh_inventory
    event
    event
    pure (record {
      run_id = run_id;
      selected_series = selected;
      bronze = some batch;
      gold_build_id = some build_id;
      retention = some pruned;
    })

  -- The body of the `try` of `run_daily`.
  unfoldable pub daily : Str → List Str → Date → Action PipelineCommandResult
  unfolding log_bronze_results build_selected_silver canonical_gold publish_and_prune
  daily run_id selected today = do
    event
    enter recovery
    call env.reconcile
    event
    event
    enter (bronze OperationMode.update selected)
    batch ← call (λ n. env.run_many n selected OperationMode.update today)
    log_bronze_results batch
    lift (batch_failed batch.failures)
    build_selected_silver selected
    frame ← canonical_gold
    publish_and_prune run_id selected batch frame

  unfoldable pub run_daily : List Str → Date → Action PipelineCommandResult
  unfolding resolve_series daily
  run_daily series_ids today = do
    selected ← lift (resolve_series series_ids)
    run_id ← start (codes "run-daily")
    catch (daily run_id selected today) finish_failed

  -- `_source_command`, behind `bootstrap`, `update` and `reconcile`
  unfoldable pub source_command :
      Str → List Str → OperationMode → Date → Action PipelineCommandResult
  unfolding resolve_series log_bronze_results
  source_command command series_ids operation today = do
    selected ← lift (resolve_series series_ids)
    run_id ← start command
    catch
        (do
          enter (bronze operation selected)
          batch ← call (λ n. env.run_many n selected operation today)
          log_bronze_results batch
          lift (batch_failed batch.failures)
          event
          pure (record {
            run_id = run_id;
            selected_series = selected;
            bronze = some batch;
            gold_build_id = none;
            retention = none;
          }))
        finish_failed

  unfoldable pub gold_build : Action PipelineCommandResult
  unfolding canonical_gold
  gold_build = do
    run_id ← start (codes "gold-build")
    catch
        (do
          event
          enter recovery
          call env.reconcile
          event
          frame ← canonical_gold
          enter publication
          build_id ← call (λ n. env.publish n frame)
          event
          event
          pure (record {
            run_id = run_id;
            selected_series = [];
            bronze = none;
            gold_build_id = some build_id;
            retention = none;
          }))
        finish_failed

  -- `bootstrap`, `update` and `reconcile`
  abbrev pub bootstrap_command : List Str → Date → Action PipelineCommandResult
  bootstrap_command series_ids today =
      source_command (codes "bootstrap") series_ids OperationMode.bootstrap today

  abbrev pub update_command : List Str → Date → Action PipelineCommandResult
  update_command series_ids today =
      source_command (codes "update") series_ids OperationMode.update today

  abbrev pub reconcile_command : List Str → Date → Action PipelineCommandResult
  reconcile_command series_ids today =
      source_command (codes "reconcile") series_ids OperationMode.reconcile today

  unfoldable pub silver_build : List Str → Action PipelineCommandResult
  unfolding resolve_series build_selected_silver
  silver_build series_ids = do
    selected ← lift (resolve_series series_ids)
    run_id ← start (codes "silver-build")
    catch
        (do
          build_selected_silver selected
          event
          pure (record {
            run_id = run_id;
            selected_series = selected;
            bronze = none;
            gold_build_id = none;
            retention = none;
          }))
        finish_failed

  -- `inventory`
  unfoldable pub inventory_command : Action PipelineCommandResult
  inventory_command = do
    run_id ← start (codes "inventory")
    catch
        (do
          enter inventory
          call env.refresh_inventory
          event
          pure (record {
            run_id = run_id;
            selected_series = [];
            bronze = none;
            gold_build_id = none;
            retention = none;
          }))
        finish_failed
