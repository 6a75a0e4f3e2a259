-- ===== src/Pipeline/Logs.antt =====
-- application/daily_pipeline.py: the helpers of the commands that enter no stage.
use market_regime_loader.Prelude.{◌≡◌, refl, Str, str_eq, Bool, true, false, List, [], ◌∷◌}
use market_regime_loader.Prelude.Effects.{Exn, ok, refuse, lift}
use market_regime_loader.Prelude.Hoare.{Keeps, Keeps-bind}
use market_regime_loader.Prelude.Dict.{get}
use market_regime_loader.Bronze.Orchestration.{SeriesRunResult, BatchRunResult}
use market_regime_loader.Pipeline

abbrev pub entered : Pipeline.World → List Pipeline.Stage
entered w = w.entered

pub not_refused : (test : Bool) (e : Exn) → refuse test e ≡ ok tt → test ≡ false
not_refused true e h = cc
not_refused false e h = refl

pub batch_failed-none :
    (failures : List Str) → Pipeline.batch_failed failures ≡ ok tt → failures ≡ []
batch_failed-none [] h = refl
batch_failed-none (id ∷ failures) h = cc

module _ {Frame : Type 0} (env : Pipeline.Env Frame) where
  log_successes-Keeps :
      (results : List SeriesRunResult) → Keeps entered (Pipeline.log_successes env results)
  log_successes-Keeps [] = λ _. refl
  log_successes-Keeps (result ∷ results) =
      Keeps-bind entered (Pipeline.event env) _ (λ _. refl) (λ _. log_successes-Keeps results)

  log_failures-Keeps : (failures : List Str) → Keeps entered (Pipeline.log_failures env failures)
  log_failures-Keeps [] = λ _. refl
  log_failures-Keeps (id ∷ failures) =
      Keeps-bind entered (lift (Pipeline.or_key_error (get str_eq id env.series_registry))) _
        (λ _. refl)
        (λ _.
          Keeps-bind entered (Pipeline.event env) _ (λ _. refl) (λ _. log_failures-Keeps failures))

  pub log_bronze_results-Keeps :
      (batch : BatchRunResult) → Keeps entered (Pipeline.log_bronze_results env batch)
  unfolding Pipeline.log_bronze_results
  log_bronze_results-Keeps batch =
      Keeps-bind entered (Pipeline.log_successes env batch.successes) _
        (log_successes-Keeps batch.successes)
        (λ _.
          Keeps-bind entered (Pipeline.log_failures env batch.failures) _
            (log_failures-Keeps batch.failures) (λ _ _. refl))

  pub start-Keeps : (command : Str) → Keeps entered (Pipeline.start env command)
  start-Keeps command =
      Keeps-bind entered (Pipeline.call (λ n. env.run_id_factory n command)) _ (λ _. refl)
        (λ run_id. Keeps-bind entered (Pipeline.event env) _ (λ _. refl) (λ _ _. refl))
