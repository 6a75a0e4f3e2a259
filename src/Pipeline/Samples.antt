-- ===== src/Pipeline/Samples.antt =====
-- A day with two series.
use market_regime_loader.Prelude.{
  ℕ, ◌⊎◌, ◌≡◌, refl, Str, codes, str_eq, true, false, some, List, [], ◌∷◌, ◌++◌, All, count, ltb,
  ◌==◌,
}
use market_regime_loader.Prelude.Dict.{has}
use market_regime_loader.Prelude.Effects.{ok, err, provider_batch_error}
use market_regime_loader.Prelude.Hoare.{Post}
use market_regime_loader.Bronze.Contracts.{Provider, NativeShape, FetchCapability, SeriesContract}
use market_regime_loader.Bronze.Registry.{series}
use market_regime_loader.Bronze.Orchestration.{BatchRunResult}
use market_regime_loader.Pipeline
use market_regime_loader.Bronze.Planner.{OperationMode}
use market_regime_loader.Pipeline.Commands.{OnlyBronze, source_command-Post}
use market_regime_loader.Pipeline.Daily.{
  daily_stages, Reached, Behind, run_daily-Post, resolve_series-registered,
}

abbrev ciss : SeriesContract
ciss =
    series (codes "ciss") Provider.ecb (codes "CISS") (codes "index") NativeShape.scalar
      FetchCapability.date_range

abbrev vix : SeriesContract
vix =
    series (codes "vix") Provider.cboe (codes "VIX") (codes "index_points") NativeShape.ohlc
      FetchCapability.full_file

-- A frame is its height.
abbrev day_env : List Str → Pipeline.Env ℕ
day_env failures = record {
  series_registry = (codes "vix", vix) ∷ (codes "ciss", ciss) ∷ [];
  run_id_factory = λ n command. ok command;
  event_sink = λ n. ok tt;
  reconcile = λ n. ok tt;
  run_many = λ n ids operation today. ok (record { successes = []; failures = failures });
  build_silver = λ n contracts. ok tt;
  read_silver = λ n items. ok ((codes "vix", 5) ∷ (codes "ciss", 6) ∷ []);
  is_empty = λ height. height == 0;
  volatility_series = codes "vix" ∷ [];
  macro_series = codes "ciss" ∷ [];
  build_features = λ n vs ms. ok (5, 6);
  assemble = λ n v m frames. ok 5;
  publish = λ n frame. ok (codes "build");
  run_retention = λ n. ok (record { marked_build_ids = []; swept_build_ids = [] });
  refresh_inventory = λ n. ok tt;
}

abbrev morning : Pipeline.World
morning = record { calls = 0; entered = [] }

good_day :
    (Pipeline.run_daily (day_env []) [] 735 morning).1.entered
    ≡ daily_stages (codes "vix" ∷ codes "ciss" ∷ [])
unfolding Pipeline.run_daily str_eq
good_day = refl

bad_day :
    (Pipeline.run_daily (day_env (codes "ciss" ∷ [])) [] 735 morning).0
    ≡ err (provider_batch_error (codes "ciss" ∷ []))
unfolding Pipeline.run_daily str_eq
bad_day = refl

run_daily-Post_example :
    Post
      (λ result w'.
        (Pipeline.resolve_series (day_env []) [] ≡ ok result.selected_series)
        × (w'.entered ≡ [] ++ daily_stages result.selected_series)
        × Behind (day_env []) result.selected_series 735 7
        × ((batch : BatchRunResult) × (result.bronze ≡ some batch) × (batch.failures ≡ [])))
      (λ _ w'.
        (w'.entered ≡ [])
        ⊎ ((selected : List Str) × (Pipeline.resolve_series (day_env []) [] ≡ ok selected)
            × Reached (day_env []) selected 735 [] w'))
      (Pipeline.run_daily (day_env []) [] 735 morning)
run_daily-Post_example = run_daily-Post (day_env []) [] 735 morning

both_registered : Pipeline.resolve_series (day_env []) [] ≡ ok (codes "vix" ∷ codes "ciss" ∷ [])
unfolding Pipeline.resolve_series str_eq
both_registered = refl

resolve_series-registered_example :
    All
      (λ id.
        (ltb 1 (count (str_eq id) (codes "vix" ∷ codes "ciss" ∷ [])) ≡ false)
        × (has str_eq id (day_env []).series_registry ≡ true))
      (codes "vix" ∷ codes "ciss" ∷ [])
resolve_series-registered_example =
    resolve_series-registered (day_env []) [] (codes "vix" ∷ codes "ciss" ∷ []) both_registered

source_command-Post_example :
    Post
      (λ result w'.
        (Pipeline.resolve_series (day_env []) (codes "vix" ∷ []) ≡ ok result.selected_series)
        × (w'.entered ≡ [] ++ Pipeline.bronze OperationMode.bootstrap result.selected_series ∷ [])
        × ((n : ℕ) × (batch : BatchRunResult) × ((day_env []).run_many n result.selected_series
                OperationMode.bootstrap 735
              ≡ ok batch)
            × (result.bronze ≡ some batch)
            × (batch.failures ≡ [])))
      (λ _ w'. OnlyBronze (day_env []) OperationMode.bootstrap (codes "vix" ∷ []) [] w')
      (Pipeline.source_command
        (day_env [])
        (codes "bootstrap")
        (codes "vix" ∷ [])
        OperationMode.bootstrap
        735
        morning)
source_command-Post_example =
    source_command-Post (day_env []) OperationMode.bootstrap (codes "vix" ∷ []) (codes "bootstrap")
      735 morning
