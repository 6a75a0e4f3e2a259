-- ===== src/Catalog/Resolution/Samples.antt =====
-- A catalog with a current build.
use market_regime_loader.Prelude.{
  ◌≡◌, ◌↔◌, refl, codes, aware, pos, true, false, some, none, [], ◌∷◌,
}
use market_regime_loader.Prelude.Effects.{ok}
use market_regime_loader.Catalog.Rows.{GoldBuildStatus, GoldCatalogRecord, GoldCompatibility}
use market_regime_loader.Catalog.Resolution.{strict_current, latest_compatible}
use market_regime_loader.Catalog.Resolution.Agreement.{
  IsCurrentBuild, strict_current_iff, latest_compatible-strict_current,
}

abbrev build : GoldCatalogRecord
build = record {
  dataset_id = codes "d";
  build_id = codes "a";
  status = GoldBuildStatus.complete;
  current = true;
  started_at_utc = aware 1;
  completed_at_utc = some (aware 2);
  schema_version = pos 1;
  feature_version = pos 1;
  min_timestamp = none;
  max_timestamp = none;
  row_count = some (pos 3);
  data_path = some (codes "d");
  build_manifest_path = some (codes "m");
  plot_path = some (codes "p");
  pruned_at_utc = none;
}

abbrev older : GoldCatalogRecord
older = record build { build_id = codes "b"; current = false; completed_at_utc = some (aware 1) }

abbrev wanted : GoldCompatibility
wanted = record { schema_version = pos 1; feature_version = pos 1 }

strict_current_iff_example :
    (strict_current (older ∷ build ∷ []) wanted ≡ ok build)
    ↔ IsCurrentBuild (older ∷ build ∷ []) wanted build
strict_current_iff_example = strict_current_iff (older ∷ build ∷ []) wanted build

strictly : strict_current (older ∷ build ∷ []) wanted ≡ ok build
unfolding strict_current
strictly = refl

latest_compatible-strict_current_example : latest_compatible (older ∷ build ∷ []) wanted ≡ ok build
latest_compatible-strict_current_example =
    latest_compatible-strict_current (older ∷ build ∷ []) wanted build strictly
