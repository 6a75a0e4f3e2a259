-- ===== src/Catalog/Rows.antt =====
-- application/gold_catalog.py: the rows of the authoritative Gold catalog.
use market_regime_loader.Prelude.{
  Str, non_empty, Datetime, ℤ, int_eq, Bool, true, false, ◌&&◌, Option, none, some, is_none,
  is_some,
}

pub data GoldBuildStatus : Type 0 where
  building complete failed : GoldBuildStatus

abbrev pub is_building : GoldBuildStatus → Bool
is_building GoldBuildStatus.building = true
is_building _ = false

abbrev pub is_complete : GoldBuildStatus → Bool
is_complete GoldBuildStatus.complete = true
is_complete _ = false

pub record GoldCatalogRecord : Type 0 where
  pub dataset_id : Str
  pub build_id : Str
  pub status : GoldBuildStatus
  pub current : Bool
  pub started_at_utc : Datetime
  pub completed_at_utc : Option Datetime
  pub schema_version : ℤ
  pub feature_version : ℤ
  pub min_timestamp : Option Datetime
  pub max_timestamp : Option Datetime
  pub row_count : Option ℤ
  pub data_path : Option Str
  pub build_manifest_path : Option Str
  pub plot_path : Option Str
  pub pruned_at_utc : Option Datetime

-- `isinstance(value, str) and bool(value)`
abbrev pub present : Option Str → Bool
present none = false
present (some s) = non_empty s

unfoldable pub artifact_paths_complete : GoldCatalogRecord → Bool
artifact_paths_complete r =
    present r.data_path && (present r.build_manifest_path && present r.plot_path)

unfoldable pub selectable_complete : GoldCatalogRecord → Bool
unfolding artifact_paths_complete
selectable_complete r =
    is_complete r.status
    && (is_some r.completed_at_utc && (is_none r.pruned_at_utc && artifact_paths_complete r))

pub record GoldCompatibility : Type 0 where
  pub schema_version : ℤ
  pub feature_version : ℤ

unfoldable pub matches : GoldCompatibility → GoldCatalogRecord → Bool
matches c r = int_eq r.schema_version c.schema_version && int_eq r.feature_version c.feature_version

abbrev pub is_current : GoldCatalogRecord → Bool
is_current r = r.current
