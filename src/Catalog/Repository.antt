-- ===== src/Catalog/Repository.antt =====
-- ingestion/gold_catalog_repository.py: what may be stored in the catalog. The rows of the file are
-- the records themselves; `sort_rows` is the sort of a data frame by (started_at_utc, build_id).
use market_regime_loader.Prelude.{
  ℤ, is_negative, Datetime, is_aware, datetime_lt, Str, set_of, Bool, false, not, ◌&&◌, ◌||◌,
  Option, none, some, List, map, ltb, ◌==◌, is_none, is_some, length, count,
}
use market_regime_loader.Prelude.Effects.{Result, ok, value_error, bind, refuse, traverse, ◌⨟◌}
use market_regime_loader.Catalog.Rows.{
  GoldCatalogRecord, is_complete, artifact_paths_complete, is_current,
}

abbrev pub naive_value : Option Datetime → Bool
naive_value none = false
naive_value (some d) = not (is_aware d)

abbrev pub naive_time : GoldCatalogRecord → Bool
naive_time r =
    not (is_aware r.started_at_utc)
    || (naive_value r.completed_at_utc
        || (naive_value r.min_timestamp
            || (naive_value r.max_timestamp || naive_value r.pruned_at_utc)))

abbrev pub negative_rows : Option ℤ → Bool
negative_rows none = false
negative_rows (some n) = is_negative n

abbrev pub before : Option Datetime → Option Datetime → Bool
before (some a) (some b) = datetime_lt a b
before _ _ = false

abbrev pub partial_paths : GoldCatalogRecord → Bool
partial_paths r =
    (is_some r.data_path || (is_some r.build_manifest_path || is_some r.plot_path))
    && not (is_some r.data_path && (is_some r.build_manifest_path && is_some r.plot_path))

abbrev pub lacks_metadata : GoldCatalogRecord → Bool
lacks_metadata r =
    is_complete r.status
    && (is_none r.pruned_at_utc
        && (is_none r.completed_at_utc || (is_none r.row_count || not (artifact_paths_complete r))))

-- `_validate_record`
unfoldable pub validate_record : GoldCatalogRecord → Result (Unit {0})
unfolding artifact_paths_complete
validate_record r =
    refuse (naive_time r) value_error
    ⨟ refuse (negative_rows r.row_count) value_error
    ⨟ refuse (before r.completed_at_utc (some r.started_at_utc)) value_error
    ⨟ refuse (before r.max_timestamp r.min_timestamp) value_error
    ⨟ refuse (partial_paths r) value_error
    ⨟ refuse (r.current && not (is_complete r.status)) value_error
    ⨟ refuse (r.current && is_some r.pruned_at_utc) value_error
    ⨟ refuse (lacks_metadata r) value_error

abbrev pub build_ids : List GoldCatalogRecord → List Str
build_ids records = map (λ r. r.build_id) records

-- `_frame`
unfoldable pub catalog_frame :
    (List GoldCatalogRecord → List GoldCatalogRecord)
    → List GoldCatalogRecord
    → Result (List GoldCatalogRecord)
unfolding validate_record
catalog_frame sort_rows records = bind (traverse validate_record records) (λ _.
    refuse (not (length (set_of (build_ids records)) == length records)) value_error
    ⨟ refuse (ltb 1 (count is_current records)) value_error
    ⨟ ok (sort_rows records))
