-- ===== src/Postgres/Contracts.antt =====
-- application/postgres_sync.py: the values of the synchronisation, each with its validation.
--
-- A `float` is its IEEE 754 bit pattern of 64 bits; the columns are those of application/gold_frame.py.
use market_regime_loader.Prelude.{
  ℕ, ◌+◌, ℤ, pos, is_negative, int_eq, below_one, Str, codes, str_eq, Datetime, naive, aware,
  datetime_lt, datetime_eq, Bool, false, not, ◌&&◌, ◌||◌, Option, none, some, is_none, is_some,
  List, [], ◌∷◌, ◌++◌, map, length, any, ◌==◌,
}
use market_regime_loader.Prelude.Effects.{
  Result, ok, err, value_error, lookup_error, refuse, bind, traverse, ◌⨟◌,
}
use market_regime_loader.Prelude.Items.{to_set}
use market_regime_loader.Catalog.Rows.{GoldCatalogRecord, GoldCompatibility, matches}
use market_regime_loader.Catalog.Resolution.{strict_current}

abbrev pub postgres_dataset_id : Str
postgres_dataset_id = codes "regime_features_daily"

abbrev pub gold_schema_version : ℤ
gold_schema_version = pos 1

abbrev pub gold_feature_version : ℤ
gold_feature_version = pos 1

abbrev pub Float : Type 0
Float = ℕ

abbrev pub volatility_series : List Str
volatility_series =
    codes "vix"
    ∷ codes "vix9d"
    ∷ codes "vix3m"
    ∷ codes "vix6m"
    ∷ codes "vix1y"
    ∷ codes "vstoxx"
    ∷ codes "move"
    ∷ []

abbrev pub columns_of_series : List Str → List Str
columns_of_series [] = []
columns_of_series (id ∷ ids) =
    (id ++ codes "_level")
    ∷ (id ++ codes "_delta_5obs")
    ∷ (id ++ codes "_delta_20obs")
    ∷ (id ++ codes "_zscore_60obs")
    ∷ columns_of_series ids

abbrev pub volatility_feature_columns : List Str
volatility_feature_columns =
    columns_of_series volatility_series
    ++ codes "vix9d_vix_ratio"
      ∷ codes "vix_vix3m_ratio"
      ∷ codes "vix3m_minus_vix"
      ∷ codes "vix6m_minus_vix"
      ∷ codes "vix1y_minus_vix"
      ∷ []

abbrev pub macro_feature_columns : List Str
macro_feature_columns =
    codes "ciss_level"
    ∷ codes "ciss_delta_5obs"
    ∷ codes "ciss_delta_20obs"
    ∷ codes "euro_hy_oas_level"
    ∷ codes "euro_hy_oas_delta_5obs"
    ∷ codes "euro_hy_oas_delta_20obs"
    ∷ codes "us_2y_level"
    ∷ codes "us_2y_delta_20obs"
    ∷ codes "us_10y_level"
    ∷ codes "us_10y_delta_20obs"
    ∷ codes "estr_level"
    ∷ codes "estr_delta_20obs"
    ∷ codes "usd_broad_level"
    ∷ codes "usd_broad_delta_20obs"
    ∷ codes "us_10y_minus_us_2y"
    ∷ []

-- `GOLD_COLUMNS[1:]`
abbrev pub feature_columns : List Str
feature_columns = volatility_feature_columns ++ macro_feature_columns

abbrev pub timestamp_column : Str
timestamp_column = codes "timestamp_m1"

-- `_utc`
abbrev pub utc : Datetime → Result Datetime
utc (naive _) = err value_error
utc (aware t) = ok (aware t)

abbrev pub utc_or_none : Option Datetime → Result (Option Datetime)
utc_or_none none = ok none
utc_or_none (some t) = bind (utc t) (λ u. ok (some u))

-- `len(value) != 64 or any(char not in "0123456789abcdef" for char in value)`
abbrev pub not_sha256 : Str → Bool
not_sha256 s =
    not (length s == 64) || any (λ c. not (any (λ d. c == d) (codes "0123456789abcdef"))) s

pub record GoldRowPayload : Type 0 where
  pub timestamp_m1 : Datetime
  pub values : List (Option Float)

-- `GoldRowPayload.__post_init__`
unfoldable pub gold_row_payload : Datetime → List (Option Float) → Result GoldRowPayload
gold_row_payload timestamp values = bind (utc timestamp) (λ t.
    refuse (not (length values == length feature_columns)) value_error
    ⨟ ok (record { timestamp_m1 = t; values = values }))

pub record GoldRowDigest : Type 0 where
  pub timestamp_m1 : Datetime
  pub row_sha256 : Str

-- `GoldRowDigest.__post_init__`
unfoldable pub gold_row_digest : Datetime → Str → Result GoldRowDigest
gold_row_digest timestamp sha256 = bind (utc timestamp) (λ t.
    refuse (not_sha256 sha256) value_error ⨟ ok (record { timestamp_m1 = t; row_sha256 = sha256 }))

pub record GoldDeltaPlan : Type 0 where
  pub inserts : List GoldRowPayload
  pub updates : List GoldRowPayload
  pub deletes : List Datetime
  pub unchanged : List Datetime
  pub source_digests : List GoldRowDigest

abbrev pub row_timestamp : GoldRowPayload → Datetime
row_timestamp row = row.timestamp_m1

abbrev pub row_timestamps : List GoldRowPayload → List Datetime
row_timestamps rows = map row_timestamp rows

-- `GoldDeltaPlan.__post_init__`
unfoldable pub gold_delta_plan : GoldDeltaPlan → Result GoldDeltaPlan
gold_delta_plan plan = bind (traverse utc plan.deletes) (λ deletes.
    bind (traverse utc plan.unchanged) (λ unchanged.
      let inserts = row_timestamps plan.inserts in
      let updates = row_timestamps plan.updates in
      let total =
        length (to_set datetime_eq inserts)
        + (length (to_set datetime_eq updates)
            + (length (to_set datetime_eq deletes) + length (to_set datetime_eq unchanged))) in
      let union = to_set datetime_eq (inserts ++ (updates ++ (deletes ++ unchanged))) in
      refuse (not (length union == total)) value_error
      ⨟ ok (record plan { deletes = deletes; unchanged = unchanged })))

pub record GoldSyncState : Type 0 where
  pub dataset_id : Str
  pub source_build_id : Str
  pub data_sha256 : Str
  pub schema_version : ℤ
  pub feature_version : ℤ
  pub row_count : ℤ
  pub min_timestamp : Option Datetime
  pub max_timestamp : Option Datetime
  pub synced_at_utc : Datetime

-- `max_timestamp < min_timestamp`, where there are both
abbrev pub precedes : Option Datetime → Option Datetime → Bool
precedes (some maximum) (some minimum) = datetime_lt maximum minimum
precedes _ _ = false

-- `GoldSyncState.__post_init__`
unfoldable pub gold_sync_state : GoldSyncState → Result GoldSyncState
gold_sync_state s =
    refuse (not (str_eq s.dataset_id postgres_dataset_id)) value_error
    ⨟ refuse (not_sha256 s.data_sha256) value_error
    ⨟ refuse (is_negative s.row_count) value_error
    ⨟ bind (utc s.synced_at_utc) (λ synced. bind (utc_or_none s.min_timestamp) (λ minimum.
      bind (utc_or_none s.max_timestamp) (λ maximum.
        refuse (int_eq s.row_count (pos 0) && (is_some minimum || is_some maximum)) value_error
        ⨟ refuse (not (below_one s.row_count) && (is_none minimum || is_none maximum)) value_error
        ⨟ refuse (precedes maximum minimum) value_error
        ⨟ ok (record s {
          synced_at_utc = synced;
          min_timestamp = minimum;
          max_timestamp = maximum;
        }))))

pub record GoldTargetSummary : Type 0 where
  pub row_count : ℤ
  pub min_timestamp : Option Datetime
  pub max_timestamp : Option Datetime

-- `GoldTargetSummary.__post_init__`
unfoldable pub gold_target_summary : GoldTargetSummary → Result GoldTargetSummary
gold_target_summary s =
    refuse (is_negative s.row_count) value_error
    ⨟ bind (utc_or_none s.min_timestamp) (λ minimum.
      bind (utc_or_none s.max_timestamp)
        (λ maximum. ok (record s { min_timestamp = minimum; max_timestamp = maximum })))

pub record GoldSyncResult : Type 0 where
  pub dataset_id : Str
  pub source_build_id : Str
  pub inserted : ℤ
  pub updated : ℤ
  pub deleted : ℤ
  pub unchanged : ℤ

-- `GoldSyncResult.__post_init__`
unfoldable pub gold_sync_result : GoldSyncResult → Result GoldSyncResult
gold_sync_result r =
    refuse (not (str_eq r.dataset_id postgres_dataset_id)) value_error
    ⨟ refuse
        (is_negative r.inserted
          || (is_negative r.updated || (is_negative r.deleted || is_negative r.unchanged)))
        value_error
    ⨟ ok r

abbrev pub compatibility : GoldCompatibility
compatibility = record {
  schema_version = gold_schema_version;
  feature_version = gold_feature_version;
}

unfoldable pub require_sync_compatible : GoldCatalogRecord → Result (Unit {0})
unfolding matches
require_sync_compatible r =
    refuse (not (str_eq r.dataset_id postgres_dataset_id)) lookup_error
    ⨟ refuse (not (matches compatibility r)) lookup_error

unfoldable pub select_current_sync_record : List GoldCatalogRecord → Result GoldCatalogRecord
unfolding strict_current require_sync_compatible
select_current_sync_record records =
    bind (strict_current records compatibility) (λ r. require_sync_compatible r ⨟ ok r)
