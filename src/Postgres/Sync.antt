-- ===== src/Postgres/Sync.antt =====
-- application/postgres_sync_service.py: one complete reconciliation of the serving replica with the
-- current Gold build.
--
-- The catalog reader, the frame source and the clock are functions of the number of calls made so far,
-- which may fail; the repository is a record of its four methods, which ingestion/
-- postgres_gold_repository.py fills.
pub mod Replication
pub mod Service
use market_regime_loader.Prelude.{
  ℕ, suc, ℤ, pos, Str, codes, Datetime, naive, aware, datetime_eq, int_eq, str_eq, Bool, true,
  false, not, ◌&&◌, ◌||◌, Option, none, some, is_none, is_some, eq_option, List, [], ◌∷◌, map,
  length, any, ◌==◌, if◌then◌else◌,
}
use market_regime_loader.Prelude.Effects.{
  Exn, Result, ok, err, sync_source_error, sync_compatibility_error, sync_verification_error, bind,
  refuse, ◌⨟◌, pure, raise, lift, ◌>>=◌, ◌>>◌,
}
use market_regime_loader.Catalog.Rows.{GoldCatalogRecord}
use market_regime_loader.Postgres.Contracts.{
  GoldRowDigest, GoldDeltaPlan, GoldSyncState, GoldSyncResult, gold_sync_state, gold_sync_result,
  gold_delta_plan, not_sha256, postgres_dataset_id, select_current_sync_record,
}
use market_regime_loader.Postgres.Rows.{Frame, RawRow, Cell}
use market_regime_loader.Postgres.Delta.{plan_gold_delta, is_empty}
use market_regime_loader.Postgres.Tables.{least_of, greatest_of}
use market_regime_loader.Postgres.Repository.{
  World, Action, ensure_schema, read_state, read_digests, apply_delta,
}
use market_regime_loader.Postgres.Repository

-- `GoldSyncRepository`; `summary` is not called by the service.
pub record GoldSyncRepository : Type 0 where
  pub ensure_schema : Action Unit
  pub read_state : Str → Action (Option GoldSyncState)
  pub read_digests : Str → Action (List GoldRowDigest)
  pub apply_delta : Str → GoldDeltaPlan → GoldSyncState → Action Unit

abbrev pub postgres_repository : Repository.Env → GoldSyncRepository
postgres_repository env = record {
  ensure_schema = ensure_schema env;
  read_state = read_state env;
  read_digests = read_digests env;
  apply_delta = apply_delta env;
}

-- What the service is built from, and the libraries that the plan uses.
pub record Env : Type 0 where
  pub sha256 : List ℕ → Str
  pub sort_rows : List RawRow → List RawRow
  pub read_catalog : ℕ → Result (List GoldCatalogRecord)
  pub sha256_path : ℕ → Str → Result Str
  pub read_path : ℕ → Str → Result Frame
  pub clock : ℕ → Result Datetime

abbrev pub ask : {A : Type 0} → (ℕ → Result A) → Action A
ask f w = (f w.calls, record w { calls = suc w.calls })

abbrev pub or_source_error : {A : Type 0} → Option A → Result A
or_source_error none = err sync_source_error
or_source_error (some a) = ok a

-- `_required_data_path`: neither missing nor empty
unfoldable pub required_data_path : GoldCatalogRecord → Result Str
required_data_path r = present r.data_path
  where
    present : Option Str → Result Str
    present none = err sync_source_error
    present (some []) = err sync_source_error
    present (some (c ∷ path)) = ok (c ∷ path)

-- `_validate_sha256`
unfoldable pub validate_sha256 : Str → Result (Unit {0})
validate_sha256 value = refuse (not_sha256 value) sync_source_error

abbrev pub aware_now : Datetime → Result Datetime
aware_now (naive _) = err sync_source_error
aware_now (aware t) = ok (aware t)

-- `_require_state_compatible`
unfoldable pub require_state_compatible : Option GoldSyncState → GoldSyncState → Result (Unit {0})
require_state_compatible none desired = ok tt
require_state_compatible (some prior) desired =
    refuse
      (not (int_eq prior.schema_version desired.schema_version)
        || not (int_eq prior.feature_version desired.feature_version))
      sync_compatibility_error

-- `_same_data`
unfoldable pub same_data : GoldSyncState → GoldSyncState → Bool
same_data prior desired =
    str_eq prior.data_sha256 desired.data_sha256
    && (int_eq prior.schema_version desired.schema_version
        && (int_eq prior.feature_version desired.feature_version
            && (int_eq prior.row_count desired.row_count
                && (eq_option datetime_eq prior.min_timestamp desired.min_timestamp
                    && eq_option datetime_eq prior.max_timestamp desired.max_timestamp))))

-- The times of a column without its nulls, for its `min` and `max`.
abbrev pub column_times : List RawRow → Result (List Datetime)
column_times [] = ok []
column_times (row ∷ rows) = let rest = column_times rows in add row.timestamp rest
  where
    add : Cell → Result (List Datetime) → Result (List Datetime)
    add Cell.null rest = rest
    add (Cell.time t) rest = bind rest (λ times. ok (t ∷ times))
    add _ rest = err sync_source_error

-- `_validate_frame_metadata`
unfoldable pub validate_frame_metadata : Frame → GoldCatalogRecord → Result (Unit {0})
validate_frame_metadata frame r = bind (or_source_error r.row_count) (λ row_count.
    refuse (not (int_eq (pos (length frame.rows)) row_count)) sync_source_error
    ⨟ bind (column_times frame.rows) (λ times.
      refuse
        (not (eq_option datetime_eq (least_of times) r.min_timestamp)
          || not (eq_option datetime_eq (greatest_of times) r.max_timestamp))
        sync_source_error))

-- The checks of the digests of the target against the state that is known of it.
abbrev pub check_target : Option GoldSyncState → List GoldRowDigest → Result (Unit {0})
check_target none digests = refuse (not (is_empty digests)) sync_verification_error
check_target (some prior) digests =
    refuse (not (int_eq (pos (length digests)) prior.row_count)) sync_verification_error

abbrev pub is_same : Option GoldSyncState → GoldSyncState → Bool
is_same none desired = false
is_same (some prior) desired = same_data prior desired

abbrev pub empty_plan : GoldDeltaPlan
empty_plan = record {
  inserts = [];
  updates = [];
  deletes = [];
  unchanged = [];
  source_digests = [];
}

-- The state of a synchronisation with a build.
abbrev pub state_for : GoldCatalogRecord → Str → ℤ → Datetime → GoldSyncState
state_for r data_sha256 row_count synced_at_utc = record {
  dataset_id = postgres_dataset_id;
  source_build_id = r.build_id;
  data_sha256 = data_sha256;
  schema_version = r.schema_version;
  feature_version = r.feature_version;
  row_count = row_count;
  min_timestamp = r.min_timestamp;
  max_timestamp = r.max_timestamp;
  synced_at_utc = synced_at_utc;
}

module _ (env : Env) (repository : GoldSyncRepository) where
  -- `_desired_state`
  unfoldable pub desired_state : GoldCatalogRecord → Str → Action GoldSyncState
  unfolding gold_sync_state
  desired_state r data_sha256 = do
    row_count ← lift (or_source_error r.row_count)
    now ← ask env.clock
    synced_at_utc ← lift (aware_now now)
    lift (gold_sync_state (state_for r data_sha256 row_count synced_at_utc))

  -- The data is what it was: only the state is written.
  unfoldable pub refresh : GoldCatalogRecord → GoldSyncState → Action GoldSyncResult
  unfolding gold_delta_plan gold_sync_result
  refresh r desired = do
    plan ← lift (gold_delta_plan empty_plan)
    repository.apply_delta postgres_dataset_id plan desired
    lift (
        gold_sync_result (record {
          dataset_id = postgres_dataset_id;
          source_build_id = r.build_id;
          inserted = pos 0;
          updated = pos 0;
          deleted = pos 0;
          unchanged = desired.row_count;
        }))

  -- The plan of the delta for the frame, applied.
  unfoldable pub replace :
      GoldCatalogRecord
      → Str
      → GoldSyncState
      → Option GoldSyncState
      → List GoldRowDigest
      → Action GoldSyncResult
  unfolding validate_frame_metadata plan_gold_delta gold_sync_result
  replace r data_path desired prior digests = do
    frame ← ask (λ n. env.read_path n data_path)
    lift (validate_frame_metadata frame r)
    plan ← lift (plan_gold_delta env.sha256 env.sort_rows frame digests prior)
    repository.apply_delta postgres_dataset_id plan desired
    lift (
        gold_sync_result (record {
          dataset_id = postgres_dataset_id;
          source_build_id = r.build_id;
          inserted = pos (length plan.inserts);
          updated = pos (length plan.updates);
          deleted = pos (length plan.deletes);
          unchanged = pos (length plan.unchanged);
        }))

  -- `GoldPostgresDeltaSync.sync`, from the read of the state on
  unfoldable pub reconcile_state : GoldCatalogRecord → Str → GoldSyncState → Action GoldSyncResult
  unfolding require_state_compatible same_data refresh replace
  reconcile_state r data_path desired = do
    prior ← repository.read_state postgres_dataset_id
    lift (require_state_compatible prior desired)
    digests ← repository.read_digests postgres_dataset_id
    lift (check_target prior digests)
    if is_same prior desired then refresh r desired else replace r data_path desired prior digests

  -- `GoldPostgresDeltaSync.sync`
  unfoldable pub sync : Action GoldSyncResult
  unfolding select_current_sync_record required_data_path validate_sha256 desired_state
      reconcile_state
  sync = do
    repository.ensure_schema
    records ← ask env.read_catalog
    r ← lift (select_current_sync_record records)
    data_path ← lift (required_data_path r)
    data_sha256 ← ask (λ n. env.sha256_path n data_path)
    lift (validate_sha256 data_sha256)
    desired ← desired_state r data_sha256
    reconcile_state r data_path desired
