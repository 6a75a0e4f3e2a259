-- ===== src/Postgres/Samples.antt =====
-- Runs of application/postgres_sync_service.py on small replicas.
use market_regime_loader.Prelude.{
  ℕ, zero, suc, ◌+◌, ◌%◌, ◌≡◌, refl, pos, Str, str_eq, if◌then◌else◌, codes, Datetime, aware, true,
  none, some, List, [], ◌∷◌, ◌⊎◌, All, arith,
}
use market_regime_loader.Prelude.Effects.{Result, ok, err}
use market_regime_loader.Catalog.Rows.{GoldCatalogRecord, GoldBuildStatus}
use market_regime_loader.Postgres.Contracts.{
  GoldRowPayload, GoldRowDigest, GoldDeltaPlan, GoldSyncState, feature_columns, timestamp_column,
  postgres_dataset_id, gold_sync_state,
}
use market_regime_loader.Postgres.Rows.{
  Frame, RawRow, Cell, ColumnType, row_bytes, canonical_float, source_rows_and_digests,
}
use market_regime_loader.Postgres.Rows.Framing.{IsCanonical, row_bytes-injective}
use market_regime_loader.Postgres.Delta.{plan_gold_delta, target_digest_map, digest_entry}
use market_regime_loader.Postgres.Delta.Plan.{Planned}
use market_regime_loader.Postgres.Delta.Total.{plan_gold_delta-Planned}
use market_regime_loader.Postgres.Tables.{Tables, state_from_row, state_params}
use market_regime_loader.Postgres.Tables.RoundTrip.{state_from_row-state_params}
use market_regime_loader.Postgres.Repository.Session.{Stores}
use market_regime_loader.Postgres.Repository.Apply.{Applied, apply_delta-Stores}
use market_regime_loader.Postgres.Replica.{IsConsistent}
use market_regime_loader.Postgres.Sync.Service.{InStep, sync-Stores}
use market_regime_loader.Postgres.Repository.{World, CommitOutcome}
use market_regime_loader.Postgres.Repository
use market_regime_loader.Postgres.Sync.{Env, postgres_repository, sync}

abbrev monday : Datetime
monday = aware 63871200000000000

abbrev tuesday : Datetime
tuesday = aware 63871286400000000

abbrev repeat : {A : Type 0} → ℕ → A → List A
repeat zero a = []
repeat (suc n) a = a ∷ repeat n a

abbrev sum : List ℕ → ℕ
sum [] = 0
sum (b ∷ bs) = b + sum bs

-- A digest in place of the hash: the sum of the bytes.
abbrev checksum : List ℕ → Str
checksum bytes = repeat 64 (48 + sum bytes % 10)

unfoldable column_type : Str → ColumnType
unfolding str_eq
column_type c = if str_eq c timestamp_column then ColumnType.datetime_us_utc else ColumnType.float64

abbrev raw : Datetime → Cell → RawRow
raw t first = record { timestamp = Cell.time t; features = first ∷ repeat 47 Cell.null }

abbrev frame : Frame
frame = record {
  columns = timestamp_column ∷ feature_columns;
  column_type = column_type;
  rows = raw monday (Cell.float 0) ∷ raw tuesday Cell.null ∷ [];
}

abbrev build : GoldCatalogRecord
build = record {
  dataset_id = postgres_dataset_id;
  build_id = codes "b1";
  status = GoldBuildStatus.complete;
  current = true;
  started_at_utc = monday;
  completed_at_utc = some tuesday;
  schema_version = pos 1;
  feature_version = pos 1;
  min_timestamp = some monday;
  max_timestamp = some tuesday;
  row_count = some (pos 2);
  data_path = some (codes "b1/data");
  build_manifest_path = some (codes "m");
  plot_path = some (codes "p");
  pruned_at_utc = none;
}

abbrev env : Env
env = record {
  sha256 = checksum;
  sort_rows = λ rows. rows;
  read_catalog = λ _. ok (build ∷ []);
  sha256_path = λ _ _. ok (repeat 64 97);
  read_path = λ _ _. ok frame;
  clock = λ _. ok tuesday;
}

abbrev db : Repository.Env
db = record { answer = λ _. ok tt; commit = λ _. CommitOutcome.committed }

abbrev empty_tables : Tables
empty_tables = record { consumer = []; states = []; hashes = [] }

abbrev world : World
world = record { stored = empty_tables; working = empty_tables; calls = 0 }

abbrev result_of : {A : Type 0} → Result A × World → Result A
result_of x = x.0

-- The first synchronisation inserts both rows, the second one finds them unchanged.
first_sync :
    result_of (sync env (postgres_repository db) world)
    ≡ ok (record {
      dataset_id = postgres_dataset_id;
      source_build_id = codes "b1";
      inserted = pos 2;
      updated = pos 0;
      deleted = pos 0;
      unchanged = pos 0;
    })
unfolding sync str_eq column_type Repository.ensure_schema Repository.read_state
    Repository.read_digests Repository.apply_delta
first_sync = refl

abbrev stored_after : World
stored_after = (sync env (postgres_repository db) world).1

-- The second one only writes the state, and a frame that lost a row and changed one is followed.
second_sync :
    result_of (sync env (postgres_repository db) stored_after)
    ≡ ok (record {
      dataset_id = postgres_dataset_id;
      source_build_id = codes "b1";
      inserted = pos 0;
      updated = pos 0;
      deleted = pos 0;
      unchanged = pos 2;
    })
unfolding sync str_eq column_type Repository.ensure_schema Repository.read_state
    Repository.read_digests Repository.apply_delta
second_sync = refl

sync-Stores_example :
    Stores
      (λ _ t. InStep env db empty_tables t × IsConsistent checksum postgres_dataset_id t)
      (λ t.
        ((t ≡ empty_tables) ⊎ InStep env db empty_tables t)
        × IsConsistent checksum postgres_dataset_id t)
      (sync env (postgres_repository db) world)
sync-Stores_example = sync-Stores env db world (λ _. tt)

abbrev monday_row : GoldRowPayload
monday_row = record { timestamp_m1 = monday; values = some 0 ∷ repeat 47 none }

abbrev tuesday_row : GoldRowPayload
tuesday_row = record { timestamp_m1 = tuesday; values = repeat 48 none }

abbrev wednesday : Datetime
wednesday = aware 63871372800000000

abbrev bytes_or_none : Result (List ℕ) → List ℕ
bytes_or_none (ok bytes) = bytes
bytes_or_none (err _) = []

unfoldable digest_of : GoldRowPayload → GoldRowDigest
unfolding row_bytes
digest_of row = record {
  timestamp_m1 = row.timestamp_m1;
  row_sha256 = checksum (bytes_or_none (row_bytes row));
}

abbrev stale : GoldRowDigest
stale = record { timestamp_m1 = monday; row_sha256 = repeat 64 97 }

abbrev gone : GoldRowDigest
gone = record { timestamp_m1 = wednesday; row_sha256 = repeat 64 98 }

abbrev prior : GoldSyncState
prior = record {
  dataset_id = postgres_dataset_id;
  source_build_id = codes "b0";
  data_sha256 = repeat 64 98;
  schema_version = pos 1;
  feature_version = pos 1;
  row_count = pos 2;
  min_timestamp = some monday;
  max_timestamp = some wednesday;
  synced_at_utc = monday;
}

frame_read :
    source_rows_and_digests checksum (λ rows. rows) frame
    ≡ ok (monday_row ∷ tuesday_row ∷ [], digest_of monday_row ∷ digest_of tuesday_row ∷ [])
unfolding source_rows_and_digests column_type str_eq digest_of
frame_read = refl

target_read :
    target_digest_map (stale ∷ gone ∷ []) ≡ ok (digest_entry stale ∷ digest_entry gone ∷ [])
unfolding target_digest_map
target_read = refl

plan_gold_delta-Planned_example :
    (plan : GoldDeltaPlan) × (plan_gold_delta checksum
        (λ rows. rows)
        frame
        (stale ∷ gone ∷ [])
        (some prior)
      ≡ ok plan)
    × Planned
        (monday_row ∷ tuesday_row ∷ [])
        (digest_of monday_row ∷ digest_of tuesday_row ∷ [])
        (digest_entry stale ∷ digest_entry gone ∷ [])
        plan
plan_gold_delta-Planned_example =
    plan_gold_delta-Planned checksum (λ rows. rows) frame (monday_row ∷ tuesday_row ∷ [])
      (digest_of monday_row ∷ digest_of tuesday_row ∷ []) (stale ∷ gone ∷ [])
      (digest_entry stale ∷ digest_entry gone ∷ []) (some prior) frame_read target_read
      (refl, (refl, tt)) refl

abbrev insert_plan : GoldDeltaPlan
insert_plan = record {
  inserts = monday_row ∷ [];
  updates = [];
  deletes = wednesday ∷ [];
  unchanged = [];
  source_digests = stale ∷ [];
}

abbrev monday_state : GoldSyncState
monday_state = record prior { row_count = pos 1; max_timestamp = some monday }

abbrev applied_tables : Tables
applied_tables = record {
  consumer = (monday, monday_row.values) ∷ [];
  states = (postgres_dataset_id, state_params monday_state) ∷ [];
  hashes = ((postgres_dataset_id, monday), stale.row_sha256) ∷ [];
}

-- The delta is applied: the row is there, and the state.
delta_applied :
    Repository.apply_delta db postgres_dataset_id insert_plan monday_state world
    ≡ (ok tt, record { stored = applied_tables; working = applied_tables; calls = 16 })
unfolding Repository.apply_delta str_eq
delta_applied = refl

apply_delta-Stores_example :
    Stores
      (λ _ t.
        Applied postgres_dataset_id insert_plan monday_state
          ((monday, monday_row) ∷ [])
          empty_tables
          t)
      (λ t.
        (t ≡ empty_tables)
        ⊎ Applied postgres_dataset_id insert_plan monday_state
            ((monday, monday_row) ∷ [])
            empty_tables
            t)
      (Repository.apply_delta db postgres_dataset_id insert_plan monday_state world)
apply_delta-Stores_example =
    apply_delta-Stores db postgres_dataset_id insert_plan monday_state ((monday, monday_row) ∷ [])
      world ((refl, tt), tt)

prior_valid : gold_sync_state prior ≡ ok prior
unfolding gold_sync_state str_eq
prior_valid = refl

state_from_row-state_params_example : state_from_row (state_params prior) ≡ ok prior
state_from_row-state_params_example = state_from_row-state_params prior prior prior_valid

nulls-IsCanonical : (n : ℕ) → All IsCanonical (repeat n none)
nulls-IsCanonical zero = tt
nulls-IsCanonical (suc n) = (tt, nulls-IsCanonical n)

monday_row-IsCanonical : All IsCanonical monday_row.values
unfolding canonical_float
monday_row-IsCanonical = ((refl, omega arith), nulls-IsCanonical 47)

monday_bytes : row_bytes monday_row ≡ ok (bytes_or_none (row_bytes monday_row))
unfolding row_bytes
monday_bytes = refl

row_bytes-injective_example :
    (monday_row.timestamp_m1 ≡ monday) × (monday_row.values ≡ some 0 ∷ repeat 47 none)
row_bytes-injective_example =
    row_bytes-injective monday_row
      (record { timestamp_m1 = monday; values = some 0 ∷ repeat 47 none })
      (bytes_or_none (row_bytes monday_row)) monday_row-IsCanonical monday_row-IsCanonical
      monday_bytes monday_bytes
