-- ===== src/Postgres/Tables.antt =====
-- ingestion/postgres_gold_repository.py: the rows of the three tables, and what each SQL statement
-- does to them.
--
-- A table is the list of its rows behind their primary keys. A table that is not there yet is an
-- empty one, so that `CREATE TABLE IF NOT EXISTS` changes nothing. `DOUBLE PRECISION` keeps a float.
pub mod RoundTrip
use market_regime_loader.Prelude.{
  ◌≡◌, refl, ap, ◌↔◌, arith, ℤ, pos, Str, str_eq, str_eq_iff, Datetime, datetime_eq, datetime_lt,
  datetime_eq_iff, Bool, true, false, ◌&&◌, Option, none, some, List, [], ◌∷◌, ◌++◌, map, length,
  if◌then◌else◌,
}
use market_regime_loader.Prelude.Effects.{
  Result, ok, err, external, value_error, type_error, bind, refuse, ◌⨟◌,
}
use market_regime_loader.Prelude.Dict.{get, has}
use market_regime_loader.Prelude.Items.{set_item, pop_item}
use market_regime_loader.Prelude.Sorting.{sort_by}
use market_regime_loader.Postgres.Contracts.{
  Float, GoldRowPayload, GoldSyncState, GoldTargetSummary, gold_sync_state, gold_target_summary,
}

-- An element of a row that the client library returns.
pub data Value : Type 0 where
  null : Value
  text : Str → Value
  integer : ℤ → Value
  timestamp : Datetime → Value
  double : Float → Value

-- `_as_text`, `_as_int`, `_as_datetime`
unfoldable pub as_text : Value → Result Str
as_text (Value.text s) = ok s
as_text _ = err type_error

unfoldable pub as_int : Value → Result ℤ
as_int (Value.integer n) = ok n
as_int _ = err type_error

unfoldable pub as_datetime : Value → Result (Option Datetime)
as_datetime Value.null = ok none
as_datetime (Value.timestamp t) = ok (some t)
as_datetime _ = err type_error

-- `cast` checks nothing: a null that is cast to a `datetime` fails in the validation of the state,
-- where `value.tzinfo` is read.
abbrev pub cast_datetime : Option Datetime → Result Datetime
cast_datetime none = err (external 0)
cast_datetime (some t) = ok t

unfoldable pub state_from_row : List Value → Result GoldSyncState
unfolding as_text as_int as_datetime gold_sync_state
state_from_row (a ∷ b ∷ c ∷ d ∷ e ∷ f ∷ g ∷ h ∷ i ∷ []) = bind (as_text a) (λ dataset_id.
    bind (as_text b) (λ source_build_id. bind (as_text c) (λ data_sha256.
      bind (as_int d) (λ schema_version. bind (as_int e) (λ feature_version.
        bind (as_int f) (λ row_count. bind (as_datetime g) (λ min_timestamp.
          bind (as_datetime h) (λ max_timestamp. bind (as_datetime i) (λ synced.
            bind (cast_datetime synced) (λ synced_at_utc. gold_sync_state (record {
              dataset_id = dataset_id;
              source_build_id = source_build_id;
              data_sha256 = data_sha256;
              schema_version = schema_version;
              feature_version = feature_version;
              row_count = row_count;
              min_timestamp = min_timestamp;
              max_timestamp = max_timestamp;
              synced_at_utc = synced_at_utc;
            })))))))))))
state_from_row _ = err value_error

unfoldable pub summary_from_row : List Value → Result GoldTargetSummary
unfolding as_int as_datetime gold_target_summary
summary_from_row (a ∷ b ∷ c ∷ []) = bind (as_int a) (λ row_count.
    bind (as_datetime b) (λ min_timestamp. bind (as_datetime c) (λ max_timestamp.
      gold_target_summary (record {
        row_count = row_count;
        min_timestamp = min_timestamp;
        max_timestamp = max_timestamp;
      }))))
summary_from_row _ = err value_error

abbrev pub time_or_null : Option Datetime → Value
time_or_null none = null
time_or_null (some t) = timestamp t

unfoldable pub state_params : GoldSyncState → List Value
state_params s =
    text s.dataset_id
    ∷ text s.source_build_id
    ∷ text s.data_sha256
    ∷ integer s.schema_version
    ∷ integer s.feature_version
    ∷ integer s.row_count
    ∷ time_or_null s.min_timestamp
    ∷ time_or_null s.max_timestamp
    ∷ timestamp s.synced_at_utc
    ∷ []

-- The key of a row digest.
abbrev pub HashKey : Type 0
HashKey = Str × Datetime

abbrev pub key_eq : HashKey → HashKey → Bool
key_eq (a, t) (b, u) = str_eq a b && datetime_eq t u

pub key_eq_iff : (j k : HashKey) → (key_eq j k ≡ true) ↔ (j ≡ k)
key_eq_iff (a, t) (b, u) = (
  λ h.
      let s : a ≡ b = (str_eq_iff a b).0 (ground arith) in
      let e : t ≡ u = (datetime_eq_iff t u).0 (ground arith) in rw (s, e),
  λ h.
      let s : str_eq a b ≡ true = (str_eq_iff a b).1 (ap (λ k. k.0) h) in
      let e : datetime_eq t u ≡ true = (datetime_eq_iff t u).1 (ap (λ k. k.1) h) in rw (s, e),
)

pub record Tables : Type 0 where
  pub consumer : List (Datetime × List (Option Float))
  pub states : List (Str × List Value)
  pub hashes : List (HashKey × Str)

-- `UPDATE ... SET ... WHERE key = k`
abbrev pub update_item : {V : Type 0} → Datetime → V → List (Datetime × V) → List (Datetime × V)
update_item k v [] = []
update_item k v ((j, w) ∷ rows) =
    let rest = update_item k v rows in if datetime_eq k j then (j, v) ∷ rest else (j, w) ∷ rest

-- The statements that write.
pub data Statement : Type 0 where
  insert_row update_row : GoldRowPayload → Statement
  delete_row : Datetime → Statement
  upsert_digest : Str → Datetime → Str → Statement
  delete_digest : Str → Datetime → Statement
  upsert_state : GoldSyncState → Statement

unfoldable pub run_statement : Statement → Tables → Result Tables
unfolding state_params
run_statement (Statement.insert_row row) t =
    refuse (has datetime_eq row.timestamp_m1 t.consumer) (external 0)
    ⨟ ok (record t { consumer = t.consumer ++ (row.timestamp_m1, row.values) ∷ [] })
run_statement (Statement.update_row row) t =
    ok (record t { consumer = update_item row.timestamp_m1 row.values t.consumer })
run_statement (Statement.delete_row time) t =
    ok (record t { consumer = pop_item datetime_eq time t.consumer })
run_statement (Statement.upsert_digest dataset_id time sha256) t =
    ok (record t { hashes = set_item key_eq (dataset_id, time) sha256 t.hashes })
run_statement (Statement.delete_digest dataset_id time) t =
    ok (record t { hashes = pop_item key_eq (dataset_id, time) t.hashes })
run_statement (Statement.upsert_state state) t =
    ok (record t { states = set_item str_eq state.dataset_id (state_params state) t.states })

-- `SELECT COUNT(*), MIN("timestamp_m1"), MAX("timestamp_m1")`
abbrev pub least_of : List Datetime → Option Datetime
least_of [] = none
least_of (t ∷ times) = some (least t times)
  where
    least : Datetime → List Datetime → Datetime
    least t [] = t
    least t (u ∷ times) = least (if datetime_lt u t then u else t) times

abbrev pub greatest_of : List Datetime → Option Datetime
greatest_of [] = none
greatest_of (t ∷ times) = some (greatest t times)
  where
    greatest : Datetime → List Datetime → Datetime
    greatest t [] = t
    greatest t (u ∷ times) = greatest (if datetime_lt t u then u else t) times

abbrev pub consumer_times : Tables → List Datetime
consumer_times t = map (λ (time, _). time) t.consumer

unfoldable pub target_summary : Tables → List Value
target_summary t =
    integer (pos (length t.consumer))
    ∷ time_or_null (least_of (consumer_times t))
    ∷ time_or_null (greatest_of (consumer_times t))
    ∷ []

-- `SELECT ... FROM gold_sync_state WHERE dataset_id = %s`
abbrev pub select_state : Str → Tables → Option (List Value)
select_state dataset_id t = get str_eq dataset_id t.states

-- `SELECT timestamp_m1, row_sha256 ... WHERE dataset_id = %s ORDER BY timestamp_m1`
abbrev pub digests_of : Str → List (HashKey × Str) → List (Datetime × Str)
digests_of dataset_id [] = []
digests_of dataset_id (((d, time), sha256) ∷ hashes) =
    let rest = digests_of dataset_id hashes in
    if str_eq dataset_id d then (time, sha256) ∷ rest else rest

abbrev pub earlier : Datetime × Str → Datetime × Str → Bool
earlier (t, _) (u, _) = datetime_lt t u

unfoldable pub select_digests : Str → Tables → List (List Value)
unfolding sort_by
select_digests dataset_id t =
    map (λ (time, sha256). timestamp time ∷ text sha256 ∷ [])
      (sort_by earlier (digests_of dataset_id t.hashes))
