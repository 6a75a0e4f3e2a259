-- ===== src/Postgres/Repository.antt =====
-- ingestion/postgres_gold_repository.py: PostgresGoldSyncRepository over a database with one client.
--
-- The world has the tables as committed, the tables as the open transaction sees them, and the number
-- of calls made so far; each call of the client library may fail, as the environment decides by that
-- number. A commit that raises may have taken effect or not. What is not committed is lost.
pub mod Transaction
pub mod Session
pub mod Lookup
pub mod Written
pub mod Outcome
pub mod Apply
pub mod Reads
use market_regime_loader.Prelude.{
  ℕ, suc, ℤ, pos, codes, Str, str_eq, non_empty, Datetime, datetime_eq, int_eq, Bool, true, false,
  not, ◌&&◌, Option, none, some, eq_option, List, [], ◌∷◌, ◌++◌, if◌then◌else◌,
}
use market_regime_loader.Prelude.Effects.{
  Exn, Result, ok, err, external, value_error, repository_error, is_exception, bind, refuse,
  traverse, ◌⨟◌, Exec, pure, raise, lift, gets, modify, catch, ◌>>=◌, ◌>>◌,
}
use market_regime_loader.Prelude.Dict.{has}
use market_regime_loader.Postgres.Contracts.{
  GoldRowPayload, GoldRowDigest, GoldDeltaPlan, GoldSyncState, GoldTargetSummary,
  gold_target_summary, gold_row_digest, postgres_dataset_id,
}
use market_regime_loader.Postgres.Delta.{at_time, has_time, or_key_error, digest_map}
use market_regime_loader.Postgres.Tables.{
  Tables, Value, Statement, run_statement, insert_row, update_row, delete_row, upsert_digest,
  delete_digest, upsert_state, as_text, as_datetime, state_from_row, summary_from_row,
  target_summary, select_state, select_digests,
}

abbrev pub postgres_host : Str
postgres_host = codes "10.10.1.3"

abbrev pub postgres_port : ℤ
postgres_port = pos 54321

abbrev pub postgres_user : Str
postgres_user = codes "market-regime-loader"

pub record PostgresSyncConfig : Type 0 where
  pub host : Str
  pub port : ℤ
  pub user : Str
  pub database : Str
  pub password : Str

-- `PostgresSyncConfig.__post_init__`
unfoldable pub postgres_sync_config : PostgresSyncConfig → Result PostgresSyncConfig
postgres_sync_config c =
    refuse (not (str_eq c.host postgres_host)) value_error
    ⨟ refuse (not (int_eq c.port postgres_port)) value_error
    ⨟ refuse (not (str_eq c.user postgres_user)) value_error
    ⨟ refuse (not (non_empty c.database)) value_error
    ⨟ refuse (not (non_empty c.password)) value_error
    ⨟ ok c

pub data CommitOutcome : Type 0 where
  committed : CommitOutcome
  -- the commit raises, and had no effect, or was made before its answer was lost
  refused lost : Exn → CommitOutcome

pub record Env : Type 0 where
  pub answer : ℕ → Result (Unit {0})
  pub commit : ℕ → CommitOutcome

pub record World : Type 0 where
  pub stored : Tables
  pub working : Tables
  pub calls : ℕ

abbrev pub Action : Type 0 → Type 0
Action A = Exec World A

-- `try: m finally: after`
abbrev pub finish : {A : Type 0} → Action Unit → Result A × World → Result A × World
finish after (r, w) = (after >>= λ _. lift r) w

abbrev pub finally : {A : Type 0} → Action A → Action Unit → Action A
finally m after w = finish after (m w)

-- `except Exception: handler; raise PostgresGoldRepositoryError`
abbrev pub sanitized : {A : Type 0} → Action Unit → Exn → Action A
sanitized handler e = if is_exception e then (do handler; raise repository_error) else raise e

-- `_require_dataset`
abbrev pub require_dataset : Str → Result (Unit {0})
require_dataset dataset_id = refuse (not (str_eq dataset_id postgres_dataset_id)) value_error

abbrev pub state_or_none : Option (List Value) → Result (Option GoldSyncState)
state_or_none none = ok none
state_or_none (some row) = bind (state_from_row row) (λ s. ok (some s))

abbrev pub present_time : Option Datetime → Result Datetime
present_time none = err value_error
present_time (some t) = ok t

abbrev pub digest_from_row : List Value → Result GoldRowDigest
digest_from_row (a ∷ b ∷ []) = bind (as_datetime a) (λ time.
    bind (present_time time)
      (λ timestamp. bind (as_text b) (λ sha256. gold_row_digest timestamp sha256)))
digest_from_row _ = err value_error

abbrev pub for_each : {A : Type 0} → (A → Action Unit) → List A → Action Unit
for_each f [] = pure tt
for_each f (x ∷ xs) = do f x; for_each f xs

abbrev pub same_summary : GoldTargetSummary → GoldTargetSummary → Bool
same_summary a b =
    int_eq a.row_count b.row_count
    && (eq_option datetime_eq a.min_timestamp b.min_timestamp
        && eq_option datetime_eq a.max_timestamp b.max_timestamp)

-- `actual != expected`
abbrev pub verify_summary : GoldSyncState → List Value → Result (Unit {0})
verify_summary state row = bind (summary_from_row row) (λ actual.
    bind
      (gold_target_summary (record {
        row_count = state.row_count;
        min_timestamp = state.min_timestamp;
        max_timestamp = state.max_timestamp;
      }))
      (λ expected. refuse (not (same_summary actual expected)) value_error))

-- `_source_digest_map`
unfoldable pub source_digest_map : List GoldRowDigest → Result (List (Datetime × Str))
source_digest_map digests = digest_map [] digests

abbrev pub all_digested : List (Datetime × Str) → List GoldRowPayload → Result (Unit {0})
all_digested digests [] = ok tt
all_digested digests (row ∷ rows) =
    let rest = all_digested digests rows in
    refuse (not (has_time row.timestamp_m1 digests)) value_error ⨟ rest

module _ (env : Env) where
  -- A call of the client library, which may fail.
  abbrev pub call : Action Unit
  call w = (env.answer w.calls, record w { calls = suc w.calls })

  abbrev pub commit_as : CommitOutcome → Action Unit
  commit_as CommitOutcome.committed w = (ok tt, record w { stored = w.working })
  commit_as (refused e) w = (err e, w)
  commit_as (lost e) w = (err e, record w { stored = w.working })

  -- `connection.commit()`
  abbrev pub commit : Action Unit
  commit w = commit_as (env.commit w.calls) (record w { calls = suc w.calls })

  -- `connection.rollback()`
  abbrev pub rollback : Action Unit
  rollback = do modify (λ (w : World). record w { working = w.stored }); call

  -- `cursor = connection.cursor()`, and `cursor.close()` at the end
  abbrev pub with_cursor : {A : Type 0} → Action A → Action A
  with_cursor body = do call; finally body call

  -- `cursor.execute` of a statement that writes
  abbrev pub execute : Statement → Action Unit
  execute s = do
    call
    after ← (λ (w : World). (run_statement s w.working, w))
    modify (λ (w : World). record w { working = after })

  -- `cursor.execute` of a query, and `fetchone` or `fetchall`
  abbrev pub query : {A : Type 0} → (Tables → A) → Action A
  query select = do call; call; gets (λ (w : World). select w.working)

  -- `_open`: the connection, and the session's time zone; a transaction begins.
  unfoldable pub open_connection : Action Unit
  open_connection =
      catch (do call; with_cursor call; modify (λ (w : World). record w { working = w.stored }))
        (sanitized (pure tt))

  -- What is done with a connection, which is closed in the end.
  abbrev pub with_connection : {A : Type 0} → Action A → Action Unit → Action A
  with_connection body handler = do open_connection; finally (catch body (sanitized handler)) call

  -- The three statements create what is not there yet.
  unfoldable pub ensure_schema : Action Unit
  unfolding open_connection
  ensure_schema = with_connection (do with_cursor (do call; call; call); commit) rollback

  unfoldable pub read_state : Str → Action (Option GoldSyncState)
  unfolding open_connection state_from_row
  read_state dataset_id = do
    lift (require_dataset dataset_id)
    with_connection
        (do row ← with_cursor (query (select_state dataset_id)); lift (state_or_none row)) (pure tt)

  unfoldable pub read_digests : Str → Action (List GoldRowDigest)
  unfolding open_connection as_datetime as_text gold_row_digest select_digests
  read_digests dataset_id = do
    lift (require_dataset dataset_id)
    with_connection
        (do
          rows ← with_cursor (query (select_digests dataset_id))
          lift (traverse digest_from_row rows))
        (pure tt)

  unfoldable pub summary : Str → Action GoldTargetSummary
  unfolding open_connection summary_from_row target_summary
  summary dataset_id = do
    lift (require_dataset dataset_id)
    with_connection (do row ← with_cursor (query target_summary); lift (summary_from_row row))
        (pure tt)

  -- `cursor.execute(_UPSERT_DIGEST_SQL, ...)` for a row of the source
  abbrev pub record_digest : Str → List (Datetime × Str) → GoldRowPayload → Action Unit
  record_digest dataset_id digests row = do
    sha256 ← lift (or_key_error (at_time row.timestamp_m1 digests))
    execute (upsert_digest dataset_id row.timestamp_m1 sha256)

  -- The statements of a delta, up to the commit.
  unfoldable pub write_delta :
      Str → GoldDeltaPlan → GoldSyncState → List (Datetime × Str) → Action Unit
  unfolding run_statement target_summary summary_from_row gold_target_summary
  write_delta dataset_id plan state digests = do
    call
    for_each (λ row. execute (insert_row row)) plan.inserts
    for_each (λ row. execute (update_row row)) plan.updates
    for_each (λ time. execute (delete_row time)) plan.deletes
    for_each (record_digest dataset_id digests) (plan.inserts ++ plan.updates)
    for_each (λ time. execute (delete_digest dataset_id time)) plan.deletes
    row ← query target_summary
    lift (verify_summary state row)
    execute (upsert_state state)

  unfoldable pub apply_delta : Str → GoldDeltaPlan → GoldSyncState → Action Unit
  unfolding open_connection write_delta source_digest_map
  apply_delta dataset_id plan state = do
    lift (require_dataset dataset_id)
    lift (refuse (not (str_eq state.dataset_id dataset_id)) value_error)
    digests ← lift (source_digest_map plan.source_digests)
    lift (all_digested digests (plan.inserts ++ plan.updates))
    with_connection (do with_cursor (write_delta dataset_id plan state digests); commit) rollback
