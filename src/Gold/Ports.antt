-- ===== src/Gold/Ports.antt =====
-- What the publisher and the retention service are built from: the catalog repository, the clock,
-- the bundle store, the root views, the mirror and the sweeper.
--
-- The world holds the catalog file, and the trace of what was done outside. Everything that the
-- environment decides (a clock reading, a validated bundle, a failing write) is a function of the
-- number of calls made so far, so a theorem for every environment holds for every sequence of
-- faults. An atomic write (ingestion/parquet_repository.py) can fail before the file is replaced, or
-- after it, when the directory cannot be synchronised.
use market_regime_loader.Prelude.{
  ℕ, suc, ℤ, Str, Datetime, naive, aware, Option, none, some, List, [], ◌∷◌, ◌++◌,
}
use market_regime_loader.Prelude.Effects.{
  Exn, Result, ok, err, value_error, Exec, pure, lift, ◌>>=◌, ◌>>◌,
}
use market_regime_loader.Catalog.Rows.{GoldCatalogRecord}
use market_regime_loader.Catalog.Repository.{catalog_frame}

-- `GoldPublicationBundle`
pub record GoldPublicationBundle : Type 0 where
  pub build_id : Str
  pub completed_at_utc : Datetime
  pub schema_version : ℤ
  pub feature_version : ℤ
  pub row_count : ℤ
  pub min_timestamp : Option Datetime
  pub max_timestamp : Option Datetime
  pub data_path : Str
  pub build_manifest_path : Str
  pub plot_path : Str

-- The events that the publisher reports to its sink.
pub data Event : Type 0 where
  stale_building_failed views_reconciled catalog_building views_building : Event
  bundle_validated catalog_promoted views_promoted views_promoted_failed : Event
  mirror_synchronized catalog_failed views_failed views_failed_refresh_error : Event

pub data Effect : Type 0 where
  replaced : List GoldCatalogRecord → Effect
  refreshed : List GoldCatalogRecord → Effect
  mirrored : Effect
  swept : Str → Effect
  reported : Event → Effect

pub data WriteOutcome : Type 0 where
  written : WriteOutcome
  write_failed sync_failed : Exn → WriteOutcome

pub record Env (Frame : Type 0) : Type 0 where
  pub sort_rows : List GoldCatalogRecord → List GoldCatalogRecord
  pub clock : ℕ → Result Datetime
  pub catalog_read : ℕ → Result (Unit {0})
  pub catalog_write : ℕ → WriteOutcome
  pub refresh : ℕ → List GoldCatalogRecord → Result (Unit {0})
  pub next_build_id : ℕ → Result Str
  pub create_and_validate : ℕ → Frame → Str → Datetime → Result GoldPublicationBundle
  pub mirror : Option (ℕ → Result (Unit {0}))
  pub sweep : ℕ → Str → Result (Unit {0})
  pub sink : ℕ → Event → Result (Unit {0})

pub record World : Type 0 where
  pub file : Option (List GoldCatalogRecord)
  pub calls : ℕ
  pub trace : List Effect

abbrev pub Action : Type 0 → Type 0
Action A = Exec World A

abbrev pub call : {A : Type 0} → (ℕ → Result A) → Action A
call f w = (f w.calls, record w { calls = suc w.calls })

abbrev pub log : Effect → Action Unit
log e w = (ok tt, record w { trace = w.trace ++ e ∷ [] })

-- `_utc`
abbrev pub utc : Datetime → Result Datetime
utc (naive _) = err value_error
utc (aware t) = ok (aware t)

abbrev pub stored : Option (List GoldCatalogRecord) → List GoldCatalogRecord
stored none = []
stored (some records) = records

module _ {Frame : Type 0} (env : Env Frame) where
  -- `_utc(self.clock())`
  unfoldable pub utc_now : Action Datetime
  utc_now = do now ← call env.clock; lift (utc now)

  abbrev pub read_file : Option (List GoldCatalogRecord) → Action (List GoldCatalogRecord)
  read_file none = pure []
  read_file (some records) = do
    call env.catalog_read
    lift (catalog_frame env.sort_rows records)
    pure records

  -- `GoldCatalogRepository.read`
  unfoldable pub read_catalog : Action (List GoldCatalogRecord)
  unfolding catalog_frame
  read_catalog w = read_file w.file w

  abbrev pub store : List GoldCatalogRecord → WriteOutcome → Action Unit
  store sorted (write_failed e) w = (err e, w)
  store sorted written w =
      (ok tt, record w { file = some sorted; trace = w.trace ++ replaced sorted ∷ [] })
  store sorted (sync_failed e) w =
      (err e, record w { file = some sorted; trace = w.trace ++ replaced sorted ∷ [] })

  -- `GoldCatalogRepository.replace`, with `atomic_write_parquet`
  unfoldable pub replace_catalog : List GoldCatalogRecord → Action Unit
  unfolding catalog_frame
  replace_catalog records = do
    sorted ← lift (catalog_frame env.sort_rows records)
    outcome ← call (λ n. ok (env.catalog_write n))
    store sorted outcome

  -- `GoldCatalogRepository.append`
  unfoldable pub append_record : GoldCatalogRecord → Action Unit
  unfolding read_catalog replace_catalog
  append_record r = do records ← read_catalog; replace_catalog (records ++ r ∷ [])

  unfoldable pub refresh_views : List GoldCatalogRecord → Action Unit
  refresh_views records = do call (λ n. env.refresh n records); log (refreshed records)

  unfoldable pub report : Event → Action Unit
  report event = do call (λ n. env.sink n event); log (reported event)

  abbrev pub sync_with : Option (ℕ → Result (Unit {0})) → Action Unit → Action Unit
  sync_with none after = pure tt
  sync_with (some sync) after = do call sync; log mirrored; after
