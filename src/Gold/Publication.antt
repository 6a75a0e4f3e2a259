-- ===== src/Gold/Publication.antt =====
-- application/gold_publication.py: `GoldPublisher`, whose catalog replacement is the only commit.
pub mod Rows
pub mod Promotion
pub mod Currents
pub mod Commit
pub mod Attempt
pub mod Atomicity
use market_regime_loader.Prelude.{
  ℕ, ℤ, pos, int_eq, Str, codes, str_eq, mem_str, Datetime, Bool, true, false, not, ◌&&◌, ◌||◌,
  Option, none, some, List, [], ◌∷◌, ◌++◌, map, ◌==◌, if◌then◌else◌, length, keep, any, find,
}
use market_regime_loader.Prelude.Effects.{
  Exn, Result, ok, err, value_error, stop_iteration, bind, refuse, ◌⨟◌, pure, raise, lift, catch,
  ◌>>=◌, ◌>>◌,
}
use market_regime_loader.Catalog.Rows.{
  GoldBuildStatus, GoldCatalogRecord, GoldCompatibility, is_building,
}
use market_regime_loader.Gold.Ports.{
  GoldPublicationBundle, Event, stale_building_failed, views_reconciled, catalog_building,
  views_building, bundle_validated, catalog_promoted, views_promoted, views_promoted_failed,
  mirror_synchronized, catalog_failed, views_failed, views_failed_refresh_error, Env, Action, call,
  utc, utc_now, read_catalog, replace_catalog, refresh_views, report, sync_with,
}

abbrev pub dataset : Str
dataset = codes "regime_features_daily"

abbrev pub gold_schema_version : ℤ
gold_schema_version = pos 1

abbrev pub gold_feature_version : ℤ
gold_feature_version = pos 1

-- The versions that this code writes, as a consumer asks for them.
abbrev pub gold_compatibility : GoldCompatibility
gold_compatibility = record {
  schema_version = gold_schema_version;
  feature_version = gold_feature_version;
}

abbrev pub same_id : Str → GoldCatalogRecord → Bool
same_id build_id r = str_eq r.build_id build_id

abbrev pub is_stale : GoldCatalogRecord → Bool
is_stale r = is_building r.status && not r.current

abbrev pub is_current_building : GoldCatalogRecord → Bool
is_current_building r = r.current && is_building r.status

-- The row of an attempt that failed: nothing of the build is kept.
abbrev pub failed_row : Datetime → GoldCatalogRecord → GoldCatalogRecord
failed_row failed_at r = record r {
  status = GoldBuildStatus.failed;
  current = false;
  completed_at_utc = some failed_at;
  min_timestamp = none;
  max_timestamp = none;
  row_count = none;
  data_path = none;
  build_manifest_path = none;
  plot_path = none;
  pruned_at_utc = none;
}

abbrev pub fail_listed : List Str → Datetime → GoldCatalogRecord → GoldCatalogRecord
fail_listed stale_ids failed_at r =
    if mem_str r.build_id stale_ids then failed_row failed_at r else r

abbrev pub building_row : Str → Datetime → GoldCatalogRecord
building_row build_id started_at = record {
  dataset_id = dataset;
  build_id = build_id;
  status = GoldBuildStatus.building;
  current = false;
  started_at_utc = started_at;
  completed_at_utc = none;
  schema_version = gold_schema_version;
  feature_version = gold_feature_version;
  min_timestamp = none;
  max_timestamp = none;
  row_count = none;
  data_path = none;
  build_manifest_path = none;
  plot_path = none;
  pruned_at_utc = none;
}

abbrev pub complete_row : GoldPublicationBundle → Datetime → GoldCatalogRecord → GoldCatalogRecord
complete_row candidate completed attempt = record attempt {
  status = GoldBuildStatus.complete;
  current = true;
  completed_at_utc = some completed;
  schema_version = candidate.schema_version;
  feature_version = candidate.feature_version;
  min_timestamp = candidate.min_timestamp;
  max_timestamp = candidate.max_timestamp;
  row_count = some candidate.row_count;
  data_path = some candidate.data_path;
  build_manifest_path = some candidate.build_manifest_path;
  plot_path = some candidate.plot_path;
  pruned_at_utc = none;
}

abbrev pub demote : GoldCatalogRecord → GoldCatalogRecord
demote r = if r.current then record r { current = false } else r

abbrev pub promote_row : Str → GoldCatalogRecord → GoldCatalogRecord → GoldCatalogRecord
promote_row build_id complete r = if same_id build_id r then complete else demote r

abbrev pub promote_attempt :
    GoldPublicationBundle
    → List GoldCatalogRecord
    → List GoldCatalogRecord
    → Result (List GoldCatalogRecord)
promote_attempt candidate registered [] = err value_error
promote_attempt candidate registered (_ ∷ _ ∷ _) = err value_error
promote_attempt candidate registered (attempt ∷ []) =
    refuse (not (is_building attempt.status) || attempt.current) value_error
    ⨟ bind (utc candidate.completed_at_utc) (λ completed.
      ok (
        map (promote_row candidate.build_id (complete_row candidate completed attempt)) registered))

-- `_promoted_records`
unfoldable pub promoted_records :
    List GoldCatalogRecord → GoldPublicationBundle → Result (List GoldCatalogRecord)
promoted_records registered candidate =
    refuse (not (int_eq candidate.schema_version gold_schema_version)) value_error
    ⨟ refuse (not (int_eq candidate.feature_version gold_feature_version)) value_error
    ⨟ promote_attempt candidate registered (keep (same_id candidate.build_id) registered)

abbrev pub or_stop : Option GoldCatalogRecord → Result GoldCatalogRecord
or_stop none = err stop_iteration
or_stop (some r) = ok r

module _ {Frame : Type 0} (env : Env Frame) where
  abbrev pub fail_stale :
      List GoldCatalogRecord → List GoldCatalogRecord → Action (List GoldCatalogRecord)
  fail_stale [] records = pure records
  fail_stale (s ∷ stale) records = do
    failed_at ← utc_now env
    let updated = map (fail_listed (map (λ r. r.build_id) (s ∷ stale)) failed_at) records
    replace_catalog env updated
    report env stale_building_failed
    pure updated

  unfoldable pub reconcile : Action (List GoldCatalogRecord)
  unfolding utc_now read_catalog replace_catalog refresh_views report
  reconcile = do
    records ← read_catalog env
    lift (refuse (any is_current_building records) value_error)
    updated ← fail_stale (keep is_stale records) records
    refresh_views env updated
    report env views_reconciled
    pure updated

  abbrev pub finish_attempt : Str → List GoldCatalogRecord → Option GoldCatalogRecord → Action Unit
  finish_attempt build_id records none = pure tt
  finish_attempt build_id records (some target) =
      if not (is_building target.status) then pure tt else do
        failed_at ← utc_now env
        let updated =
            map (λ r. if same_id build_id r then failed_row failed_at target else r) records
        replace_catalog env updated
        report env catalog_failed
        catch (do refresh_views env updated; report env views_failed)
            (λ _. report env views_failed_refresh_error)

  -- `_finalize_failed_if_uncommitted`
  unfoldable pub finalize_failed_if_uncommitted : Str → Action Unit
  unfolding utc_now read_catalog replace_catalog refresh_views report
  finalize_failed_if_uncommitted build_id = do
    records ← read_catalog env
    finish_attempt build_id records (find (same_id build_id) records)

  -- The body of the first `try` of `publish`.
  unfoldable pub attempt :
      Frame → Str → Datetime → List GoldCatalogRecord → Action (List GoldCatalogRecord)
  unfolding replace_catalog refresh_views report promoted_records
  attempt frame build_id started_at registered = do
    refresh_views env registered
    report env views_building
    candidate ← call (λ n. env.create_and_validate n frame build_id started_at)
    report env bundle_validated
    promoted ← lift (promoted_records registered candidate)
    replace_catalog env promoted
    report env catalog_promoted
    pure promoted

  -- `publish`, from the second `try` on.
  unfoldable pub announce : Str → List GoldCatalogRecord → Action GoldCatalogRecord
  unfolding refresh_views report
  announce build_id promoted = do
    current ← lift (or_stop (find (same_id build_id) promoted))
    catch (do refresh_views env promoted; report env views_promoted)
        (λ e. do report env views_promoted_failed; raise e)
    sync_with env env.mirror (report env mirror_synchronized)
    pure current

  -- `publish`, from the registration of the attempt to the end of the first `try`.
  unfoldable pub register_and_build :
      Frame → Str → Datetime → List GoldCatalogRecord → Action (List GoldCatalogRecord)
  unfolding replace_catalog report attempt finalize_failed_if_uncommitted
  register_and_build frame build_id started_at records = do
    let registered = records ++ building_row build_id started_at ∷ []
    replace_catalog env registered
    report env catalog_building
    catch (attempt frame build_id started_at registered)
        (λ e. do finalize_failed_if_uncommitted build_id; raise e)

  unfoldable pub publish : Frame → Action GoldCatalogRecord
  unfolding reconcile utc_now register_and_build announce
  publish frame = do
    records ← reconcile
    build_id ← call env.next_build_id
    started_at ← utc_now env
    promoted ← register_and_build frame build_id started_at records
    announce build_id promoted
