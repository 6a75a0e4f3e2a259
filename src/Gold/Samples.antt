-- ===== src/Gold/Samples.antt =====
-- Runs of the publisher, the retention service and the catalog on small catalogs.
use market_regime_loader.Prelude.{
  ℕ, ◌+◌, ◌≡◌, ◌⊎◌, refl, Bool, true, false, ◌&&◌, ◌||◌, some, List, [], ◌∷◌, Str, codes, str_lt,
  str_eq, aware, datetime_lt, datetime_eq, pos, arith, ◌==◌, if◌then◌else◌,
}
use market_regime_loader.Prelude.Effects.{ok, err, external}
use market_regime_loader.Prelude.Hoare.{Post}
use market_regime_loader.Prelude.Sorting.{sort_by}
use market_regime_loader.Prelude.Sorting.Laws.{sort_by-perm}
use market_regime_loader.Catalog.Rows.{GoldBuildStatus, GoldCatalogRecord}
use market_regime_loader.Catalog.Resolution.{strict_current}
use market_regime_loader.Catalog.Validity.{IsSort}
use market_regime_loader.Gold.Ports.{
  Env, World, GoldPublicationBundle, WriteOutcome, written, write_failed, stored,
}
use market_regime_loader.Gold.Publication.{building_row, gold_compatibility, publish}
use market_regime_loader.Gold.Calm.{sweeps}
use market_regime_loader.Gold.Publication.Currents.{currents}
use market_regime_loader.Gold.Retention.{GoldRetentionResult, select_in_group, run_retention}
use market_regime_loader.Gold.Retention.Selection.{Selects, select_in_group-Selects}
use market_regime_loader.Gold.Retention.Service.{Swept, run_retention-Post}
use market_regime_loader.Gold.Publication.Atomicity.{
  Publishes, Unchanged, publish_returns, publish_raises,
}

abbrev row_lt : GoldCatalogRecord → GoldCatalogRecord → Bool
row_lt r s =
    datetime_lt r.started_at_utc s.started_at_utc
    || (datetime_eq r.started_at_utc s.started_at_utc && str_lt r.build_id s.build_id)

abbrev by_start : List GoldCatalogRecord → List GoldCatalogRecord
by_start records = sort_by row_lt records

by_start-IsSort : IsSort by_start
by_start-IsSort = record { reorders = sort_by-perm row_lt }

-- A complete build, which started and was completed at the given hours.
abbrev pub complete_build : Str → ℕ → ℕ → Bool → GoldCatalogRecord
complete_build build_id started completed current = record (building_row build_id (aware started)) {
  status = GoldBuildStatus.complete;
  current = current;
  completed_at_utc = some (aware completed);
  row_count = some (pos 10);
  data_path = some (codes "data");
  build_manifest_path = some (codes "manifest");
  plot_path = some (codes "plot");
}

abbrev bundle_of : Str → GoldPublicationBundle
bundle_of build_id = record {
  build_id = build_id;
  completed_at_utc = aware 90;
  schema_version = pos 1;
  feature_version = pos 1;
  row_count = pos 20;
  min_timestamp = some (aware 1);
  max_timestamp = some (aware 80);
  data_path = codes "d";
  build_manifest_path = codes "m";
  plot_path = codes "p";
}

-- Every call succeeds but the writes that `writes` refuses.
abbrev pub sample_env : (ℕ → WriteOutcome) → Env Unit
sample_env writes = record {
  sort_rows = by_start;
  clock = λ n. ok (aware (50 + n));
  catalog_read = λ n. ok tt;
  catalog_write = writes;
  refresh = λ n records. ok tt;
  next_build_id = λ n. ok (codes "c");
  create_and_validate = λ n frame build_id started_at. ok (bundle_of build_id);
  mirror = some (λ n. ok tt);
  sweep = λ n build_id. ok tt;
  sink = λ n event. ok tt;
}

-- Build `a` is current, and an attempt at build `b` was interrupted.
abbrev pub interrupted : World
interrupted = record {
  file = some (complete_build (codes "a") 10 20 true ∷ building_row (codes "b") (aware 30) ∷ []);
  calls = 0;
  trace = [];
}

abbrev pub good_writes : ℕ → WriteOutcome
good_writes n = written

-- The write that promotes the bundle fails.
abbrev late_failure : ℕ → WriteOutcome
late_failure n = if n == 14 then write_failed (external 7) else written

-- A publication that succeeds.
abbrev published : GoldCatalogRecord
published = record (complete_build (codes "c") 57 90 true) {
  row_count = some (pos 20);
  min_timestamp = some (aware 1);
  max_timestamp = some (aware 80);
  data_path = some (codes "d");
  build_manifest_path = some (codes "m");
  plot_path = some (codes "p");
}

abbrev pub after_publish : World
unfolding publish str_eq sort_by
after_publish = (publish (sample_env good_writes) tt interrupted).1

publish_succeeds : publish (sample_env good_writes) tt interrupted ≡ (ok published, after_publish)
unfolding publish str_eq sort_by
publish_succeeds = refl

publish_returns_example : Publishes (sample_env good_writes) tt published after_publish
publish_returns_example =
    publish_returns (sample_env good_writes) by_start-IsSort tt interrupted after_publish published
      publish_succeeds

-- A publication whose promotion cannot be written.
abbrev after_failure : World
unfolding publish str_eq sort_by
after_failure = (publish (sample_env late_failure) tt interrupted).1

publish_fails : publish (sample_env late_failure) tt interrupted ≡ (err (external 7), after_failure)
unfolding publish str_eq sort_by
publish_fails = refl

still_current :
    strict_current (stored after_failure.file) gold_compatibility
    ≡ ok (complete_build (codes "a") 10 20 true)
unfolding publish strict_current str_eq sort_by
still_current = refl

publish_raises_example :
    Unchanged interrupted after_failure
    ⊎ ((r : GoldCatalogRecord) × Publishes (sample_env late_failure) tt r after_failure)
publish_raises_example =
    publish_raises (sample_env late_failure) by_start-IsSort tt interrupted after_failure
      (external 7) publish_fails

-- Three builds of the same versions, the newest of them current.
abbrev three_builds : List GoldCatalogRecord
three_builds =
    complete_build (codes "a") 10 20 false
    ∷ complete_build (codes "b") 30 40 false
    ∷ complete_build (codes "c") 50 60 true
    ∷ []

abbrev full : World
full = record { file = some three_builds; calls = 0; trace = [] }

retention_deletes_oldest :
    sweeps (run_retention (sample_env good_writes) 2 full).1.trace ≡ codes "a" ∷ []
unfolding run_retention str_eq sort_by
retention_deletes_oldest = refl

run_retention-Post_example :
    Post
      (λ (result : GoldRetentionResult) w'.
        (currents w'.file ≡ currents full.file) × Swept full w' result.swept_build_ids)
      (λ _ w'. (ids : List Str) × ((currents w'.file ≡ currents full.file) × Swept full w' ids))
      (run_retention (sample_env good_writes) 2 full)
run_retention-Post_example = run_retention-Post (sample_env good_writes) by_start-IsSort 2 full

select_in_group-Selects_example :
    (selected kept : List GoldCatalogRecord) × (select_in_group 2 three_builds ≡ ok selected)
    × Selects 1 three_builds selected kept
select_in_group-Selects_example =
    select_in_group-Selects 2 three_builds (omega arith)
      ((20, refl), ((40, refl), ((60, refl), tt))) (omega arith)
