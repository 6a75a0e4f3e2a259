-- ===== src/Postgres/Sync/Replication.antt =====
-- application/postgres_sync_service.py over ingestion/postgres_gold_repository.py: what the replica is
-- after a synchronisation.
use market_regime_loader.Prelude.{
  ℕ, suc, ℤ, pos, negsuc, int_eq, arith, Bool, false, not, ◌||◌, none, eq_option, datetime_eq,
  datetime_eq_iff, length, str_eq→eq, ap, sym, ◌≡◌, refl, ◌∙◌, ◌⊎◌, inl, inr, Str, str_eq, Datetime,
  true, Option, some, List, [], map, All,
}
use mathlib.Core.Path.{subst}
use market_regime_loader.Prelude.Effects.{
  Exn, Result, ok, err, lift, continue, refuse, bind-eq-ok, refuse-eq-ok, ok-injective,
  sync_source_error,
}
use market_regime_loader.Prelude.Hoare.{Post, Post-continue}
use market_regime_loader.Prelude.Dict.{get}
use market_regime_loader.Catalog.Rows.{GoldCatalogRecord}
use market_regime_loader.Postgres.Contracts.{
  GoldRowPayload, GoldRowDigest, GoldSyncState, GoldSyncResult, postgres_dataset_id,
  gold_delta_plan,
}
use market_regime_loader.Postgres.Rows.{Frame, source_pairs}
use market_regime_loader.Postgres.Delta.{at_time, digest_entry, plan_gold_delta}
use market_regime_loader.Postgres.Delta.Plan.{source_rows}
use market_regime_loader.Postgres.Delta.Total.{AwareDigest}
use market_regime_loader.Postgres.Delta.Inverse.{plan_gold_delta-PlannedFor}
use market_regime_loader.Postgres.Tables.{least_of, greatest_of, Tables, state_params, select_state}
use market_regime_loader.Postgres.Repository.{World, Action, state_or_none, apply_delta}
use market_regime_loader.Postgres.Repository
use market_regime_loader.Postgres.Repository.Session.{Stores}
use market_regime_loader.Postgres.Repository.Lookup.{stored_values, stored_digest}
use market_regime_loader.Postgres.Repository.Apply.{lift-then, Applied, apply_delta-Stores}
use market_regime_loader.Postgres.Replica.{IsConsistent, Mirrors, Applied-Mirrors}
use market_regime_loader.Postgres.Sync.{
  column_times, or_source_error, Env, ask, postgres_repository, validate_frame_metadata, same_data,
  refresh, replace, empty_plan,
}

-- A call that may fail, and what follows.
pub ask-then :
    {A B : Type 0} {R : B → World → Type 0} {F : Exn → World → Type 0} (f : ℕ → Result A)
    (k : A → Action B) (w : World)
    → ((a : A) (n : ℕ) (w' : World) → f n ≡ ok a → w'.stored ≡ w.stored → Post R F (k a w'))
    → ((e : Exn) (w' : World) → w'.stored ≡ w.stored → F e w')
    → Post R F (continue k (ask f w))
ask-then {A} {B} {R} {F} f k w h l = go (f w.calls) refl
  where
    go :
        (r : Result A) → f w.calls ≡ r → Post R F (continue k (r, record w { calls = suc w.calls }))
    go (ok a) e = h a w.calls (record w { calls = suc w.calls }) e refl
    go (err x) e = record { holds = l x (record w { calls = suc w.calls }) refl }

-- No row and no digest is another one.
abbrev pub Untouched : Tables → Tables → Type 0
Untouched before t =
    (j : Datetime)
    → (stored_values t j ≡ stored_values before j)
      × (stored_digest postgres_dataset_id t j ≡ stored_digest postgres_dataset_id before j)

-- The two states are of the same data and versions, whatever the build and the time of their
-- synchronisation.
pub record SameData (prior desired : GoldSyncState) : Type 0 where
  pub same_hash : prior.data_sha256 ≡ desired.data_sha256
  pub same_schema : prior.schema_version ≡ desired.schema_version
  pub same_feature : prior.feature_version ≡ desired.feature_version
  pub same_count : prior.row_count ≡ desired.row_count
  pub same_minimum : prior.min_timestamp ≡ desired.min_timestamp
  pub same_maximum : prior.max_timestamp ≡ desired.max_timestamp

int_eq→eq : (a b : ℤ) → int_eq a b ≡ true → a ≡ b
int_eq→eq (pos a) (pos b) h = ap pos (ground arith)
int_eq→eq (negsuc a) (negsuc b) h = ap negsuc (ground arith)
int_eq→eq (pos a) (negsuc b) h = cc
int_eq→eq (negsuc a) (pos b) h = cc

eq_option→eq : (a b : Option Datetime) → eq_option datetime_eq a b ≡ true → a ≡ b
eq_option→eq none none h = refl
eq_option→eq none (some b) h = cc
eq_option→eq (some a) none h = cc
eq_option→eq (some a) (some b) h = ap some ((datetime_eq_iff a b).0 h)

same_data-SameData :
    (prior desired : GoldSyncState) → same_data prior desired ≡ true → SameData prior desired
unfolding same_data
same_data-SameData prior desired h = record {
  same_hash = str_eq→eq prior.data_sha256 desired.data_sha256 (ground arith);
  same_schema = int_eq→eq prior.schema_version desired.schema_version (ground arith);
  same_feature = int_eq→eq prior.feature_version desired.feature_version (ground arith);
  same_count = int_eq→eq prior.row_count desired.row_count (ground arith);
  same_minimum = eq_option→eq prior.min_timestamp desired.min_timestamp (ground arith);
  same_maximum = eq_option→eq prior.max_timestamp desired.max_timestamp (ground arith);
}

-- The frame has as many rows and the same first and last time as the catalog says.
abbrev pub AsCataloged : Frame → GoldCatalogRecord → Type 0
AsCataloged frame r =
    (times : List Datetime) × (r.row_count ≡ some (pos (length frame.rows)))
    × (column_times frame.rows ≡ ok times)
    × (least_of times ≡ r.min_timestamp)
    × (greatest_of times ≡ r.max_timestamp)

pub or_source_error-eq-ok :
    {A : Type 0} (o : Option A) {a : A} → or_source_error o ≡ ok a → o ≡ some a
or_source_error-eq-ok none h = cc
or_source_error-eq-ok (some b) h = ap some (ok-injective h)

refuse-ok : (test : Bool) (e : Exn) → refuse test e ≡ ok tt → test ≡ false
refuse-ok true e h = cc
refuse-ok false e h = refl

validate_frame_metadata-AsCataloged :
    (frame : Frame) (r : GoldCatalogRecord)
    → validate_frame_metadata frame r ≡ ok tt
    → AsCataloged frame r
unfolding validate_frame_metadata
validate_frame_metadata-AsCataloged frame r h =
    let (row_count, counted, h1) = bind-eq-ok (or_source_error r.row_count) _ h in
    let (same, h2) =
      refuse-eq-ok (not (int_eq (pos (length frame.rows)) row_count)) sync_source_error _ h1 in
    let (times, read, h3) = bind-eq-ok (column_times frame.rows) _ h2 in
    let bounds =
      refuse-ok
        (not (eq_option datetime_eq (least_of times) r.min_timestamp)
          || not (eq_option datetime_eq (greatest_of times) r.max_timestamp))
        sync_source_error h3 in
    (
      times,
      or_source_error-eq-ok r.row_count counted
          ∙ ap some (sym (int_eq→eq (pos (length frame.rows)) row_count (ground arith))),
      read,
      eq_option→eq (least_of times) r.min_timestamp (ground arith),
      eq_option→eq (greatest_of times) r.max_timestamp (ground arith),
    )

module _ (env : Env) where
  -- The state that was known of the replica is of the same data, and only the state is new.
  abbrev pub Refreshed : Tables → GoldSyncState → Tables → Type 0
  Refreshed before desired t =
      (prior : GoldSyncState) × (state_or_none (select_state postgres_dataset_id before)
        ≡ ok (some prior))
      × SameData prior desired
      × Untouched before t

  -- A frame of the path was read that is as the catalog says, and the replica mirrors it.
  abbrev pub Replaced : Str → GoldCatalogRecord → Tables → Type 0
  Replaced path r t =
      (n : ℕ) × (frame : Frame) × (pairs : List (GoldRowPayload × GoldRowDigest)) × (env.read_path n
          path
        ≡ ok frame)
      × AsCataloged frame r
      × (source_pairs env.sha256 env.sort_rows frame ≡ ok pairs)
      × Mirrors env.sha256 postgres_dataset_id (map (λ (_, d). d) pairs) t

  abbrev pub Synced : Tables → Str → GoldCatalogRecord → GoldSyncState → Tables → Type 0
  Synced before path r desired t =
      (get str_eq postgres_dataset_id t.states ≡ some (state_params desired))
      × (Refreshed before desired t ⊎ Replaced path r t)

  abbrev pub Settled : Tables → Str → GoldCatalogRecord → GoldSyncState → Tables → Type 0
  Settled before path r desired t = (t ≡ before) ⊎ Synced before path r desired t

  module _ (db : Repository.Env) (before : Tables) (path : Str) (r : GoldCatalogRecord)
      (desired : GoldSyncState) where
    unfoldable pub Outcome : Result GoldSyncResult × World → Type 0
    Outcome x =
        Stores (λ _ t. Synced before path r desired t) (λ t. Settled before path r desired t) x

    finish_result :
        (result : Result GoldSyncResult) (w : World)
        → Synced before path r desired w.stored
        → Outcome (lift result w)
    unfolding Outcome
    finish_result (ok a) w h = record { holds = h }
    finish_result (err e) w h = record { holds = inr h }

    pub refresh-Outcome :
        (prior : GoldSyncState) (w : World)
        → w.stored ≡ before
        → state_or_none (select_state postgres_dataset_id before) ≡ ok (some prior)
        → same_data prior desired ≡ true
        → Outcome (refresh env (postgres_repository db) r desired w)
    unfolding refresh Outcome gold_delta_plan
    refresh-Outcome prior w e known same =
        Post-continue _ (apply_delta db postgres_dataset_id empty_plan desired w)
          (apply_delta-Stores db postgres_dataset_id empty_plan desired [] w (tt, tt))
          (λ _ w1 (digests, known', named, (values, hashes, states, verified)). finish_result _ w1 (
            rw (← named) states,
            inl (
              prior,
              known,
              same_data-SameData prior desired same,
              λ j. rw (← e) (values j, hashes j),
            ),
          ))
          (λ _ w1 k. elim k [
            | inl kept ↦ inl (kept ∙ e)
            | inr (digests, known', named, (values, hashes, states, verified)) ↦ inr (
              rw (← named) states,
              inl (
                prior,
                known,
                same_data-SameData prior desired same,
                λ j. rw (← e) (values j, hashes j),
              ),
            )
          ])

    pub replace-Outcome :
        (prior : Option GoldSyncState) (digests : List GoldRowDigest) (w : World)
        → w.stored ≡ before
        → IsConsistent env.sha256 postgres_dataset_id before
        → ((j : Datetime)
            → at_time j (map digest_entry digests) ≡ stored_digest postgres_dataset_id before j)
        → All AwareDigest digests
        → Outcome (replace env (postgres_repository db) r path desired prior digests w)
    unfolding replace Outcome
    replace-Outcome prior digests w e consistent known there =
        ask-then (λ n. env.read_path n path) _ w
          (λ frame n w1 read e1.
            lift-then (validate_frame_metadata frame r) _ w1
              (λ _ valid.
                lift-then (plan_gold_delta env.sha256 env.sort_rows frame digests prior) _ w1
                  (λ plan planned.
                    let (pairs, rows, sound, groups) =
                      plan_gold_delta-PlannedFor env.sha256 env.sort_rows frame digests prior plan
                        there planned in
                    let by_time = source_rows (map (λ (r, _). r) pairs) in
                    let done : (t : Tables)
                        → Applied postgres_dataset_id plan desired by_time before t
                        → Synced before path r desired t =
                      λ t applied.
                        let (ds, known', named, (values, hashes, states, verified)) = applied in
                        (
                          rw (← named) states,
                          inr (
                            n,
                            frame,
                            pairs,
                            read,
                            validate_frame_metadata-AsCataloged frame r valid,
                            rows,
                            Applied-Mirrors env.sha256 postgres_dataset_id pairs
                                (map digest_entry digests) plan desired before t sound groups known
                                consistent applied,
                          ),
                        ) in
                    let from : (t : Tables)
                        → Applied postgres_dataset_id plan desired by_time w1.stored t
                        → Synced before path r desired t =
                      λ t applied. done t (
                        subst (λ b. Applied postgres_dataset_id plan desired by_time b t) (e1 ∙ e)
                          applied) in
                    Post-continue _ (apply_delta db postgres_dataset_id plan desired w1)
                      (apply_delta-Stores db postgres_dataset_id plan desired by_time w1 (groups.1))
                      (λ _ w2 applied. finish_result _ w2 (from w2.stored applied))
                      (λ _ w2 k. elim k [
                        | inl kept ↦ inl (kept ∙ e1 ∙ e)
                        | inr applied ↦ inr (from w2.stored applied)
                      ]))
                  (λ _. inl (e1 ∙ e)))
              (λ _. inl (e1 ∙ e)))
          (λ _ w1 e1. inl (e1 ∙ e))
