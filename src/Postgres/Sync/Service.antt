-- ===== src/Postgres/Sync/Service.antt =====
-- application/postgres_sync_service.py: GoldPostgresDeltaSync.sync as a whole.
use mathlib.Core.Path.{subst}
use market_regime_loader.Prelude.{
  ℤ, naive, aware, ℕ, ◌≡◌, refl, ap, ◌∙◌, ◌⊎◌, inl, inr, Str, str_eq, Datetime, Option, none, some,
  List, map, Bool-cases, is_some, is_none, not, ◌||◌, ◌&&◌, pos, int_eq, is_negative, below_one,
  All, if◌then◌else◌,
}
use market_regime_loader.Prelude.Effects.{ok, ok-injective, bind-eq-ok, refuse-eq-ok, value_error}
use market_regime_loader.Prelude.Hoare.{Post, Post-continue, Post-weaken, Post-lift}
use market_regime_loader.Catalog.Rows.{GoldCatalogRecord}
use market_regime_loader.Postgres.Contracts.{
  GoldRowDigest, GoldSyncState, postgres_dataset_id, gold_sync_state, not_sha256,
  select_current_sync_record, utc, utc_or_none, precedes,
}
use market_regime_loader.Postgres.Delta.{at_time, digest_entry}
use market_regime_loader.Postgres.Delta.Total.{AwareDigest}
use market_regime_loader.Postgres.Repository.Lookup.{stored_digest}
use market_regime_loader.Postgres.Tables.{Tables, select_state}
use market_regime_loader.Postgres.Repository.{
  World, ensure_schema, read_state, read_digests, state_or_none,
}
use market_regime_loader.Postgres.Repository
use market_regime_loader.Postgres.Repository.Session.{Stores}
use market_regime_loader.Postgres.Repository.Apply.{lift-then, ensure_schema-Stores}
use market_regime_loader.Postgres.Repository.Reads.{read_state-Stores, read_digests-Stores}
use market_regime_loader.Postgres.Replica.{IsConsistent}
use market_regime_loader.Postgres.Sync.{
  Env, postgres_repository, required_data_path, validate_sha256, or_source_error, aware_now,
  desired_state, require_state_compatible, check_target, is_same, same_data, refresh, replace,
  reconcile_state, sync, state_for,
}
use market_regime_loader.Postgres.Sync.Replication.{
  or_source_error-eq-ok, ask-then, Untouched, Synced, Outcome, refresh-Outcome, replace-Outcome,
}

module _ (env : Env) (db : Repository.Env) where
  reconcile_state-Outcome :
      (before : Tables) (path : Str) (r : GoldCatalogRecord) (desired : GoldSyncState) (w : World)
      → w.stored ≡ before
      → IsConsistent env.sha256 postgres_dataset_id before
      → Outcome env db before path r desired
          (reconcile_state env (postgres_repository db) r path desired w)
  unfolding reconcile_state Outcome
  reconcile_state-Outcome before path r desired w e consistent =
      Post-continue _ (read_state db postgres_dataset_id w)
        (read_state-Stores db postgres_dataset_id w)
        (λ prior w1 (known, same1).
          lift-then (require_state_compatible prior desired) _ w1
            (λ _ _.
              Post-continue _ (read_digests db postgres_dataset_id w1)
                (read_digests-Stores db postgres_dataset_id w1)
                (λ digests w2 (found, there, same2).
                  lift-then (check_target prior digests) _ w2
                    (λ _ _.
                      chosen prior digests w2 (same2 ∙ same1 ∙ e) (rw (← e) known)
                        (λ j.
                          found j
                          ∙ ap (λ (t : Tables). stored_digest postgres_dataset_id t j) (same1 ∙ e))
                        there)
                    (λ _. inl (same2 ∙ same1 ∙ e)))
                (λ _ w2 same2. inl (same2 ∙ same1 ∙ e)))
            (λ _. inl (same1 ∙ e)))
        (λ _ w1 same1. inl (same1 ∙ e))
    where
      chosen :
          (prior : Option GoldSyncState) (digests : List GoldRowDigest) (w : World)
          → w.stored ≡ before
          → state_or_none (select_state postgres_dataset_id before) ≡ ok prior
          → ((j : Datetime)
              → at_time j (map digest_entry digests) ≡ stored_digest postgres_dataset_id before j)
          → All AwareDigest digests
          → Outcome env db before path r desired (
              (if is_same prior desired
                  then refresh env (postgres_repository db) r desired
                  else replace env (postgres_repository db) r path desired prior digests)
                w)
      chosen none digests w e known found there =
          replace-Outcome env db before path r desired none digests w e consistent found there
      chosen (some prior) digests w e known found there =
          elim (Bool-cases (same_data prior desired)) [
            | inl same ↦ rw same (refresh-Outcome env db before path r desired prior w e known same)
            | inr other ↦ rw other (
                replace-Outcome env db before path r desired (some prior) digests w e consistent
                  found there)
          ]

utc-same : (t : Datetime) {u : Datetime} → utc t ≡ ok u → t ≡ u
utc-same (naive n) h = cc
utc-same (aware n) h = ok-injective h

utc_or_none-same : (t : Option Datetime) {u : Option Datetime} → utc_or_none t ≡ ok u → t ≡ u
utc_or_none-same none h = ok-injective h
utc_or_none-same (some t) h =
    let (u, e, h1) = bind-eq-ok (utc t) _ h in ap some (utc-same t e) ∙ ok-injective h1

-- A checked state is the one that was given.
gold_sync_state-same : (s desired : GoldSyncState) → gold_sync_state s ≡ ok desired → s ≡ desired
unfolding gold_sync_state
gold_sync_state-same s desired h =
    let (named, h1) =
      refuse-eq-ok (not (str_eq s.dataset_id postgres_dataset_id)) value_error _ h in
    let (hashed, h2) = refuse-eq-ok (not_sha256 s.data_sha256) value_error _ h1 in
    let (counted, h3) = refuse-eq-ok (is_negative s.row_count) value_error _ h2 in
    let (synced, at, h4) = bind-eq-ok (utc s.synced_at_utc) _ h3 in
    let (minimum, first, h5) = bind-eq-ok (utc_or_none s.min_timestamp) _ h4 in
    let (maximum, last, h6) = bind-eq-ok (utc_or_none s.max_timestamp) _ h5 in
    let (empty, h7) =
      refuse-eq-ok (int_eq s.row_count (pos 0) && (is_some minimum || is_some maximum)) value_error
        _ h6 in
    let (full, h8) =
      refuse-eq-ok (not (below_one s.row_count) && (is_none minimum || is_none maximum)) value_error
        _ h7 in
    let (ordered, h9) = refuse-eq-ok (precedes maximum minimum) value_error _ h8 in
    with_times s synced minimum maximum (utc-same s.synced_at_utc at)
      (utc_or_none-same s.min_timestamp first) (utc_or_none-same s.max_timestamp last)
    ∙ ok-injective h9
  where
    with_times :
        (s : GoldSyncState) (synced : Datetime) (minimum maximum : Option Datetime)
        → s.synced_at_utc ≡ synced
        → s.min_timestamp ≡ minimum
        → s.max_timestamp ≡ maximum
        → s ≡ record s { synced_at_utc = synced; min_timestamp = minimum; max_timestamp = maximum }
    with_times s synced minimum maximum e f g = rw (← e, ← f, ← g) refl

-- The state is the one of the build of the catalog and of the hash of its file.
pub record StateFor (r : GoldCatalogRecord) (data_sha256 : Str) (desired : GoldSyncState)
    : Type 0 where
  pub of_dataset : desired.dataset_id ≡ postgres_dataset_id
  pub of_build : desired.source_build_id ≡ r.build_id
  pub of_data : desired.data_sha256 ≡ data_sha256
  pub of_schema : desired.schema_version ≡ r.schema_version
  pub of_feature : desired.feature_version ≡ r.feature_version
  pub of_rows : r.row_count ≡ some desired.row_count
  pub of_minimum : desired.min_timestamp ≡ r.min_timestamp
  pub of_maximum : desired.max_timestamp ≡ r.max_timestamp

state_for-StateFor :
    (r : GoldCatalogRecord) (data_sha256 : Str) (row_count : ℤ) (synced : Datetime)
    → r.row_count ≡ some row_count
    → StateFor r data_sha256 (state_for r data_sha256 row_count synced)
state_for-StateFor r data_sha256 row_count synced e = record {
  of_dataset = refl;
  of_build = refl;
  of_data = refl;
  of_schema = refl;
  of_feature = refl;
  of_rows = e;
  of_minimum = refl;
  of_maximum = refl;
}

module _ (env : Env) (db : Repository.Env) where
  Untouched-IsConsistent :
      (before t : Tables)
      → IsConsistent env.sha256 postgres_dataset_id before
      → Untouched before t
      → IsConsistent env.sha256 postgres_dataset_id t
  Untouched-IsConsistent before t h same j =
      let (values, digest) = same j in rw (values, digest) (h j)

  Synced-IsConsistent :
      (before t : Tables) (path : Str) (r : GoldCatalogRecord) (desired : GoldSyncState)
      → IsConsistent env.sha256 postgres_dataset_id before
      → Synced env before path r desired t
      → IsConsistent env.sha256 postgres_dataset_id t
  Synced-IsConsistent before t path r desired h (states, how) = elim how [
    | inl (prior, known, same, untouched) ↦ Untouched-IsConsistent before t h untouched
    | inr (n, frame, pairs, read, valid, rows, mirrors) ↦ λ j. (mirrors j).1
  ]

  -- The build was selected from a catalog that was read, and the replica is in step with it.
  abbrev pub InStep : Tables → Tables → Type 0
  InStep before t =
      (n : ℕ) × (m : ℕ) × (records : List GoldCatalogRecord) × (r : GoldCatalogRecord)
      × (path : Str) × (data_sha256 : Str) × (desired : GoldSyncState) × (env.read_catalog n
          ≡ ok records)
      × (select_current_sync_record records ≡ ok r)
      × (required_data_path r ≡ ok path)
      × (env.sha256_path m path ≡ ok data_sha256)
      × StateFor r data_sha256 desired
      × Synced env before path r desired t

  desired_state-Post :
      (r : GoldCatalogRecord) (data_sha256 : Str) (w : World)
      → Post
          (λ desired w'. StateFor r data_sha256 desired × (w'.stored ≡ w.stored))
          (λ _ w'. w'.stored ≡ w.stored)
          (desired_state env (postgres_repository db) r data_sha256 w)
  unfolding desired_state
  desired_state-Post r data_sha256 w =
      lift-then (or_source_error r.row_count) _ w
        (λ row_count counted.
          ask-then env.clock _ w
            (λ now _ w1 _ e.
              lift-then (aware_now now) _ w1
                (λ synced_at_utc _.
                  Post-lift _ w1
                    (λ desired made. (
                      subst (StateFor r data_sha256)
                          (gold_sync_state-same (state_for r data_sha256 row_count synced_at_utc)
                            desired made)
                          (state_for-StateFor r data_sha256 row_count synced_at_utc
                            (or_source_error-eq-ok r.row_count counted)),
                      e,
                    ))
                    (λ _. e))
                (λ _. e))
            (λ _ w1 e. e))
        (λ _. refl)

  -- A synchronisation of a consistent replica that returns has left it in step with the current
  -- build of the catalog: its state has the build, the versions, the number of rows and the first and last
  -- time of the build and the hash of the file at its path, and either the state that was known before
  -- has the same hash, versions, number of rows and times and nothing but the state was touched, or the
  -- digests are those of a frame that was read from the path and has as many rows and the same first
  -- and last time as the catalog says. One that raises, at whatever call, has left everything
  -- as it was, or has left the replica in step. In both cases every digest is the one of the row beside
  -- it.
  pub sync-Stores :
      (w : World)
      → IsConsistent env.sha256 postgres_dataset_id w.stored
      → Stores
          (λ _ t. InStep w.stored t × IsConsistent env.sha256 postgres_dataset_id t)
          (λ t.
            ((t ≡ w.stored) ⊎ InStep w.stored t) × IsConsistent env.sha256 postgres_dataset_id t)
          (sync env (postgres_repository db) w)
  unfolding sync Outcome
  sync-Stores w consistent =
      Post-continue _ (ensure_schema db w) (ensure_schema-Stores db w)
        (λ _ w1 e1.
          ask-then env.read_catalog _ w1
            (λ records n w2 read e2.
              lift-then (select_current_sync_record records) _ w2
                (λ r selected.
                  lift-then (required_data_path r) _ w2
                    (λ path located.
                      ask-then (λ n. env.sha256_path n path) _ w2
                        (λ data_sha256 m w3 hashed e3.
                          lift-then (validate_sha256 data_sha256) _ w3
                            (λ _ _.
                              Post-continue _
                                (desired_state env (postgres_repository db) r data_sha256 w3)
                                (desired_state-Post r data_sha256 w3)
                                (λ desired w4 (chosen, e4).
                                  Post-weaken _
                                    (reconcile_state-Outcome env db w.stored path r desired w4
                                      (e4 ∙ e3 ∙ e2 ∙ e1) consistent)
                                    (λ _ w5 synced. (
                                      (
                                        n, m, records, r, path, data_sha256, desired, read,
                                        selected, located, hashed, chosen, synced,
                                      ),
                                      Synced-IsConsistent w.stored w5.stored path r desired
                                          consistent synced,
                                    ))
                                    (λ _ w5 k. elim k [
                                      | inl kept ↦ same w5.stored kept
                                      | inr synced ↦ (
                                        inr (
                                          n, m, records, r, path, data_sha256, desired, read,
                                          selected, located, hashed, chosen, synced,
                                        ),
                                        Synced-IsConsistent w.stored w5.stored path r desired
                                            consistent synced,
                                      )
                                    ]))
                                (λ _ w4 e4. same w4.stored (e4 ∙ e3 ∙ e2 ∙ e1)))
                            (λ _. same w3.stored (e3 ∙ e2 ∙ e1)))
                        (λ _ w3 e3. same w3.stored (e3 ∙ e2 ∙ e1)))
                    (λ _. same w2.stored (e2 ∙ e1)))
                (λ _. same w2.stored (e2 ∙ e1)))
            (λ _ w2 e2. same w2.stored (e2 ∙ e1)))
        (λ _ w1 e1. same w1.stored e1)
    where
      same :
          (t : Tables)
          → t ≡ w.stored
          → ((t ≡ w.stored) ⊎ InStep w.stored t) × IsConsistent env.sha256 postgres_dataset_id t
      same t e = (inl e, rw e consistent)
