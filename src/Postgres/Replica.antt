-- ===== src/Postgres/Replica.antt =====
-- What PostgreSQL has of the Gold frame after a delta that was planned for it:
-- application/postgres_delta.py with ingestion/postgres_gold_repository.py.
use market_regime_loader.Prelude.{
  ℕ, ◌≡◌, refl, sym, ap, ◌∙◌, inl, inr, arith, Str, str_eq, str_eq→eq, Datetime, datetime_eq,
  datetime_eq_iff, not, ◌&&◌, ◌||◌, Option, none, some, is_some, List, [], ◌∷◌, ◌++◌, map, All,
  Bool-cases, if◌then◌else◌,
}
use market_regime_loader.Prelude.Effects.{ok, refuse-eq-ok, value_error, ok-injective}
use market_regime_loader.Prelude.Items.{set_item, set_items}
use market_regime_loader.Prelude.Items.Laws.{get-set_item, set_item-new}
use market_regime_loader.Postgres.Contracts.{
  GoldRowPayload, GoldRowDigest, GoldDeltaPlan, GoldSyncState, row_timestamps,
}
use market_regime_loader.Postgres.Rows.{gold_row_sha256}
use market_regime_loader.Postgres.Delta.{at_time, has_time, digest_entry, row_entry, digest_map}
use market_regime_loader.Postgres.Delta.Partition.{mem_time}
use market_regime_loader.Postgres.Delta.Plan.{revised, Planned, source_hashes, source_rows}
use market_regime_loader.Postgres.Delta.Total.{Sound}
use market_regime_loader.Postgres.Tables.{Tables}
use market_regime_loader.Postgres.Repository.{source_digest_map}
use market_regime_loader.Postgres.Repository.Lookup.{
  Values, values_of, stored_values, stored_digest,
}
use market_regime_loader.Postgres.Repository.Apply.{Applied}

module _ (sha256 : List ℕ → Str) where
  -- A time has no row and no digest, or a row and the digest of this row.
  abbrev pub Digested : Datetime → Option Values → Option Str → Type 0
  Digested j none none = Unit
  Digested j none (some h) = ⊥
  Digested j (some values) none = ⊥
  Digested j (some values) (some h) =
      gold_row_sha256 sha256 (record { timestamp_m1 = j; values = values }) ≡ ok h

  -- Every digest that is stored is that of the row that is stored.
  abbrev pub IsConsistent : Str → Tables → Type 0
  IsConsistent dataset_id t =
      (j : Datetime) → Digested j (stored_values t j) (stored_digest dataset_id t j)

  Digested-set_items :
      (pairs : List (GoldRowPayload × GoldRowDigest)) (sources : List (Datetime × Str))
      (rows : List (Datetime × GoldRowPayload))
      → ((j : Datetime) → Digested j (values_of (at_time j rows)) (at_time j sources))
      → All (Sound sha256) pairs
      → (j : Datetime)
      → Digested j
          (values_of
            (at_time j (set_items datetime_eq rows (map row_entry (map (λ (r, _). r) pairs)))))
          (at_time j (set_items datetime_eq sources (map digest_entry (map (λ (_, d). d) pairs))))
  Digested-set_items [] sources rows before sound j = before j
  Digested-set_items ((r, d) ∷ pairs) sources rows before sound j =
      Digested-set_items pairs _ _ step sound.1 j
    where
      step :
          (k : Datetime)
          → Digested k
              (values_of (at_time k (set_item datetime_eq r.timestamp_m1 r rows)))
              (at_time k (set_item datetime_eq d.timestamp_m1 d.row_sha256 sources))
      step k =
          let (same, hashed, there) = sound.0 in
          rw
            (
              same,
              get-set_item datetime_eq datetime_eq_iff k r.timestamp_m1 d.row_sha256 sources,
              get-set_item datetime_eq datetime_eq_iff k r.timestamp_m1 r rows,
            )
            (elim (Bool-cases (datetime_eq k r.timestamp_m1)) [
              | inl this ↦ rw (this, (datetime_eq_iff k r.timestamp_m1).0 this) hashed
              | inr other ↦ rw other (before k)
            ])

  pub Digested-source :
      (pairs : List (GoldRowPayload × GoldRowDigest)) (j : Datetime)
      → All (Sound sha256) pairs
      → Digested j
          (values_of (at_time j (source_rows (map (λ (r, _). r) pairs))))
          (at_time j (source_hashes (map (λ (_, d). d) pairs)))
  Digested-source pairs j sound = Digested-set_items pairs [] [] (λ _. tt) sound j

  abbrev change : Option Values → Option Values → Option Values
  change s none = none
  change s (some _) = s

  -- One time of the replica, through the loops: it is inserted, updated, deleted or left alone as
  -- its digests ask.
  time_lem :
      (j : Datetime) (a b : Option Str) (c s : Option Values)
      → Digested j c a
      → Digested j s b
      → (let inserts = is_some b && not (is_some a) in
          let deletes = is_some a && not (is_some b) in
          let inserted = if inserts then s else c in
          let updated = if revised a b then change s inserted else inserted in
          let values = if deletes then none else updated in
          let digest = if deletes then none else (if inserts || revised a b then b else a) in
          (digest ≡ b) × Digested j values digest)
  time_lem j none none none none h k = (refl, tt)
  time_lem j none none (some v) s h k = elim h [ ]
  time_lem j none none none (some v) h k = elim k [ ]
  time_lem j none (some y) none none h k = elim k [ ]
  time_lem j none (some y) (some v) s h k = elim h [ ]
  time_lem j none (some y) none (some v) h k = (refl, k)
  time_lem j (some x) none c s h k = (refl, tt)
  time_lem j (some x) (some y) none s h k = elim h [ ]
  time_lem j (some x) (some y) (some v) none h k = elim k [ ]
  time_lem j (some x) (some y) (some v) (some u) h k = elim (Bool-cases (str_eq x y)) [
    | inl same ↦ rw same (ap some (str_eq→eq x y same), h)
    | inr other ↦ rw other (refl, k)
  ]

digest_map-set_items :
    (by_time : List (Datetime × Str)) (digests : List GoldRowDigest) {m : List (Datetime × Str)}
    → digest_map by_time digests ≡ ok m
    → m ≡ set_items datetime_eq by_time (map digest_entry digests)
digest_map-set_items by_time [] h = sym (ok-injective h)
digest_map-set_items by_time (d ∷ digests) h =
    let (fresh, rest) = refuse-eq-ok (has_time d.timestamp_m1 by_time) value_error _ h in
    digest_map-set_items (by_time ++ digest_entry d ∷ []) digests rest
    ∙ ap (λ e. set_items datetime_eq e (map digest_entry digests))
        (sym (set_item-new datetime_eq datetime_eq_iff d.timestamp_m1 d.row_sha256 by_time fresh))

mem-written :
    (j : Datetime) (xs ys : List GoldRowPayload)
    → mem_time j (row_timestamps (xs ++ ys))
      ≡ mem_time j (row_timestamps xs) || mem_time j (row_timestamps ys)
mem-written j [] ys = refl
mem-written j (x ∷ xs) ys = ground (arith, mem-written j xs ys)

module _ (sha256 : List ℕ → Str) (dataset_id : Str) where
  -- The replica has the digests of the source, and the rows that they are the digests of.
  abbrev pub Mirrors : List GoldRowDigest → Tables → Type 0
  Mirrors digests u =
      (j : Datetime)
      → (stored_digest dataset_id u j ≡ at_time j (source_hashes digests))
        × Digested sha256 j (stored_values u j) (stored_digest dataset_id u j)

  pub Applied-Mirrors :
      (pairs : List (GoldRowPayload × GoldRowDigest)) (target : List (Datetime × Str))
      (plan : GoldDeltaPlan) (state : GoldSyncState) (t u : Tables)
      → All (Sound sha256) pairs
      → Planned (map (λ (r, _). r) pairs) (map (λ (_, d). d) pairs) target plan
      → ((j : Datetime) → at_time j target ≡ stored_digest dataset_id t j)
      → IsConsistent sha256 dataset_id t
      → Applied dataset_id plan state (source_rows (map (λ (r, _). r) pairs)) t u
      → Mirrors (map (λ (_, d). d) pairs) u
  unfolding source_digest_map
  Applied-Mirrors pairs target plan state t u sound (reconciles, from, same) known before
        (digests, e, named, (values, hashes, states, verified)) j =
      let sources = source_hashes (map (λ (_, d). d) pairs) in
      let by_time = source_rows (map (λ (r, _). r) pairs) in
      let (i, r, n, d) = reconciles j in
      let read : at_time j digests ≡ at_time j sources =
        ap (at_time j) (digest_map-set_items [] plan.source_digests e)
        ∙ ap (λ ds. at_time j (source_hashes ds)) same in
      let a = stored_digest dataset_id t j in
      let result =
        time_lem sha256 j a (at_time j sources) (stored_values t j) (values_of (at_time j by_time))
          (before j) (Digested-source sha256 pairs j sound) in
      let i' : mem_time j (row_timestamps plan.inserts)
          ≡ is_some (at_time j sources) && not (is_some a) =
        i ∙ rw (known j) refl in
      let r' : mem_time j (row_timestamps plan.updates) ≡ revised a (at_time j sources) =
        r ∙ rw (known j) refl in
      let d' : mem_time j plan.deletes ≡ is_some a && not (is_some (at_time j sources)) =
        d ∙ rw (known j) refl in
      rw (values j, hashes j, mem-written j plan.inserts plan.updates, i', r', d', read) result
