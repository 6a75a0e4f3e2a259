-- ===== src/Postgres/Delta/Total.antt =====
-- application/postgres_delta.py: plan_gold_delta as a whole, from the frame to the plan.
use market_regime_loader.Prelude.{
  ℕ, ◌≡◌, refl, sym, ap, ◌∙◌, inl, inr, Str, Datetime, datetime_eq, is_aware, aware, naive, true,
  false, not, ◌&&◌, Option, is_none, List, [], ◌∷◌, ◌++◌, map, All, Bool-cases,
}
use mathlib.Core.List.{append_assoc, append-nil}
use market_regime_loader.Prelude.Effects.{
  Result, ok, traverse, value_error, bind-eq-ok, refuse-eq-ok, ok-injective,
}
use market_regime_loader.Prelude.Items.{set_item, set_items, keys_of}
use market_regime_loader.Postgres.Contracts.{
  GoldRowPayload, GoldRowDigest, GoldDeltaPlan, GoldSyncState, utc, gold_row_payload,
  gold_row_digest, not_sha256,
}
use market_regime_loader.Postgres.Rows.{
  RawRow, Frame, source_row, source_pairs, raw_timestamp, raw_value, validate_source_frame,
  source_rows_and_digests, gold_row_sha256,
}
use market_regime_loader.Postgres.Delta.{
  target_digest_map, digest_map, digest_entry, has_time, is_empty, plan_gold_delta,
}
use market_regime_loader.Postgres.Delta.Partition.{Paired}
use market_regime_loader.Postgres.Delta.Plan.{Planned, plan_of-Planned}

pub traverse-All :
    {A B : Type 0} (f : A → Result B) (P : B → Type 0) (xs : List A) {ys : List B}
    → ((x : A) (y : B) → f x ≡ ok y → P y)
    → traverse f xs ≡ ok ys
    → All P ys
traverse-All f P [] h e = rw (← ok-injective e) tt
traverse-All f P (x ∷ xs) h e =
    let (y, here, e1) = bind-eq-ok (f x) _ e in
    let (ys, rest, e2) = bind-eq-ok (traverse f xs) _ e1 in
    rw (← ok-injective e2) (h x y here, traverse-All f P xs h rest)

utc_lem : (t u : Datetime) → utc t ≡ ok u → (u ≡ t) × (is_aware u ≡ true)
utc_lem (aware t) u h = (sym (ok-injective h), rw (← ok-injective h) refl)
utc_lem (naive t) u h = cc

pub gold_row_digest_lem :
    (t : Datetime) (hashed : Str) (d : GoldRowDigest)
    → gold_row_digest t hashed ≡ ok d
    → (d.timestamp_m1 ≡ t)
      × (d.row_sha256 ≡ hashed)
      × (is_aware d.timestamp_m1 ≡ true)
      × (not_sha256 hashed ≡ false)
unfolding gold_row_digest
gold_row_digest_lem t hashed d h =
    let (u, e, h1) = bind-eq-ok (utc t) _ h in
    let (same, there) = utc_lem t u e in
    let (valid, h2) = refuse-eq-ok (not_sha256 hashed) value_error _ h1 in
    rw (← ok-injective h2) (same, refl, there, valid)

-- A row of the source with its digest.
abbrev pub Sound : (List ℕ → Str) → GoldRowPayload × GoldRowDigest → Type 0
Sound sha256 (r, d) =
    (d.timestamp_m1 ≡ r.timestamp_m1)
    × (gold_row_sha256 sha256 r ≡ ok d.row_sha256)
    × (is_aware d.timestamp_m1 ≡ true)

module _ (sha256 : List ℕ → Str) where
  source_row-Sound :
      (raw : RawRow) (pair : GoldRowPayload × GoldRowDigest)
      → source_row sha256 raw ≡ ok pair
      → Sound sha256 pair
  unfolding source_row
  source_row-Sound raw pair h =
      let (t, e1, h1) = bind-eq-ok (raw_timestamp raw.timestamp) _ h in
      let (values, e2, h2) = bind-eq-ok (traverse raw_value raw.features) _ h1 in
      let (payload, e3, h3) = bind-eq-ok (gold_row_payload t values) _ h2 in
      let (hashed, e4, h4) = bind-eq-ok (gold_row_sha256 sha256 payload) _ h3 in
      let (digest, e5, h5) = bind-eq-ok (gold_row_digest payload.timestamp_m1 hashed) _ h4 in
      let (same, digested, there, valid) = gold_row_digest_lem _ hashed digest e5 in
      let whole : pair ≡ (payload, digest) = sym (ok-injective h5) in
      rw whole (same, rw digested e4, there)

  module _ (sort_rows : List RawRow → List RawRow) where
    pub source_rows_and_digests-Sound :
        (frame : Frame) (rows : List GoldRowPayload) (digests : List GoldRowDigest)
        → source_rows_and_digests sha256 sort_rows frame ≡ ok (rows, digests)
        → (pairs : List (GoldRowPayload × GoldRowDigest)) × (source_pairs sha256 sort_rows frame
            ≡ ok pairs)
          × (rows ≡ map (λ (r, _). r) pairs)
          × (digests ≡ map (λ (_, d). d) pairs)
          × All (Sound sha256) pairs
    unfolding source_rows_and_digests source_pairs
    source_rows_and_digests-Sound frame rows digests h =
        let (pairs, e, h1) = bind-eq-ok (source_pairs sha256 sort_rows frame) _ h in
        let whole : (map (λ (r, _). r) pairs, map (λ (_, d). d) pairs) ≡ (rows, digests) =
          ok-injective h1 in
        let (_, there, rest) = bind-eq-ok (validate_source_frame frame) _ e in
        (
          pairs,
          e,
          ap (λ p. p.0) (sym whole),
          ap (λ p. p.1) (sym whole),
          traverse-All (source_row sha256) (Sound sha256) (sort_rows frame.rows) (source_row-Sound)
              rest,
        )

-- The dictionary of the target has the digests as they were read.
digest_map-entries :
    (by_time : List (Datetime × Str)) (digests : List GoldRowDigest) {m : List (Datetime × Str)}
    → digest_map by_time digests ≡ ok m
    → m ≡ by_time ++ map digest_entry digests
digest_map-entries by_time [] h = sym (ok-injective h) ∙ sym (append-nil by_time)
digest_map-entries by_time (d ∷ digests) h =
    let (fresh, rest) = refuse-eq-ok (has_time d.timestamp_m1 by_time) value_error _ h in
    digest_map-entries (by_time ++ digest_entry d ∷ []) digests rest
    ∙ append_assoc by_time (digest_entry d ∷ []) (map digest_entry digests)

pub target_digest_map-entries :
    (digests : List GoldRowDigest) {m : List (Datetime × Str)}
    → target_digest_map digests ≡ ok m
    → m ≡ map digest_entry digests
unfolding target_digest_map
target_digest_map-entries digests h = digest_map-entries [] digests h

abbrev pub AwareDigest : GoldRowDigest → Type 0
AwareDigest d = is_aware d.timestamp_m1 ≡ true

abbrev AwareKeys : List (Datetime × Str) → Type 0
AwareKeys entries = All (λ t. is_aware t ≡ true) (keys_of datetime_eq entries)

keys-entries :
    (digests : List GoldRowDigest) → All AwareDigest digests → AwareKeys (map digest_entry digests)
keys-entries [] h = tt
keys-entries (d ∷ digests) h = (h.0, keys-entries digests h.1)

keys-set_item :
    (t : Datetime) (v : Str) (d : List (Datetime × Str))
    → is_aware t ≡ true
    → AwareKeys d
    → AwareKeys (set_item datetime_eq t v d)
keys-set_item t v [] p h = (p, tt)
keys-set_item t v ((u, w) ∷ d) p h = elim (Bool-cases (datetime_eq t u)) [
  | inl here ↦ rw here (p, h.1)
  | inr other ↦ rw other (h.0, keys-set_item t v d p h.1)
]

keys-set_items :
    (digests : List GoldRowDigest) (d : List (Datetime × Str))
    → AwareKeys d
    → All AwareDigest digests
    → AwareKeys (set_items datetime_eq d (map digest_entry digests))
keys-set_items [] d p h = p
keys-set_items (x ∷ digests) d p h =
    keys-set_items digests _ (keys-set_item x.timestamp_m1 x.row_sha256 d h.0 p) h.1

module _ (sha256 : List ℕ → Str) where
  Sound-Paired :
      (pairs : List (GoldRowPayload × GoldRowDigest)) → All (Sound sha256) pairs → All Paired pairs
  Sound-Paired [] h = tt
  Sound-Paired (p ∷ pairs) h = (h.0.0, Sound-Paired pairs h.1)

  Sound-AwareDigest :
      (pairs : List (GoldRowPayload × GoldRowDigest))
      → All (Sound sha256) pairs
      → All AwareDigest (map (λ (_, d). d) pairs)
  Sound-AwareDigest [] h = tt
  Sound-AwareDigest (p ∷ pairs) h = let (_, _, there) = h.0 in (there, Sound-AwareDigest pairs h.1)

  -- Where the frame has rows and digests, the target no time twice and only times with a zone, and a
  -- target with digests a state, there is a plan. A time is inserted if the target has none of it, updated if its digests
  -- differ, unchanged if they are the same, and deleted if the source has none of it; what is inserted
  -- or updated are the rows of the source, and the plan has the source's digests.
  pub plan_gold_delta-Planned :
      (sort_rows : List RawRow → List RawRow) (frame : Frame) (rows : List GoldRowPayload)
      (digests targets : List GoldRowDigest) (target : List (Datetime × Str))
      (state : Option GoldSyncState)
      → source_rows_and_digests sha256 sort_rows frame ≡ ok (rows, digests)
      → target_digest_map targets ≡ ok target
      → All AwareDigest targets
      → is_none state && not (is_empty target) ≡ false
      → (plan : GoldDeltaPlan) × (plan_gold_delta sha256 sort_rows frame targets state ≡ ok plan)
        × Planned rows digests target plan
  unfolding plan_gold_delta
  plan_gold_delta-Planned sort_rows frame rows digests targets target state read known there
        allowed =
      let (pairs, e, erows, edigests, sound) =
        source_rows_and_digests-Sound sha256 sort_rows frame rows digests read in
      let (plan, planned, groups) =
        plan_of-Planned pairs target (Sound-Paired pairs sound)
          (rw (target_digest_map-entries targets known) (keys-entries targets there))
          (keys-set_items (map (λ (_, d). d) pairs) [] tt (Sound-AwareDigest pairs sound)) in
      (plan, rw (read, known, allowed, erows, edigests) planned, rw (erows, edigests) groups)
