-- ===== src/Postgres/Delta/Inverse.antt =====
-- application/postgres_delta.py: what is known of the frame and of the target where there is a plan.
use market_regime_loader.Prelude.{ℕ, ◌≡◌, sym, ◌∙◌, Str, not, ◌&&◌, Option, is_none, List, map, All}
use mathlib.Core.Path.{subst}
use market_regime_loader.Prelude.Effects.{ok, bind-eq-ok, refuse-eq-ok, ok-injective, value_error}
use market_regime_loader.Postgres.Contracts.{
  GoldRowPayload, GoldRowDigest, GoldDeltaPlan, GoldSyncState,
}
use market_regime_loader.Postgres.Rows.{RawRow, Frame, source_pairs, source_rows_and_digests}
use market_regime_loader.Postgres.Delta.{digest_entry, is_empty, target_digest_map, plan_gold_delta}
use market_regime_loader.Postgres.Delta.Plan.{Planned}
use market_regime_loader.Postgres.Delta.Total.{
  Sound, AwareDigest, source_rows_and_digests-Sound, target_digest_map-entries,
  plan_gold_delta-Planned,
}

module _ (sha256 : List ℕ → Str) (sort_rows : List RawRow → List RawRow) (frame : Frame)
    (targets : List GoldRowDigest) where
  -- The plan that was made is the plan of the rows of the frame.
  abbrev pub PlannedFor : GoldDeltaPlan → Type 0
  PlannedFor plan =
      (pairs : List (GoldRowPayload × GoldRowDigest)) × (source_pairs sha256 sort_rows frame
        ≡ ok pairs)
      × All (Sound sha256) pairs
      × Planned (map (λ (r, _). r) pairs) (map (λ (_, d). d) pairs) (map digest_entry targets) plan

  pub plan_gold_delta-PlannedFor :
      (state : Option GoldSyncState) (plan : GoldDeltaPlan)
      → All AwareDigest targets
      → plan_gold_delta sha256 sort_rows frame targets state ≡ ok plan
      → PlannedFor plan
  unfolding plan_gold_delta
  plan_gold_delta-PlannedFor state plan there h =
      let ((rows, digests), read, h1) =
        bind-eq-ok (source_rows_and_digests sha256 sort_rows frame) _ h in
      let (target, known, h2) = bind-eq-ok (target_digest_map targets) _ h1 in
      let (allowed, h3) = refuse-eq-ok (is_none state && not (is_empty target)) value_error _ h2 in
      let (pairs, e, erows, edigests, sound) =
        source_rows_and_digests-Sound sha256 sort_rows frame rows digests read in
      let (plan', planned, groups) =
        plan_gold_delta-Planned sha256 sort_rows frame rows digests targets target state read known
          there allowed in
      let same : plan' ≡ plan = ok-injective (sym planned ∙ h) in
      let entries = target_digest_map-entries targets known in
      let groups' : Planned (map (λ (r, _). r) pairs) (map (λ (_, d). d) pairs)
          (map digest_entry targets) plan =
        subst
          (λ p.
            Planned (map (λ (r, _). r) pairs) (map (λ (_, d). d) pairs) (map digest_entry targets)
              p)
          same
          (subst (λ m. Planned (map (λ (r, _). r) pairs) (map (λ (_, d). d) pairs) m plan') entries
            (subst (λ ds. Planned (map (λ (r, _). r) pairs) ds target plan') edigests
              (subst (λ rs. Planned rs digests target plan') erows groups))) in
      (pairs, e, sound, groups')
