-- ===== src/Gold/Publication/Currents.antt =====
-- The current rows of the catalog through `reconcile` and `_finalize_failed_if_uncommitted` of
-- application/gold_publication.py.
use mathlib.Core.List.{Memᴰ}
use market_regime_loader.Prelude.{
  ◌≡◌, refl, ◌∙◌, inl, inr, Bool, true, false, Option, none, some, List, [], ◌∷◌, map, arith, Str,
  mem_str, Datetime, keep, find, any, All, if◌then◌else◌, Bool-cases,
}
use market_regime_loader.Prelude.Effects.{value_error, refuse, pure, continue, ◌>>=◌, ◌>>◌}
use market_regime_loader.Prelude.Membership.{All-of_mem, mem-any, keep-mem}
use market_regime_loader.Prelude.Hoare.{Post, Post-continue, Post-recover, Post-weaken}
use market_regime_loader.Catalog.Rows.{GoldCatalogRecord, is_building, is_current}
use market_regime_loader.Catalog.Repository.{build_ids}
use market_regime_loader.Catalog.Validity.{IsValidCatalog, IsSort, current-sort}
use market_regime_loader.Gold.Ports.{
  Env, World, stored, utc_now, replace_catalog, refresh_views, report, stale_building_failed,
  views_reconciled, catalog_failed, views_failed, views_failed_refresh_error,
}
use market_regime_loader.Gold.Effects.{
  Steady-then, Steady-Post, utc_now-Steady, refresh_views-Steady, report-Steady, Stored,
  read_catalog-Post, replace_catalog-Post,
}
use market_regime_loader.Gold.Publication.{
  same_id, is_stale, is_current_building, failed_row, fail_listed, fail_stale, reconcile,
  finish_attempt, finalize_failed_if_uncommitted,
}
use market_regime_loader.Gold.Publication.Rows.{current-fail_listed, mem_str-build_ids}
use market_regime_loader.Gold.Publication.Promotion.{current-fail_one}

abbrev pub is_open : GoldCatalogRecord → Bool
is_open r = is_building r.status

-- The current rows in the file.
abbrev pub currents : Option (List GoldCatalogRecord) → List GoldCatalogRecord
currents file = keep is_current (stored file)

no_open :
    (records : List GoldCatalogRecord)
    → keep is_stale records ≡ []
    → any is_current_building records ≡ false
    → any is_open records ≡ false
no_open [] h k = refl
no_open (r ∷ records) h k = ground (arith, no_open records)

any-false :
    (p : GoldCatalogRecord → Bool) (f : GoldCatalogRecord → GoldCatalogRecord)
    (records : List GoldCatalogRecord)
    → All (λ r. p (f r) ≡ false) records
    → any p (map f records) ≡ false
any-false p f [] h = refl
any-false p f (r ∷ records) h = rw (h.0, any-false p f records h.1)

-- Once the stale rows have failed, no row is building.
no_open-fail_listed :
    (failed_at : Datetime) (records : List GoldCatalogRecord)
    → any is_current_building records ≡ false
    → any is_open (map (fail_listed (build_ids (keep is_stale records)) failed_at) records) ≡ false
no_open-fail_listed failed_at records h = any-false is_open _ records (All-of_mem records closed)
  where
    listed :
        (r : GoldCatalogRecord)
        → Memᴰ r records
        → is_open r ≡ true
        → mem_str r.build_id (build_ids (keep is_stale records)) ≡ true
    listed r m o =
        mem_str-build_ids (keep is_stale records)
          (keep-mem is_stale records m (ground (arith, mem-any is_current_building records h m)))

    closed :
        (r : GoldCatalogRecord)
        → Memᴰ r records
        → is_open (fail_listed (build_ids (keep is_stale records)) failed_at r) ≡ false
    closed r m = ground (arith, listed r m)

module _ {Frame : Type 0} (env : Env Frame) (sorts : IsSort env.sort_rows) where
  pub currents-Stored :
      {records : List GoldCatalogRecord} (w : World)
      → Stored env records w
      → currents w.file ≡ keep is_current records
  currents-Stored {records} w s = rw s.1 (current-sort records sorts s.0)

  pub replace-keeps :
      {now : List GoldCatalogRecord} (records : List GoldCatalogRecord) (w : World)
      → keep is_current records ≡ now
      → currents w.file ≡ now
      → Post
          (λ _ w'. currents w'.file ≡ now)
          (λ _ w'. currents w'.file ≡ now)
          (replace_catalog env records w)
  replace-keeps records w e h =
      Post-weaken _ (replace_catalog-Post env records w) (λ _ w' s. currents-Stored w' s ∙ e)
        (λ _ w' either. elim either [ inl same ↦ rw same h | inr s ↦ currents-Stored w' s ∙ e ])

  -- The postcondition of `reconcile`: the rows that it returns have the current rows of the file, which
  -- are those of before, and none of them is building.
  abbrev pub Reconciled : List GoldCatalogRecord → List GoldCatalogRecord → World → Type 0
  Reconciled now records w =
      (currents w.file ≡ now) × (keep is_current records ≡ now) × (any is_open records ≡ false)

  fail_stale-Post :
      (stale records : List GoldCatalogRecord) (w : World)
      → keep is_stale records ≡ stale
      → any is_current_building records ≡ false
      → IsValidCatalog records
      → stored w.file ≡ records
      → Post
          (Reconciled (keep is_current records))
          (λ _ w'. currents w'.file ≡ keep is_current records)
          (fail_stale env stale records w)
  fail_stale-Post [] records w e h v same = record { holds = (rw same, refl, no_open records e h) }
  fail_stale-Post (s ∷ stale) records w e h v same =
      Steady-then (utc_now env) _ Before w (utc_now-Steady env) (rw same)
        (λ failed_at w' before.
          let kept = rw e at (current-fail_listed failed_at records v) in
          Post-continue _ _ (replace-keeps (updated failed_at) w' kept before)
            (λ _ u cur.
              Steady-then (report env stale_building_failed) _ Before u
                (report-Steady env stale_building_failed) cur
                (λ _ _ cur'. record {
                  holds = (cur', kept, rw e at (no_open-fail_listed failed_at records h));
                })
                (λ _ _ cur'. cur'))
            (λ _ _ cur. cur))
        (λ _ _ before. before)
    where
      Before : Option (List GoldCatalogRecord) → Type 0
      Before file = currents file ≡ keep is_current records

      updated : Datetime → List GoldCatalogRecord
      updated failed_at = map (fail_listed (build_ids (s ∷ stale)) failed_at) records

  -- The views are rebuilt from the reconciled rows.
  refreshed-Reconciled :
      (now records : List GoldCatalogRecord) (w : World)
      → Reconciled now records w
      → Post
          (Reconciled now)
          (λ _ w'. currents w'.file ≡ now)
          ((refresh_views env records >> (report env views_reconciled >> pure records)) w)
  refreshed-Reconciled now records w (cur, kept, closed) =
      Steady-then (refresh_views env records) _ (λ file. currents file ≡ now) w
        (refresh_views-Steady env records) cur
        (λ _ v cur'.
          Steady-then (report env views_reconciled) _ (λ file. currents file ≡ now) v
            (report-Steady env views_reconciled) cur'
            (λ _ _ c. record { holds = (c, kept, closed) }) (λ _ _ c. c))
        (λ _ _ c. c)

  reconciling :
      (w : World) (records : List GoldCatalogRecord) (v : World)
      → v.file ≡ w.file
      → records ≡ stored w.file
      → IsValidCatalog records
      → (test : Bool) → any is_current_building records ≡ test
      → Post
          (Reconciled (currents w.file))
          (λ _ w'. currents w'.file ≡ currents w.file)
          (continue
            (λ _. fail_stale env (keep is_stale records) records >>= λ updated.
              refresh_views env updated >> (report env views_reconciled >> pure updated))
            (refuse test value_error, v))
  reconciling w records v same read valid true h = record { holds = rw same }
  reconciling w records v same read valid false h = rw (← read) (
      Post-continue _ _
        (fail_stale-Post (keep is_stale records) records v refl h valid (rw (same, read)))
        (λ updated u done. refreshed-Reconciled (keep is_current records) updated u done)
        (λ _ _ cur. cur))

  pub reconcile-Post :
      (w : World)
      → Post
          (Reconciled (currents w.file))
          (λ _ w'. currents w'.file ≡ currents w.file)
          (reconcile env w)
  unfolding reconcile
  reconcile-Post w =
      Post-continue _ _ (read_catalog-Post env w)
        (λ records v (same, read, valid).
          reconciling w records v same read valid (any is_current_building records) refl)
        (λ _ _ same. rw same)

  finish_attempt-Post :
      (s : Str) (records : List GoldCatalogRecord) (found : Option GoldCatalogRecord) (w : World)
      → find (same_id s) records ≡ found
      → IsValidCatalog records
      → stored w.file ≡ records
      → Post
          (λ _ w'. currents w'.file ≡ keep is_current records)
          (λ _ w'. currents w'.file ≡ keep is_current records)
          (finish_attempt env s records found w)
  finish_attempt-Post s records none w e v same = record { holds = rw same }
  finish_attempt-Post s records (some target) w e v same =
      elim (Bool-cases (is_building target.status)) [
        | inr settled ↦ rw settled (record { holds = rw same })
        | inl building ↦ rw building (
            Steady-then (utc_now env) _ Before w (utc_now-Steady env) (rw same)
              (λ failed_at w' before.
                Post-continue _ _
                  (replace-keeps (updated failed_at) w'
                    (current-fail_one failed_at s target records v e building) before)
                  (λ _ u cur.
                    Steady-then (report env catalog_failed) _ Before u
                      (report-Steady env catalog_failed) cur
                      (λ _ u' cur'.
                        Post-recover _ _
                          (Steady-then (refresh_views env (updated failed_at)) _ Before u'
                            (refresh_views-Steady env (updated failed_at)) cur'
                            (λ _ v' c.
                              Steady-Post (report env views_failed) Before v'
                                (report-Steady env views_failed) c)
                            (λ _ _ c. c))
                          (λ _ _ c. c)
                          (λ _ v' c.
                            Steady-Post (report env views_failed_refresh_error) Before v'
                              (report-Steady env views_failed_refresh_error) c))
                      (λ _ _ c. c))
                  (λ _ _ c. c))
              (λ _ _ before. before))
      ]
    where
      Before : Option (List GoldCatalogRecord) → Type 0
      Before file = currents file ≡ keep is_current records

      updated : Datetime → List GoldCatalogRecord
      updated failed_at = map (λ r. if same_id s r then failed_row failed_at target else r) records

  pub finalize-Post :
      (s : Str) (w : World)
      → Post
          (λ _ w'. currents w'.file ≡ currents w.file)
          (λ _ w'. currents w'.file ≡ currents w.file)
          (finalize_failed_if_uncommitted env s w)
  unfolding finalize_failed_if_uncommitted
  finalize-Post s w =
      Post-continue _ _ (read_catalog-Post env w)
        (λ records v (same, read, valid).
          rw (← read) (
            finish_attempt-Post s records (find (same_id s) records) v refl valid
              (rw (same, read))))
        (λ _ _ same. rw same)
