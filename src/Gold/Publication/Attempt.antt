-- ===== src/Gold/Publication/Attempt.antt =====
-- The attempt of application/gold_publication.py, from its registration to the commit: the catalog
-- keeps its current row until the promoted rows replace it.
use mathlib.Core.List.{append-nil}
use market_regime_loader.Prelude.{
  ℕ, ◌≡◌, ◌∙◌, ◌⊎◌, inl, inr, false, Option, List, [], ◌∷◌, ◌++◌, Str, Datetime, keep, any,
}
use market_regime_loader.Prelude.Effects.{Exn, ok, pure, raise, lift, ◌>>=◌, ◌>>◌}
use market_regime_loader.Prelude.Hoare.{Post, Post-continue, Post-recover, Post-lift}
use market_regime_loader.Catalog.Rows.{GoldCatalogRecord, is_current}
use market_regime_loader.Catalog.Validity.{IsSort}
use market_regime_loader.Gold.Ports.{
  Env, World, GoldPublicationBundle, replace_catalog, refresh_views, report, views_building,
  bundle_validated, catalog_promoted, catalog_building,
}
use market_regime_loader.Gold.Effects.{
  Steady-then, call-Post, refresh_views-Steady, report-Steady, Stored, replace_catalog-Post,
}
use market_regime_loader.Gold.Publication.{
  building_row, promoted_records, attempt, register_and_build, finalize_failed_if_uncommitted,
}
use market_regime_loader.Gold.Publication.Rows.{current-append}
use market_regime_loader.Gold.Publication.Promotion.{promoted_records-ok}
use market_regime_loader.Gold.Publication.Currents.{is_open, currents, replace-keeps, finalize-Post}
use market_regime_loader.Gold.Publication.Commit.{Committed, Promoted, promotion}

module _ {Frame : Type 0} (env : Env Frame) (sorts : IsSort env.sort_rows) (frame : Frame)
    (build_id : Str) (started_at : Datetime) (now : List GoldCatalogRecord) where
  -- What the file may hold after a raise.
  abbrev pub Settled : Exn → World → Type 0
  Settled _ w = (currents w.file ≡ now) ⊎ Committed env sorts frame build_id started_at w

  abbrev Before : Option (List GoldCatalogRecord) → Type 0
  Before file = currents file ≡ now

  module _ (records : List GoldCatalogRecord) (closed : any is_open records ≡ false) where
    abbrev pub registered : List GoldCatalogRecord
    registered = records ++ building_row build_id started_at ∷ []

    -- The stored rows are those of the promotion, or the file is as it was.
    stored-Post :
        (candidate : GoldPublicationBundle) (at : ℕ) (promoted : List GoldCatalogRecord) (w : World)
        → env.create_and_validate at frame build_id started_at ≡ ok candidate
        → promoted_records registered candidate ≡ ok promoted
        → currents w.file ≡ now
        → Post
            (Promoted env sorts frame build_id started_at)
            Settled
            ((replace_catalog env promoted >> (report env catalog_promoted >> pure promoted)) w)
    stored-Post candidate at promoted w validated p h =
        let is_promoted = λ (v : World) (s : Stored env promoted v).
          promotion env sorts frame build_id started_at records promoted candidate at v closed
            validated (promoted_records-ok registered candidate p) s in
        Post-continue _ _ (replace_catalog-Post env promoted w)
          (λ _ v s.
            let (r, current, built, found) = is_promoted v s in
            Steady-then (report env catalog_promoted) _ (λ file. currents file ≡ r ∷ []) v
              (report-Steady env catalog_promoted) current
              (λ _ _ c. record { holds = (r, c, built, found) }) (λ _ _ c. inr (r, c, built)))
          (λ _ v either. elim either [
            | inl same ↦ inl (rw same h)
            | inr s ↦ let (r, current, built, _) = is_promoted v s in inr (r, current, built)
          ])

    validated-Post :
        (candidate : GoldPublicationBundle) (at : ℕ) (w : World)
        → env.create_and_validate at frame build_id started_at ≡ ok candidate
        → currents w.file ≡ now
        → Post (Promoted env sorts frame build_id started_at) Settled (
            (report env bundle_validated
                >> (lift (promoted_records registered candidate) >>= λ promoted.
                    replace_catalog env promoted >> (report env catalog_promoted >> pure promoted)))
              w)
    validated-Post candidate at w validated h =
        Steady-then (report env bundle_validated) _ Before w (report-Steady env bundle_validated) h
          (λ _ v h'.
            Post-continue
              {Q = λ promoted u.
                (promoted_records registered candidate ≡ ok promoted) × Before u.file}
              {E = λ _ u. Before u.file} _ _
              (Post-lift (promoted_records registered candidate) v (λ promoted e. (e, h'))
                (λ _. h'))
              (λ promoted u (e, h''). stored-Post candidate at promoted u validated e h'')
              (λ _ _ c. inl c))
          (λ _ _ c. inl c)

    attempt-Post :
        (w : World)
        → currents w.file ≡ now
        → Post
            (Promoted env sorts frame build_id started_at)
            Settled
            (attempt env frame build_id started_at registered w)
    unfolding attempt
    attempt-Post w h =
        Steady-then (refresh_views env registered) _ Before w (refresh_views-Steady env registered)
          h
          (λ _ w1 h1.
            Steady-then (report env views_building) _ Before w1 (report-Steady env views_building)
              h1
              (λ _ w2 h2.
                Post-continue
                  {Q = λ candidate u.
                    (env.create_and_validate w2.calls frame build_id started_at ≡ ok candidate)
                    × Before u.file}
                  {E = λ _ u. Before u.file} _ _
                  (call-Post (λ n. env.create_and_validate n frame build_id started_at) w2
                    (λ candidate u e same. (e, rw same h2)) (λ _ u same. rw same h2))
                  (λ candidate u (e, h3). validated-Post candidate w2.calls u e h3)
                  (λ _ _ c. inl c))
              (λ _ _ c. inl c))
          (λ _ _ c. inl c)

    -- Recording the failure of the attempt settles nothing anew.
    settle :
        (e : Exn) (w : World)
        → Settled e w
        → Post {A = List GoldCatalogRecord}
            (Promoted env sorts frame build_id started_at)
            Settled
            ((finalize_failed_if_uncommitted env build_id >> raise e) w)
    settle e w s =
        Post-continue _ _ (finalize-Post env sorts build_id w)
          (λ _ v same. record { holds = kept v same }) (λ _ v same. kept v same)
      where
        kept : (v : World) → currents v.file ≡ currents w.file → Settled e v
        kept v same = elim s [
          | inl h ↦ inl (same ∙ h)
          | inr (r, c, built) ↦ inr (r, same ∙ c, built)
        ]

    pub register_and_build-Post :
        (w : World)
        → currents w.file ≡ now
        → keep is_current records ≡ now
        → Post
            (Promoted env sorts frame build_id started_at)
            Settled
            (register_and_build env frame build_id started_at records w)
    unfolding register_and_build
    register_and_build-Post w h kept =
        Post-continue _ _
          (replace-keeps env sorts registered w
            (current-append records (building_row build_id started_at ∷ []) ∙ append-nil _ ∙ kept)
            h)
          (λ _ v h'.
            Steady-then (report env catalog_building) _ Before v
              (report-Steady env catalog_building) h'
              (λ _ u h''.
                Post-recover _ _ (attempt-Post u h'') (λ _ _ p. p) (λ e u' s. settle e u' s))
              (λ _ _ c. inl c))
          (λ _ _ c. inl c)
