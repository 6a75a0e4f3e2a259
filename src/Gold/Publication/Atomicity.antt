-- ===== src/Gold/Publication/Atomicity.antt =====
-- `GoldPublisher.publish` of application/gold_publication.py as a whole, for a consumer that resolves
-- the catalog strictly.
use market_regime_loader.Prelude.{
  ℕ, none, ◌≡◌, refl, ◌⊎◌, inl, inr, Option, some, List, [], ◌∷◌, Str, Datetime, find,
}
use market_regime_loader.Prelude.Effects.{Exn, Result, ok, err, pure, raise, catch, ◌>>=◌, ◌>>◌}
use market_regime_loader.Prelude.Hoare.{Post, Post-continue, Post-weaken}
use market_regime_loader.Catalog.Rows.{GoldCatalogRecord, GoldCompatibility}
use market_regime_loader.Catalog.Resolution.{strict_current}
use market_regime_loader.Catalog.Validity.{IsSort}
use market_regime_loader.Gold.Ports.{
  Env, World, Event, log, mirrored, Action, call, stored, utc_now, refresh_views, report,
  views_promoted, views_promoted_failed, mirror_synchronized, sync_with,
}
use market_regime_loader.Gold.Effects.{
  Steady, Steady-then, Steady-bind, Steady-catch, utc_now-Steady, refresh_views-Steady,
  report-Steady,
}
use market_regime_loader.Gold.Publication.{
  same_id, gold_compatibility, announce, register_and_build, publish,
}
use market_regime_loader.Gold.Publication.Currents.{currents, Reconciled, reconcile-Post}
use market_regime_loader.Gold.Publication.Commit.{
  IsBuilt, strict_current-currents, strict_current-singleton,
}
use market_regime_loader.Gold.Publication.Attempt.{register_and_build-Post}

-- A strict consumer of the catalog gets `r`, and `r` is a bundle that was built from `frame` and
-- validated, under some id and start.
pub record Publishes {Frame : Type 0} (env : Env Frame) (frame : Frame) (r : GoldCatalogRecord)
    (w : World) : Type 0 where
  pub resolved : strict_current (stored w.file) gold_compatibility ≡ ok r
  pub build_id : Str
  pub started_at : Datetime
  pub built : IsBuilt env frame build_id started_at r

-- Every strict consumer gets what it got before, a record or an error.
pub record Unchanged (w w' : World) : Type 0 where
  pub same :
      (c : GoldCompatibility) → strict_current (stored w'.file) c ≡ strict_current (stored w.file) c

module _ {Frame : Type 0} (env : Env Frame) where
  sync_with-Steady :
      (mirror : Option (ℕ → Result Unit)) (event : Event)
      → Steady (sync_with env mirror (report env event))
  sync_with-Steady none event w = refl
  sync_with-Steady (some sync) event w =
      Steady-bind (call sync) (λ _. log mirrored >> report env event) (λ _. refl)
        (λ _.
          Steady-bind (log mirrored) (λ _. report env event) (λ _. refl)
            (λ _. report-Steady env event))
        w

  abbrev announced : List GoldCatalogRecord → Action Unit
  announced promoted =
      catch (refresh_views env promoted >> report env views_promoted)
        (λ e. report env views_promoted_failed >> raise e)

  announced-Steady : (promoted : List GoldCatalogRecord) → Steady (announced promoted)
  announced-Steady promoted =
      Steady-catch _ _
        (Steady-bind (refresh_views env promoted) _ (refresh_views-Steady env promoted)
          (λ _. report-Steady env views_promoted))
        (λ e.
          Steady-bind (report env views_promoted_failed) _ (report-Steady env views_promoted_failed)
            (λ _ _. refl))

  announce-Post :
      (build_id : Str) (promoted : List GoldCatalogRecord) (r : GoldCatalogRecord) (w : World)
      → find (same_id build_id) promoted ≡ some r
      → currents w.file ≡ r ∷ []
      → Post
          (λ a w'. (a ≡ r) × (currents w'.file ≡ r ∷ []))
          (λ _ w'. currents w'.file ≡ r ∷ [])
          (announce env build_id promoted w)
  unfolding announce
  announce-Post build_id promoted r w found h = rw found (
      Steady-then (announced promoted)
        (λ _. sync_with env env.mirror (report env mirror_synchronized) >> pure r)
        (λ file. currents file ≡ r ∷ []) w (announced-Steady promoted) h
        (λ _ v h'.
          Steady-then (sync_with env env.mirror (report env mirror_synchronized)) (λ _. pure r)
            (λ file. currents file ≡ r ∷ []) v (sync_with-Steady env.mirror mirror_synchronized) h'
            (λ _ _ c. record { holds = (refl, c) }) (λ _ _ c. c))
        (λ _ _ c. c))

  module _ (sorts : IsSort env.sort_rows) (frame : Frame) where
    abbrev Outcome : World → Exn → World → Type 0
    Outcome w _ w' = Unchanged w w' ⊎ ((r : GoldCatalogRecord) × Publishes env frame r w')

    unchanged : (w w' : World) → currents w'.file ≡ currents w.file → Unchanged w w'
    unchanged w w' e = record {
      same = λ c. strict_current-currents (stored w'.file) (stored w.file) c e;
    }

    publishes :
        (build_id : Str) (started_at : Datetime) (r : GoldCatalogRecord) (w : World)
        → currents w.file ≡ r ∷ []
        → IsBuilt env frame build_id started_at r
        → Publishes env frame r w
    publishes build_id started_at r w c built = record {
      resolved =
          strict_current-singleton (stored w.file) gold_compatibility c built.selectable
            built.compatible;
      build_id = build_id;
      started_at = started_at;
      built = built;
    }

    -- From the registration on.
    built-Post :
        (w v : World) (build_id : Str) (started_at : Datetime) (records : List GoldCatalogRecord)
        → Reconciled env sorts (currents w.file) records v
        → Post
            (Publishes env frame)
            (Outcome w)
            ((register_and_build env frame build_id started_at records >>= announce env build_id) v)
    built-Post w v build_id started_at records (h, kept, closed) =
        Post-continue _ _
          (register_and_build-Post env sorts frame build_id started_at (currents w.file) records
            closed v h kept)
          (λ promoted u (r, c, built, found).
            Post-weaken _ (announce-Post build_id promoted r u found c)
              (λ a u' (e, c'). rw e (publishes build_id started_at r u' c' built))
              (λ _ u' c'. inr (r, publishes build_id started_at r u' c' built)))
          (λ _ u settled. elim settled [
            | inl same ↦ inl (unchanged w u same)
            | inr (r, c, built) ↦ inr (r, publishes build_id started_at r u c built)
          ])

    publish-Post : (w : World) → Post (Publishes env frame) (Outcome w) (publish env frame w)
    unfolding publish
    publish-Post w =
        Post-continue _ _ (reconcile-Post env sorts w)
          (λ records v (h, kept, closed).
            Steady-then (call env.next_build_id) _ Same v (λ _. refl) h
              (λ build_id u h'.
                Steady-then (utc_now env) _ Same u (utc_now-Steady env) h'
                  (λ started_at u' h''.
                    built-Post w u' build_id started_at records (h'', kept, closed))
                  (λ _ u' c. inl (unchanged w u' c)))
              (λ _ u c. inl (unchanged w u c)))
          (λ _ v c. inl (unchanged w v c))
      where
        Same : Option (List GoldCatalogRecord) → Type 0
        Same file = currents file ≡ currents w.file

    -- A publication that returns `r` has made `r` the build that every strict consumer of these
    -- versions gets, and `r` is a bundle that was built from the frame and validated.
    pub publish_returns :
        (w w' : World) (r : GoldCatalogRecord)
        → publish env frame w ≡ (ok r, w')
        → Publishes env frame r w'
    publish_returns w w' r e = (rw e at (publish-Post w)).holds

    -- A publication that raises, at whatever call, has left every strict consumer with what it had,
    -- or has already made a validated bundle of the frame the build that it gets.
    pub publish_raises :
        (w w' : World) (x : Exn)
        → publish env frame w ≡ (err x, w')
        → Unchanged w w' ⊎ ((r : GoldCatalogRecord) × Publishes env frame r w')
    publish_raises w w' x e = (rw e at (publish-Post w)).holds
