-- ===== src/Gold/Calm.antt =====
-- Calls that neither change the catalog file nor delete a bundle.
use mathlib.Core.List.{append-nil}
use market_regime_loader.Prelude.{◌≡◌, refl, ap, ◌∙◌, List, [], ◌∷◌, ◌++◌, Str, arith}
use market_regime_loader.Prelude.Effects.{Exn, Result, ok, err, lift, continue, ◌>>=◌}
use market_regime_loader.Prelude.Hoare.{Post}
use market_regime_loader.Catalog.Rows.{GoldCatalogRecord}
use market_regime_loader.Catalog.Repository.{catalog_frame}
use market_regime_loader.Gold.Ports.{
  Env, World, Action, Effect, replaced, refreshed, mirrored, swept, reported, written, write_failed,
  sync_failed, utc_now, read_catalog, replace_catalog, refresh_views, store, WriteOutcome, call,
}

-- The builds that were deleted, in order.
abbrev pub sweeps : List Effect → List Str
sweeps [] = []
sweeps (swept id ∷ trace) = id ∷ sweeps trace
sweeps (replaced _ ∷ trace) = sweeps trace
sweeps (refreshed _ ∷ trace) = sweeps trace
sweeps (mirrored ∷ trace) = sweeps trace
sweeps (reported _ ∷ trace) = sweeps trace

pub sweeps-append : (xs ys : List Effect) → sweeps (xs ++ ys) ≡ sweeps xs ++ sweeps ys
sweeps-append [] ys = refl
sweeps-append (swept id ∷ xs) ys = ap (λ rest. id ∷ rest) (sweeps-append xs ys)
sweeps-append (replaced _ ∷ xs) ys = sweeps-append xs ys
sweeps-append (refreshed _ ∷ xs) ys = sweeps-append xs ys
sweeps-append (mirrored ∷ xs) ys = sweeps-append xs ys
sweeps-append (reported _ ∷ xs) ys = sweeps-append xs ys

abbrev pub Quiet : {A : Type 0} → Action A → Type 0
Quiet m = (w : World) → sweeps (m w).1.trace ≡ sweeps w.trace

logged :
    (trace : List Effect) (e : Effect)
    → sweeps (e ∷ []) ≡ []
    → sweeps (trace ++ e ∷ []) ≡ sweeps trace
logged trace e h = rw (sweeps-append trace (e ∷ []), h, append-nil)

Quiet-continue :
    {A B : Type 0} (f : A → Action B) (x : Result A × World) (ids : List Str)
    → sweeps x.1.trace ≡ ids
    → ((a : A) → Quiet (f a))
    → sweeps (continue f x).1.trace ≡ ids
Quiet-continue f (ok a, w) ids h k = k a w ∙ h
Quiet-continue f (err e, w) ids h k = h

pub Quiet-bind :
    {A B : Type 0} (m : Action A) (f : A → Action B)
    → Quiet m
    → ((a : A) → Quiet (f a))
    → Quiet (m >>= f)
Quiet-bind m f h k w = Quiet-continue f (m w) (sweeps w.trace) (h w) k

-- A postcondition of a quiet method, with the deletions of before.
pub Quiet-Post :
    {A : Type 0} {Q : A → World → Type 0} {E : Exn → World → Type 0} (m : Action A) (w : World)
    (ids : List Str)
    → Quiet m
    → sweeps w.trace ≡ ids
    → Post Q E (m w)
    → Post
        (λ a w'. Q a w' × (sweeps w'.trace ≡ ids))
        (λ e w'. E e w' × (sweeps w'.trace ≡ ids))
        (m w)
Quiet-Post {A} {Q} {E} m w ids quiet h p = either (m w) (quiet w ∙ h) p
  where
    either :
        (x : Result A × World)
        → sweeps x.1.trace ≡ ids
        → Post Q E x
        → Post
            (λ a w'. Q a w' × (sweeps w'.trace ≡ ids))
            (λ e w'. E e w' × (sweeps w'.trace ≡ ids))
            x
    either (ok a, w') e k = record { holds = (k.holds, e) }
    either (err x, w') e k = record { holds = (k.holds, e) }

module _ {Frame : Type 0} (env : Env Frame) where
  pub utc_now-Quiet : Quiet (utc_now env)
  unfolding utc_now
  utc_now-Quiet w = ground arith

  pub read_catalog-Quiet : Quiet (read_catalog env)
  unfolding read_catalog
  read_catalog-Quiet w = ground arith

  pub refresh_views-Quiet : (records : List GoldCatalogRecord) → Quiet (refresh_views env records)
  unfolding refresh_views
  refresh_views-Quiet records w = ground (arith, logged w.trace (refreshed records) refl)

  store-Quiet :
      (sorted : List GoldCatalogRecord) (outcome : WriteOutcome) → Quiet (store env sorted outcome)
  store-Quiet sorted written w = logged w.trace (replaced sorted) refl
  store-Quiet sorted (write_failed e) w = refl
  store-Quiet sorted (sync_failed e) w = logged w.trace (replaced sorted) refl

  pub replace_catalog-Quiet :
      (records : List GoldCatalogRecord) → Quiet (replace_catalog env records)
  unfolding replace_catalog
  replace_catalog-Quiet records =
      Quiet-bind (lift (catalog_frame env.sort_rows records)) _ (λ _. refl)
        (λ sorted.
          Quiet-bind (call (λ n. ok (env.catalog_write n))) (store env sorted) (λ _. refl)
            (store-Quiet sorted))
