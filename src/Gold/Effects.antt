-- ===== src/Gold/Effects.antt =====
-- What each call of a port does to the catalog file.
use market_regime_loader.Prelude.{
  ◌≡◌, refl, ap, ◌∙◌, ◌⊎◌, inl, inr, Option, none, some, List, arith, ℕ,
}
use market_regime_loader.Prelude.Effects.{Exn, Result, ok, err, continue, recover, catch, ◌>>=◌}
use market_regime_loader.Prelude.Hoare.{Post, Post-continue, Post-lift}
use market_regime_loader.Catalog.Rows.{GoldCatalogRecord}
use market_regime_loader.Catalog.Repository.{catalog_frame}
use market_regime_loader.Catalog.Validity.{IsValidCatalog, IsValidCatalog-nil, catalog_frame-ok}
use market_regime_loader.Gold.Ports.{
  Env, World, Action, Event, written, write_failed, sync_failed, utc_now, read_file, read_catalog,
  store, stored, replace_catalog, refresh_views, report, call, WriteOutcome,
}

-- The method leaves the catalog file alone, whether it returns or raises.
abbrev pub Steady : {A : Type 0} → Action A → Type 0
Steady m = (w : World) → (m w).1.file ≡ w.file

pub call-Post :
    {A : Type 0} {Q : A → World → Type 0} {E : Exn → World → Type 0} (f : ℕ → Result A) (w : World)
    → ((a : A) (w' : World) → f w.calls ≡ ok a → w'.file ≡ w.file → Q a w')
    → ((e : Exn) (w' : World) → w'.file ≡ w.file → E e w')
    → Post Q E (call f w)
call-Post f w k l = Post-lift (f w.calls) _ (λ a e. k a _ e refl) (λ e. l e _ refl)

-- A steady method, as a triple: what holds of the file before holds after.
pub Steady-Post :
    {A : Type 0} (m : Action A) (P : Option (List GoldCatalogRecord) → Type 0) (w : World)
    → Steady m
    → P w.file
    → Post (λ _ w'. P w'.file) (λ _ w'. P w'.file) (m w)
Steady-Post {A} m P w steady h = either (m w) (rw steady h)
  where
    either : (x : Result A × World) → P x.1.file → Post (λ _ w'. P w'.file) (λ _ w'. P w'.file) x
    either (ok a, w') k = record { holds = k }
    either (err e, w') k = record { holds = k }

pub Steady-then :
    {A B : Type 0} {R : B → World → Type 0} {F : Exn → World → Type 0} (m : Action A)
    (f : A → Action B) (P : Option (List GoldCatalogRecord) → Type 0) (w : World)
    → Steady m
    → P w.file
    → ((a : A) (w' : World) → P w'.file → Post R F (f a w'))
    → ((e : Exn) (w' : World) → P w'.file → F e w')
    → Post R F (continue f (m w))
Steady-then m f P w steady h k l = Post-continue f (m w) (Steady-Post m P w steady h) k l

Steady-continue :
    {A B : Type 0} (f : A → Action B) (x : Result A × World)
    (file : Option (List GoldCatalogRecord))
    → x.1.file ≡ file
    → ((a : A) → Steady (f a))
    → (continue f x).1.file ≡ file
Steady-continue f (ok a, w) file h k = k a w ∙ h
Steady-continue f (err e, w) file h k = h

pub Steady-bind :
    {A B : Type 0} (m : Action A) (f : A → Action B)
    → Steady m
    → ((a : A) → Steady (f a))
    → Steady (m >>= f)
Steady-bind m f h k w = Steady-continue f (m w) w.file (h w) k

pub Steady-catch :
    {A : Type 0} (m : Action A) (handler : Exn → Action A)
    → Steady m
    → ((e : Exn) → Steady (handler e))
    → Steady (catch m handler)
Steady-catch {A} m handler h k w = either (m w) (h w)
  where
    either : (x : Result A × World) → x.1.file ≡ w.file → (recover handler x).1.file ≡ w.file
    either (ok a, w') e = e
    either (err x, w') e = k x w' ∙ e

module _ {Frame : Type 0} (env : Env Frame) where
  pub utc_now-Steady : Steady (utc_now env)
  unfolding utc_now
  utc_now-Steady w = ground arith

  pub refresh_views-Steady : (records : List GoldCatalogRecord) → Steady (refresh_views env records)
  unfolding refresh_views
  refresh_views-Steady records w = ground arith

  pub report-Steady : (event : Event) → Steady (report env event)
  unfolding report
  report-Steady event w = ground arith

  -- What was read is what is stored, and it is valid.
  read_file-Post :
      (file : Option (List GoldCatalogRecord)) (w : World)
      → Post
          (λ records w'. (w'.file ≡ w.file) × (records ≡ stored file) × IsValidCatalog records)
          (λ _ w'. w'.file ≡ w.file)
          (read_file env file w)
  read_file-Post none w = record { holds = (refl, refl, IsValidCatalog-nil) }
  read_file-Post (some records) w =
      Post-continue {Q = λ _ w'. w'.file ≡ w.file} {E = λ _ w'. w'.file ≡ w.file} _ _
        (call-Post env.catalog_read w (λ _ _ _ same. same) (λ _ _ same. same))
        (λ _ w' same.
          Post-continue {Q = λ _ u. (u.file ≡ w.file) × IsValidCatalog records}
            {E = λ _ u. u.file ≡ w.file} _ _
            (Post-lift (catalog_frame env.sort_rows records) w'
              (λ sorted e. (same, (catalog_frame-ok env.sort_rows records e).0)) (λ _. same))
            (λ _ u valid. record { holds = (valid.0, refl, valid.1) }) (λ _ _ h. h))
        (λ _ _ h. h)

  pub read_catalog-Post :
      (w : World)
      → Post
          (λ records w'. (w'.file ≡ w.file) × (records ≡ stored w.file) × IsValidCatalog records)
          (λ _ w'. w'.file ≡ w.file)
          (read_catalog env w)
  unfolding read_catalog
  read_catalog-Post w = read_file-Post w.file w

  -- The rows that are in the file after a successful replacement.
  abbrev pub Stored : List GoldCatalogRecord → World → Type 0
  Stored records w = IsValidCatalog records × (w.file ≡ some (env.sort_rows records))

  store-Post :
      (records sorted : List GoldCatalogRecord) (outcome : WriteOutcome) (w : World)
      → IsValidCatalog records
      → sorted ≡ env.sort_rows records
      → Post
          (λ _ w'. Stored records w')
          (λ _ w'. (w'.file ≡ w.file) ⊎ Stored records w')
          (store env sorted outcome w)
  store-Post records sorted written w v e = record { holds = (v, ap some e) }
  store-Post records sorted (write_failed x) w v e = record { holds = inl refl }
  store-Post records sorted (sync_failed x) w v e = record { holds = inr (v, ap some e) }

  pub replace_catalog-Post :
      (records : List GoldCatalogRecord) (w : World)
      → Post
          (λ _ w'. Stored records w')
          (λ _ w'. (w'.file ≡ w.file) ⊎ Stored records w')
          (replace_catalog env records w)
  unfolding replace_catalog
  replace_catalog-Post records w =
      Post-continue
        {Q = λ sorted w'. (w' ≡ w) × IsValidCatalog records × (sorted ≡ env.sort_rows records)}
        {E = λ _ w'. w' ≡ w} _ _
        (Post-lift (catalog_frame env.sort_rows records) w
          (λ sorted e.
            let (valid, sorting) = catalog_frame-ok env.sort_rows records e in
            (refl, valid, sorting))
          (λ _. refl))
        (λ sorted w' (same, valid, sorting). rw same (store-Post records sorted _ _ valid sorting))
        (λ _ w' same. inl (ap (λ (u : World). u.file) same))
