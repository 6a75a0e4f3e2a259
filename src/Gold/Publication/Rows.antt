-- ===== src/Gold/Publication/Rows.antt =====
-- How the row updates of application/gold_publication.py act on the current rows of a catalog.
use mathlib.Core.List.{Memᴰ}
use market_regime_loader.Prelude.{
  ◌≡◌, refl, ap, sym, ◌∙◌, true, false, List, [], ◌∷◌, ◌++◌, map, arith, Str, str_eq, str_eq→eq,
  str_eq_refl, mem_str, Datetime, keep, All, Bool-cases, inl, inr,
}
use market_regime_loader.Prelude.Membership.{All-of_mem, mem-keep}
use market_regime_loader.Catalog.Rows.{GoldCatalogRecord, is_current}
use market_regime_loader.Catalog.Repository.{build_ids}
use market_regime_loader.Catalog.Validity.{Distinct, IsValidCatalog}
use market_regime_loader.Gold.Publication.{is_stale, fail_listed}

pub mem_str-build_ids :
    {r : GoldCatalogRecord} (records : List GoldCatalogRecord)
    → Memᴰ r records
    → mem_str r.build_id (build_ids records) ≡ true
mem_str-build_ids [] m = elim m [ ]
mem_str-build_ids {r} (x ∷ records) (Memᴰ.head e) = rw (← e, str_eq_refl r.build_id)
mem_str-build_ids {r} (x ∷ records) (Memᴰ.tail m) = ground (arith, mem_str-build_ids records m)

-- The row whose id is listed.
pub listed_row :
    (s : Str) (records : List GoldCatalogRecord)
    → mem_str s (build_ids records) ≡ true
    → (r : GoldCatalogRecord) × Memᴰ r records × (r.build_id ≡ s)
listed_row s [] h = cc
listed_row s (x ∷ records) h = elim (Bool-cases (str_eq s x.build_id)) [
  | inl same ↦ (x, Memᴰ.head refl, sym (str_eq→eq s x.build_id same))
  | inr other ↦ let (r, m, e) = listed_row s records (rw other at h) in (r, Memᴰ.tail m, e)
]

-- Distinct ids: a build has one row.
pub one_row :
    {a b : GoldCatalogRecord} (records : List GoldCatalogRecord)
    → Distinct (build_ids records)
    → Memᴰ a records
    → Memᴰ b records
    → a.build_id ≡ b.build_id
    → a ≡ b
one_row [] d m k e = elim m [ ]
one_row (x ∷ records) d (Memᴰ.head p) (Memᴰ.head q) e = p ∙ sym q
one_row {a} {b} (x ∷ records) d (Memᴰ.head p) (Memᴰ.tail k) e =
    cc (d.0, mem_str-build_ids records k, ap (λ (r : GoldCatalogRecord). r.build_id) p, e)
one_row {a} {b} (x ∷ records) d (Memᴰ.tail m) (Memᴰ.head q) e =
    cc (d.0, mem_str-build_ids records m, ap (λ (r : GoldCatalogRecord). r.build_id) q, e)
one_row (x ∷ records) d (Memᴰ.tail m) (Memᴰ.tail k) e = one_row records d.1 m k e

-- An update that leaves the current rows alone and makes no row current.
abbrev pub SparesCurrent : (GoldCatalogRecord → GoldCatalogRecord) → GoldCatalogRecord → Type 0
SparesCurrent f r = (r.current ≡ true → f r ≡ r) × (r.current ≡ false → (f r).current ≡ false)

pub current-map :
    (f : GoldCatalogRecord → GoldCatalogRecord) (records : List GoldCatalogRecord)
    → All (SparesCurrent f) records
    → keep is_current (map f records) ≡ keep is_current records
current-map f [] h = refl
current-map f (r ∷ records) h = elim (Bool-cases r.current) [
  | inl current ↦ rw (h.0.0 current, current, current-map f records h.1)
  | inr spare ↦ rw (h.0.1 spare, spare, current-map f records h.1)
]

pub current-append :
    (xs ys : List GoldCatalogRecord)
    → keep is_current (xs ++ ys) ≡ keep is_current xs ++ keep is_current ys
current-append [] ys = refl
current-append (x ∷ xs) ys = elim (Bool-cases x.current) [
  | inl current ↦ rw (current, current-append xs ys)
  | inr spare ↦ rw (spare, current-append xs ys)
]

-- Failing the stale rows of a valid catalog spares the current one.
pub current-fail_listed :
    (failed_at : Datetime) (records : List GoldCatalogRecord)
    → IsValidCatalog records
    → keep is_current (map (fail_listed (build_ids (keep is_stale records)) failed_at) records)
      ≡ keep is_current records
current-fail_listed failed_at records v = current-map _ records (All-of_mem records spares)
  where
    unlisted :
        (r : GoldCatalogRecord)
        → Memᴰ r records
        → r.current ≡ true
        → mem_str r.build_id (build_ids (keep is_stale records)) ≡ true
        → ⊥
    unlisted r m current listed =
        let (x, k, e) = listed_row r.build_id (keep is_stale records) listed in
        let (x_there, x_stale) = mem-keep is_stale records k in
        let same = one_row records v.distinct x_there m e in
        ground (arith, ap (λ (y : GoldCatalogRecord). y.current) same)

    spares :
        (r : GoldCatalogRecord)
        → Memᴰ r records
        → SparesCurrent (fail_listed (build_ids (keep is_stale records)) failed_at) r
    spares r m = elim (Bool-cases (mem_str r.build_id (build_ids (keep is_stale records)))) [
      | inl listed ↦ rw listed ((λ current. absurd (unlisted r m current listed)), (λ _. refl))
      | inr other ↦ rw other ((λ _. refl), (λ spare. spare))
    ]
