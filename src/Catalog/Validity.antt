-- ===== src/Catalog/Validity.antt =====
-- What the repository's validation guarantees of every catalog that can be stored: valid rows,
-- distinct build ids, at most one current row.
use mathlib.Core.List.{Permᴰ, head?}
use market_regime_loader.Prelude.{
  suc, ◌≤◌, ◌≡◌, refl, sym, ap, ◌∙◌, inl, inr, Bool, true, false, not, ◌||◌, Option, List, [], ◌∷◌,
  arith, Str, str_eq, str_eq→eq, str_eq_iff, mem_str, set_of, Bool-cases, ◌==◌, ltb, length, keep,
  count, find, All,
}
use market_regime_loader.Prelude.Effects.{ok, traverse, bind-eq-ok, refuse-eq-ok}
use market_regime_loader.Prelude.Perms.{keep-eq_of_perm, count-perm}
use market_regime_loader.Catalog.Rows.{
  GoldBuildStatus, GoldCatalogRecord, is_current, selectable_complete,
}
use market_regime_loader.Catalog.Repository.{validate_record, build_ids, catalog_frame}

-- The order of the rows is the data frame library's, which only reorders.
pub record IsSort (sort_rows : List GoldCatalogRecord → List GoldCatalogRecord) : Type 0 where
  pub reorders : (records : List GoldCatalogRecord) → Permᴰ (sort_rows records) records

abbrev pub has_id : Str → GoldCatalogRecord → Bool
has_id build_id r = str_eq r.build_id build_id

-- The row of a build, if the catalog has one.
abbrev pub row : Str → List GoldCatalogRecord → Option GoldCatalogRecord
row build_id records = find (has_id build_id) records

abbrev pub Distinct : List Str → Type 0
Distinct [] = Unit
Distinct (s ∷ ss) = (mem_str s ss ≡ false) × Distinct ss

pub record IsValidCatalog (records : List GoldCatalogRecord) : Type 0 where
  pub rows : All (λ r. validate_record r ≡ ok tt) records
  pub distinct : Distinct (build_ids records)
  pub one_current : count is_current records ≤ 1

pub IsValidCatalog-nil : IsValidCatalog []
IsValidCatalog-nil = record { rows = tt; distinct = tt; one_current = omega arith }

mem_str-set_of_listed :
    (s t : Str) (ss : List Str)
    → mem_str s (set_of ss) ≡ mem_str s ss
    → mem_str t (set_of ss) ≡ true
    → mem_str s (set_of ss) ≡ str_eq s t || mem_str s ss
mem_str-set_of_listed s t ss ih there = elim (Bool-cases (str_eq s t)) [
  | inl same ↦ rw same (rw (str_eq→eq s t same) there)
  | inr other ↦ rw other ih
]

mem_str-set_of : (s : Str) (ss : List Str) → mem_str s (set_of ss) ≡ mem_str s ss
mem_str-set_of s [] = refl
mem_str-set_of s (t ∷ ss) = elim (Bool-cases (mem_str t (set_of ss))) [
  | inl there ↦ rw there (mem_str-set_of_listed s t ss (mem_str-set_of s ss) there)
  | inr fresh ↦ rw fresh (ap (λ (b : Bool). str_eq s t || b) (mem_str-set_of s ss))
]

length-set_of-le : (ss : List Str) → length (set_of ss) ≤ length ss
length-set_of-le [] = omega arith
length-set_of-le (s ∷ ss) = ground (arith, length-set_of-le ss)

-- `len(set(ids)) == len(ids)` tests that the ids are distinct.
Distinct-set_of : (ss : List Str) → length (set_of ss) ≡ length ss → Distinct ss
Distinct-set_of [] h = tt
Distinct-set_of (s ∷ ss) h = elim (Bool-cases (mem_str s (set_of ss))) [
  | inl there ↦ absurd (omega (arith, length-set_of-le ss, (rw there at h)))
  | inr fresh ↦
      (sym (mem_str-set_of s ss) ∙ fresh, Distinct-set_of ss (omega (arith, (rw fresh at h))))
]

length-build_ids : (records : List GoldCatalogRecord) → length (build_ids records) ≡ length records
length-build_ids [] = refl
length-build_ids (r ∷ records) = ap suc (length-build_ids records)

traverse-All :
    (records : List GoldCatalogRecord) {us : List Unit}
    → traverse validate_record records ≡ ok us
    → All (λ r. validate_record r ≡ ok tt) records
traverse-All [] h = tt
traverse-All (r ∷ records) h =
    let (u, valid, rest) = bind-eq-ok (validate_record r) _ h in
    let (us, others, _) = bind-eq-ok (traverse validate_record records) _ rest in
    (valid, traverse-All records others)

pub catalog_frame-ok :
    (sort_rows : List GoldCatalogRecord → List GoldCatalogRecord) (records : List GoldCatalogRecord)
    {sorted : List GoldCatalogRecord}
    → catalog_frame sort_rows records ≡ ok sorted
    → IsValidCatalog records × (sorted ≡ sort_rows records)
unfolding catalog_frame
catalog_frame-ok sort_rows records h =
    let (us, valid, rest) = bind-eq-ok (traverse validate_record records) _ h in
    let (unique, rest') =
      refuse-eq-ok (not (length (set_of (build_ids records)) == length records)) _ _ rest in
    let (single, same) = refuse-eq-ok (ltb 1 (count is_current records)) _ _ rest' in
    (
      record {
        rows = traverse-All records valid;
        distinct = Distinct-set_of (build_ids records) (ground (arith, length-build_ids records));
        one_current = ground arith;
      },
      ground arith,
    )

-- A row that is current passed the checks of a selectable build.
pub current-complete :
    (r : GoldCatalogRecord)
    → validate_record r ≡ ok tt
    → r.current ≡ true
    → r.status ≡ GoldBuildStatus.complete
unfolding validate_record
current-complete r v c = ground arith

pub current-selectable :
    (r : GoldCatalogRecord)
    → validate_record r ≡ ok tt
    → r.current ≡ true
    → selectable_complete r ≡ true
unfolding validate_record selectable_complete
current-selectable r v c = ground arith

-- Valid catalogs are closed under reordering.
module _ (P : GoldCatalogRecord → Type 0) where
  pub All-perm : {xs ys : List GoldCatalogRecord} → Permᴰ xs ys → All P ys → All P xs
  All-perm Permᴰ.nil h = h
  All-perm (Permᴰ.cons e p) h = (rw e h.0, All-perm p h.1)
  All-perm (Permᴰ.swap e f) h = (rw e h.1.0, (rw f h.0, h.1.1))
  All-perm (Permᴰ.trans p q) h = All-perm p (All-perm q h)

mem_str-perm :
    (s : Str) {xs ys : List GoldCatalogRecord}
    → Permᴰ xs ys
    → mem_str s (build_ids xs) ≡ mem_str s (build_ids ys)
mem_str-perm s Permᴰ.nil = refl
mem_str-perm s (Permᴰ.cons e p) = rw (e, mem_str-perm s p)
mem_str-perm s (Permᴰ.swap e f) = rw (e, f) (ground arith)
mem_str-perm s (Permᴰ.trans p q) = mem_str-perm s p ∙ mem_str-perm s q

str_eq_sym : (s t : Str) → str_eq s t ≡ str_eq t s
str_eq_sym s t = ground (arith, str_eq_iff s t, str_eq_iff t s)

Distinct-swap :
    (s t s' t' : Str) (ss : List Str)
    → s ≡ s'
    → t ≡ t'
    → Distinct (t' ∷ s' ∷ ss)
    → Distinct (s ∷ t ∷ ss)
Distinct-swap s t s' t' ss e f h = rw (e, f) (ground (arith, str_eq_sym s' t'))

Distinct-perm :
    {xs ys : List GoldCatalogRecord}
    → Permᴰ xs ys
    → Distinct (build_ids ys)
    → Distinct (build_ids xs)
Distinct-perm Permᴰ.nil h = h
Distinct-perm (Permᴰ.cons e p) h = (rw (e, mem_str-perm _ p) h.0, Distinct-perm p h.1)
Distinct-perm (Permᴰ.swap {a = x} {b = y} {a' = y'} {b' = x'} {l = l} e f) h =
    Distinct-swap x.build_id y.build_id x'.build_id y'.build_id (build_ids l)
      (ap (λ (r : GoldCatalogRecord). r.build_id) e) (ap (λ (r : GoldCatalogRecord). r.build_id) f)
      h
Distinct-perm (Permᴰ.trans p q) h = Distinct-perm p (Distinct-perm q h)

pub IsValidCatalog-perm :
    {xs ys : List GoldCatalogRecord} → Permᴰ xs ys → IsValidCatalog ys → IsValidCatalog xs
IsValidCatalog-perm p v = record {
  rows = All-perm _ p v.rows;
  distinct = Distinct-perm p v.distinct;
  one_current = omega (arith, count-perm is_current p, v.one_current);
}

-- A build id that no row has, and one that some row has.
count-has_id_absent :
    (s : Str) (records : List GoldCatalogRecord)
    → mem_str s (build_ids records) ≡ false
    → count (has_id s) records ≡ 0
count-has_id_absent s [] h = refl
count-has_id_absent s (r ∷ records) h =
    ground (arith, count-has_id_absent s records, str_eq_sym s r.build_id)

pub count-has_id-le :
    (s : Str) (records : List GoldCatalogRecord)
    → Distinct (build_ids records)
    → count (has_id s) records ≤ 1
count-has_id-le s [] h = omega arith
count-has_id-le s (r ∷ records) h = elim (Bool-cases (has_id s r)) [
  | inl same ↦
      rw same
        (omega (arith, count-has_id_absent s records (rw (← str_eq→eq r.build_id s same) h.0)))
  | inr other ↦ rw other (count-has_id-le s records h.1)
]

-- The rows that a sort stores are the same: the same current rows, and the same row for each build.
pub current-sort :
    {sort_rows : List GoldCatalogRecord → List GoldCatalogRecord} (records : List GoldCatalogRecord)
    → IsSort sort_rows
    → IsValidCatalog records
    → keep is_current (sort_rows records) ≡ keep is_current records
current-sort records s v = keep-eq_of_perm is_current (s.reorders records) v.one_current

pub head-keep :
    (p : GoldCatalogRecord → Bool) (records : List GoldCatalogRecord)
    → find p records ≡ head? (keep p records)
head-keep p [] = refl
head-keep p (r ∷ records) = elim (Bool-cases (p r)) [
  | inl yes_p ↦ rw yes_p
  | inr no_p ↦ rw no_p (head-keep p records)
]

pub row-sort :
    {sort_rows : List GoldCatalogRecord → List GoldCatalogRecord} (s : Str)
    (records : List GoldCatalogRecord)
    → IsSort sort_rows
    → IsValidCatalog records
    → row s (sort_rows records) ≡ row s records
row-sort {sort_rows} s records sorts v =
    head-keep (has_id s) (sort_rows records)
    ∙ ap head?
        (keep-eq_of_perm (has_id s) (sorts.reorders records) (count-has_id-le s records v.distinct))
    ∙ sym (head-keep (has_id s) records)
