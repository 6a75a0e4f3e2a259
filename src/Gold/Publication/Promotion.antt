-- ===== src/Gold/Publication/Promotion.antt =====
-- The promotion and the failure of one attempt, as updates of the rows.
use mathlib.Core.List.{Memᴰ}
use market_regime_loader.Prelude.{
  ◌≡◌, refl, ap, sym, ◌∙◌, true, false, not, ◌||◌, some, List, [], ◌∷◌, map, arith, Str, str_eq→eq,
  str_eq_refl, Datetime, keep, find, if◌then◌else◌, Bool-cases, inl, inr, int_eq,
}
use market_regime_loader.Prelude.Effects.{ok, refuse-eq-ok, bind-eq-ok}
use market_regime_loader.Prelude.Membership.{All-of_mem, mem-All, mem-find}
use market_regime_loader.Catalog.Rows.{GoldCatalogRecord, is_building, is_current}
use market_regime_loader.Catalog.Repository.{validate_record}
use market_regime_loader.Catalog.Validity.{IsValidCatalog, current-complete}
use market_regime_loader.Gold.Ports.{GoldPublicationBundle, utc}
use market_regime_loader.Gold.Publication.{
  same_id, failed_row, complete_row, promote_row, promote_attempt, promoted_records,
  gold_schema_version, gold_feature_version,
}
use market_regime_loader.Gold.Publication.Rows.{SparesCurrent, current-map, one_row}

-- Failing a building row of a valid catalog spares the current one.
pub current-fail_one :
    (failed_at : Datetime) (s : Str) (target : GoldCatalogRecord) (records : List GoldCatalogRecord)
    → IsValidCatalog records
    → find (same_id s) records ≡ some target
    → is_building target.status ≡ true
    → keep is_current (map (λ r. if same_id s r then failed_row failed_at target else r) records)
      ≡ keep is_current records
current-fail_one failed_at s target records v found building =
    current-map _ records (All-of_mem records spares)
  where
    spares :
        (r : GoldCatalogRecord)
        → Memᴰ r records
        → SparesCurrent (λ r. if same_id s r then failed_row failed_at target else r) r
    spares r m = elim (Bool-cases (same_id s r)) [
      | inl same ↦
          (let (there, target_id) = mem-find (same_id s) records found in
            let ids = str_eq→eq r.build_id s same ∙ sym (str_eq→eq target.build_id s target_id) in
            let e =
              ap (λ (x : GoldCatalogRecord). x.status) (one_row records v.distinct m there ids) in
            let valid = mem-All (λ x. validate_record x ≡ ok tt) records v.rows m in
            rw same ((λ current. cc (current-complete r valid current, e, building)), (λ _. refl)))
      | inr other ↦ rw other ((λ _. refl), (λ spare. spare))
    ]

-- Promotion leaves exactly one current row for each row of the promoted build.
pub current-promote :
    (s : Str) (complete : GoldCatalogRecord) (records : List GoldCatalogRecord)
    → complete.current ≡ true
    → keep is_current (map (promote_row s complete) records)
      ≡ map (λ _. complete) (keep (same_id s) records)
current-promote s complete [] e = refl
current-promote s complete (r ∷ records) e = elim (Bool-cases (same_id s r)) [
  | inl same ↦ rw (same, e, current-promote s complete records e)
  | inr other ↦ rw other (ground (arith, current-promote s complete records e))
]

-- Where the promoted build is found again.
pub find-promote :
    (s : Str) (complete : GoldCatalogRecord) {attempt : GoldCatalogRecord}
    (records : List GoldCatalogRecord)
    → find (same_id s) records ≡ some attempt
    → complete.build_id ≡ s
    → find (same_id s) (map (promote_row s complete) records) ≡ some complete
find-promote s complete [] f e = cc
find-promote s complete (r ∷ records) f e = elim (Bool-cases (same_id s r)) [
  | inl same ↦ rw (same, e, str_eq_refl s)
  | inr other ↦ rw other (ground (arith, find-promote s complete records (rw other at f) e))
]

-- What a promotion returns: every row but the attempt's is kept, less its current flag.
pub record IsPromotion (registered : List GoldCatalogRecord) (candidate : GoldPublicationBundle)
    (promoted : List GoldCatalogRecord) : Type 0 where
  pub attempt : GoldCatalogRecord
  pub completed : Datetime
  pub only : keep (same_id candidate.build_id) registered ≡ attempt ∷ []
  pub building : is_building attempt.status ≡ true
  pub spare : attempt.current ≡ false
  pub schema : int_eq candidate.schema_version gold_schema_version ≡ true
  pub feature : int_eq candidate.feature_version gold_feature_version ≡ true
  pub utc_completed : utc candidate.completed_at_utc ≡ ok completed
  pub result :
      promoted
      ≡ map (promote_row candidate.build_id (complete_row candidate completed attempt)) registered

pub promoted_records-ok :
    (registered : List GoldCatalogRecord) (candidate : GoldPublicationBundle)
    {promoted : List GoldCatalogRecord}
    → promoted_records registered candidate ≡ ok promoted
    → IsPromotion registered candidate promoted
unfolding promoted_records
promoted_records-ok registered candidate {promoted} h =
    let (schema, h') =
      refuse-eq-ok (not (int_eq candidate.schema_version gold_schema_version)) _ _ h in
    let (feature, h'') =
      refuse-eq-ok (not (int_eq candidate.feature_version gold_feature_version)) _ _ h' in
    matched (keep (same_id candidate.build_id) registered) refl (ground arith) (ground arith) h''
  where
    matched :
        (found : List GoldCatalogRecord)
        → keep (same_id candidate.build_id) registered ≡ found
        → int_eq candidate.schema_version gold_schema_version ≡ true
        → int_eq candidate.feature_version gold_feature_version ≡ true
        → promote_attempt candidate registered found ≡ ok promoted
        → IsPromotion registered candidate promoted
    matched [] only schema feature k = cc
    matched (x ∷ y ∷ found) only schema feature k = cc
    matched (x ∷ []) only schema feature k =
        let (state, k') = refuse-eq-ok (not (is_building x.status) || x.current) _ _ k in
        let (completed, zone, result) = bind-eq-ok (utc candidate.completed_at_utc) _ k' in
        record {
          attempt = x;
          completed = completed;
          only = only;
          building = ground arith;
          spare = ground arith;
          schema = schema;
          feature = feature;
          utc_completed = zone;
          result = ground arith;
        }
