-- ===== src/Catalog/Resolution/Agreement.antt =====
-- The two resolutions of application/gold_catalog.py compared.
use market_regime_loader.Prelude.{
  ◌≡◌, ◌↔◌, inl, inr, true, some, List, [], ◌∷◌, ltb, length, keep, arith, Bool-cases,
}
use market_regime_loader.Prelude.Effects.{ok, ok-injective, value_error, bind, refuse}
use market_regime_loader.Catalog.Rows.{
  GoldCatalogRecord, GoldCompatibility, selectable_complete, matches, is_current,
}
use market_regime_loader.Catalog.Resolution.{
  head_or_none, single_current, strict_row, strict_current, latest_compatible,
}

-- The only current row, selectable and of the wanted versions.
pub record IsCurrentBuild (records : List GoldCatalogRecord) (c : GoldCompatibility)
    (r : GoldCatalogRecord) : Type 0 where
  pub only : keep is_current records ≡ r ∷ []
  pub selectable : selectable_complete r ≡ true
  pub compatible : matches c r ≡ true

strict_row-ok :
    (c : GoldCompatibility) (x r : GoldCatalogRecord)
    → strict_row c (some x) ≡ ok r
    → (x ≡ r) × (selectable_complete r ≡ true) × (matches c r ≡ true)
strict_row-ok c x r h = elim (Bool-cases (selectable_complete x)) [
  | inr no_s ↦ let bad = rw no_s at h in cc
  | inl yes_s ↦ elim (Bool-cases (matches c x)) [
    | inr no_m ↦ let bad = rw (yes_s, no_m) at h in cc
    | inl yes_m ↦
        let same : x ≡ r = ok-injective (rw (yes_s, yes_m) at h) in
        (same, rw (← same) yes_s, rw (← same) yes_m)
  ]
]

strict_of :
    (current : List GoldCatalogRecord) (c : GoldCompatibility) (r : GoldCatalogRecord)
    → bind
        (bind (refuse (ltb 1 (length current)) value_error) (λ _. ok (head_or_none current)))
        (strict_row c)
      ≡ ok r
    → (current ≡ r ∷ []) × (selectable_complete r ≡ true) × (matches c r ≡ true)
strict_of [] c r h = cc
strict_of (x ∷ []) c r h = let (same, s, m) = strict_row-ok c x r h in (rw same, s, m)
strict_of (x ∷ y ∷ rest) c r h =
    let several : ltb 1 (length (x ∷ y ∷ rest)) ≡ true = ground arith in
    let bad = rw several at h in cc

-- The strict resolution returns a row exactly if it is the only current row of the catalog, selectable and
-- of the wanted versions.
pub strict_current_iff :
    (records : List GoldCatalogRecord) (c : GoldCompatibility) (r : GoldCatalogRecord)
    → (strict_current records c ≡ ok r) ↔ IsCurrentBuild records c r
unfolding strict_current single_current
strict_current_iff records c r = (
  λ h.
      let (only, s, m) = strict_of (keep is_current records) c r h in
      record { only = only; selectable = s; compatible = m },
  λ b. rw (b.only, b.selectable, b.compatible),
)

-- Where the strict resolution returns a row, the latest-compatible one returns the same row.
pub latest_compatible-strict_current :
    (records : List GoldCatalogRecord) (c : GoldCompatibility) (r : GoldCatalogRecord)
    → strict_current records c ≡ ok r
    → latest_compatible records c ≡ ok r
unfolding latest_compatible single_current
latest_compatible-strict_current records c r h =
    let b = (strict_current_iff records c r).0 h in rw (b.only, b.selectable, b.compatible)
