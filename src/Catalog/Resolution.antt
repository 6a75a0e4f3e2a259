-- ===== src/Catalog/Resolution.antt =====
-- application/gold_catalog.py: the two ways in which a consumer resolves a build from the catalog.
pub mod Agreement
mod Samples
use market_regime_loader.Prelude.{
  Datetime, Bool, not, ◌&&◌, Option, none, some, List, [], ◌∷◌, ltb, if◌then◌else◌, keep, length,
}
use market_regime_loader.Prelude.Effects.{
  Result, ok, err, value_error, lookup_error, bind, refuse, traverse,
}
use market_regime_loader.Prelude.Sorting.{Keyed, max_keyed}
use market_regime_loader.Catalog.Rows.{
  GoldCatalogRecord, GoldCompatibility, selectable_complete, matches, is_current,
}

abbrev pub head_or_none : List GoldCatalogRecord → Option GoldCatalogRecord
head_or_none [] = none
head_or_none (r ∷ _) = some r

-- `_single_current`
unfoldable pub single_current : List GoldCatalogRecord → Result (Option GoldCatalogRecord)
single_current records =
    let current = keep is_current records in
    bind (refuse (ltb 1 (length current)) value_error) (λ _. ok (head_or_none current))

abbrev pub key_of : Option Datetime → GoldCatalogRecord → Result (Keyed GoldCatalogRecord)
key_of none r = err value_error
key_of (some completed) r = ok (completed, r.build_id, r)

-- `_completed_key`, with the row that it is the key of
unfoldable pub completed_key : GoldCatalogRecord → Result (Keyed GoldCatalogRecord)
completed_key r = key_of r.completed_at_utc r

-- `StrictCurrentResolution.resolve`
abbrev pub strict_row : GoldCompatibility → Option GoldCatalogRecord → Result GoldCatalogRecord
strict_row c none = err lookup_error
strict_row c (some r) =
    if not (selectable_complete r)
    then err lookup_error
    else if not (matches c r)
    then err lookup_error
    else ok r

unfoldable pub strict_current :
    List GoldCatalogRecord → GoldCompatibility → Result GoldCatalogRecord
unfolding single_current selectable_complete matches
strict_current records c = bind (single_current records) (strict_row c)

abbrev pub is_candidate : GoldCompatibility → GoldCatalogRecord → Bool
is_candidate c r = selectable_complete r && matches c r

-- `max(candidates, key=_completed_key)`
abbrev pub newest_of : List (Keyed GoldCatalogRecord) → Result GoldCatalogRecord
newest_of [] = err lookup_error
newest_of (k ∷ ks) = max_keyed k ks

unfoldable pub newest_candidate :
    List GoldCatalogRecord → GoldCompatibility → Result GoldCatalogRecord
unfolding selectable_complete matches completed_key max_keyed
newest_candidate records c = bind (traverse completed_key (keep (is_candidate c) records)) newest_of

-- `LatestCompatibleResolution.resolve`
abbrev pub latest_row :
    List GoldCatalogRecord → GoldCompatibility → Option GoldCatalogRecord → Result GoldCatalogRecord
latest_row records c none = newest_candidate records c
latest_row records c (some r) =
    if selectable_complete r && matches c r then ok r else newest_candidate records c

unfoldable pub latest_compatible :
    List GoldCatalogRecord → GoldCompatibility → Result GoldCatalogRecord
unfolding single_current selectable_complete matches newest_candidate
latest_compatible records c = bind (single_current records) (latest_row records c)
