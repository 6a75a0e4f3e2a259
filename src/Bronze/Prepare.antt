-- ===== src/Bronze/Prepare.antt =====
-- ingestion/bronze_uow.py: `_stable_incoming`, by which a row that is fetched again unchanged keeps its
-- time of fetching. The keys of the retained frame are unique; columns of the same name and of
-- different types, which the merge refuses, are not refused here.
pub mod Refetch
mod Samples
use market_regime_loader.Prelude.{
  ◌≡◌, refl, Str, str_eq, str_eq→eq, str_eq_refl, codes, mem_str, Bool, true, false, not, ◌&&◌,
  ◌||◌, Bool-cases, inl, inr, arith, Option, none, some, List, [], ◌∷◌, ◌++◌, keep, any, all, find,
  map, if◌then◌else◌,
}
use market_regime_loader.Prelude.Effects.{Result, ok, external, refuse, ◌⨟◌}
use market_regime_loader.Parquet.{
  Row, Frame, columns, is_empty, old_row, same_on, same_cell, joined_on, is_revision,
  payload_columns,
}

abbrev pub fetched_at : Str
fetched_at = codes "fetched_at_utc"

-- `_KEY`
abbrev pub bronze_key : List Str
bronze_key = codes "provider" ∷ codes "series_id" ∷ codes "observation_date" ∷ []

abbrev pub is_set : {V : Type 0} → Option V → Bool
is_set none = false
is_set (some v) = true

-- `meaningful`
unfoldable pub meaningful : List Str → List Str
meaningful names =
    keep (λ column. not (mem_str column bronze_key || str_eq column fetched_at)) names

module _ {V : Type 0} (eq : V → V → Bool) where
  abbrev pub with_fetched_at : Option V → Row V → Row V
  with_fetched_at value row column = if str_eq column fetched_at then value else row column

  abbrev pub refreshed : List Str → Row V → Option (Row V) → Row V
  refreshed names row none = row
  refreshed names row (some old) =
      if is_set (old fetched_at) && same_on eq names row old
      then with_fetched_at (old fetched_at) row
      else row

  -- The row of `joined.with_columns(...)`
  unfoldable pub stable_row : Frame V → List Str → Row V → Row V
  unfolding meaningful
  stable_row existing names row =
      refreshed (meaningful names) row (old_row eq bronze_key existing.rows row)

  -- `_stable_incoming`
  unfoldable pub stable_incoming : Frame V → Frame V → Result (Frame V)
  unfolding stable_row
  stable_incoming existing incoming =
      if is_empty existing || is_empty incoming || not (mem_str fetched_at (columns incoming))
      then ok incoming
      else (refuse
            (any (λ column. not (mem_str column (columns existing)))
              (bronze_key ++ meaningful (columns incoming) ++ fetched_at ∷ []))
            (external 0)
          ⨟ refuse (any (λ column. not (mem_str column (columns incoming))) bronze_key) (external 0)
          ⨟ ok (record incoming {
            rows = map (stable_row existing (columns incoming)) incoming.rows;
          }))
