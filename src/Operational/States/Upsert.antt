-- ===== src/Operational/States/Upsert.antt =====
-- ingestion/state_repository.py: what upsert_state makes of the file.
use market_regime_loader.Prelude.{
  ap, sym, ◌∙◌, arith, inl, inr, true, false, not, str_eq→eq, str_eq_refl, ◌≡◌, ◌⊎◌, Option, List,
  [], ◌∷◌, ◌++◌, keep,
}
use mathlib.Core.List.{Permᴰ}
use market_regime_loader.Prelude.Hoare.{Post, Post-weaken}
use market_regime_loader.Prelude.Effects.{ok-injective}
use market_regime_loader.Prelude.Membership.{Separated, keep-Separated}
use market_regime_loader.Bronze.Contracts.{Provider}
use market_regime_loader.Operational.Values.{
  provider_value, provider_of, provider_of-provider_value,
}
use market_regime_loader.Bronze.State.{IngestionState}
use market_regime_loader.Operational.Snapshot.{Env, World}
use market_regime_loader.Operational.Snapshot.Update.{IsFormat, Holds, Stored, upsert-Post}
use market_regime_loader.Operational.States.{
  StateRow, state_in_utc, state_of_row-state_row, state_format, other_state, upsert_state,
}

-- The state is of the same provider and of the same series.
abbrev pub SameKey : IngestionState → IngestionState → Type 0
SameKey state item = (item.provider ≡ state.provider) × (item.series_id ≡ state.series_id)

other_state-SameKey :
    (state item : IngestionState) → other_state state item ≡ true → SameKey state item → ⊥
other_state-SameKey state item h (provider, series) =
    let same =
      (rw
        (provider, series, str_eq_refl (provider_value state.provider), str_eq_refl state.series_id)
        at h) in
    cc

provider_value-injective : (a b : Provider) → provider_value a ≡ provider_value b → a ≡ b
provider_value-injective a b e =
    ok-injective
      (sym (provider_of-provider_value a) ∙ ap provider_of e ∙ provider_of-provider_value b)

not_other_state-SameKey :
    (state item : IngestionState) → other_state state item ≡ false → SameKey state item
not_other_state-SameKey state item h = (
  provider_value-injective item.provider state.provider
      (str_eq→eq (provider_value item.provider) (provider_value state.provider) (ground arith)),
  str_eq→eq item.series_id state.series_id (ground arith),
)

module _ (sort : List StateRow → List StateRow)
    (sorts : (rows : List StateRow) → Permᴰ (sort rows) rows) where
  state_format-IsFormat : IsFormat (state_format sort) state_in_utc
  unfolding state_format
  state_format-IsFormat = record { sorts = sorts; again = λ row s h. state_of_row-state_row s }

  -- What the file holds is the states of before that are of another provider or series, and the new
  -- one, in some order and with their times in UTC; those that are gone are of its provider and series.
  abbrev pub StateUpserted :
      IngestionState → Option (List StateRow) → Option (List StateRow) → Type 0
  StateUpserted state before after =
      (existing : List IngestionState) × (rest : List IngestionState) × (gone : List IngestionState)
      × Holds (state_format sort) before existing
      × Separated (SameKey state) existing rest gone
      × Stored (state_format sort) state_in_utc (rest ++ state ∷ []) after

  upserted :
      (state : IngestionState) (before after : Option (List StateRow))
      → (existing : List IngestionState) × Holds (state_format sort) before existing
        × Stored
            (state_format sort)
            state_in_utc
            (keep (other_state state) existing ++ state ∷ [])
            after
      → StateUpserted state before after
  upserted state before after (existing, held, stored) = (
    existing,
    keep (other_state state) existing,
    keep (λ item. not (other_state state item)) existing,
    held,
    keep-Separated (SameKey state) (other_state state) existing (other_state-SameKey state)
        (not_other_state-SameKey state),
    stored,
  )

  -- An upsert that returns has put the state in the place of those of its provider and series, and kept
  -- all others, and one that raises, at whatever call, has done so or left the file as it was; a read of
  -- the file then gives the states with their times in UTC, where the sort reorders the rows.
  pub upsert_state-Post :
      (env : Env) (state : IngestionState) (w : World StateRow)
      → Post
          (λ _ w'. StateUpserted state w.file w'.file)
          (λ _ w'. (w'.file ≡ w.file) ⊎ StateUpserted state w.file w'.file)
          (upsert_state sort env state w)
  unfolding upsert_state state_format
  upsert_state-Post env state w =
      Post-weaken _
        (upsert-Post (state_format sort) state_in_utc state_format-IsFormat env other_state state w
          (state_of_row-state_row state))
        (λ _ w' h. upserted state w.file w'.file h)
        (λ _ w' h. elim h [
          | inl kept ↦ inl kept
          | inr done ↦ inr (upserted state w.file w'.file done)
        ])
