-- ===== src/Operational/States.antt =====
-- ingestion/state_repository.py: the states of the series in one file.
pub mod Upsert
use market_regime_loader.Prelude.{
  ℕ, ℤ, aware, microseconds, in_utc, map_time, ◌≡◌, refl, ◌⊎◌, Str, str_eq, Datetime, Date, Bool,
  not, ◌&&◌, Option, none, some, List, [], ◌∷◌, ◌++◌, keep,
}
use market_regime_loader.Prelude.Effects.{Result, ok, bind}
use market_regime_loader.Bronze.Planner.{OperationMode}
use market_regime_loader.Bronze.State.{IngestionState}
use market_regime_loader.Operational.Values.{
  provider_value, provider_of, mode_value, mode_of, provider_of-provider_value, mode_of-mode_value,
}
use market_regime_loader.Operational.Snapshot.{Env, World, Format, Action, read, write, upsert}

-- `STATE_SCHEMA`: a `Datetime(us, UTC)` is its microseconds.
pub record StateRow : Type 0 where
  pub provider : Str
  pub series_id : Str
  pub last_success_utc : Option ℕ
  pub last_observed_date : Option Date
  pub last_requested_start : Option Date
  pub last_requested_end : Option Date
  pub mode : Option Str
  pub fetched_row_count : ℤ
  pub accepted_row_count : ℤ
  pub changed_row_count : ℤ
  pub last_reconcile_utc : Option ℕ

abbrev pub mode_or_none : Option OperationMode → Option Str
mode_or_none none = none
mode_or_none (some m) = some (mode_value m)

abbrev pub mode_from : Option Str → Result (Option OperationMode)
mode_from none = ok none
mode_from (some s) = bind (mode_of s) (λ m. ok (some m))

-- `_row`
unfoldable pub state_row : IngestionState → StateRow
state_row s = record {
  provider = provider_value s.provider;
  series_id = s.series_id;
  last_success_utc = map_time microseconds s.last_success_utc;
  last_observed_date = s.last_observed_date;
  last_requested_start = s.last_requested_start;
  last_requested_end = s.last_requested_end;
  mode = mode_or_none s.mode;
  fetched_row_count = s.fetched_row_count;
  accepted_row_count = s.accepted_row_count;
  changed_row_count = s.changed_row_count;
  last_reconcile_utc = map_time microseconds s.last_reconcile_utc;
}

-- A pass of the loop of `read_states`
unfoldable pub state_of_row : StateRow → Result IngestionState
unfolding provider_of mode_of
state_of_row row = bind (provider_of row.provider) (λ provider. bind (mode_from row.mode) (λ mode.
    ok (record {
      provider = provider;
      series_id = row.series_id;
      last_success_utc = map_time aware row.last_success_utc;
      last_observed_date = row.last_observed_date;
      last_requested_start = row.last_requested_start;
      last_requested_end = row.last_requested_end;
      mode = mode;
      fetched_row_count = row.fetched_row_count;
      accepted_row_count = row.accepted_row_count;
      changed_row_count = row.changed_row_count;
      last_reconcile_utc = map_time aware row.last_reconcile_utc;
    })))

-- `(item.provider, item.series_id) != (state.provider, state.series_id)`
abbrev pub other_state : IngestionState → IngestionState → Bool
other_state state item = not (
    str_eq (provider_value item.provider) (provider_value state.provider)
    && str_eq item.series_id state.series_id)

mode_from-mode_or_none : (m : Option OperationMode) → mode_from (mode_or_none m) ≡ ok m
mode_from-mode_or_none none = refl
mode_from-mode_or_none (some m) = rw (mode_of-mode_value m) refl

-- The state, with its times in UTC.
abbrev pub state_in_utc : IngestionState → IngestionState
state_in_utc s = record s {
  last_success_utc = map_time in_utc s.last_success_utc;
  last_reconcile_utc = map_time in_utc s.last_reconcile_utc;
}

map_time-twice :
    (t : Option Datetime) → map_time aware (map_time microseconds t) ≡ map_time in_utc t
map_time-twice none = refl
map_time-twice (some t) = refl

-- A state is read back from its row as it was, with its times in UTC.
pub state_of_row-state_row : (s : IngestionState) → state_of_row (state_row s) ≡ ok (state_in_utc s)
unfolding state_of_row state_row
state_of_row-state_row s =
    rw
      (
        provider_of-provider_value s.provider,
        mode_from-mode_or_none s.mode,
        map_time-twice s.last_success_utc,
        map_time-twice s.last_reconcile_utc,
      )
      refl

module _ (sort : List StateRow → List StateRow) where
  -- `_frame`: the columns of the key, and the sort
  unfoldable pub state_format : Format IngestionState StateRow
  unfolding state_row state_of_row
  state_format = record {
    encode = state_row;
    decode = state_of_row;
    key = λ (row : StateRow). row.provider ∷ row.series_id ∷ [];
    sort = sort;
  }

  module _ (env : Env) where
    unfoldable pub read_states : Action StateRow (List IngestionState)
    unfolding read state_format
    read_states = read state_format env

    unfoldable pub write_states : List IngestionState → Action StateRow Unit
    unfolding write state_format
    write_states = write state_format env

    unfoldable pub upsert_state : IngestionState → Action StateRow Unit
    unfolding upsert state_format
    upsert_state state = upsert state_format env other_state state
