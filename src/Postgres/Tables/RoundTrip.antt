-- ===== src/Postgres/Tables/RoundTrip.antt =====
-- ingestion/postgres_gold_repository.py: a stored synchronisation state is read back as it was.
use market_regime_loader.Prelude.{
  ◌≡◌, refl, pos, int_eq, is_negative, below_one, str_eq, Datetime, naive, aware, false, not, ◌&&◌,
  ◌||◌, Option, none, some, is_none, is_some,
}
use mathlib.Core.Path.{subst}
use market_regime_loader.Prelude.Effects.{ok, bind-eq-ok, refuse-eq-ok, ok-injective, value_error}
use market_regime_loader.Postgres.Contracts.{
  GoldSyncState, gold_sync_state, not_sha256, postgres_dataset_id, utc, utc_or_none, precedes,
}
use market_regime_loader.Postgres.Tables.{
  state_from_row, state_params, as_text, as_int, as_datetime, time_or_null,
}

utc-same : (t u : Datetime) → utc t ≡ ok u → utc u ≡ ok u
utc-same (naive t) u h = cc
utc-same (aware t) u h = rw (← ok-injective h) refl

utc_or_none-same : (t u : Option Datetime) → utc_or_none t ≡ ok u → utc_or_none u ≡ ok u
utc_or_none-same none u h = rw (← ok-injective h) refl
utc_or_none-same (some t) u h =
    let (v, there, e) = bind-eq-ok (utc t) _ h in
    let same = utc-same t v there in rw (← ok-injective e, same) refl

valid_state :
    (s : GoldSyncState) (synced : Datetime) (minimum maximum : Option Datetime)
    → not (str_eq s.dataset_id postgres_dataset_id) ≡ false
    → not_sha256 s.data_sha256 ≡ false
    → is_negative s.row_count ≡ false
    → utc synced ≡ ok synced
    → utc_or_none minimum ≡ ok minimum
    → utc_or_none maximum ≡ ok maximum
    → int_eq s.row_count (pos 0) && (is_some minimum || is_some maximum) ≡ false
    → not (below_one s.row_count) && (is_none minimum || is_none maximum) ≡ false
    → precedes maximum minimum ≡ false
    → gold_sync_state
        (record s { synced_at_utc = synced; min_timestamp = minimum; max_timestamp = maximum })
      ≡ ok (record s { synced_at_utc = synced; min_timestamp = minimum; max_timestamp = maximum })
unfolding gold_sync_state
valid_state s synced minimum maximum h1 h2 h3 h4 h5 h6 h7 h8 h9 =
    rw (h1, h2, h3, h4, h5, h6, h7, h8, h9) refl

-- A state that passed its validation passes it again, unchanged.
gold_sync_state-same :
    (s s' : GoldSyncState) → gold_sync_state s ≡ ok s' → gold_sync_state s' ≡ ok s'
unfolding gold_sync_state
gold_sync_state-same s s' h =
    let (named, h1) =
      refuse-eq-ok (not (str_eq s.dataset_id postgres_dataset_id)) value_error _ h in
    let (hashed, h2) = refuse-eq-ok (not_sha256 s.data_sha256) value_error _ h1 in
    let (counted, h3) = refuse-eq-ok (is_negative s.row_count) value_error _ h2 in
    let (synced, at_utc, h4) = bind-eq-ok (utc s.synced_at_utc) _ h3 in
    let (minimum, first, h5) = bind-eq-ok (utc_or_none s.min_timestamp) _ h4 in
    let (maximum, last, h6) = bind-eq-ok (utc_or_none s.max_timestamp) _ h5 in
    let (empty, h7) =
      refuse-eq-ok (int_eq s.row_count (pos 0) && (is_some minimum || is_some maximum)) value_error
        _ h6 in
    let (full, h8) =
      refuse-eq-ok (not (below_one s.row_count) && (is_none minimum || is_none maximum)) value_error
        _ h7 in
    let (ordered, h9) = refuse-eq-ok (precedes maximum minimum) value_error _ h8 in
    let valid =
      valid_state s synced minimum maximum named hashed counted
        (utc-same s.synced_at_utc synced at_utc) (utc_or_none-same s.min_timestamp minimum first)
        (utc_or_none-same s.max_timestamp maximum last) empty full ordered in
    subst (λ d. gold_sync_state d ≡ ok d) (ok-injective h9) valid

as_datetime-time_or_null : (t : Option Datetime) → as_datetime (time_or_null t) ≡ ok t
unfolding as_datetime
as_datetime-time_or_null none = refl
as_datetime-time_or_null (some t) = refl

-- The parameters of the statement that stores a valid state are read back as this state.
pub state_from_row-state_params :
    (s s' : GoldSyncState) → gold_sync_state s ≡ ok s' → state_from_row (state_params s') ≡ ok s'
unfolding state_from_row state_params as_text as_int
state_from_row-state_params s s' h =
    rw (as_datetime-time_or_null s'.min_timestamp, as_datetime-time_or_null s'.max_timestamp)
      (gold_sync_state-same s s' h)
