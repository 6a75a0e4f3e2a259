-- ===== src/Postgres/Delta.antt =====
-- application/postgres_delta.py: the plan that makes the rows of the replica those of the Gold frame.
pub mod Partition
pub mod Plan
pub mod Total
pub mod Inverse
use market_regime_loader.Prelude.{
  ℕ, Str, str_eq, Datetime, datetime_lt, datetime_eq, Bool, true, false, not, ◌&&◌, Option, none,
  some, is_none, List, [], ◌∷◌, ◌++◌, map, if◌then◌else◌,
}
use market_regime_loader.Prelude.Effects.{
  Result, ok, err, value_error, key_error, refuse, bind, ◌⨟◌,
}
use market_regime_loader.Prelude.Dict.{get, has}
use market_regime_loader.Prelude.Items.{set_items, keys_of, without}
use market_regime_loader.Prelude.Sorting.{sort_by}
use market_regime_loader.Postgres.Contracts.{
  GoldRowPayload, GoldRowDigest, GoldDeltaPlan, GoldSyncState, gold_delta_plan,
}
use market_regime_loader.Postgres.Rows.{Frame, RawRow, source_rows_and_digests}

-- The value stored under a time.
abbrev pub at_time : {V : Type 0} → Datetime → List (Datetime × V) → Option V
at_time t entries = get datetime_eq t entries

abbrev pub has_time : {V : Type 0} → Datetime → List (Datetime × V) → Bool
has_time t entries = has datetime_eq t entries

abbrev pub digest_entry : GoldRowDigest → Datetime × Str
digest_entry digest = (digest.timestamp_m1, digest.row_sha256)

abbrev pub row_entry : GoldRowPayload → Datetime × GoldRowPayload
row_entry row = (row.timestamp_m1, row)

-- The loop of `_target_digest_map`, after the entries `by_time`.
abbrev pub digest_map : List (Datetime × Str) → List GoldRowDigest → Result (List (Datetime × Str))
digest_map by_time [] = ok by_time
digest_map by_time (d ∷ digests) =
    let rest = digest_map (by_time ++ digest_entry d ∷ []) digests in
    refuse (has_time d.timestamp_m1 by_time) value_error ⨟ rest

-- `_target_digest_map`
unfoldable pub target_digest_map : List GoldRowDigest → Result (List (Datetime × Str))
target_digest_map digests = digest_map [] digests

pub data Change : Type 0 where
  inserted updated unchanged : Change

-- How the loop decides about a time, from what the target and the source have of it.
abbrev pub change_of : Option Str → Result Str → Result Change
change_of none source_hash = ok inserted
change_of (some target_hash) source_hash =
    bind source_hash (λ hash. ok (if not (str_eq target_hash hash) then updated else unchanged))

pub record Groups : Type 0 where
  pub inserts : List GoldRowPayload
  pub updates : List GoldRowPayload
  pub unchanged : List Datetime

abbrev pub or_key_error : {V : Type 0} → Option V → Result V
or_key_error none = err key_error
or_key_error (some v) = ok v

-- What a pass of the loop adds to the groups.
abbrev pub grouped : Datetime → Result GoldRowPayload → Groups → Change → Result Groups
grouped t row g Change.inserted = bind row (λ r. ok (record g { inserts = r ∷ g.inserts }))
grouped t row g Change.updated = bind row (λ r. ok (record g { updates = r ∷ g.updates }))
grouped t row g Change.unchanged = ok (record g { unchanged = t ∷ g.unchanged })

module _ (target sources : List (Datetime × Str)) (rows : List (Datetime × GoldRowPayload)) where
  -- The loop over the times of the source.
  unfoldable pub classify : List Datetime → Result Groups
  classify [] = ok (record { inserts = []; updates = []; unchanged = [] })
  classify (t ∷ times) =
      let rest = classify times in
      bind rest (λ g.
        bind (change_of (at_time t target) (or_key_error (at_time t sources)))
          (grouped t (or_key_error (at_time t rows)) g))

-- `tuple(sorted(set(target_by_timestamp) - set(source_hashes)))`
abbrev pub deleted_times : List (Datetime × Str) → List (Datetime × Str) → List Datetime
deleted_times target sources =
    sort_by datetime_lt
      (without datetime_eq (keys_of datetime_eq target) (keys_of datetime_eq sources))

abbrev pub is_empty : {A : Type 0} → List A → Bool
is_empty [] = true
is_empty (_ ∷ _) = false

abbrev pub source_times : List (Datetime × Str) → List Datetime
source_times sources = sort_by datetime_lt (keys_of datetime_eq sources)

-- The plan of `plan_gold_delta`, from the rows and digests of the frame.
unfoldable pub plan_of :
    List GoldRowPayload → List GoldRowDigest → List (Datetime × Str) → Result GoldDeltaPlan
unfolding classify gold_delta_plan sort_by
plan_of rows digests target =
    let sources = set_items datetime_eq [] (map digest_entry digests) in
    let by_time = set_items datetime_eq [] (map row_entry rows) in
    bind (classify target sources by_time (source_times sources)) (λ g. gold_delta_plan (record {
      inserts = g.inserts;
      updates = g.updates;
      deletes = deleted_times target sources;
      unchanged = g.unchanged;
      source_digests = digests;
    }))

module _ (sha256 : List ℕ → Str) (sort_rows : List RawRow → List RawRow) where
  unfoldable pub plan_gold_delta :
      Frame → List GoldRowDigest → Option GoldSyncState → Result GoldDeltaPlan
  unfolding source_rows_and_digests target_digest_map plan_of
  plan_gold_delta frame target_digests sync_state =
      bind (source_rows_and_digests sha256 sort_rows frame) (λ (rows, digests).
        bind (target_digest_map target_digests) (λ target.
          refuse (is_none sync_state && not (is_empty target)) value_error
          ⨟ plan_of rows digests target))
