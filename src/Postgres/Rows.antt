-- ===== src/Postgres/Rows.antt =====
-- application/postgres_delta.py: the digest of a row, and the rows and digests of the Gold frame.
--
-- `hashlib.sha256` is given. A frame is what the code reads of it: its columns, their types, and its
-- rows; `frame.sort` is given. An element of a row that is neither null, a `datetime` nor a
-- `float` is `other`.
pub mod Framing
use market_regime_loader.Prelude.{
  ℕ, ◌+◌, ◌-◌, ◌*◌, ◌/◌, ◌%◌, ◌^◌, ℤ, pos, negsuc, Str, codes, str_eq, Datetime, naive, aware,
  datetime_eq, Bool, true, false, not, ◌&&◌, ◌||◌, Option, none, some, List, [], ◌∷◌, ◌++◌, map,
  any, ltb, ◌==◌, if◌then◌else◌,
}
use market_regime_loader.Prelude.Effects.{
  Result, ok, err, value_error, type_error, refuse, bind, traverse, ◌⨟◌,
}
use market_regime_loader.Prelude.Bytes.{pack_int, pack_double}
use market_regime_loader.Postgres.Contracts.{
  Float, timestamp_column, feature_columns, GoldRowPayload, GoldRowDigest, gold_row_payload,
  gold_row_digest,
}

-- 1970-01-01 in microseconds
abbrev pub epoch : ℕ
epoch = 62135596800000000

-- `_epoch_microseconds`; the days, seconds and microseconds of a difference of times add up to it.
unfoldable pub epoch_microseconds : Datetime → Result ℤ
epoch_microseconds (naive _) = err value_error
epoch_microseconds (aware t) = ok (if ltb t epoch then negsuc (epoch - t - 1) else pos (t - epoch))

-- `math.isfinite`: the exponent is not all ones.
abbrev pub is_finite : Float → Bool
is_finite bits = not (bits / 2 ^ 52 % 2048 == 2047)

-- `value == 0.0`: zero of either sign.
abbrev pub equals_zero : Float → Bool
equals_zero bits = bits % 2 ^ 63 == 0

-- `_canonical_float`
unfoldable pub canonical_float : Float → Result Float
canonical_float value =
    refuse (not (is_finite value)) value_error ⨟ ok (if equals_zero value then 0 else value)

-- `_DIGEST_PREFIX`
abbrev pub digest_prefix : List ℕ
digest_prefix = codes "market-regime-loader:gold-row:v1" ++ 0 ∷ []

-- What follows a column's name and a zero byte: `N`, or `F` and the value.
abbrev pub cell_bytes : Option Float → Result (List ℕ)
cell_bytes none = ok (codes "N")
cell_bytes (some value) =
    bind (canonical_float value) (λ canonical. ok (codes "F" ++ pack_double canonical))

-- `for column, value in zip(GOLD_COLUMNS[1:], row.values, strict=True)`; the names are ASCII.
unfoldable pub cells_bytes : List Str → List (Option Float) → Result (List ℕ)
unfolding canonical_float
cells_bytes [] [] = ok []
cells_bytes [] (_ ∷ _) = err value_error
cells_bytes (_ ∷ _) [] = err value_error
cells_bytes (column ∷ columns) (value ∷ values) =
    let rest = cells_bytes columns values in
    bind (cell_bytes value) (λ cell. bind rest (λ after. ok (column ++ 0 ∷ (cell ++ after))))

-- What `gold_row_sha256` hashes.
unfoldable pub row_bytes : GoldRowPayload → Result (List ℕ)
unfolding epoch_microseconds cells_bytes
row_bytes row = bind (epoch_microseconds row.timestamp_m1) (λ microseconds.
    bind (pack_int microseconds) (λ packed.
      bind (cells_bytes feature_columns row.values)
        (λ cells. ok (digest_prefix ++ (timestamp_column ++ 0 ∷ 84 ∷ (packed ++ cells))))))

pub data Cell : Type 0 where
  null other : Cell
  time : Datetime → Cell
  float : Float → Cell

pub data ColumnType : Type 0 where
  datetime_us_utc float64 other_type : ColumnType

pub record RawRow : Type 0 where
  pub timestamp : Cell
  pub features : List Cell

pub record Frame : Type 0 where
  pub columns : List Str
  pub column_type : Str → ColumnType
  pub rows : List RawRow

abbrev pub is_null : Cell → Bool
is_null Cell.null = true
is_null _ = false

abbrev pub same_time : Cell → Cell → Bool
same_time (Cell.time a) (Cell.time b) = datetime_eq a b
same_time _ _ = false

-- `bool(timestamp.is_duplicated().any())`
abbrev pub has_duplicates : List RawRow → Bool
has_duplicates [] = false
has_duplicates (r ∷ rs) =
    any (λ (s : RawRow). same_time r.timestamp s.timestamp) rs || has_duplicates rs

abbrev pub is_datetime_us_utc : ColumnType → Bool
is_datetime_us_utc ColumnType.datetime_us_utc = true
is_datetime_us_utc _ = false

abbrev pub is_float64 : ColumnType → Bool
is_float64 ColumnType.float64 = true
is_float64 _ = false

abbrev pub same_columns : List Str → List Str → Bool
same_columns [] [] = true
same_columns [] (_ ∷ _) = false
same_columns (_ ∷ _) [] = false
same_columns (a ∷ xs) (b ∷ ys) = str_eq a b && same_columns xs ys

-- `_validate_source_frame`
unfoldable pub validate_source_frame : Frame → Result (Unit {0})
validate_source_frame frame =
    refuse (not (same_columns frame.columns (timestamp_column ∷ feature_columns))) value_error
    ⨟ refuse (not (is_datetime_us_utc (frame.column_type timestamp_column))) type_error
    ⨟ refuse (any (λ (r : RawRow). is_null r.timestamp) frame.rows) value_error
    ⨟ refuse (has_duplicates frame.rows) value_error
    ⨟ refuse (any (λ c. not (is_float64 (frame.column_type c))) feature_columns) type_error

abbrev pub raw_timestamp : Cell → Result Datetime
raw_timestamp (Cell.time t) = ok t
raw_timestamp _ = err type_error

abbrev pub raw_value : Cell → Result (Option Float)
raw_value Cell.null = ok none
raw_value (Cell.float value) = bind (canonical_float value) (λ canonical. ok (some canonical))
raw_value _ = err type_error

module _ (sha256 : List ℕ → Str) where
  unfoldable pub gold_row_sha256 : GoldRowPayload → Result Str
  unfolding row_bytes
  gold_row_sha256 row = bind (row_bytes row) (λ bytes. ok (sha256 bytes))

  -- One pass of the loop: the row and its digest.
  unfoldable pub source_row : RawRow → Result (GoldRowPayload × GoldRowDigest)
  unfolding gold_row_sha256 gold_row_payload gold_row_digest canonical_float
  source_row raw = bind (raw_timestamp raw.timestamp) (λ timestamp.
      bind (traverse raw_value raw.features) (λ values.
        bind (gold_row_payload timestamp values) (λ payload.
          bind (gold_row_sha256 payload) (λ hashed.
            bind (gold_row_digest payload.timestamp_m1 hashed) (λ digest. ok (payload, digest))))))

  module _ (sort_rows : List RawRow → List RawRow) where
    unfoldable pub source_pairs : Frame → Result (List (GoldRowPayload × GoldRowDigest))
    unfolding validate_source_frame source_row
    source_pairs frame = validate_source_frame frame ⨟ traverse source_row (sort_rows frame.rows)

    unfoldable pub source_rows_and_digests :
        Frame → Result (List GoldRowPayload × List GoldRowDigest)
    unfolding source_pairs
    source_rows_and_digests frame =
        bind (source_pairs frame)
          (λ pairs. ok (map (λ (row, _). row) pairs, map (λ (_, digest). digest) pairs))
