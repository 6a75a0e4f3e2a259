-- ===== src/Operational/Snapshot.antt =====
-- A snapshot of records in one file: ingestion/operational_repository.py and
-- ingestion/state_repository.py read, replace and update three of them in the same way.
--
-- The file holds rows. A read fails or gives the rows, as the environment decides by the number of
-- calls made so far; an atomic write (ingestion/parquet_repository.py) can fail before the file is
-- replaced, or after it. The sort of the data frame is a parameter.
pub mod Update
use market_regime_loader.Prelude.{
  ℕ, suc, Str, str_eq, Bool, true, false, not, ◌&&◌, ◌||◌, Option, none, some, List, [], ◌∷◌, ◌++◌,
  map, any, keep, if◌then◌else◌,
}
use market_regime_loader.Prelude.Effects.{
  Exn, Result, ok, err, value_error, refuse, traverse, ◌⨟◌, Exec, pure, lift, ◌>>=◌, ◌>>◌,
}

pub data WriteOutcome : Type 0 where
  written : WriteOutcome
  unchanged unsynced : Exn → WriteOutcome

pub record Env : Type 0 where
  pub read : ℕ → Result (Unit {0})
  pub write : ℕ → WriteOutcome

pub record World (Row : Type 0) : Type 0 where
  pub file : Option (List Row)
  pub calls : ℕ

abbrev pub Action : Type 0 → Type 0 → Type 0
Action Row A = Exec (World Row) A

-- How records are stored: as rows that have a key of texts, and are sorted.
pub record Format (R Row : Type 0) : Type 0 where
  pub encode : R → Row
  pub decode : Row → Result R
  pub key : Row → List Str
  pub sort : List Row → List Row

abbrev pub same_texts : List Str → List Str → Bool
same_texts [] [] = true
same_texts [] (_ ∷ _) = false
same_texts (_ ∷ _) [] = false
same_texts (s ∷ ss) (t ∷ ts) = str_eq s t && same_texts ss ts

module _ {R Row : Type 0} (format : Format R Row) where
  abbrev pub same_row : Row → Row → Bool
  same_row a b = same_texts (format.key a) (format.key b)

  -- `frame.group_by(key).len().filter(pl.col("len") > 1)` is not empty.
  abbrev pub has_duplicates : List Row → Bool
  has_duplicates [] = false
  has_duplicates (row ∷ rows) = any (same_row row) rows || has_duplicates rows

  -- The frame of the records
  unfoldable pub frame : List R → Result (List Row)
  frame [] = ok []
  frame (r ∷ records) =
      refuse (has_duplicates (map format.encode (r ∷ records))) value_error
      ⨟ ok (format.sort (map format.encode (r ∷ records)))

  module _ (env : Env) where
    abbrev pub read_rows : Option (List Row) → Action Row (List R)
    read_rows none = pure []
    read_rows (some rows) = do
      (λ (w : World Row). (env.read w.calls, record w { calls = suc w.calls }))
      lift (traverse format.decode rows)

    unfoldable pub read : Action Row (List R)
    read w = read_rows w.file w

    abbrev pub replace : List Row → WriteOutcome → Action Row Unit
    replace rows written w = (ok tt, record w { file = some rows; calls = suc w.calls })
    replace rows (unchanged e) w = (err e, record w { calls = suc w.calls })
    replace rows (unsynced e) w = (err e, record w { file = some rows; calls = suc w.calls })

    unfoldable pub write : List R → Action Row Unit
    unfolding frame
    write records = do
      rows ← lift (frame records)
      (λ (w : World Row). replace rows (env.write w.calls) w)

    -- The record in place of those that are not `other` than it.
    unfoldable pub upsert : (R → R → Bool) → R → Action Row Unit
    unfolding read write
    upsert other r = do existing ← read; write (keep (other r) existing ++ r ∷ [])
