-- ===== src/Parquet.antt =====
-- ingestion/parquet_repository.py: diff_frames and merge_frames, the upsert of a frame into another one.
--
-- A frame is its schema and its rows, each a value for every column, which may be null. The equality
-- of two values and the sort of the rows are given.
pub mod Single
pub mod Agree
pub mod Merge
pub mod Upsert
mod Samples
use market_regime_loader.Prelude.{
  Str, str_eq, Bool, true, false, not, ◌&&◌, ◌||◌, Option, none, some, List, [], ◌∷◌, ◌++◌, keep,
  any, all, find, map, mem_str, if◌then◌else◌,
}
use market_regime_loader.Prelude.Effects.{Result, ok, value_error, bind, refuse, ◌⨟◌}

abbrev pub Row : Type 0 → Type 0
Row V = Str → Option V

pub record Frame (V : Type 0) : Type 0 where
  -- the columns in their order, with their types
  pub schema : List (Str × Str)
  pub rows : List (Row V)

abbrev pub columns : {V : Type 0} → Frame V → List Str
columns frame = map (λ (name, _). name) frame.schema

abbrev pub is_nil {ℓ} : {A : Type ℓ} → List A → Bool
is_nil [] = true
is_nil (x ∷ xs) = false

abbrev pub is_empty : {V : Type 0} → Frame V → Bool
is_empty frame = is_nil frame.rows

-- `frame.head(0)`
abbrev pub no_rows : {V : Type 0} → Frame V → Frame V
no_rows frame = record frame { rows = [] }

pub record FrameDiff (V : Type 0) : Type 0 where
  pub inserts : Frame V
  pub unchanged : Frame V
  pub revisions : Frame V

-- `FrameDiff.changed`
unfoldable pub changed : {V : Type 0} → FrameDiff V → Frame V
changed diff =
    if is_empty diff.inserts
    then diff.revisions
    else if is_empty diff.revisions
    then diff.inserts
    else record diff.inserts { rows = diff.inserts.rows ++ diff.revisions.rows }

-- `FrameDiff.has_changes`
unfoldable pub has_changes : {V : Type 0} → FrameDiff V → Bool
has_changes diff = not (is_empty diff.inserts) || not (is_empty diff.revisions)

-- The same columns in the same order, of the same types.
abbrev pub same_schema : List (Str × Str) → List (Str × Str) → Bool
same_schema [] [] = true
same_schema ((c, t) ∷ s) ((d, u) ∷ s') = (str_eq c d && str_eq t u) && same_schema s s'
same_schema [] (_ ∷ _) = false
same_schema (_ ∷ _) [] = false

-- `_ensure_compatible`
unfoldable pub ensure_compatible : {V : Type 0} → Frame V → Frame V → Result (Unit {0})
ensure_compatible existing incoming =
    if is_empty existing
    then ok tt
    else refuse (not (same_schema existing.schema incoming.schema)) value_error

module _ {V : Type 0} (eq : V → V → Bool) where
  -- `eq_missing`, by which nulls are equal
  abbrev pub same_cell : Option V → Option V → Bool
  same_cell none none = true
  same_cell (some a) (some b) = eq a b
  same_cell none (some b) = false
  same_cell (some a) none = false

  -- The equality of a join, by which nulls are not equal.
  abbrev pub joined_cell : Option V → Option V → Bool
  joined_cell (some a) (some b) = eq a b
  joined_cell none b = false
  joined_cell (some a) none = false

  abbrev pub same_on : List Str → Row V → Row V → Bool
  same_on names a b = all (λ c. same_cell (a c) (b c)) names

  abbrev pub joined_on : List Str → Row V → Row V → Bool
  joined_on names a b = all (λ c. joined_cell (a c) (b c)) names

  abbrev pub has_duplicates : List Str → List (Row V) → Bool
  has_duplicates key [] = false
  has_duplicates key (row ∷ rows) = any (same_on key row) rows || has_duplicates key rows

  -- `_ensure_unique`
  unfoldable pub ensure_unique : Frame V → List Str → Result (Unit {0})
  ensure_unique frame key =
      refuse (is_nil key) value_error
      ⨟ refuse (any (λ column. not (mem_str column (columns frame))) key) value_error
      ⨟ refuse (not (is_empty frame) && has_duplicates key frame.rows) value_error

  abbrev pub payload_columns : List Str → List Str → List Str
  payload_columns key names = keep (λ column. not (mem_str column key)) names

  -- The row of the left join, none where there is none; the keys of `existing` are unique.
  abbrev pub old_row : List Str → List (Row V) → Row V → Option (Row V)
  old_row key existing row = find (joined_on key row) existing

  abbrev pub is_insert : Option (Row V) → Bool
  is_insert none = true
  is_insert (some old) = false

  abbrev pub is_unchanged : List Str → Row V → Option (Row V) → Bool
  is_unchanged payload row none = false
  is_unchanged payload row (some old) = same_on payload row old

  abbrev pub is_revision : List Str → Row V → Option (Row V) → Bool
  is_revision payload row none = false
  is_revision payload row (some old) = not (same_on payload row old)

  -- `inserts`, `unchanged` and `revisions` in `diff_frames`
  unfoldable pub classified : Frame V → Frame V → List Str → FrameDiff V
  classified existing incoming key =
      let payload = payload_columns key (columns incoming) in
      let old = old_row key existing.rows in
      record {
        inserts = record incoming { rows = keep (λ row. is_insert (old row)) incoming.rows };
        unchanged = record incoming {
          rows = keep (λ row. is_unchanged payload row (old row)) incoming.rows;
        };
        revisions = record incoming {
          rows = keep (λ row. is_revision payload row (old row)) incoming.rows;
        };
      }

  abbrev pub diff_of : Frame V → Frame V → List Str → FrameDiff V
  diff_of existing incoming key =
      if is_empty existing
      then record { inserts = incoming; unchanged = no_rows incoming; revisions = no_rows incoming }
      else classified existing incoming key

  -- `diff_frames`
  unfoldable pub diff_frames : Frame V → Frame V → List Str → Result (FrameDiff V)
  unfolding ensure_unique ensure_compatible
  diff_frames existing incoming key =
      ensure_unique incoming key
      ⨟ ensure_unique existing key
      ⨟ (if is_empty incoming
          then ok (record { inserts = incoming; unchanged = incoming; revisions = incoming })
          else (ensure_compatible existing incoming ⨟ ok (diff_of existing incoming key)))

  -- `existing.join(changed_keys, on=key, how="anti")`
  abbrev pub retained : List Str → List (Row V) → List (Row V) → List (Row V)
  retained key existing updates = keep (λ row. not (any (joined_on key row) updates)) existing

  module _ (sort : List Str → List (Row V) → List (Row V)) where
    unfoldable pub merged_of : Frame V → Frame V → List Str → FrameDiff V → Frame V
    unfolding has_changes changed
    merged_of existing incoming key diff =
        if not (has_changes diff)
        then existing
        else if is_empty existing
        then record incoming { rows = sort key incoming.rows }
        else (let updates = (changed diff).rows in
            record existing { rows = sort key (retained key existing.rows updates ++ updates) })

    -- `merge_frames`
    unfoldable pub merge_frames : Frame V → Frame V → List Str → Result (Frame V × FrameDiff V)
    unfolding diff_frames merged_of
    merge_frames existing incoming key =
        bind (diff_frames existing incoming key)
          (λ diff. ok (merged_of existing incoming key diff, diff))
