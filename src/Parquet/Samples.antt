-- ===== src/Parquet/Samples.antt =====
-- Small frames, of a date and a value.
use market_regime_loader.Prelude.{
  ℕ, ◌==◌, ◌≡◌, refl, arith, str_eq, codes, Option, none, some, List, [], ◌∷◌, if◌then◌else◌,
}
use mathlib.Core.List.Permᴰ
use market_regime_loader.Prelude.Effects.{ok}
use market_regime_loader.Parquet.{Row, Frame, FrameDiff, merge_frames, classified}
use market_regime_loader.Parquet.Upsert.{Upserted, merge_frames-Upserted}

abbrev row : Option ℕ → Option ℕ → Row ℕ
row date value column = if str_eq column (codes "d") then date else value

abbrev frame : List (Row ℕ) → Frame ℕ
frame rows = record {
  schema = (codes "d", codes "Date") ∷ (codes "v", codes "Float64") ∷ [];
  rows = rows;
}

abbrev retained_frame : Frame ℕ
retained_frame = frame (row (some 1) (some 10) ∷ row (some 2) (some 20) ∷ row (some 3) none ∷ [])

abbrev incoming_frame : Frame ℕ
incoming_frame = frame (row (some 4) (some 40) ∷ row (some 2) (some 25) ∷ row (some 3) none ∷ [])

abbrev merged_frame : Frame ℕ
merged_frame = frame (
    row (some 1) (some 10)
    ∷ row (some 3) none
    ∷ row (some 4) (some 40)
    ∷ row (some 2) (some 25)
    ∷ [])

abbrev diff : FrameDiff ℕ
diff = record {
  inserts = frame (row (some 4) (some 40) ∷ []);
  unchanged = frame (row (some 3) none ∷ []);
  revisions = frame (row (some 2) (some 25) ∷ []);
}

-- One row is new, one is revised, one is the same, and one is retained.
merged :
    merge_frames (λ a b. a == b) (λ names rows. rows) retained_frame incoming_frame (codes "d" ∷ [])
    ≡ ok (merged_frame, diff)
unfolding merge_frames classified str_eq
merged = refl

merge_frames-Upserted_example :
    Upserted (λ a b. a == b) retained_frame incoming_frame (codes "d" ∷ []) merged_frame.rows
merge_frames-Upserted_example =
    merge_frames-Upserted (λ a b. a == b) retained_frame incoming_frame (codes "d" ∷ [])
      (λ names rows. rows) (λ names rows. Permᴰ.refl rows) (λ a b h. ground arith)
      (λ a. ground arith) merged_frame diff merged
