-- ===== src/Bronze/Prepare/Samples.antt =====
-- A row that is fetched again.
use market_regime_loader.Prelude.{
  ℕ, ◌==◌, ◌≡◌, refl, arith, Str, str_eq, codes, false, some, List, [], ◌∷◌, if◌then◌else◌,
}
use market_regime_loader.Prelude.Effects.{ok}
use market_regime_loader.Parquet.{Row, Frame, FrameDiff, diff_frames, classified, has_changes}
use market_regime_loader.Bronze.Prepare.{
  bronze_key, fetched_at, stable_row, stable_incoming, meaningful,
}
use market_regime_loader.Bronze.Prepare.Refetch.{stable_incoming-has_changes}

abbrev day : Str
day = codes "observation_date"

abbrev row : ℕ → ℕ → ℕ → Row ℕ
row date value time column =
    if str_eq column day
    then some date
    else if str_eq column fetched_at
    then some time
    else some value

abbrev frame : List (Row ℕ) → Frame ℕ
frame rows = record {
  schema =
      ((codes "provider", codes "String")
        ∷ (codes "series_id", codes "String")
        ∷ (day, codes "Date")
        ∷ (codes "value", codes "Float64")
        ∷ (fetched_at, codes "Datetime")
        ∷ []);
  rows = rows;
}

abbrev stored : Frame ℕ
stored = frame (row 1 10 100 ∷ row 2 20 100 ∷ [])

abbrev again : Frame ℕ
again = frame (row 2 20 200 ∷ [])

abbrev normalized : Frame ℕ
normalized = record again {
  rows =
      stable_row (λ a b. a == b) stored
        (codes "provider" ∷ codes "series_id" ∷ day ∷ codes "value" ∷ fetched_at ∷ [])
        (row 2 20 200)
      ∷ [];
}

abbrev diff : FrameDiff ℕ
diff = classified (λ a b. a == b) stored normalized bronze_key

normalized_again : stable_incoming (λ a b. a == b) stored again ≡ ok normalized
unfolding stable_incoming str_eq
normalized_again = refl

nothing_new : diff_frames (λ a b. a == b) stored normalized bronze_key ≡ ok diff
unfolding diff_frames stable_row str_eq
nothing_new = refl

stable_incoming-has_changes_example : has_changes diff ≡ false
unfolding str_eq meaningful
stable_incoming-has_changes_example =
    stable_incoming-has_changes (λ a b. a == b) (λ a. ground arith) stored again normalized diff
      refl refl refl ((row 2 20 100, refl, refl, refl), tt) normalized_again nothing_new
