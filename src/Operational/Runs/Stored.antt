-- ===== src/Operational/Runs/Stored.antt =====
-- ingestion/operational_repository.py: what a stored run is read back as.
use market_regime_loader.Prelude.{
  ◌≡◌, refl, sym, ap, ◌∙◌, Str, none, List, [], ◌∷◌, ◌&&◌, any, is_negative, datetime_lt, mixed,
  in_utc,
}
use mathlib.Core.Path.{subst}
use market_regime_loader.Prelude.Effects.{
  ok, bind-eq-ok, ok-injective, refuse-eq-ok, value_error, type_error,
}
use market_regime_loader.Bronze.Contracts.{is_blank}
use market_regime_loader.Bronze.Records.{IngestionRunRecord, check_run, is_failed, claims_writes}
use market_regime_loader.Operational.Sanitize.{sanitize}
use market_regime_loader.Operational.Values.{
  provider_of, mode_of, status_of, provider_of-provider_value, mode_of-mode_value,
  status_of-status_value,
}
use market_regime_loader.Operational.Runs.{RunRow, AuditRecord, stored_run, run_row, run_of_row}

-- The run, with its times in UTC and without the error itself.
abbrev pub run_in_utc : IngestionRunRecord → IngestionRunRecord
run_in_utc run = record run {
  started_at_utc = in_utc run.started_at_utc;
  completed_at_utc = in_utc run.completed_at_utc;
  error = none;
}

-- What is stored of a record: its texts without the secrets, and the run with its times in UTC.
abbrev pub cleaned : List Str → AuditRecord → AuditRecord
cleaned secrets r = record {
  run = run_in_utc r.run;
  error_category = sanitize secrets r.error_category;
  error_message = sanitize secrets r.error_message;
}

-- A run that passes its validation, whatever its error is.
abbrev pub IsChecked : IngestionRunRecord → Type 0
IsChecked run = check_run (record run { error = none }) ≡ ok (record run { error = none })

check_run-same : (run run' : IngestionRunRecord) → check_run run ≡ ok run' → run ≡ run'
unfolding check_run
check_run-same run run' h =
    let (a, h1) = refuse-eq-ok (is_blank run.run_id) value_error _ h in
    let (b, h2) =
      refuse-eq-ok
        (any is_negative (
          run.fetched_rows ∷ run.accepted_rows ∷ run.inserted_rows ∷ run.revised_rows
          ∷ run.written_partitions ∷ []))
        value_error _ h1 in
    let (c, h3) =
      refuse-eq-ok (mixed (run.completed_at_utc ∷ run.started_at_utc ∷ [])) type_error _ h2 in
    let (d, h4) =
      refuse-eq-ok (datetime_lt run.completed_at_utc run.started_at_utc) value_error _ h3 in
    let (e, h5) = refuse-eq-ok (is_failed run.status && claims_writes run) value_error _ h4 in
    ok-injective h5

-- A checked run is checked with its times in UTC.
IsChecked-run_in_utc :
    (run : IngestionRunRecord) → IsChecked run → check_run (run_in_utc run) ≡ ok (run_in_utc run)
unfolding check_run
IsChecked-run_in_utc run h =
    let (a, h1) = refuse-eq-ok (is_blank run.run_id) value_error _ h in
    let (b, h2) =
      refuse-eq-ok
        (any is_negative (
          run.fetched_rows ∷ run.accepted_rows ∷ run.inserted_rows ∷ run.revised_rows
          ∷ run.written_partitions ∷ []))
        value_error _ h1 in
    let (c, h3) =
      refuse-eq-ok (mixed (run.completed_at_utc ∷ run.started_at_utc ∷ [])) type_error _ h2 in
    let (d, h4) =
      refuse-eq-ok (datetime_lt run.completed_at_utc run.started_at_utc) value_error _ h3 in
    let (e, h5) = refuse-eq-ok (is_failed run.status && claims_writes run) value_error _ h4 in
    rw (a, b, d, e) refl

-- A checked record is read back from its row, without the secrets.
pub run_of_row-run_row :
    (secrets : List Str) (r : AuditRecord)
    → IsChecked r.run
    → run_of_row (run_row secrets r) ≡ ok (cleaned secrets r)
unfolding run_of_row run_row
run_of_row-run_row secrets r h =
    rw
      (
        provider_of-provider_value r.run.provider,
        mode_of-mode_value r.run.mode,
        status_of-status_value r.run.status,
        IsChecked-run_in_utc r.run h,
      )
      refl

pub run_of_row-IsChecked :
    (row : RunRow) (r : AuditRecord) → run_of_row row ≡ ok r → IsChecked r.run
unfolding run_of_row
run_of_row-IsChecked row r h =
    let (provider, e1, h1) = bind-eq-ok (provider_of row.provider) _ h in
    let (mode, e2, h2) = bind-eq-ok (mode_of row.mode) _ h1 in
    let (status, e3, h3) = bind-eq-ok (status_of row.status) _ h2 in
    let (run, e4, h4) = bind-eq-ok (check_run (stored_run row provider mode status)) _ h3 in
    let same : run ≡ r.run = ap (λ (r : AuditRecord). r.run) (ok-injective h4) in
    checked (stored_run row provider mode status) run r.run refl e4 same
  where
    checked :
        (given run run' : IngestionRunRecord)
        → given ≡ record given { error = none }
        → check_run given ≡ ok run
        → run ≡ run'
        → IsChecked run'
    checked given run run' plain e same =
        let whole : given ≡ run' = check_run-same given run e ∙ same in
        subst IsChecked whole
          (subst (λ g. check_run g ≡ ok g) plain (e ∙ ap ok (sym (check_run-same given run e))))
