-- ===== src/Operational/Samples.antt =====
-- Small snapshots and texts.
use market_regime_loader.Prelude.{
  ◌≡◌, refl, ◌⊎◌, pos, Str, str_eq, codes, aware, true, false, none, some, [], ◌∷◌,
}
use mathlib.Core.List.{Memᴰ}
use mathlib.Core.List.Permᴰ
use market_regime_loader.Prelude.Effects.{ok}
use market_regime_loader.Prelude.Hoare.{Post}
use market_regime_loader.Bronze.Contracts.{Provider}
use market_regime_loader.Bronze.Planner.{OperationMode}
use market_regime_loader.Bronze.State.{IngestionState}
use market_regime_loader.Bronze.Records.{InventoryRecord, IngestionRunRecord, RunStatus, check_run}
use market_regime_loader.Operational.Sanitize.{contains, without_secrets}
use market_regime_loader.Operational.Sanitize.Secrets.{without_secrets-contains}
use market_regime_loader.Operational.Snapshot.{Env, World, WriteOutcome}
use market_regime_loader.Operational.Snapshot.Update.{Saved}
use market_regime_loader.Operational.States.{StateRow, state_row, upsert_state, state_format}
use market_regime_loader.Operational.States.Upsert.{StateUpserted, upsert_state-Post}
use market_regime_loader.Operational.Runs.{
  AuditRecord, RunRow, InventoryRow, upsert_run, write_inventory, inventory_format, run_row,
}
use market_regime_loader.Operational.Runs.Stored.{IsChecked}
use market_regime_loader.Operational.Runs.Audit.{
  RunUpserted, upsert_run-Post, write_inventory-Saved,
}

abbrev token : Str
token = codes "key"

abbrev message : Str
message = codes "no keykey for kkey"

cleaned_message : without_secrets (token ∷ []) message ≡ codes "no ****** for k***"
unfolding without_secrets
cleaned_message = refl

-- A replacement can make up a secret that has an asterisk in it.
asterisk_left : contains (codes "a*") (without_secrets (codes "a*" ∷ []) (codes "aa**")) ≡ true
unfolding contains without_secrets
asterisk_left = refl

without_secrets-contains_example :
    contains token (without_secrets (codes "x" ∷ token ∷ []) message) ≡ false
without_secrets-contains_example =
    without_secrets-contains (codes "x" ∷ token ∷ []) message 107 (codes "ey")
      (Memᴰ.tail (Memᴰ.head refl)) refl

abbrev env : Env
env = record { read = λ _. ok tt; write = λ _. WriteOutcome.written }

abbrev state : IngestionState
state = record {
  provider = Provider.ecb;
  series_id = codes "ciss";
  last_success_utc = some (aware 5);
  last_observed_date = some 3;
  last_requested_start = none;
  last_requested_end = some 3;
  mode = some OperationMode.update;
  fetched_row_count = pos 2;
  accepted_row_count = pos 2;
  changed_row_count = pos 1;
  last_reconcile_utc = none;
}

abbrev older : IngestionState
older = record state { changed_row_count = pos 0 }

abbrev other : IngestionState
other = record state { provider = Provider.fred }

abbrev states : World StateRow
states = record { file = some (state_row older ∷ state_row other ∷ []); calls = 0 }

-- The state of the same key is replaced, the one of another provider stays.
state_replaced :
    upsert_state (λ rows. rows) env state states
    ≡ (ok tt, record { file = some (state_row other ∷ state_row state ∷ []); calls = 2 })
unfolding upsert_state state_row str_eq state_format
state_replaced = refl

upsert_state-Post_example :
    Post
      (λ _ w. StateUpserted (λ rows. rows) (λ rows. Permᴰ.refl rows) state states.file w.file)
      (λ _ w.
        (w.file ≡ states.file)
        ⊎ StateUpserted (λ rows. rows) (λ rows. Permᴰ.refl rows) state states.file w.file)
      (upsert_state (λ rows. rows) env state states)
upsert_state-Post_example =
    upsert_state-Post (λ rows. rows) (λ rows. Permᴰ.refl rows) env state states

abbrev run : IngestionRunRecord
run = record {
  run_id = codes "r";
  provider = Provider.ecb;
  series_id = codes "ciss";
  mode = OperationMode.update;
  requested_start = none;
  requested_end = none;
  fetched_rows = pos 0;
  accepted_rows = pos 0;
  inserted_rows = pos 0;
  revised_rows = pos 0;
  written_partitions = pos 0;
  status = RunStatus.failed;
  started_at_utc = aware 1;
  completed_at_utc = aware 2;
  error = none;
}

abbrev audit : AuditRecord
audit = record { run = run; error_category = some (codes "E"); error_message = some message }

abbrev runs : World RunRow
runs = record { file = some (run_row [] audit ∷ []); calls = 0 }

run-IsChecked : IsChecked run
unfolding check_run
run-IsChecked = refl

upsert_run-Post_example :
    Post
      (λ _ w.
        RunUpserted (λ rows. rows) (λ rows. Permᴰ.refl rows) (token ∷ []) audit runs.file w.file)
      (λ _ w.
        (w.file ≡ runs.file)
        ⊎ RunUpserted (λ rows. rows) (λ rows. Permᴰ.refl rows) (token ∷ []) audit runs.file w.file)
      (upsert_run (λ rows. rows) (token ∷ []) env audit runs)
upsert_run-Post_example =
    upsert_run-Post (λ rows. rows) (λ rows. Permᴰ.refl rows) (token ∷ []) env audit runs
      run-IsChecked

abbrev covered : InventoryRecord
covered = record {
  series_id = codes "ciss";
  provider = Provider.ecb;
  min_observation_date = some 1;
  max_observation_date = some 3;
  row_count = pos 3;
  duplicate_key_count = pos 0;
  file_count = pos 1;
}

abbrev inventory : World InventoryRow
inventory = record { file = none; calls = 0 }

write_inventory-Saved_example :
    Saved
      (inventory_format (λ rows. rows))
      (λ r. r)
      (covered ∷ [])
      none
      (write_inventory (λ rows. rows) env (covered ∷ []) inventory)
write_inventory-Saved_example =
    write_inventory-Saved (λ rows. rows) (λ rows. Permᴰ.refl rows) env (covered ∷ []) inventory
