-- ===== src/Operational/Runs/Audit.antt =====
-- ingestion/operational_repository.py: what upsert_run and write_inventory make of their files.
use market_regime_loader.Prelude.{
  ℕ, ◌≡◌, refl, ◌⊎◌, inl, inr, arith, true, false, not, some, map, str_eq→eq, str_eq_refl, Str,
  Option, none, List, [], ◌∷◌, ◌++◌, keep, All,
}
use mathlib.Core.List.{Permᴰ, Memᴰ}
use market_regime_loader.Prelude.Effects.{traverse, ok}
use market_regime_loader.Prelude.Hoare.{Post, Post-weaken}
use market_regime_loader.Prelude.Membership.{Separated, keep-Separated}
use market_regime_loader.Bronze.Records.{InventoryRecord}
use market_regime_loader.Operational.Sanitize.{sanitize, contains}
use market_regime_loader.Operational.Sanitize.Secrets.{
  IsPlain, without_secrets-contains, without_secrets-absent,
}
use market_regime_loader.Operational.Values.{provider_of-provider_value}
use market_regime_loader.Operational.Snapshot.{Env, World}
use market_regime_loader.Operational.Snapshot.Update.{
  IsFormat, Holds, Stored, upsert-Post, write-Post, Saved,
}
use market_regime_loader.Operational.Runs.Stored.{
  run_in_utc, cleaned, IsChecked, run_of_row-run_row, run_of_row-IsChecked,
}
use market_regime_loader.Operational.Runs.{
  RunRow, AuditRecord, run_of_row, run_format, other_run, upsert_run, InventoryRow, inventory_row,
  inventory_of_row, inventory_format, write_inventory,
}

-- What a text is stored as: without any secret that has characters and no asterisk, and as it was if it
-- had no secret.
abbrev pub CleanText : List Str → Option Str → Option Str → Type 0
CleanText secrets none text = text ≡ none
CleanText secrets (some s) text =
    (s' : Str) × (text ≡ some s')
    × ((c : ℕ) (secret : Str)
        → Memᴰ (c ∷ secret) secrets
        → IsPlain (c ∷ secret)
        → contains (c ∷ secret) s' ≡ false)
    × (((c : ℕ) (secret : Str) → Memᴰ (c ∷ secret) secrets → contains (c ∷ secret) s ≡ false)
        → s' ≡ s)

abbrev pub Cleaned : List Str → AuditRecord → AuditRecord → Type 0
Cleaned secrets r stored =
    (stored.run ≡ run_in_utc r.run)
    × CleanText secrets r.error_category stored.error_category
    × CleanText secrets r.error_message stored.error_message

abbrev pub Each : {A B : Type 0} → (A → B → Type 0) → List A → List B → Type 0
Each R [] [] = Unit
Each R (a ∷ xs) (b ∷ ys) = R a b × Each R xs ys
Each R [] (_ ∷ _) = ⊥
Each R (_ ∷ _) [] = ⊥

sanitize-CleanText :
    (secrets : List Str) (text : Option Str) → CleanText secrets text (sanitize secrets text)
unfolding sanitize
sanitize-CleanText secrets none = refl
sanitize-CleanText secrets (some s) =
    (_, refl, without_secrets-contains secrets s, without_secrets-absent secrets s)

cleaned-Cleaned :
    (secrets : List Str) (rs : List AuditRecord)
    → Each (Cleaned secrets) rs (map (cleaned secrets) rs)
cleaned-Cleaned secrets [] = tt
cleaned-Cleaned secrets (r ∷ rs) = (
  (refl, sanitize-CleanText secrets r.error_category, sanitize-CleanText secrets r.error_message),
  cleaned-Cleaned secrets rs,
)

abbrev pub SameRun : AuditRecord → AuditRecord → Type 0
SameRun r item = item.run.run_id ≡ r.run.run_id

other_run-SameRun : (r item : AuditRecord) → other_run r item ≡ true → SameRun r item → ⊥
other_run-SameRun r item h same = let equal = (rw (same, str_eq_refl r.run.run_id) at h) in cc

not_other_run-SameRun : (r item : AuditRecord) → other_run r item ≡ false → SameRun r item
not_other_run-SameRun r item h = str_eq→eq item.run.run_id r.run.run_id (ground arith)

module _ (sort : List RunRow → List RunRow) (sorts : (rows : List RunRow) → Permᴰ (sort rows) rows)
    (secrets : List Str) where
  run_format-IsFormat : IsFormat (run_format sort secrets) (cleaned secrets)
  unfolding run_format
  run_format-IsFormat = record {
    sorts = sorts;
    again = λ row r h. run_of_row-run_row secrets r (run_of_row-IsChecked row r h);
  }

  -- The file holds the runs of before that have another id, and the new one, in some order; those that
  -- are gone have its id.
  abbrev pub RunUpserted : AuditRecord → Option (List RunRow) → Option (List RunRow) → Type 0
  RunUpserted r before after =
      (existing : List AuditRecord) × (rest : List AuditRecord) × (gone : List AuditRecord)
      × (rows : List RunRow) × (stored : List AuditRecord) × (made : List AuditRecord) × Holds
          (run_format sort secrets) before existing
      × Separated (SameRun r) existing rest gone
      × (after ≡ some rows)
      × (traverse run_of_row rows ≡ ok stored)
      × Permᴰ stored made
      × Each (Cleaned secrets) (rest ++ r ∷ []) made

  upserted :
      (r : AuditRecord) (before after : Option (List RunRow))
      → (existing : List AuditRecord) × Holds (run_format sort secrets) before existing
        × Stored
            (run_format sort secrets)
            (cleaned secrets)
            (keep (other_run r) existing ++ r ∷ [])
            after
      → RunUpserted r before after
  unfolding run_format
  upserted r before after (existing, held, (rows, stored, file, read, perm)) = (
    existing,
    keep (other_run r) existing,
    keep (λ item. not (other_run r item)) existing,
    rows,
    stored,
    map (cleaned secrets) (keep (other_run r) existing ++ r ∷ []),
    held,
    keep-Separated (SameRun r) (other_run r) existing (other_run-SameRun r)
        (not_other_run-SameRun r),
    file,
    read,
    perm,
    cleaned-Cleaned secrets (keep (other_run r) existing ++ r ∷ []),
  )

  -- An upsert of a checked run that returns has put it in the place of the runs of its id, and kept all
  -- others, and one that raises, at whatever call, has done so or left the file as it was. A read of the
  -- file then gives the runs with their times in UTC and their texts: without any secret that has
  -- characters and no asterisk among them, and unchanged where there was no secret in them. The sort
  -- reorders the rows.
  pub upsert_run-Post :
      (env : Env) (r : AuditRecord) (w : World RunRow)
      → IsChecked r.run
      → Post
          (λ _ w'. RunUpserted r w.file w'.file)
          (λ _ w'. (w'.file ≡ w.file) ⊎ RunUpserted r w.file w'.file)
          (upsert_run sort secrets env r w)
  unfolding upsert_run run_format
  upsert_run-Post env r w h =
      Post-weaken _
        (upsert-Post (run_format sort secrets) (cleaned secrets) run_format-IsFormat env other_run r
          w (run_of_row-run_row secrets r h))
        (λ _ w' k. upserted r w.file w'.file k)
        (λ _ w' k. elim k [ inl kept ↦ inl kept | inr done ↦ inr (upserted r w.file w'.file done) ])

inventory_of_row-inventory_row : (r : InventoryRecord) → inventory_of_row (inventory_row r) ≡ ok r
unfolding inventory_of_row inventory_row
inventory_of_row-inventory_row r = rw (provider_of-provider_value r.provider) refl

module _ (sort : List InventoryRow → List InventoryRow)
    (sorts : (rows : List InventoryRow) → Permᴰ (sort rows) rows) where
  inventory_format-IsFormat : IsFormat (inventory_format sort) (λ r. r)
  unfolding inventory_format
  inventory_format-IsFormat = record {
    sorts = sorts;
    again = λ row r h. inventory_of_row-inventory_row r;
  }

  -- An inventory that is written is what a read of the file gives, in some order; where the write
  -- raises, at whatever call, it is that or what it was.
  pub write_inventory-Saved :
      (env : Env) (records : List InventoryRecord) (w : World InventoryRow)
      → Saved (inventory_format sort) (λ r. r) records w.file (write_inventory sort env records w)
  unfolding write_inventory inventory_format
  write_inventory-Saved env records w =
      write-Post (inventory_format sort) (λ r. r) inventory_format-IsFormat env records w
        (each records)
    where
      each :
          (records : List InventoryRecord)
          → All (λ r. inventory_of_row (inventory_row r) ≡ ok r) records
      each [] = tt
      each (r ∷ records) = (inventory_of_row-inventory_row r, each records)
