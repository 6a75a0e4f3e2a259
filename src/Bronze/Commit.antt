-- ===== src/Bronze/Commit.antt =====
-- ingestion/bronze_uow.py: `FilesystemBronzeUnitOfWork.commit_success`, the commit of a series' month
-- files, of the run's audit record and of the series' state as one compensated transaction.
--
-- The disk maps a path to the content of its file. A read, an atomic write
-- (ingestion/parquet_repository.py: atomic_write_parquet), an injected fault and a restore can each
-- fail at any call; an atomic write that fails has replaced the file or has not, and a restore that fails has
-- not. What the run file and the state file hold next (ingestion/operational_repository.py,
-- ingestion/state_repository.py) is a function of what they hold, which may raise.
pub mod Rollback
pub mod Atomic
use market_regime_loader.Prelude.{
  ℕ, suc, Str, str_eq, Option, none, some, List, [], ◌∷◌, ◌++◌, map, if◌then◌else◌,
}
use market_regime_loader.Prelude.Effects.{
  Exn, Result, ok, err, Exec, pure, raise, lift, catch, ◌>>=◌, ◌>>◌,
}

pub data WriteOutcome : Type 0 where
  written : WriteOutcome
  write_failed sync_failed : Exn → WriteOutcome

pub data Stage : Type 0 where
  after_bronze after_run after_state : Stage

pub record Env : Type 0 where
  pub read : ℕ → Result (Unit {0})
  pub write : ℕ → WriteOutcome
  pub fault : ℕ → Stage → Result (Unit {0})
  pub restore : ℕ → Result (Unit {0})

-- The bytes of a file.
abbrev pub Content : Type 0
Content = List ℕ

abbrev pub Files : Type 0
Files = Str → Option Content

pub record Disk : Type 0 where
  pub files : Files
  pub calls : ℕ

abbrev pub Action : Type 0 → Type 0
Action A = Exec Disk A

abbrev pub call : {A : Type 0} → (ℕ → Result A) → Action A
call f d = (f d.calls, record d { calls = suc d.calls })

abbrev pub put : Str → Option Content → Files → Files
put path content files p = if str_eq p path then content else files p

abbrev pub write_file : Str → Content → WriteOutcome → Action Unit
write_file path content (write_failed e) d = (err e, d)
write_file path content written d = (ok tt, record d { files = put path (some content) d.files })
write_file path content (sync_failed e) d =
    (err e, record d { files = put path (some content) d.files })

pub record Backup : Type 0 where
  pub path : Str
  pub content : Option Content

abbrev pub reversed : List Backup → List Backup
reversed [] = []
reversed (item ∷ items) = reversed items ++ item ∷ []

abbrev pub tracked : Str → Str → List (Str × Content) → List Str
tracked runs state months = map (λ (path, _). path) months ++ runs ∷ state ∷ []

module _ (env : Env) where
  -- `atomic_write_parquet`
  unfoldable pub atomic_write : Str → Content → Action Unit
  unfolding str_eq
  atomic_write path content = do
    outcome ← call (λ n. ok (env.write n))
    write_file path content outcome

  -- `_backup`
  unfoldable pub backup : Str → Action Backup
  backup path = do call env.read; (λ d. (ok (record { path = path; content = d.files path }), d))

  -- `_restore`
  unfoldable pub restore : Backup → Action Unit
  unfolding str_eq
  restore item = do
    call env.restore
    (λ d. (ok tt, record d { files = put item.path item.content d.files }))

  -- `upsert_run`, `upsert_state`: the file is read, and replaced by its update.
  unfoldable pub update_file : Str → (Option Content → Result Content) → Action Unit
  unfolding atomic_write
  update_file path next = do
    call env.read
    content ← (λ d. (next (d.files path), d))
    atomic_write path content

  abbrev pub backup_all : List Str → Action (List Backup)
  backup_all [] = pure []
  backup_all (path ∷ paths) = do item ← backup path; rest ← backup_all paths; pure (item ∷ rest)

  abbrev pub restore_all : List Backup → Action Unit
  restore_all [] = pure tt
  restore_all (item ∷ items) = do restore item; restore_all items

  abbrev pub write_all : List (Str × Content) → Action Unit
  write_all [] = pure tt
  write_all ((path, content) ∷ months) = do atomic_write path content; write_all months

  abbrev pub inject : Stage → Action Unit
  inject stage = call (λ n. env.fault n stage)

  module _ (runs state : Str) (next_runs next_state : Option Content → Result Content) where
    -- The body of the `try`.
    unfoldable pub install : List (Str × Content) → Action Unit
    unfolding atomic_write update_file
    install months = do
      write_all months
      inject Stage.after_bronze
      update_file runs next_runs
      inject Stage.after_run
      update_file state next_state
      inject Stage.after_state

    unfoldable pub commit_success : List (Str × Content) → Action Unit
    unfolding backup restore install
    commit_success months = do
      backups ← backup_all (tracked runs state months)
      catch (install months) (λ e. do restore_all (reversed backups); raise e)
