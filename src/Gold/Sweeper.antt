-- ===== src/Gold/Sweeper.antt =====
-- ingestion/gold_retention_store.py: `GoldBundleSweeper`, which deletes the files of a build.
--
-- The disk is the set of the files and that of the directories. A fault, a deletion of a file and one
-- of a directory may each fail at any call, and then delete nothing. The digits of a regular
-- expression are given.
pub mod Swept
mod Samples
use market_regime_loader.Prelude.{
  ℕ, zero, suc, ◌==◌, ◌&&◌, ◌++◌, Str, str_eq, codes, Bool, true, false, not, List, [], ◌∷◌,
  if◌then◌else◌,
}
use market_regime_loader.Prelude.Effects.{
  Exn, Result, ok, err, value_error, refuse, ◌⨟◌, bind, Exec, lift, pure, ◌>>=◌, ◌>>◌,
}

pub data Stage : Type 0 where
  before_delete after_delete : Str → Stage
  before_remove_dir after_remove_dir : Stage

-- A path is its parts, the last one first.
abbrev pub Parts : Type 0
Parts = List Str

unfoldable pub path_eq : Parts → Parts → Bool
path_eq [] [] = true
path_eq (a ∷ p) (b ∷ q) = str_eq a b && path_eq p q
path_eq [] (_ ∷ _) = false
path_eq (_ ∷ _) [] = false

abbrev pub parent : Parts → Parts
parent [] = []
parent (_ ∷ p) = p

-- `re.fullmatch`, for one test per character
abbrev pub full_match : List (ℕ → Bool) → Str → Bool
full_match [] [] = true
full_match (test ∷ tests) (c ∷ cs) = test c && full_match tests cs
full_match [] (_ ∷ _) = false
full_match (_ ∷ _) [] = false

abbrev pub repeat : ℕ → (ℕ → Bool) → List (ℕ → Bool)
repeat zero test = []
repeat (suc n) test = test ∷ repeat n test

-- `LakePaths`, with the digits of a regular expression
pub record LakePaths : Type 0 where
  pub root : Parts
  pub is_digit : ℕ → Bool

-- `LakePaths.gold_dataset_root`
unfoldable pub gold_dataset_root : LakePaths → Parts
gold_dataset_root paths = codes "dataset=regime_features_daily" ∷ codes "gold" ∷ paths.root

-- `_BUILD_ID_RE`: 84 is `T` and 90 is `Z`
unfoldable pub is_build_id : LakePaths → Str → Bool
is_build_id paths build_id =
    full_match
      (repeat 8 paths.is_digit ++ (λ c. c == 84) ∷ repeat 6 paths.is_digit ++ (λ c. c == 90) ∷ [])
      build_id

-- `LakePaths.gold_build_root`
unfoldable pub gold_build_root : LakePaths → Str → Result Parts
unfolding is_build_id gold_dataset_root
gold_build_root paths build_id =
    refuse (not (is_build_id paths build_id)) value_error
    ⨟ ok ((codes "build_id=" ++ build_id) ∷ codes "versions" ∷ gold_dataset_root paths)

abbrev pub child : Str → Result Parts → Result Parts
child name (ok p) = ok (name ∷ p)
child name (err e) = err e

-- `LakePaths.gold_data`
unfoldable pub gold_data : LakePaths → Str → Result Parts
gold_data paths build_id = child (codes "data.parquet") (gold_build_root paths build_id)

-- `LakePaths.gold_build_manifest`
unfoldable pub gold_build_manifest : LakePaths → Str → Result Parts
gold_build_manifest paths build_id = child (codes "manifest.json") (gold_build_root paths build_id)

-- `LakePaths.gold_build_profile`
unfoldable pub gold_build_profile : LakePaths → Str → Result Parts
gold_build_profile paths build_id =
    child (codes "feature_profile.png") (gold_build_root paths build_id)

pub record Env : Type 0 where
  pub fault : ℕ → Stage → Result (Unit {0})
  pub unlink : ℕ → Result (Unit {0})
  -- what `rmdir` does, by whether it has a file in it
  pub rmdir : ℕ → (Parts → Bool) → Parts → Result (Unit {0})

pub record Disk : Type 0 where
  pub files : Parts → Bool
  pub dirs : Parts → Bool
  pub calls : ℕ

abbrev pub Action : Type 0 → Type 0
Action A = Exec Disk A

abbrev pub remove : Parts → (Parts → Bool) → Parts → Bool
remove path there p = if path_eq p path then false else there p

module _ (env : Env) where
  abbrev pub fault : Stage → Action Unit
  fault stage d = (env.fault d.calls stage, record d { calls = suc d.calls })

  abbrev pub unlinked : Parts → Result (Unit {0}) → Action Unit
  unlinked path (ok _) d = (ok tt, record d { files = remove path d.files; calls = suc d.calls })
  unlinked path (err e) d = (err e, record d { calls = suc d.calls })

  -- `path.unlink(missing_ok=True)`
  abbrev pub unlink : Parts → Action Unit
  unlink path d = unlinked path (env.unlink d.calls) d

  abbrev pub removed_dir : Parts → Result (Unit {0}) → Action Unit
  removed_dir path (ok _) d = (ok tt, record d { dirs = remove path d.dirs; calls = suc d.calls })
  removed_dir path (err e) d = (err e, record d { calls = suc d.calls })

  abbrev pub rmdir : Parts → Action Unit
  rmdir path d = removed_dir path (env.rmdir d.calls d.files path) d

  -- The body of the loop over `artifacts`
  unfoldable pub delete_artifact : Parts → Str → Parts → Action Unit
  delete_artifact build_root name path =
      lift (refuse (not (path_eq (parent path) build_root)) value_error)
      >> fault (before_delete name)
      >> unlink path
      >> fault (after_delete name)

  unfoldable pub delete_all : Parts → List (Str × Parts) → Action Unit
  delete_all build_root [] = pure tt
  delete_all build_root ((name, path) ∷ artifacts) =
      delete_artifact build_root name path >> delete_all build_root artifacts

  abbrev pub remove_root : Parts → Action Unit
  remove_root build_root d = (if d.dirs build_root then rmdir build_root else pure tt) d

  -- `GoldBundleSweeper.sweep`
  unfoldable pub sweep : LakePaths → Str → Action Unit
  unfolding delete_all
  sweep paths build_id = do
    build_root ← lift (gold_build_root paths build_id)
    data_path ← lift (gold_data paths build_id)
    manifest_path ← lift (gold_build_manifest paths build_id)
    plot_path ← lift (gold_build_profile paths build_id)
    delete_all build_root (
        (codes "data", data_path)
        ∷ (codes "manifest", manifest_path)
        ∷ (codes "plot", plot_path)
        ∷ [])
    fault before_remove_dir
    remove_root build_root
    fault after_remove_dir
