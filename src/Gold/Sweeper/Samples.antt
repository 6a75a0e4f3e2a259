-- ===== src/Gold/Sweeper/Samples.antt =====
-- A sweep whose second deletion fails.
use market_regime_loader.Prelude.{
  ℕ, zero, suc, ◌&&◌, leb, ◌≡◌, refl, Str, str_eq, codes, true, [], ◌∷◌,
}
use market_regime_loader.Prelude.Effects.{Result, ok, err, external}
use market_regime_loader.Prelude.Hoare.{Post}
use market_regime_loader.Gold.Sweeper.{
  path_eq, delete_artifact, gold_data, gold_build_manifest, gold_build_profile, Env, Disk, Parts,
  LakePaths, gold_build_root, sweep,
}
use market_regime_loader.Gold.Sweeper.Swept.{Swept, Partly, bundle, sweep-Post}

abbrev paths : LakePaths
paths = record { root = codes "lake" ∷ []; is_digit = λ c. leb 48 c && leb c 57 }

abbrev build_id : Str
build_id = codes "20260102T030405Z"

abbrev root : Parts
root =
    codes "build_id=20260102T030405Z"
    ∷ codes "versions"
    ∷ codes "dataset=regime_features_daily"
    ∷ codes "gold"
    ∷ codes "lake"
    ∷ []

abbrev denied : ℕ → Result (Unit {0})
denied (suc (suc (suc (suc zero)))) = err (external 1)
denied _ = ok tt

abbrev env : Env
env = record { fault = λ _ _. ok tt; unlink = denied; rmdir = λ _ _ _. ok tt }

abbrev disk : Disk
disk = record { files = λ _. true; dirs = λ _. true; calls = 0 }

build_root : gold_build_root paths build_id ≡ ok root
unfolding gold_build_root
build_root = refl

second_failed : (sweep env paths build_id disk).0 ≡ err (external 1)
unfolding sweep str_eq gold_build_root gold_data gold_build_manifest gold_build_profile
    delete_artifact path_eq
second_failed = refl

sweep-Post_example :
    Post
      (λ _ d. Swept root disk d)
      (λ _ d. Partly (bundle root) disk.files d.files)
      (sweep env paths build_id disk)
sweep-Post_example = sweep-Post env paths build_id root disk build_root
