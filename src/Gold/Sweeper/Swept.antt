-- ===== src/Gold/Sweeper/Swept.antt =====
-- ingestion/gold_retention_store.py: what a sweep has deleted.
use market_regime_loader.Prelude.{
  ◌≡◌, refl, ap, ◌∙◌, ◌⊎◌, inl, inr, Str, str_eq_refl, codes, Bool, true, false, not, Bool-cases,
  List, [], ◌∷◌, ◌++◌,
}
use market_regime_loader.Prelude.Effects.{Exn, Result, ok, err, refuse, value_error}
use market_regime_loader.Prelude.Hoare.{Post, Post-continue, Post-lift, Post-weaken}
use market_regime_loader.Gold.Sweeper.{
  Env, Disk, Stage, Parts, LakePaths, path_eq, parent, remove, fault, unlink, unlinked, rmdir,
  removed_dir, delete_artifact, delete_all, remove_root, sweep, gold_build_root, gold_data,
  gold_build_manifest, gold_build_profile,
}

path_eq_refl : (p : Parts) → path_eq p p ≡ true
unfolding path_eq
path_eq_refl [] = refl
path_eq_refl (a ∷ p) = rw (str_eq_refl a) (path_eq_refl p)

-- The files without those of the artifacts.
abbrev pub without : List (Str × Parts) → (Parts → Bool) → Parts → Bool
without [] files = files
without ((_, path) ∷ artifacts) files = without artifacts (remove path files)

-- The artifacts of a build, in the order in which they are deleted.
abbrev pub bundle : Parts → List (Str × Parts)
bundle root =
    (codes "data", codes "data.parquet" ∷ root)
    ∷ (codes "manifest", codes "manifest.json" ∷ root)
    ∷ (codes "plot", codes "feature_profile.png" ∷ root)
    ∷ []

-- Some of the artifacts, the first ones, are deleted.
abbrev pub Partly : List (Str × Parts) → (Parts → Bool) → (Parts → Bool) → Type 0
Partly artifacts before after =
    (gone : List (Str × Parts)) × (left : List (Str × Parts)) × (artifacts ≡ gone ++ left)
    × (after ≡ without gone before)

-- What a sweep that returns has done.
abbrev pub Swept : Parts → Disk → Disk → Type 0
Swept root d d' = (d'.files ≡ without (bundle root) d.files) × (d'.dirs root ≡ false)

module _ (env : Env) where
  -- A fault leaves the disk as it is.
  fault-Post :
      {E : Exn → Disk → Type 0} (stage : Stage) (files dirs : Parts → Bool) (d : Disk)
      → d.files ≡ files
      → d.dirs ≡ dirs
      → ((e : Exn) (d' : Disk) → d'.files ≡ files → E e d')
      → Post (λ _ d'. (d'.files ≡ files) × (d'.dirs ≡ dirs)) E (fault env stage d)
  fault-Post stage files dirs d e f k =
      Post-lift (env.fault d.calls stage) _ (λ _ _. (e, f)) (λ x. k x _ e)

  unlink-Post :
      (path : Parts) (d : Disk)
      → Post
          (λ _ d'. d'.files ≡ remove path d.files)
          (λ _ d'. d'.files ≡ d.files)
          (unlink env path d)
  unlink-Post path d = go (env.unlink d.calls)
    where
      go :
          (r : Result (Unit {0}))
          → Post
              (λ _ d'. d'.files ≡ remove path d.files)
              (λ _ d'. d'.files ≡ d.files)
              (unlinked env path r d)
      go (ok _) = record { holds = refl }
      go (err e) = record { holds = refl }

  delete_artifact-Post :
      (root : Parts) (name : Str) (path : Parts) (d : Disk)
      → Post
          (λ _ d'. d'.files ≡ remove path d.files)
          (λ _ d'. (d'.files ≡ d.files) ⊎ (d'.files ≡ remove path d.files))
          (delete_artifact env root name path d)
  unfolding delete_artifact
  delete_artifact-Post root name path d =
      Post-continue {Q = λ _ d'. d'.files ≡ remove path d.files} _ _
        (Post-continue {Q = λ _ d'. d'.files ≡ d.files} _ _
          (Post-continue {Q = λ _ d'. d'.files ≡ d.files} _ _
            (Post-lift (refuse (not (path_eq (parent path) root)) value_error) d (λ _ _. refl)
              (λ _. inl refl))
            (λ _ s e.
              Post-weaken _
                (fault-Post (Stage.before_delete name) d.files s.dirs s e refl (λ _ _ e. inl e))
                (λ _ _ h. h.0) (λ _ _ h. h))
            (λ _ _ h. h))
          (λ _ s e.
            Post-weaken _ (unlink-Post path s) (λ _ _ h. h ∙ ap (remove path) e)
              (λ _ _ h. inl (h ∙ e)))
          (λ _ _ h. h))
        (λ _ s e.
          Post-weaken _
            (fault-Post (Stage.after_delete name) (remove path d.files) s.dirs s e refl
              (λ _ _ e. inr e))
            (λ _ _ h. h.0) (λ _ _ h. h))
        (λ _ _ h. h)

  delete_all-Post :
      (root : Parts) (artifacts : List (Str × Parts)) (d : Disk)
      → Post
          (λ _ d'. d'.files ≡ without artifacts d.files)
          (λ _ d'. Partly artifacts d.files d'.files)
          (delete_all env root artifacts d)
  unfolding delete_all
  delete_all-Post root [] d = record { holds = refl }
  delete_all-Post root ((name, path) ∷ artifacts) d =
      Post-continue _ _ (delete_artifact-Post root name path d)
        (λ _ s e.
          Post-weaken _ (delete_all-Post root artifacts s) (λ _ _ h. h ∙ ap (without artifacts) e)
            (λ _ _ (gone, left, all, h). (
              (name, path) ∷ gone,
              left,
              ap (λ rest. (name, path) ∷ rest) all,
              h ∙ ap (without gone) e,
            )))
        (λ _ _ h. elim h [
          | inl kept ↦ ([], (name, path) ∷ artifacts, refl, kept)
          | inr gone ↦ ((name, path) ∷ [], artifacts, refl, gone)
        ])

  removed_dir-Post :
      (root : Parts) (d : Disk)
      → Post
          (λ _ d'. (d'.files ≡ d.files) × (d'.dirs root ≡ false))
          (λ _ d'. d'.files ≡ d.files)
          (rmdir env root d)
  removed_dir-Post root d = go (env.rmdir d.calls d.files root)
    where
      go :
          (r : Result (Unit {0}))
          → Post
              (λ _ d'. (d'.files ≡ d.files) × (d'.dirs root ≡ false))
              (λ _ d'. d'.files ≡ d.files)
              (removed_dir env root r d)
      go (ok _) = record { holds = (refl, rw (path_eq_refl root) refl) }
      go (err e) = record { holds = refl }

  remove_root-Post :
      (root : Parts) (d : Disk)
      → Post
          (λ _ d'. (d'.files ≡ d.files) × (d'.dirs root ≡ false))
          (λ _ d'. d'.files ≡ d.files)
          (remove_root env root d)
  remove_root-Post root d = elim (Bool-cases (d.dirs root)) [
    | inl there ↦ rw there (removed_dir-Post root d)
    | inr gone ↦ rw gone record { holds = (refl, gone) }
  ]

  -- For a valid id, a sweep that returns has deleted the three files of the build and no other one,
  -- and the build has no directory; one that raises, at whatever call, has deleted the first ones of
  -- the three files, in their order, and no other file.
  pub sweep-Post :
      (paths : LakePaths) (build_id : Str) (root : Parts) (d : Disk)
      → gold_build_root paths build_id ≡ ok root
      → Post
          (λ _ d'. Swept root d d')
          (λ _ d'. Partly (bundle root) d.files d'.files)
          (sweep env paths build_id d)
  unfolding sweep gold_data gold_build_manifest gold_build_profile
  sweep-Post paths build_id root d e = rw e (
      Post-continue _ _ (delete_all-Post root (bundle root) d)
        (λ _ s f.
          Post-continue {Q = λ _ d'. d'.files ≡ without (bundle root) d.files} _ _
            (Post-weaken _
              (fault-Post Stage.before_remove_dir (without (bundle root) d.files) s.dirs s f refl
                (λ _ _ g. all_gone g))
              (λ _ _ h. h.0) (λ _ _ h. h))
            (λ _ t g.
              Post-continue _ _ (remove_root-Post root t)
                (λ _ u h.
                  Post-weaken _
                    (fault-Post Stage.after_remove_dir (without (bundle root) d.files) u.dirs u
                      (h.0 ∙ g) refl (λ _ _ g. all_gone g))
                    (λ _ _ k. (k.0, ap (λ dirs. dirs root) k.1 ∙ h.1)) (λ _ _ h. h))
                (λ _ _ h. all_gone (h ∙ g)))
            (λ _ _ h. h))
        (λ _ _ h. h))
    where
      all_gone :
          {files : Parts → Bool}
          → files ≡ without (bundle root) d.files
          → Partly (bundle root) d.files files
      all_gone g = (bundle root, [], refl, g)
