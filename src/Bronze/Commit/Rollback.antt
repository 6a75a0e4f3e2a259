-- ===== src/Bronze/Commit/Rollback.antt =====
-- The compensation of ingestion/bronze_uow.py: the restore of the backups.
use mathlib.Core.List.{map-append}
use market_regime_loader.Prelude.{
  ℕ, ◌≡◌, refl, sym, ap, ◌∙◌, inl, inr, arith, Str, str_eq, str_eq→eq, mem_str, false, ◌||◌, List,
  [], ◌∷◌, ◌++◌, map, All, Bool-cases,
}
use market_regime_loader.Prelude.Effects.{ok}
use market_regime_loader.Prelude.Hoare.{Post, Post-continue}
use market_regime_loader.Bronze.Commit.{
  Env, Files, Disk, Backup, put, restore, restore_all, reversed,
}

-- The files are those of before, but for the given paths.
abbrev pub SameBut : List Str → Files → Files → Type 0
SameBut paths old new = (p : Str) → mem_str p paths ≡ false → new p ≡ old p

abbrev pub IsBackup : Files → Backup → Type 0
IsBackup old item = item.content ≡ old item.path

abbrev pub paths_of : List (Backup) → List Str
paths_of items = map (λ (item : Backup). item.path) items

put-restores :
    (old new : Files) (item : Backup) (paths : List Str)
    → IsBackup old item
    → SameBut (item.path ∷ paths) old new
    → SameBut paths old (put item.path item.content new)
put-restores old new item paths h same p k = elim (Bool-cases (str_eq p item.path)) [
  | inl here ↦ rw here (h ∙ ap old (sym (str_eq→eq p item.path here)))
  | inr other ↦ rw other (same p (ground arith))
]

module _ (env : Env) (restores : (n : ℕ) → env.restore n ≡ ok tt) where
  restore-Post :
      (item : Backup) (d : Disk)
      → Post {A = Unit {0}}
          (λ _ d'. d'.files ≡ put item.path item.content d.files)
          (λ _ _. ⊥)
          (restore env item d)
  unfolding restore
  restore-Post item d = rw (restores d.calls) (record { holds = refl })

  pub restore_all-Post :
      (items : List (Backup)) (old : Files) (d : Disk)
      → All (IsBackup old) items
      → SameBut (paths_of items) old d.files
      → Post {A = Unit {0}}
          (λ _ d'. (p : Str) → d'.files p ≡ old p)
          (λ _ _. ⊥)
          (restore_all env items d)
  restore_all-Post [] old d h same = record { holds = λ p. same p refl }
  restore_all-Post (item ∷ items) old d h same =
      Post-continue {Q = λ _ d'. d'.files ≡ put item.path item.content d.files} {E = λ _ _. ⊥} _ _
        (restore-Post item d)
        (λ _ d' e.
          restore_all-Post items old d' h.1
            (rw e (put-restores old d.files item (paths_of items) h.0 same)))
        (λ _ _ no. no)

-- The backups are of the tracked paths, in reverse.
pub mem_str-append :
    (p : Str) (ps qs : List Str) → mem_str p (ps ++ qs) ≡ (mem_str p ps || mem_str p qs)
mem_str-append p [] qs = refl
mem_str-append p (q ∷ ps) qs = ground (arith, mem_str-append p ps qs)

mem_str-reversed :
    (p : Str) (items : List Backup)
    → mem_str p (paths_of (reversed items)) ≡ mem_str p (paths_of items)
mem_str-reversed p [] = refl
mem_str-reversed p (item ∷ items) =
    rw (map-append, mem_str-append p (paths_of (reversed items)) (item.path ∷ []))
      (ground (arith, mem_str-reversed p items))

All-append : (P : Backup → Type 0) (xs ys : List Backup) → All P xs → All P ys → All P (xs ++ ys)
All-append P [] ys h k = k
All-append P (x ∷ xs) ys h k = (h.0, All-append P xs ys h.1 k)

All-reversed : (P : Backup → Type 0) (items : List Backup) → All P items → All P (reversed items)
All-reversed P [] h = tt
All-reversed P (item ∷ items) h =
    All-append P (reversed items) (item ∷ []) (All-reversed P items h.1) (h.0, tt)

-- Restoring the backups of some paths brings back the files, where no other path has changed.
pub rollback-Post :
    (env : Env) (restores : (n : ℕ) → env.restore n ≡ ok tt) (items : List Backup) (old : Files)
    (d : Disk)
    → All (IsBackup old) items
    → SameBut (paths_of items) old d.files
    → Post {A = Unit {0}}
        (λ _ d'. (p : Str) → d'.files p ≡ old p)
        (λ _ _. ⊥)
        (restore_all env (reversed items) d)
rollback-Post env restores items old d h same =
    restore_all-Post env restores (reversed items) old d (All-reversed (IsBackup old) items h)
      (λ p k. same p (sym (mem_str-reversed p items) ∙ k))
