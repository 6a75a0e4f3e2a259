-- ===== src/Bronze/Commit/Atomic.antt =====
-- `commit_success` of ingestion/bronze_uow.py as a whole.
use mathlib.Core.Path.{subst}
use mathlib.Core.List.{Memᴰ}
use market_regime_loader.Prelude.Membership.{All-of_mem}
use market_regime_loader.Prelude.{
  ℕ, ◌≡◌, refl, sym, ap, ◌∙◌, inl, inr, arith, Str, str_eq, str_eq→eq, str_eq_refl, mem_str, true,
  Option, some, List, [], ◌∷◌, ◌++◌, map, All, Bool-cases,
}
use market_regime_loader.Prelude.Effects.{Exn, value_error, Result, ok}
use market_regime_loader.Prelude.Hoare.{Post, Post-continue, Post-recover, Post-weaken, Post-lift}
use market_regime_loader.Bronze.Commit.{
  Env, Files, Content, Disk, Backup, Stage, WriteOutcome, written, write_failed, sync_failed, put,
  call, write_file, atomic_write, backup, update_file, backup_all, write_all, tracked, install,
  commit_success,
}
use market_regime_loader.Bronze.Commit.Rollback.{
  SameBut, IsBackup, paths_of, mem_str-append, rollback-Post,
}

-- The files once every month is written.
abbrev pub with_months : List (Str × Content) → Files → Files
with_months [] files = files
with_months ((path, content) ∷ months) files = with_months months (put path (some content) files)

-- What a commit has to leave on the disk.
pub record Installed (runs state : Str) (next_runs next_state : Option Content → Result Content)
    (months : List (Str × Content)) (old new : Files) : Type 0 where
  pub runs_content : Content
  pub state_content : Content
  pub runs_next : next_runs (with_months months old runs) ≡ ok runs_content
  pub state_next :
      next_state (put runs (some runs_content) (with_months months old) state) ≡ ok state_content
  pub replaced :
      new ≡ put state (some state_content) (put runs (some runs_content) (with_months months old))

put-SameBut :
    (paths : List Str) (old new : Files) (path : Str) (content : Option Content)
    → mem_str path paths ≡ true
    → SameBut paths old new
    → SameBut paths old (put path content new)
put-SameBut paths old new path content m same p k = elim (Bool-cases (str_eq p path)) [
  | inl here ↦ let there : mem_str p paths ≡ true = rw (str_eq→eq p path here) m in cc
  | inr other ↦ rw other (same p k)
]

module _ (env : Env) (paths : List Str) (old : Files) where
  -- The state of a commit under way: what the disk has, where only tracked paths have changed.
  abbrev Has : Files → Disk → Type 0
  Has new d = (d.files ≡ new) × SameBut paths old d.files

  abbrev Within : Exn → Disk → Type 0
  Within _ d = SameBut paths old d.files

  write_file-Post :
      (path : Str) (content : Content) (outcome : WriteOutcome) (d : Disk)
      → mem_str path paths ≡ true
      → Within value_error d
      → Post
          (λ _ d'. Has (put path (some content) d.files) d')
          Within
          (write_file path content outcome d)
  write_file-Post path content written d m same = record {
    holds = (refl, put-SameBut paths old d.files path (some content) m same);
  }
  write_file-Post path content (write_failed e) d m same = record { holds = same }
  write_file-Post path content (sync_failed e) d m same = record {
    holds = put-SameBut paths old d.files path (some content) m same;
  }

  call-Post :
      {A : Type 0} (f : ℕ → Result A) (d : Disk)
      → Within value_error d
      → Post (λ _ d'. Has d.files d') Within (call f d)
  call-Post f d same = Post-lift (f d.calls) _ (λ _ _. (refl, same)) (λ _. same)

  atomic_write-Post :
      (path : Str) (content : Content) (d : Disk)
      → mem_str path paths ≡ true
      → Within value_error d
      → Post
          (λ _ d'. Has (put path (some content) d.files) d')
          Within
          (atomic_write env path content d)
  unfolding atomic_write
  atomic_write-Post path content d m same =
      write_file-Post path content (env.write d.calls) _ m same

  write_all-Post :
      (months : List (Str × Content)) (d : Disk)
      → All (λ (path, _). mem_str path paths ≡ true) months
      → Within value_error d
      → Post (λ _ d'. Has (with_months months d.files) d') Within (write_all env months d)
  write_all-Post [] d m same = record { holds = (refl, same) }
  write_all-Post ((path, content) ∷ months) d m same =
      Post-continue _ _ (atomic_write-Post path content d m.0 same)
        (λ _ d' (e, same').
          Post-weaken _ (write_all-Post months d' m.1 same')
            (λ _ _ (f, s). (f ∙ ap (with_months months) e, s)) (λ _ _ s. s))
        (λ _ _ same'. same')

  update_file-Post :
      (path : Str) (next : Option Content → Result Content) (d : Disk)
      → mem_str path paths ≡ true
      → Within value_error d
      → Post
          (λ _ d'.
            (content : Content) × (next (d.files path) ≡ ok content)
            × Has (put path (some content) d.files) d')
          Within
          (update_file env path next d)
  unfolding update_file
  update_file-Post path next d m same =
      Post-continue _ _ (call-Post env.read d same)
        (λ _ d' (e, same').
          Post-continue {Q = λ content u. (next (d.files path) ≡ ok content) × (u ≡ d')}
            {E = λ _ u. Within value_error u} _ _
            (Post-lift (next (d'.files path)) d' (λ content k. (rw e at k, refl)) (λ _. same'))
            (λ content u (k, here). rw here (
              Post-weaken _ (atomic_write-Post path content d' m same')
                (λ _ u' h. (content, k, rw e at h)) (λ _ _ h. h)))
            (λ _ _ h. h))
        (λ _ _ same'. same')

-- The paths of a commit.
tracked_months :
    (months : List (Str × Content)) (more : List Str)
    → All (λ (path, _). mem_str path (map (λ (p, _). p) months ++ more) ≡ true) months
tracked_months months more =
    All-of_mem months (λ (path, _) m.
      rw (mem_str-append path (map (λ (p, _). p) months) more, listed path months m))
  where
    listed :
        (path : Str) {content : Content} (months : List (Str × Content))
        → Memᴰ (path, content) months
        → mem_str path (map (λ (p, _). p) months) ≡ true
    listed path [] m = elim m [ ]
    listed path ((p, c) ∷ months) (Memᴰ.head e) =
        rw (ap (λ (x : Str × Content). x.0) e, str_eq_refl p)
    listed path ((p, c) ∷ months) (Memᴰ.tail m) = rw (listed path months m) (ground arith)

module _ (env : Env) (runs state : Str)
    (next_runs next_state : Option Content → Result Content) where
  tracked_both :
      (months : List (Str × Content))
      → (mem_str runs (tracked runs state months) ≡ true)
        × (mem_str state (tracked runs state months) ≡ true)
  tracked_both months =
      let paths = map (λ (p, _). p) months in
      (
        rw (mem_str-append runs paths (runs ∷ state ∷ []), str_eq_refl runs) (ground arith),
        rw (mem_str-append state paths (runs ∷ state ∷ []), str_eq_refl state) (ground arith),
      )

  installed :
      (months : List (Str × Content)) (old written_out recorded new : Files) (r t : Content)
      → written_out ≡ with_months months old
      → next_runs (written_out runs) ≡ ok r
      → recorded ≡ put runs (some r) written_out
      → next_state (recorded state) ≡ ok t
      → new ≡ put state (some t) recorded
      → Installed runs state next_runs next_state months old new
  installed months old written_out recorded new r t e k f l g =
      let at_state : recorded ≡ put runs (some r) (with_months months old) =
        f ∙ ap (put runs (some r)) e in
      record {
        runs_content = r;
        state_content = t;
        runs_next = ap (λ (files : Files). next_runs (files runs)) (sym e) ∙ k;
        state_next = ap (λ (files : Files). next_state (files state)) (sym at_state) ∙ l;
        replaced = g ∙ ap (put state (some t)) at_state;
      }

  install-Post :
      (months : List (Str × Content)) (d : Disk)
      → Post
          (λ _ d'. Installed runs state next_runs next_state months d.files d'.files)
          (λ _ d'. SameBut (tracked runs state months) d.files d'.files)
          (install env runs state next_runs next_state months d)
  unfolding install
  install-Post months d =
      let paths = tracked runs state months in
      let old = d.files in
      let (runs_in, state_in) = tracked_both months in
      Post-continue _ _
        (write_all-Post env paths old months d (tracked_months months (runs ∷ state ∷ []))
          (λ _ _. refl))
        (λ _ d1 (e1, s1).
          Post-continue _ _ (call-Post env paths old (λ n. env.fault n Stage.after_bronze) d1 s1)
            (λ _ d2 (e2, s2).
              Post-continue _ _ (update_file-Post env paths old runs next_runs d2 runs_in s2)
                (λ _ d3 (r, k3, (e3, s3)).
                  Post-continue _ _
                    (call-Post env paths old (λ n. env.fault n Stage.after_run) d3 s3)
                    (λ _ d4 (e4, s4).
                      Post-continue _ _
                        (update_file-Post env paths old state next_state d4 state_in s4)
                        (λ _ d5 (t, k5, (e5, s5)).
                          Post-weaken _
                            (call-Post env paths old (λ n. env.fault n Stage.after_state) d5 s5)
                            (λ _ d6 (e6, s6).
                              installed months old d2.files d4.files d6.files r t (e2 ∙ e1) k3
                                (e4 ∙ e3) k5 (e6 ∙ e5))
                            (λ _ _ s. s))
                        (λ _ _ s. s))
                    (λ _ _ s. s))
                (λ _ _ s. s))
            (λ _ _ s. s))
        (λ _ _ s. s)

  abbrev Backed : Str → Disk → Backup → Disk → Type 0
  Backed path d item d' = (d'.files ≡ d.files) × (item.path ≡ path) × IsBackup d.files item

  backup-Post :
      (path : Str) (d : Disk)
      → Post (Backed path d) (λ _ d'. d'.files ≡ d.files) (backup env path d)
  unfolding backup
  backup-Post path d =
      Post-continue {Q = λ _ d'. d'.files ≡ d.files} {E = λ _ d'. d'.files ≡ d.files} _ _
        (Post-lift (env.read d.calls) _ (λ _ _. refl) (λ _. refl))
        (λ _ d' e. record { holds = (e, refl, ap (λ (files : Files). files path) e) }) (λ _ _ e. e)

  backup_all-Post :
      (paths : List Str) (d : Disk)
      → Post
          (λ items d'.
            (d'.files ≡ d.files) × All (IsBackup d.files) items × (paths_of items ≡ paths))
          (λ _ d'. d'.files ≡ d.files)
          (backup_all env paths d)
  backup_all-Post [] d = record { holds = (refl, tt, refl) }
  backup_all-Post (path ∷ paths) d =
      Post-continue _ _ (backup-Post path d)
        (λ item d' (e, at_path, backed).
          Post-continue _ _ (backup_all-Post paths d')
            (λ items d'' (e', all, same). record {
              holds = (
                e' ∙ e,
                (backed, subst (λ files. All (IsBackup files) items) e all),
                rw (at_path, same),
              );
            })
            (λ _ _ e'. e' ∙ e))
        (λ _ _ e. e)

  -- Where restoring a file does not fail, a commit that returns has left every month file, the run file and the
  -- state file as they have to be and no other file changed, and a commit that raises, at whatever
  -- call, has left every file as it was.
  pub commit_success-Post :
      (months : List (Str × Content)) (d : Disk)
      → ((n : ℕ) → env.restore n ≡ ok tt)
      → Post
          (λ _ d'. Installed runs state next_runs next_state months d.files d'.files)
          (λ _ d'. (p : Str) → d'.files p ≡ d.files p)
          (commit_success env runs state next_runs next_state months d)
  unfolding commit_success
  commit_success-Post months d restores =
      Post-continue _ _ (backup_all-Post (tracked runs state months) d)
        (λ items d1 (e, all, same).
          Post-recover _ _ (install-Post months d1)
            (λ _ d2 h.
              subst (λ files. Installed runs state next_runs next_state months files d2.files) e h)
            (λ x d2 within.
              Post-continue _ _
                (rollback-Post env restores items d1.files d2
                  (subst (λ files. All (IsBackup files) items) (sym e) all) (rw same within))
                (λ _ d3 back. record { holds = λ p. back p ∙ ap (λ (files : Files). files p) e })
                (λ _ _ no. absurd no)))
        (λ _ d1 e p. ap (λ (files : Files). files p) e)
