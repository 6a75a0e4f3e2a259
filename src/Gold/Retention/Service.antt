-- ===== src/Gold/Retention/Service.antt =====
-- `GoldRetentionService.run` of application/gold_retention.py: which builds are deleted, and what the
-- catalog says of them by then.
use mathlib.Core.Path.{subst}
use mathlib.Core.List.{Memᴰ, append-nil, append_assoc}
use mathlib.Core.List.Permᴰ
use market_regime_loader.Prelude.{
  ℕ, ◌≡◌, refl, ◌∙◌, inl, inr, true, Option, List, [], ◌∷◌, ◌++◌, Str, keep, All,
}
use market_regime_loader.Prelude.Effects.{ok, traverse, lift, pure, continue, ◌>>=◌}
use market_regime_loader.Prelude.Membership.{All-of_mem, mem-All, mem-keep}
use market_regime_loader.Prelude.Sorting.{sort_keyed}
use market_regime_loader.Prelude.Hoare.{Post, Post-continue, Post-weaken, Post-lift}
use market_regime_loader.Catalog.Rows.{GoldCatalogRecord, is_current}
use market_regime_loader.Catalog.Validity.{IsSort, All-perm}
use market_regime_loader.Gold.Ports.{
  Env, World, Action, stored, utc_now, read_catalog, replace_catalog, refresh_views, call, swept,
}
use market_regime_loader.Gold.Effects.{
  Steady, utc_now-Steady, refresh_views-Steady, Steady-Post, call-Post, Stored, read_catalog-Post,
  replace_catalog-Post,
}
use market_regime_loader.Gold.Calm.{
  sweeps, sweeps-append, Quiet, Quiet-Post, utc_now-Quiet, read_catalog-Quiet, refresh_views-Quiet,
  replace_catalog-Quiet,
}
use market_regime_loader.Gold.Publication.Currents.{currents, currents-Stored}
use market_regime_loader.Gold.Retention.{
  mark_listed, is_marked, marked_key, GoldRetentionResult, mark_all, refresh_leftovers, sweep_all,
  run_retention, select_for_mark,
}
use market_regime_loader.Gold.Retention.Marking.{current-marked, sorted_marked}

-- The catalog file has a row of this build, and the row is marked: pruned, not current, without paths.
pub record IsTombstoned (file : Option (List GoldCatalogRecord)) (build_id : Str) : Type 0 where
  pub tombstone : GoldCatalogRecord
  pub in_file : Memᴰ tombstone (stored file)
  pub marked : is_marked tombstone ≡ true
  pub same_build : tombstone.build_id ≡ build_id

-- What a run has deleted: builds that the catalog file has as marked.
pub record Swept (w w' : World) (ids : List Str) : Type 0 where
  pub deleted : sweeps w'.trace ≡ sweeps w.trace ++ ids
  pub tombstoned : All (IsTombstoned w'.file) ids

module _ {Frame : Type 0} (env : Env Frame) (sorts : IsSort env.sort_rows) where
  in_file :
      (records : List GoldCatalogRecord) (w : World)
      → Stored env records w
      → All (λ r. Memᴰ r (stored w.file)) records
  in_file records w s = rw s.1 (
      All-perm (λ r. Memᴰ r (env.sort_rows records)) (Permᴰ.symm (sorts.reorders records))
        (All-of_mem (env.sort_rows records) (λ _ m. m)))

  -- The world after a step of a run: the current rows and the deletions of before.
  abbrev Calm : World → World → Type 0
  Calm w w' = (currents w'.file ≡ currents w.file) × (sweeps w'.trace ≡ sweeps w.trace)

  -- The rows of `records` are all in the file.
  abbrev Marked : World → List GoldCatalogRecord → World → Type 0
  Marked w records w' = Calm w w' × All (λ r. Memᴰ r (stored w'.file)) records

  Quiet-step :
      {A : Type 0} (w v : World) (records : List GoldCatalogRecord) (m : Action A)
      → Quiet m
      → Steady m
      → Marked w records v
      → Post (λ _ w'. Marked w records w') (λ _ w'. Calm w w') (m v)
  Quiet-step w v records m quiet steady ((cur, same), inside) =
      Post-weaken _
        (Quiet-Post m v (sweeps w.trace) quiet same (
          Steady-Post m
            (λ file. (currents file ≡ currents w.file) × All (λ r. Memᴰ r (stored file)) records) v
            steady (cur, inside)))
        (λ _ _ ((c, i), t). ((c, t), i)) (λ _ _ ((c, _), t). (c, t))

  replaced :
      (w v : World) (updated : List GoldCatalogRecord)
      → Calm w v
      → keep is_current updated ≡ currents w.file
      → Post (λ _ w'. Marked w updated w') (λ _ w'. Calm w w') (replace_catalog env updated v)
  replaced w v updated (cur, same) e =
      Post-weaken _
        (Quiet-Post (replace_catalog env updated) v (sweeps w.trace)
          (replace_catalog-Quiet env updated) same (replace_catalog-Post env updated v))
        (λ _ w' (s, t). ((currents-Stored env sorts w' s ∙ e, t), in_file updated w' s))
        (λ _ w' (either, t). elim either [
          | inl kept ↦ (rw kept cur, t)
          | inr s ↦ (currents-Stored env sorts w' s ∙ e, t)
        ])

  mark_all-Post :
      (mark_ids : List Str) (records : List GoldCatalogRecord) (w v : World)
      → Marked w records v
      → keep is_current records ≡ currents w.file
      → Post (Marked w) (λ _ w'. Calm w w') (mark_all env mark_ids records v)
  mark_all-Post [] records w v h e = record { holds = h }
  mark_all-Post (id ∷ mark_ids) records w v h e =
      Post-continue _ _
        (Quiet-step w v records (utc_now env) (utc_now-Quiet env) (utc_now-Steady env) h)
        (λ marked_at u h1.
          Post-continue _ _
            (Post-lift
              {Q = λ updated w'. Marked w records w' × (keep is_current updated ≡ currents w.file)}
              {E = λ _ w'. Calm w w'} (traverse (mark_listed (id ∷ mark_ids) marked_at) records) u
              (λ updated k. (h1, current-marked (id ∷ mark_ids) marked_at records updated k ∙ e))
              (λ _. h1.0))
            (λ updated u2 (h2, e2).
              Post-continue _ _ (replaced w u2 updated h2.0 e2)
                (λ _ u3 h3.
                  Post-continue _ _
                    (Quiet-step w u3 updated (refresh_views env updated)
                      (refresh_views-Quiet env updated) (refresh_views-Steady env updated) h3)
                    (λ _ u4 h4. record { holds = h4 }) (λ _ _ c. c))
                (λ _ _ c. c))
            (λ _ _ c. c))
        (λ _ _ c. c)

  -- What a sweep has deleted by the end, where the file stays the same.
  abbrev Deleted : World → List Str → World → Type 0
  Deleted v ids w' =
      (w'.file ≡ v.file) × (sweeps w'.trace ≡ sweeps v.trace ++ ids) × All (IsTombstoned v.file) ids

  abbrev InFile : World → GoldCatalogRecord → Type 0
  InFile v r = Memᴰ r (stored v.file) × (is_marked r ≡ true)

  Deleted-cons :
      (r : GoldCatalogRecord) (v u w' : World) (ids : List Str)
      → InFile v r
      → u.file ≡ v.file
      → sweeps u.trace ≡ sweeps v.trace ++ r.build_id ∷ []
      → Deleted u ids w'
      → Deleted v (r.build_id ∷ ids) w'
  Deleted-cons r v u w' ids inside same one (file, all, marked) = (
    file ∙ same,
    rw (all, one, append_assoc),
    (
      record { tombstone = r; in_file = inside.0; marked = inside.1; same_build = refl },
      subst (λ file. All (IsTombstoned file) ids) same marked,
    ),
  )

  sweep_all-Post :
      (rows : List GoldCatalogRecord) (v : World)
      → All (InFile v) rows
      → Post (Deleted v) (λ _ w'. (ids : List Str) × Deleted v ids w') (sweep_all env rows v)
  sweep_all-Post [] v inside = record { holds = (refl, rw append-nil, tt) }
  sweep_all-Post (r ∷ rows) v inside =
      Post-continue {Q = λ _ u. (u.file ≡ v.file) × (sweeps u.trace ≡ sweeps v.trace)}
        {E = λ _ u. (u.file ≡ v.file) × (sweeps u.trace ≡ sweeps v.trace)} _ _
        (Quiet-Post (call (λ n. env.sweep n r.build_id)) v (sweeps v.trace) (λ _. refl) refl
          (call-Post (λ n. env.sweep n r.build_id) v (λ _ _ _ same. same) (λ _ _ same. same)))
        (λ _ u (same, none_yet).
          let deleted : World = record u { trace = u.trace ++ swept r.build_id ∷ [] } in
          let one : sweeps deleted.trace ≡ sweeps v.trace ++ r.build_id ∷ [] =
            rw (sweeps-append u.trace (swept r.build_id ∷ []), none_yet) in
          Post-continue _ _ (sweep_all-Post rows deleted (rw same inside.1))
            (λ more w' h. record { holds = Deleted-cons r v deleted w' more inside.0 same one h })
            (λ _ w' (more, h).
              (r.build_id ∷ more, Deleted-cons r v deleted w' more inside.0 same one h)))
        (λ _ u (same, none_yet). ([], (same, rw (none_yet, append-nil), tt)))

  -- The world after a run that has deleted the builds `ids`.
  abbrev Sweeping : World → List Str → World → Type 0
  Sweeping w ids w' = (currents w'.file ≡ currents w.file) × Swept w w' ids

  calm : (w w' : World) → Calm w w' → (ids : List Str) × Sweeping w ids w'
  calm w w' (cur, same) = ([], (cur, record { deleted = rw (same, append-nil); tombstoned = tt }))

  after_sweep : (w v w' : World) (ids : List Str) → Calm w v → Deleted v ids w' → Sweeping w ids w'
  after_sweep w v w' ids (cur, same) (file, all, marked) =
      (rw file cur, record { deleted = rw (all, same); tombstoned = rw file marked })

  refresh_leftovers-Post :
      (marked : List GoldCatalogRecord) (mark_ids : List Str) (records : List GoldCatalogRecord)
      (w v : World)
      → Marked w records v
      → Post
          (λ _ w'. Marked w records w')
          (λ _ w'. Calm w w')
          (refresh_leftovers env marked mark_ids records v)
  refresh_leftovers-Post [] mark_ids records w v h = record { holds = h }
  refresh_leftovers-Post (r ∷ marked) (id ∷ mark_ids) records w v h = record { holds = h }
  refresh_leftovers-Post (r ∷ marked) [] records w v h =
      Quiet-step w v records (refresh_views env records) (refresh_views-Quiet env records)
        (refresh_views-Steady env records) h

  remainder-Post :
      (mark_ids : List Str) (updated : List GoldCatalogRecord) (w v : World)
      → Marked w updated v
      → Post
          (λ (result : GoldRetentionResult) w'. Sweeping w result.swept_build_ids w')
          (λ _ w'. (ids : List Str) × Sweeping w ids w')
          (continue
            (λ keyed. lift (sort_keyed keyed) >>= λ sorted. sweep_all env sorted >>= λ swept_ids.
              pure (record { marked_build_ids = mark_ids; swept_build_ids = swept_ids }))
            (traverse marked_key (keep is_marked updated), v))
  remainder-Post mark_ids updated w v h =
      Post-continue _ _
        (Post-lift
          {Q = λ keyed u. (traverse marked_key (keep is_marked updated) ≡ ok keyed) × (u ≡ v)}
          {E = λ _ u. Calm w u} (traverse marked_key (keep is_marked updated)) v
          (λ keyed e. (e, refl)) (λ _. h.0))
        (λ keyed u (e, same).
          Post-continue _ _
            (Post-lift {Q = λ sorted u2. (sort_keyed keyed ≡ ok sorted) × (u2 ≡ v)}
              {E = λ _ u2. Calm w u2} (sort_keyed keyed) u (λ sorted k. (k, same))
              (λ _. rw same h.0))
            (λ sorted u2 (k, same2). rw same2 (
              Post-continue _ _
                (sweep_all-Post sorted v (
                  All-perm (InFile v) (sorted_marked keyed sorted (keep is_marked updated) e k) (
                    All-of_mem (keep is_marked updated) (λ r m. (
                      mem-All (λ q. Memᴰ q (stored v.file)) updated h.1
                          (mem-keep is_marked updated m).0,
                      (mem-keep is_marked updated m).1,
                    )))))
                (λ ids w' d. record { holds = after_sweep w v w' ids h.0 d })
                (λ _ w' (ids, d). (ids, after_sweep w v w' ids h.0 d))))
            (λ _ u2 c. calm w u2 c))
        (λ _ u c. calm w u c)

  -- A run with any policy, whatever call fails, keeps the current rows of the catalog, and each build
  -- that it has deleted, whether it returns or raises, has a row in the catalog file that is marked as
  -- pruned: complete, not current, and without paths. A run that returns names exactly those builds.
  pub run_retention-Post :
      (retain : ℕ) (w : World)
      → Post
          (λ (result : GoldRetentionResult) w'. Sweeping w result.swept_build_ids w')
          (λ _ w'. (ids : List Str) × Sweeping w ids w')
          (run_retention env retain w)
  unfolding run_retention
  run_retention-Post retain w =
      Post-continue _ _
        (Quiet-Post (read_catalog env) w (sweeps w.trace) (read_catalog-Quiet env) refl
          (read_catalog-Post env w))
        (λ records v ((same, read, valid), t).
          Post-continue _ _
            (Post-lift {Q = λ _ u. u ≡ v} {E = λ _ u. Calm w u} (select_for_mark retain records) v
              (λ _ _. refl) (λ _. (rw same, t)))
            (λ mark_ids u e.
              Post-continue _ _
                (mark_all-Post mark_ids records w u
                  (rw e ((rw same, t), rw (same, ← read) (All-of_mem records (λ _ m. m))))
                  (rw read))
                (λ updated u2 h2.
                  Post-continue _ _
                    (refresh_leftovers-Post (keep is_marked updated) mark_ids updated w u2 h2)
                    (λ _ u3 h3. remainder-Post mark_ids updated w u3 h3) (λ _ u3 c. calm w u3 c))
                (λ _ u2 c. calm w u2 c))
            (λ _ u c. calm w u c))
        (λ _ v (same, t). calm w v (rw same, t))
