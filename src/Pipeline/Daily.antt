-- ===== src/Pipeline/Daily.antt =====
-- The order of the stages of `run_daily` in application/daily_pipeline.py.
use mathlib.Core.List.{append-nil, append_assoc}
use market_regime_loader.Prelude.{
  ℕ, zero, suc, ◌⊎◌, ◌≡◌, refl, sym, ap, ◌∙◌, inl, inr, Str, codes, str_eq, Date, true, false, not,
  some, List, [], ◌∷◌, ◌++◌, take, map, All, count, ltb, arith, Bool-cases, any,
}
use market_regime_loader.Prelude.Effects.{
  Exn, ok, value_error, is_exception, refuse, refuse-eq-ok, ok-injective, traverse, raise, lift,
  continue,
}
use market_regime_loader.Prelude.Hoare.{
  Post, Post-continue, Post-recover, Post-weaken, Keeps, Keeps-then, Keeps-Post,
}
use market_regime_loader.Prelude.Dict.{get, has}
use market_regime_loader.Prelude.Membership.{All-of_mem, mem-any}
use market_regime_loader.Bronze.Contracts.{SeriesContract}
use market_regime_loader.Bronze.Planner.{OperationMode}
use market_regime_loader.Gold.Retention.{GoldRetentionResult}
use market_regime_loader.Bronze.Orchestration.{BatchRunResult}
use market_regime_loader.Pipeline
use market_regime_loader.Pipeline.Logs.{
  entered, not_refused, batch_failed-none, log_bronze_results-Keeps, start-Keeps,
}

-- What the daily command does, in order: Bronze is updated, never bootstrapped or reconciled.
abbrev pub daily_stages : List Str → List Pipeline.Stage
daily_stages selected =
    Pipeline.recovery
    ∷ Pipeline.bronze OperationMode.update selected
    ∷ Pipeline.silver selected
    ∷ Pipeline.gold_frame
    ∷ Pipeline.publication
    ∷ Pipeline.retention
    ∷ Pipeline.inventory
    ∷ []

module _ {Frame : Type 0} (env : Pipeline.Env Frame) where
  -- Bronze returned a batch without a failure.
  abbrev pub Updated : List Str → Date → Type 0
  Updated selected today =
      (n : ℕ) × (batch : BatchRunResult) × (env.run_many n selected OperationMode.update today
        ≡ ok batch)
      × (batch.failures ≡ [])

  -- The frame was assembled from the Silver of every registered series, none of which was empty.
  abbrev pub Assembled : Frame → Type 0
  Assembled frame =
      (n : ℕ) × (k : ℕ) × (volatility : Frame) × (macro : Frame) × (frames : List (Str × Frame))
      × (env.read_silver k env.series_registry ≡ ok frames)
      × (any (λ (_, f). env.is_empty f) frames ≡ false)
      × (env.assemble n volatility macro frames ≡ ok frame)

  -- What has returned when the next stage is entered, for the first stages in their order.
  abbrev pub Completed : List Str → Date → ℕ → Type 0
  Completed selected today zero = (n : ℕ) × (env.reconcile n ≡ ok tt)
  Completed selected today (suc zero) = Updated selected today
  Completed selected today (suc (suc zero)) =
      (n : ℕ) × (contracts : List SeriesContract) × (traverse
          (λ id. Pipeline.or_key_error (get str_eq id env.series_registry)) selected
        ≡ ok contracts)
      × (env.build_silver n contracts ≡ ok tt)
  Completed selected today (suc (suc (suc zero))) = (frame : Frame) × Assembled frame
  Completed selected today (suc (suc (suc (suc zero)))) =
      (n : ℕ) × (frame : Frame) × (build_id : Str) × Assembled frame
      × (env.publish n frame ≡ ok build_id)
  Completed selected today (suc (suc (suc (suc (suc _))))) =
      (n : ℕ) × (pruned : GoldRetentionResult) × (env.run_retention n ≡ ok pruned)

  -- Every stage before the last one of the first `k` has completed.
  abbrev pub Behind : List Str → Date → ℕ → Type 0
  Behind selected today zero = Unit
  Behind selected today (suc zero) = Unit
  Behind selected today (suc (suc k)) = Completed selected today k × Behind selected today (suc k)

  -- The stages that were entered are the first of the day's, and each was entered after the ones before
  -- it had completed.
  abbrev pub Reached : List Str → Date → List Pipeline.Stage → Pipeline.World → Type 0
  Reached selected today old w =
      (k : ℕ) × (w.entered ≡ old ++ take k (daily_stages selected)) × Behind selected today k

  module _ (selected : List Str) (today : Date) (old : List Pipeline.Stage) where
    abbrev Stands : ℕ → Pipeline.World → Type 0
    Stands k w = w.entered ≡ old ++ take k (daily_stages selected)

    abbrev At : ℕ → Pipeline.World → Type 0
    At k w = Stands k w × Behind selected today k

    calm :
        {A B : Type 0} {R : B → Pipeline.World → Type 0} (m : Pipeline.Action A)
        (f : A → Pipeline.Action B) (k : ℕ) (w : Pipeline.World)
        → Keeps entered m
        → At k w
        → ((a : A) (w' : Pipeline.World)
            → (m w).0 ≡ ok a
            → At k w'
            → Post R (λ _ v. Reached selected today old v) (f a w'))
        → Post R (λ _ v. Reached selected today old v) (continue f (m w))
    calm m f k w keeps h go =
        Keeps-then entered m f (old ++ take k (daily_stages selected)) w keeps h.0
          (λ a w' e h'. go a w' e (h', h.1)) (λ _ _ h'. (k, h', h.1))

    enters :
        (k : ℕ) (s : Pipeline.Stage) (w : Pipeline.World)
        → At k w
        → take (suc k) (daily_stages selected) ≡ take k (daily_stages selected) ++ s ∷ []
        → Behind selected today (suc k)
        → At (suc k) (record w { entered = w.entered ++ s ∷ [] })
    enters k s w h e behind = (
      ap (λ (t : List Pipeline.Stage). t ++ s ∷ []) h.0
          ∙ append_assoc old (take k (daily_stages selected)) (s ∷ [])
          ∙ ap (λ (t : List Pipeline.Stage). old ++ t) (sym e),
      behind,
    )

    silver-Post :
        (w : Pipeline.World)
        → At 2 w
        → Updated selected today
        → Post
            (λ _ w'. At 3 w' × Completed selected today 2)
            (λ _ v. Reached selected today old v)
            (Pipeline.build_selected_silver env selected w)
    unfolding Pipeline.build_selected_silver
    silver-Post w h updated =
        calm (Pipeline.event env) _ 2 w (λ _. refl) h
          (λ _ w1 _ h1.
            calm
              (lift (
                traverse (λ id. Pipeline.or_key_error (get str_eq id env.series_registry))
                  selected))
              _ 2 w1 (λ _. refl) h1
              (λ contracts w2 found h2.
                let h3 = enters 2 (Pipeline.silver selected) w2 h2 refl (updated, h2.1) in
                calm (Pipeline.call (λ n. env.build_silver n contracts)) _ 3 _ (λ _. refl) h3
                  (λ _ w4 built h4.
                    Post-weaken _ (Keeps-Post entered (Pipeline.event env) _ w4 (λ _. refl) h4.0)
                      (λ _ _ h5. ((h5, h4.1), (w2.calls, contracts, found, built)))
                      (λ _ _ h5. (3, h5, h4.1)))))

    gold-Post :
        (w : Pipeline.World)
        → At 3 w
        → Completed selected today 2
        → Post
            (λ frame w'. At 4 w' × Assembled frame)
            (λ _ v. Reached selected today old v)
            (Pipeline.canonical_gold env w)
    unfolding Pipeline.canonical_gold
    gold-Post w h built =
        calm (Pipeline.event env) _ 3 w (λ _. refl) h
          (λ _ w1 _ h1.
            calm (Pipeline.call (λ n. env.read_silver n env.series_registry)) _ 4 _ (λ _. refl)
              (enters 3 Pipeline.gold_frame w1 h1 refl (built, h1.1))
              (λ frames w2 read h2.
                calm (lift (refuse (any (λ (_, frame). env.is_empty frame) frames) value_error)) _ 4
                  w2 (λ _. refl) h2
                  (λ _ w3 full h3.
                    calm (lift (Pipeline.frames_of env env.volatility_series frames)) _ 4 w3
                      (λ _. refl) h3
                      (λ vs w4 _ h4.
                        calm (lift (Pipeline.frames_of env env.macro_series frames)) _ 4 w4
                          (λ _. refl) h4
                          (λ ms w5 _ h5.
                            calm (Pipeline.call (λ n. env.build_features n vs ms)) _ 4 w5
                              (λ _. refl) h5
                              (λ features w6 _ h6.
                                calm
                                  (Pipeline.call (λ n. env.assemble n features.0 features.1 frames))
                                  _ 4 w6 (λ _. refl) h6
                                  (λ frame w7 assembled h7.
                                    calm (Pipeline.event env) _ 4 w7 (λ _. refl) h7
                                      (λ _ w8 _ h8. record {
                                        holds = (
                                          h8,
                                          (
                                            w6.calls,
                                            w1.calls,
                                            features.0,
                                            features.1,
                                            frames,
                                            read,
                                            not_refused _ _ full,
                                            assembled,
                                          ),
                                        );
                                      }))))))))

    -- What a day that returns has done.
    abbrev Done : Pipeline.PipelineCommandResult → Pipeline.World → Type 0
    Done result w' =
        (w'.entered ≡ old ++ daily_stages selected)
        × (result.selected_series ≡ selected)
        × Behind selected today 7
        × ((batch : BatchRunResult) × (result.bronze ≡ some batch) × (batch.failures ≡ []))

    publication_on :
        (run_id : Str) (batch : BatchRunResult) (frame : Frame) (w : Pipeline.World)
        → batch.failures ≡ []
        → At 4 w
        → Assembled frame
        → Post Done
            (λ _ v. Reached selected today old v)
            (Pipeline.publish_and_prune env run_id selected batch frame w)
    unfolding Pipeline.publish_and_prune
    publication_on run_id batch frame w none_failed h assembled =
        calm (Pipeline.call (λ n. env.publish n frame)) _ 5 _ (λ _. refl)
          (enters 4 Pipeline.publication w h refl ((frame, assembled), h.1))
          (λ build_id w1 published h1.
            calm (Pipeline.event env) _ 5 w1 (λ _. refl) h1
              (λ _ w2 _ h2.
                calm (Pipeline.call env.run_retention) _ 6 _ (λ _. refl)
                  (enters 5 Pipeline.retention w2 h2 refl
                    ((w.calls, frame, build_id, assembled, published), h2.1))
                  (λ pruned w3 kept h3.
                    calm (Pipeline.event env) _ 6 w3 (λ _. refl) h3
                      (λ _ w4 _ h4.
                        calm (Pipeline.call env.refresh_inventory) _ 7 _ (λ _. refl)
                          (enters 6 Pipeline.inventory w4 h4 refl ((w2.calls, pruned, kept), h4.1))
                          (λ _ w5 _ h5.
                            calm (Pipeline.event env) _ 7 w5 (λ _. refl) h5
                              (λ _ w6 _ h6.
                                calm (Pipeline.event env) _ 7 w6 (λ _. refl) h6
                                  (λ _ w7 _ h7. record {
                                    holds = (h7.0, refl, h7.1, (batch, refl, none_failed));
                                  })))))))

    daily-Post :
        (run_id : Str) (w : Pipeline.World)
        → At 0 w
        → Post Done
            (λ _ v. Reached selected today old v)
            (Pipeline.daily env run_id selected today w)
    unfolding Pipeline.daily
    daily-Post run_id w h =
        calm (Pipeline.event env) _ 0 w (λ _. refl) h
          (λ _ w1 _ h1.
            calm (Pipeline.call env.reconcile) _ 1 _ (λ _. refl)
              (enters 0 Pipeline.recovery w1 h1 refl tt)
              (λ _ w2 recovered h2.
                calm (Pipeline.event env) _ 1 w2 (λ _. refl) h2
                  (λ _ w3 _ h3.
                    calm (Pipeline.event env) _ 1 w3 (λ _. refl) h3
                      (λ _ w4 _ h4.
                        calm
                          (Pipeline.call (λ n. env.run_many n selected OperationMode.update today))
                          _ 2 _ (λ _. refl)
                          (enters 1 (Pipeline.bronze OperationMode.update selected) w4 h4 refl
                            ((w1.calls, recovered), tt))
                          (λ batch w5 ran h5.
                            calm (Pipeline.log_bronze_results env batch) _ 2 w5
                              (log_bronze_results-Keeps env batch) h5
                              (λ _ w6 _ h6.
                                calm (lift (Pipeline.batch_failed batch.failures)) _ 2 w6
                                  (λ _. refl) h6
                                  (λ _ w7 passed h7.
                                    Post-continue _ _
                                      (silver-Post w7 h7 (
                                        w4.calls,
                                        batch,
                                        ran,
                                        batch_failed-none batch.failures passed,
                                      ))
                                      (λ _ w8 (h8, built).
                                        Post-continue _ _ (gold-Post w8 h8 built)
                                          (λ frame w9 (h9, assembled).
                                            publication_on run_id batch frame w9
                                              (batch_failed-none batch.failures passed) h9
                                              assembled)
                                          (λ _ _ r. r))
                                      (λ _ _ r. r))))))))

  finish_failed-Post :
      (selected : List Str) (today : Date) (old : List Pipeline.Stage) (e : Exn)
      (w : Pipeline.World)
      → Reached selected today old w
      → Post {A = Pipeline.PipelineCommandResult}
          (λ _ _. ⊥)
          (λ _ v. Reached selected today old v)
          (Pipeline.finish_failed env e w)
  finish_failed-Post selected today old e w (k, h, behind) = elim (Bool-cases (is_exception e)) [
    | inr other ↦ rw other (record { holds = (k, h, behind) })
    | inl caught ↦ rw caught (
        Keeps-then entered (Pipeline.event env) (λ _. raise e)
          (old ++ take k (daily_stages selected)) w (λ _. refl) h
          (λ _ _ _ h'. record { holds = (k, h', behind) }) (λ _ _ h'. (k, h', behind)))
  ]

  -- A daily run that returns has gone through all of its stages in their order, on the series that it
  -- resolved, and no series has failed. One that raises, at whatever call, has resolved no series and
  -- entered no stage, or has entered the first of these stages, on the series that it resolved, in their
  -- order and no other one. In both cases each stage was entered after the ones before it had
  -- completed: Silver is only built, and Gold only published, after Bronze returned an update without a
  -- failure, Gold is published after the Silver of the series was built, and nothing is pruned before the
  -- publication.
  pub run_daily-Post :
      (series_ids : List Str) (today : Date) (w : Pipeline.World)
      → Post
          (λ result w'.
            (Pipeline.resolve_series env series_ids ≡ ok result.selected_series)
            × (w'.entered ≡ w.entered ++ daily_stages result.selected_series)
            × Behind result.selected_series today 7
            × ((batch : BatchRunResult) × (result.bronze ≡ some batch) × (batch.failures ≡ [])))
          (λ _ w'.
            (w'.entered ≡ w.entered)
            ⊎ ((selected : List Str) × (Pipeline.resolve_series env series_ids ≡ ok selected)
                × Reached selected today w.entered w'))
          (Pipeline.run_daily env series_ids today w)
  unfolding Pipeline.run_daily
  run_daily-Post series_ids today w =
      Keeps-then entered (lift (Pipeline.resolve_series env series_ids)) _ w.entered w (λ _. refl)
        refl
        (λ selected w1 resolved h1.
          Keeps-then entered (Pipeline.start env (codes "run-daily")) _ w.entered w1
            (start-Keeps env (codes "run-daily")) h1
            (λ run_id w2 _ h2.
              Post-recover _ _
                (daily-Post selected today w.entered run_id w2
                  (h2 ∙ sym (append-nil w.entered), tt))
                (λ result w3 (all, same, behind, clean).
                  (resolved ∙ ap ok (sym same), rw same all, rw same behind, clean))
                (λ e w3 reached.
                  Post-weaken _ (finish_failed-Post selected today w.entered e w3 reached)
                    (λ _ _ no. absurd no) (λ _ _ r. inr (selected, resolved, r))))
            (λ _ v k. inl k))
        (λ _ v k. inl k)

  -- A resolved selection has no series twice, and only registered ones.
  pub resolve_series-registered :
      (series_ids selected : List Str)
      → Pipeline.resolve_series env series_ids ≡ ok selected
      → All
          (λ id.
            (ltb 1 (count (str_eq id) selected) ≡ false)
            × (has str_eq id env.series_registry ≡ true))
          selected
  unfolding Pipeline.resolve_series
  resolve_series-registered series_ids selected h =
      let chosen = Pipeline.or_all series_ids (map (λ (id, _). id) env.series_registry) in
      let (once, h1) =
        refuse-eq-ok (any (λ id. ltb 1 (count (str_eq id) chosen)) chosen) value_error _ h in
      let (known, h2) =
        refuse-eq-ok (any (λ id. not (has str_eq id env.series_registry)) chosen) value_error _
          h1 in
      rw (← ok-injective {a = chosen} h2) (
        All-of_mem chosen (λ id m. (
          mem-any (λ i. ltb 1 (count (str_eq i) chosen)) chosen once m,
          ground (arith, mem-any (λ i. not (has str_eq i env.series_registry)) chosen known m),
        )))
