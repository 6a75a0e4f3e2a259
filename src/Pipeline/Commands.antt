-- ===== src/Pipeline/Commands.antt =====
-- The source commands of application/daily_pipeline.py: `_source_command`.
use market_regime_loader.Prelude.{
  ℕ, ◌≡◌, refl, ap, ◌⊎◌, inl, inr, Str, Date, some, List, [], ◌∷◌, ◌++◌, Bool-cases,
}
use market_regime_loader.Prelude.Effects.{ok, Exn, is_exception, raise, lift}
use market_regime_loader.Prelude.Hoare.{Post, Post-recover, Post-weaken, Keeps-then}
use market_regime_loader.Bronze.Planner.{OperationMode}
use market_regime_loader.Bronze.Orchestration.{BatchRunResult}
use market_regime_loader.Pipeline
use market_regime_loader.Pipeline.Logs.{
  entered, batch_failed-none, log_bronze_results-Keeps, start-Keeps,
}

module _ {Frame : Type 0} (env : Pipeline.Env Frame) (operation : OperationMode)
    (series_ids : List Str) where
  -- The command has done nothing, or has run the operation in Bronze on the resolved series and nothing
  -- else.
  abbrev pub OnlyBronze : List Pipeline.Stage → Pipeline.World → Type 0
  OnlyBronze old w =
      (w.entered ≡ old)
      ⊎ ((selected : List Str) × (Pipeline.resolve_series env series_ids ≡ ok selected)
          × (w.entered ≡ old ++ Pipeline.bronze operation selected ∷ []))

  finished :
      (old : List Pipeline.Stage) (e : Exn) (w : Pipeline.World)
      → OnlyBronze old w
      → Post {A = Pipeline.PipelineCommandResult}
          (λ _ _. ⊥)
          (λ _ v. OnlyBronze old v)
          (Pipeline.finish_failed env e w)
  finished old e w h = elim (Bool-cases (is_exception e)) [
    | inr other ↦ rw other (record { holds = h })
    | inl caught ↦ rw caught (
        Keeps-then entered (Pipeline.event env) (λ _. raise e) w.entered w (λ _. refl) refl
          (λ _ v _ k. record { holds = moved v k }) (λ _ v k. moved v k))
  ]
    where
      moved : (v : Pipeline.World) → v.entered ≡ w.entered → OnlyBronze old v
      moved v k = rw k h

  -- A source command that returns has run its operation in Bronze on the series that it resolved from the
  -- given ones and has entered no other stage, and its batch is what that run gave, without a failure; one
  -- that raises, at whatever call, has entered no stage or this one only.
  pub source_command-Post :
      (command : Str) (today : Date) (w : Pipeline.World)
      → Post
          (λ result w'.
            (Pipeline.resolve_series env series_ids ≡ ok result.selected_series)
            × (w'.entered ≡ w.entered ++ Pipeline.bronze operation result.selected_series ∷ [])
            × ((n : ℕ) × (batch : BatchRunResult) × (env.run_many n result.selected_series operation
                    today
                  ≡ ok batch)
                × (result.bronze ≡ some batch)
                × (batch.failures ≡ [])))
          (λ _ w'. OnlyBronze w.entered w')
          (Pipeline.source_command env command series_ids operation today w)
  unfolding Pipeline.source_command
  source_command-Post command today w =
      Keeps-then entered (lift (Pipeline.resolve_series env series_ids)) _ w.entered w (λ _. refl)
        refl
        (λ selected w1 resolved h1.
          Keeps-then entered (Pipeline.start env command) _ w.entered w1 (start-Keeps env command)
            h1
            (λ run_id w2 _ h2.
              let ran : List Pipeline.Stage =
                w.entered ++ Pipeline.bronze operation selected ∷ [] in
              Post-recover {E = λ _ v. OnlyBronze w.entered v} _ _
                (Keeps-then entered (Pipeline.call (λ n. env.run_many n selected operation today)) _
                  ran _ (λ _. refl)
                  (ap (λ (t : List Pipeline.Stage). t ++ Pipeline.bronze operation selected ∷ [])
                    h2)
                  (λ batch w3 ran_many h3.
                    Keeps-then entered (Pipeline.log_bronze_results env batch) _ ran w3
                      (log_bronze_results-Keeps env batch) h3
                      (λ _ w4 _ h4.
                        Keeps-then entered (lift (Pipeline.batch_failed batch.failures)) _ ran w4
                          (λ _. refl) h4
                          (λ _ w5 passed h5.
                            Keeps-then entered (Pipeline.event env) _ ran w5 (λ _. refl) h5
                              (λ _ w6 _ h6. record {
                                holds = (
                                  resolved,
                                  h6,
                                  (
                                    w2.calls,
                                    batch,
                                    ran_many,
                                    refl,
                                    batch_failed-none batch.failures passed,
                                  ),
                                );
                              })
                              (λ _ _ k. inr (selected, resolved, k)))
                          (λ _ _ k. inr (selected, resolved, k)))
                      (λ _ _ k. inr (selected, resolved, k)))
                  (λ _ _ k. inr (selected, resolved, k)))
                (λ _ _ done. done)
                (λ e v k.
                  Post-weaken _ (finished w.entered e v k) (λ _ _ no. absurd no) (λ _ _ f. f)))
            (λ _ _ k. inl k))
        (λ _ _ k. inl k)
