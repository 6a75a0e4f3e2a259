-- ===== src/Bronze/Orchestration/Batch.antt =====
-- `BronzeOrchestrator.run_many` of application/bronze_orchestration.py: the isolation of the series.
use mathlib.Core.List.{append-nil, append_assoc}
use market_regime_loader.Prelude.{
  ℕ, ◌+◌, ◌≡◌, refl, sym, ap, ◌∙◌, inl, inr, arith, Str, Date, Bool, true, false, Option, none,
  some, List, [], ◌∷◌, ◌++◌, map, Bool-cases, count, count-append, length,
}
use market_regime_loader.Prelude.Effects.{is_exception}
use market_regime_loader.Prelude.Hoare.{Post, Post-continue, Post-recover, Post-weaken}
use market_regime_loader.Bronze.Planner.{OperationMode}
use market_regime_loader.Bronze.Records.{IngestionRunRecord}
use market_regime_loader.Bronze.Orchestration.{
  Env, Effect, committed, failure_recorded, World, SeriesRunResult, BatchRunResult, try_series,
  add_success, add_failure, run_rest, run_many,
}
use market_regime_loader.Bronze.Orchestration.Staging.{Commits}
use market_regime_loader.Bronze.Orchestration.Series.{Fails, run_series-Post}

-- Every id of the first list is in the second or in the third, in the order of the first.
pub data Split : List Str → List Str → List Str → Type 0 where
  done : Split [] [] []
  succeeded :
      {id : Str} {ids good bad : List Str} → Split ids good bad → Split (id ∷ ids) (id ∷ good) bad
  failed :
      {id : Str} {ids good bad : List Str} → Split ids good bad → Split (id ∷ ids) good (id ∷ bad)

abbrev is_committed : Effect → Bool
is_committed (committed _ _) = true
is_committed (failure_recorded _) = false

-- The number of commits.
abbrev pub commits : World → ℕ
commits w = count is_committed w.trace

no_commits :
    (failures : List IngestionRunRecord) → count is_committed (map failure_recorded failures) ≡ 0
no_commits [] = refl
no_commits (run ∷ failures) = no_commits failures

abbrev pub ids_of : List SeriesRunResult → List Str
ids_of results = map (λ (r : SeriesRunResult). r.series_id) results

module _ {Frame : Type 0} (env : Env Frame) where
  -- One round ends with a commit, or with a caught exception and none.
  abbrev Round : Str → ℕ → Option SeriesRunResult → World → Type 0
  Round series_id n none w' = commits w' ≡ n
  Round series_id n (some result) w' = (commits w' ≡ n + 1) × (result.series_id ≡ series_id)

  one_commit :
      (series_id : Str) (trace : List Effect) (result : SeriesRunResult) (w : World)
      → Commits env series_id trace result w
      → Round series_id (count is_committed trace) (some result) w
  one_commit series_id trace result w c = (
    ap (λ (t : List Effect). count is_committed t) c.once ∙ count-append is_committed trace _,
    ap (λ (r : SeriesRunResult). r.series_id) c.reported,
  )

  no_commit :
      (trace : List Effect) (w : World) → Fails env trace w → commits w ≡ count is_committed trace
  no_commit trace w f = rw (f.only_failures, count-append, no_commits f.failures) (omega arith)

  try_series-Post :
      (series_id : Str) (operation : OperationMode) (today : Date) (w : World)
      → Post
          (Round series_id (commits w))
          (λ e _. is_exception e ≡ false)
          (try_series env series_id operation today w)
  unfolding try_series
  try_series-Post series_id operation today w =
      Post-recover {Q = Round series_id (commits w)} {E = λ _ w'. commits w' ≡ commits w} _ _
        (Post-continue _ _ (run_series-Post env series_id operation today w)
          (λ result w' c. record { holds = one_commit series_id w.trace result w' c })
          (λ _ w' f. no_commit w.trace w' f))
        (λ _ _ round. round)
        (λ e w' same. elim (Bool-cases (is_exception e)) [
          | inl caught ↦ rw caught (record { holds = same })
          | inr other ↦ rw other (record { holds = other })
        ])

  -- What a batch has done to a list of ids, from the results so far.
  pub record Batched (ids : List Str) (n : ℕ) (good : List SeriesRunResult) (bad : List Str)
      (result : BatchRunResult) (w : World) : Type 0 where
    pub successes : List SeriesRunResult
    pub failures : List Str
    pub all_successes : result.successes ≡ good ++ successes
    pub all_failures : result.failures ≡ bad ++ failures
    pub each_once : Split ids (ids_of successes) failures
    pub committed_once : commits w ≡ n + length successes

  extend :
      (series_id : Str) (ids : List Str) (n m : ℕ) (good : List SeriesRunResult) (bad : List Str)
      (outcome : Option SeriesRunResult) (result : BatchRunResult) (v w : World)
      → Round series_id n outcome v
      → m ≡ commits v
      → Batched ids m
          (add_success env good outcome)
          (add_failure env bad series_id outcome)
          result
          w
      → Batched (series_id ∷ ids) n good bad result w
  extend series_id ids n m good bad none result v w round e b = record {
    successes = b.successes;
    failures = series_id ∷ b.failures;
    all_successes = b.all_successes;
    all_failures = b.all_failures ∙ append_assoc bad (series_id ∷ []) b.failures;
    each_once = Split.failed b.each_once;
    committed_once = omega (arith, b.committed_once, e, round);
  }
  extend series_id ids n m good bad (some r) result v w round e b = record {
    successes = r ∷ b.successes;
    failures = b.failures;
    all_successes = b.all_successes ∙ append_assoc good (r ∷ []) b.successes;
    all_failures = b.all_failures;
    each_once = rw round.1 (Split.succeeded b.each_once);
    committed_once = omega (arith, b.committed_once, e, round.0);
  }

  run_rest-Post :
      (ids : List Str) (operation : OperationMode) (today : Date) (good : List SeriesRunResult)
      (bad : List Str) (w : World)
      → Post
          (Batched ids (commits w) good bad)
          (λ e _. is_exception e ≡ false)
          (run_rest env ids operation today good bad w)
  run_rest-Post [] operation today good bad w = record {
    holds = record {
      successes = [];
      failures = [];
      all_successes = sym (append-nil good);
      all_failures = sym (append-nil bad);
      each_once = Split.done;
      committed_once = omega arith;
    };
  }
  run_rest-Post (series_id ∷ ids) operation today good bad w =
      Post-continue _ _ (try_series-Post series_id operation today w)
        (λ outcome v round.
          Post-weaken _
            (run_rest-Post ids operation today (add_success env good outcome)
              (add_failure env bad series_id outcome) v)
            (λ result w' b.
              extend series_id ids (commits w) (commits v) good bad outcome result v w' round refl
                b)
            (λ _ _ k. k))
        (λ _ _ k. k)

  -- A batch that returns has each given id, in order, either among the successes or among the failures,
  -- and has committed as often as it has successes: a failing series neither stops nor undoes another. A batch only
  -- raises what is no `Exception`.
  pub run_many-Post :
      (ids : List Str) (operation : OperationMode) (today : Date) (w : World)
      → Post
          (Batched ids (commits w) [] [])
          (λ e _. is_exception e ≡ false)
          (run_many env ids operation today w)
  unfolding run_many
  run_many-Post ids operation today w = run_rest-Post ids operation today [] [] w
