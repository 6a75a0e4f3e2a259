-- ===== src/Bronze/Orchestration/Series.antt =====
-- `BronzeOrchestrator.run_series` of application/bronze_orchestration.py: what is durable after a run.
use market_regime_loader.Prelude.{
  ◌≡◌, refl, ap, ◌⊎◌, inl, inr, Str, str_eq, Datetime, Date, false, List, [], ◌∷◌, ◌++◌, map,
  Bool-cases, All,
}
use market_regime_loader.Prelude.Effects.{Exn, is_exception, lift}
use market_regime_loader.Prelude.Hoare.{Post, Post-continue, Post-recover, Post-weaken}
use market_regime_loader.Bronze.Contracts.{SeriesContract}
use market_regime_loader.Bronze.Planner.{OperationMode, FetchInstruction}
use market_regime_loader.Bronze.Records.{IngestionRunRecord, RunStatus, check_run, claims_writes}
use market_regime_loader.Bronze.Orchestration.{
  Env, Effect, failure_recorded, World, call, SeriesRunResult, utc_now, failed_run, record_failed,
  run_series, checked_plan, or_missing,
}
use market_regime_loader.Prelude.Dict.{get}
use market_regime_loader.Bronze.Registry.{or_unknown}
use mathlib.Core.List.{append-nil}
use market_regime_loader.Bronze.Orchestration.Staging.{
  Idle-then, utc_now-Idle, check_run-same, stage-Post, Commits, commit-Post,
}

module _ {Frame : Type 0} (env : Env Frame) where
  -- A run that raises has made nothing durable but, at most, one record of its failure, which claims no writes.
  pub record Fails (trace : List Effect) (w : World) : Type 0 where
    pub failures : List IngestionRunRecord
    pub at_most_one : failures ≡ [] ⊎ ((run : IngestionRunRecord) × (failures ≡ run ∷ []))
    pub only_failures : w.trace ≡ trace ++ map failure_recorded failures
    pub honest :
        All
          (λ (run : IngestionRunRecord).
            (run.status ≡ RunStatus.failed) × (claims_writes run ≡ false))
          failures

  nothing : (trace : List Effect) (w : World) → w.trace ≡ trace → Fails trace w
  nothing trace w h = record {
    failures = [];
    at_most_one = inl refl;
    only_failures = rw append-nil h;
    honest = tt;
  }

  record_failed-Post :
      (run_id : Str) (contract : SeriesContract) (plan : FetchInstruction) (started : Datetime)
      (e : Exn) (trace : List Effect) (w : World)
      → w.trace ≡ trace
      → Post {A = SeriesRunResult}
          (λ _ _. ⊥)
          (λ _ w'. Fails trace w')
          (record_failed env run_id contract plan started e w)
  unfolding record_failed
  record_failed-Post run_id contract plan started e trace w h = elim (Bool-cases (is_exception e)) [
    | inr other ↦ rw other (record { holds = nothing trace w h })
    | inl caught ↦ rw caught (
        Idle-then (utc_now env) _ trace w (utc_now-Idle env) h
          (λ completed w1 _ h1.
            Idle-then
              (lift (
                check_run (
                  failed_run env run_id contract plan started completed w1.fetched_rows
                    w1.accepted_rows e)))
              _ trace w1 (λ _. refl) h1
              (λ run w2 checked h2.
                Idle-then (call (λ n. env.record_failure n run)) _ trace w2 (λ _. refl) h2
                  (λ _ w3 _ h3.
                    let same =
                      check_run-same
                        (failed_run env run_id contract plan started completed w1.fetched_rows
                          w1.accepted_rows e)
                        run checked in
                    record {
                      holds = record {
                        failures = run ∷ [];
                        at_most_one = inr (run, refl);
                        only_failures = ap (λ (t : List Effect). t ++ failure_recorded run ∷ []) h3;
                        honest = (
                          (ap (λ (r : IngestionRunRecord). r.status) same, ap claims_writes same),
                          tt,
                        );
                      };
                    })
                  (λ _ w3 k. nothing trace w3 k))
              (λ _ w2 k. nothing trace w2 k))
          (λ _ w1 k. nothing trace w1 k))
  ]

  -- A run of a series that returns has committed once, with a success record; a run that raises, at whatever
  -- call, has committed nothing, and has recorded at most its failure, without claiming a write.
  pub run_series-Post :
      (series_id : Str) (operation : OperationMode) (today : Date) (w : World)
      → Post
          (Commits env series_id w.trace)
          (λ _ w'. Fails w.trace w')
          (run_series env series_id operation today w)
  unfolding run_series
  run_series-Post series_id operation today w =
      Idle-then (lift (or_unknown (get str_eq series_id env.registry))) _ w.trace w (λ _. refl) refl
        (λ contract w1 _ h1.
          Idle-then (lift (or_missing (env.providers contract.provider))) _ w.trace w1 (λ _. refl)
            h1
            (λ fetch w2 _ h2.
              Idle-then (call (λ n. env.bounds n contract)) _ w.trace w2 (λ _. refl) h2
                (λ bounds w3 _ h3.
                  Idle-then (lift (checked_plan env contract operation today bounds)) _ w.trace w3
                    (λ _. refl) h3
                    (λ plan w4 _ h4.
                      Idle-then (call (λ n. env.run_id_factory n series_id)) _ w.trace w4
                        (λ _. refl) h4
                        (λ run_id w5 _ h5.
                          Idle-then (utc_now env) _ w.trace w5 (utc_now-Idle env) h5
                            (λ started w6 _ h6.
                              let fresh : World = record w6 {
                                fetched_rows = 0;
                                accepted_rows = 0;
                              } in
                              Post-recover _ _
                                (Post-continue _ _
                                  (stage-Post env contract fetch plan w.trace fresh h6)
                                  (λ prepared w7 (staged, h7).
                                    commit-Post env series_id run_id contract plan started prepared
                                      w.trace w7 staged h7)
                                  (λ _ _ k. k))
                                (λ _ _ done. done)
                                (λ e w7 h7.
                                  Post-weaken _
                                    (record_failed-Post run_id contract plan started e w.trace w7
                                      h7)
                                    (λ _ _ no. absurd no) (λ _ _ f. f)))
                            (λ _ v k. nothing w.trace v k))
                        (λ _ v k. nothing w.trace v k))
                    (λ _ v k. nothing w.trace v k))
                (λ _ v k. nothing w.trace v k))
            (λ _ v k. nothing w.trace v k))
        (λ _ v k. nothing w.trace v k)
