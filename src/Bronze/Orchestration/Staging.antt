-- ===== src/Bronze/Orchestration/Staging.antt =====
-- The staging and the commit within `run_series` of application/bronze_orchestration.py.
use market_regime_loader.Prelude.{
  ℕ, ◌≡◌, refl, sym, ap, ◌∙◌, arith, pos, is_negative, datetime_lt, mixed, Str, Datetime, ◌&&◌,
  List, [], ◌∷◌, ◌++◌, any,
}
use market_regime_loader.Prelude.Effects.{
  Exn, Result, ok, ok-injective, refuse-eq-ok, value_error, type_error, pure, lift, continue, ◌>>◌,
}
use market_regime_loader.Prelude.Hoare.{Post, Post-lift, Keeps-then}
use market_regime_loader.Bronze.Contracts.{SeriesContract, is_blank}
use market_regime_loader.Bronze.Planner.{
  FetchInstruction, ProviderRequest, logical_start, provider_request,
}
use market_regime_loader.Bronze.State.{IngestionState, advance_state, advanced}
use market_regime_loader.Bronze.Records.{
  IngestionRunRecord, RunStatus, is_failed, check_run, claims_writes, PreparedBronze,
}
use market_regime_loader.Bronze.Orchestration.{
  Env, Effect, committed, World, Action, call, log, SeriesRunResult, utc_now, enforce_window,
  success_run, run_of, result_of, stage, commit,
}

-- The method makes nothing durable.
abbrev pub Idle : {A : Type 0} → Action A → Type 0
Idle m = (w : World) → (m w).1.trace ≡ w.trace

pub Idle-then :
    {A B : Type 0} {R : B → World → Type 0} {F : Exn → World → Type 0} (m : Action A)
    (f : A → Action B) (trace : List Effect) (w : World)
    → Idle m
    → w.trace ≡ trace
    → ((a : A) (w' : World) → (m w).0 ≡ ok a → w'.trace ≡ trace → Post R F (f a w'))
    → ((e : Exn) (w' : World) → w'.trace ≡ trace → F e w')
    → Post R F (continue f (m w))
Idle-then m f trace w idle h k l = Keeps-then (λ (w : World). w.trace) m f trace w idle h k l

pub check_run-same : (r s : IngestionRunRecord) → check_run r ≡ ok s → s ≡ r
unfolding check_run
check_run-same r s h =
    let (named, h1) = refuse-eq-ok (is_blank r.run_id) value_error _ h in
    let (counted, h2) =
      refuse-eq-ok
        (any is_negative (
          r.fetched_rows ∷ r.accepted_rows ∷ r.inserted_rows ∷ r.revised_rows ∷ r.written_partitions
          ∷ []))
        value_error _ h1 in
    let (alike, h3) =
      refuse-eq-ok (mixed (r.completed_at_utc ∷ r.started_at_utc ∷ [])) type_error _ h2 in
    let (ordered, h4) =
      refuse-eq-ok (datetime_lt r.completed_at_utc r.started_at_utc) value_error _ h3 in
    let (durable, h5) = refuse-eq-ok (is_failed r.status && claims_writes r) value_error _ h4 in
    sym (ok-injective {a = r} h5)

module _ {Frame : Type 0} (env : Env Frame) where
  pub utc_now-Idle : Idle (utc_now env)
  unfolding utc_now
  utc_now-Idle w = ground arith

  -- What was staged: a frame that keeps to the plan's window, as the unit of work prepared it.
  pub record Staged (contract : SeriesContract) (plan : FetchInstruction)
      (prepared : PreparedBronze Frame) : Type 0 where
    pub incoming : Frame
    pub in_window : enforce_window env incoming plan ≡ ok tt
    pub call_number : ℕ
    pub prepares : env.prepare call_number contract incoming ≡ ok prepared

  pub stage-Post :
      (contract : SeriesContract) (fetch : ℕ → SeriesContract → ProviderRequest → Result Frame)
      (plan : FetchInstruction) (trace : List Effect) (w : World)
      → w.trace ≡ trace
      → Post
          (λ prepared w'. Staged contract plan prepared × (w'.trace ≡ trace))
          (λ _ w'. w'.trace ≡ trace)
          (stage env contract fetch plan w)
  unfolding stage
  stage-Post contract fetch plan trace w h =
      Idle-then (lift (provider_request plan)) _ trace w (λ _. refl) h
        (λ request w1 _ h1.
          Idle-then (call (λ n. fetch n contract request)) _ trace w1 (λ _. refl) h1
            (λ incoming w2 _ h2.
              Idle-then (lift (enforce_window env incoming plan)) _ trace
                (record w2 { fetched_rows = env.height incoming }) (λ _. refl) h2
                (λ _ w3 inside h3.
                  Post-lift (env.prepare w3.calls contract incoming) _
                    (λ prepared e. (
                      record {
                        incoming = incoming;
                        in_window = inside;
                        call_number = w3.calls;
                        prepares = e;
                      },
                      h3,
                    ))
                    (λ _. h3))
                (λ _ _ k. k))
            (λ _ _ k. k))
        (λ _ _ k. k)

  -- A run that returns has made one thing durable: its staged frame, with a success record that has its
  -- counts, and a state that has the latest date of Bronze after the commit.
  pub record Commits (series_id : Str) (trace : List Effect) (result : SeriesRunResult) (w : World)
      : Type 0 where
    pub contract : SeriesContract
    pub plan : FetchInstruction
    pub prepared : PreparedBronze Frame
    pub run : IngestionRunRecord
    pub next_state : IngestionState
    pub staged : Staged contract plan prepared
    pub once : w.trace ≡ trace ++ committed run next_state ∷ []
    pub valid : check_run run ≡ ok run
    pub succeeds : run.status ≡ RunStatus.success
    pub inserted : run.inserted_rows ≡ pos prepared.inserts
    pub revised : run.revised_rows ≡ pos prepared.revisions
    pub observed : next_state.last_observed_date ≡ prepared.post_bounds.maximum
    pub requested : next_state.last_requested_start ≡ logical_start plan
    pub reported : result ≡ result_of env series_id run.run_id contract plan prepared

  advance_state-advanced :
      (prior next : IngestionState) (plan : FetchInstruction) (completed : Datetime)
      (fetched accepted : ℕ) (prepared : PreparedBronze Frame)
      → advance_state prior plan (run_of env completed fetched accepted prepared) ≡ ok next
      → next ≡ advanced prior plan (run_of env completed fetched accepted prepared)
  unfolding advance_state
  advance_state-advanced prior next plan completed fetched accepted prepared h =
      sym (ok-injective h)

  commits :
      (series_id run_id : Str) (contract : SeriesContract) (plan : FetchInstruction)
      (started completed : Datetime) (fetched accepted : ℕ) (prepared : PreparedBronze Frame)
      (run : IngestionRunRecord) (prior next_state : IngestionState) (trace : List Effect)
      (w : World)
      → Staged contract plan prepared
      → check_run (success_run env run_id contract plan started completed fetched accepted prepared)
        ≡ ok run
      → advance_state prior plan (run_of env completed fetched accepted prepared) ≡ ok next_state
      → w.trace ≡ trace
      → Commits series_id trace
          (result_of env series_id run_id contract plan prepared)
          (record w { trace = w.trace ++ committed run next_state ∷ [] })
  commits series_id run_id contract plan started completed fetched accepted prepared run prior
        next_state trace w staged checked advances h =
      let same : run
          ≡ success_run env run_id contract plan started completed fetched accepted prepared =
        check_run-same
          (success_run env run_id contract plan started completed fetched accepted prepared) run
          checked in
      let moved =
        advance_state-advanced prior next_state plan completed fetched accepted prepared advances in
      record {
        contract = contract;
        plan = plan;
        prepared = prepared;
        run = run;
        next_state = next_state;
        staged = staged;
        once = ap (λ (t : List Effect). t ++ committed run next_state ∷ []) h;
        valid = ap check_run same ∙ checked;
        succeeds = ap (λ (r : IngestionRunRecord). r.status) same;
        inserted = ap (λ (r : IngestionRunRecord). r.inserted_rows) same;
        revised = ap (λ (r : IngestionRunRecord). r.revised_rows) same;
        observed = ap (λ (s : IngestionState). s.last_observed_date) moved;
        requested = ap (λ (s : IngestionState). s.last_requested_start) moved;
        reported =
            ap (λ (r : IngestionRunRecord). result_of env series_id r.run_id contract plan prepared)
              (sym same);
      }

  pub commit-Post :
      (series_id run_id : Str) (contract : SeriesContract) (plan : FetchInstruction)
      (started : Datetime) (prepared : PreparedBronze Frame) (trace : List Effect) (w : World)
      → Staged contract plan prepared
      → w.trace ≡ trace
      → Post
          (Commits series_id trace)
          (λ _ w'. w'.trace ≡ trace)
          (commit env series_id run_id contract plan started prepared w)
  unfolding commit
  commit-Post series_id run_id contract plan started prepared trace w staged h =
      Idle-then (utc_now env) _ trace w utc_now-Idle h
        (λ completed w1 _ h1.
          Idle-then
            (lift (
              check_run (
                success_run env run_id contract plan started completed w1.fetched_rows
                  w1.accepted_rows prepared)))
            _ trace w1 (λ _. refl) h1
            (λ run w2 checked h2.
              Idle-then (call (λ n. env.state n contract)) _ trace w2 (λ _. refl) h2
                (λ prior w3 _ h3.
                  Idle-then
                    (lift (
                      advance_state prior plan
                        (run_of env completed w1.fetched_rows w1.accepted_rows prepared)))
                    (λ next_state.
                      call (λ n. env.commit_success n prepared run next_state)
                      >> (log (committed run next_state)
                          >> pure (result_of env series_id run_id contract plan prepared)))
                    trace w3 (λ _. refl) h3
                    (λ next_state w4 advances h4.
                      Idle-then (call (λ n. env.commit_success n prepared run next_state))
                        (λ _.
                          log (committed run next_state)
                          >> pure (result_of env series_id run_id contract plan prepared))
                        trace w4 (λ _. refl) h4
                        (λ _ w5 _ h5. record {
                          holds =
                              commits series_id run_id contract plan started completed
                                w1.fetched_rows w1.accepted_rows prepared run prior next_state trace
                                w5 staged checked advances h5;
                        })
                        (λ _ _ k. k))
                    (λ _ _ k. k))
                (λ _ _ k. k))
            (λ _ _ k. k))
        (λ _ _ k. k)
