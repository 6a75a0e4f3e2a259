-- ===== src/Bronze/State/Progress.antt =====
-- What application/state.py remembers of a run, beside what Bronze has.
use market_regime_loader.Prelude.{
  ◌≡◌, refl, sym, ◌⊎◌, inl, inr, arith, is_negative, Option, none, some, true, false, not, ◌&&◌,
  ◌||◌, Date, Bool-cases,
}
use market_regime_loader.Prelude.Effects.{ok, value_error, refuse-eq-ok, ok-injective}
use market_regime_loader.Bronze.Planner.{ObservationBounds, OperationMode, FetchInstruction}
use market_regime_loader.Bronze.State.{
  IngestionState, Run, advance_state, advanced, authoritative_latest, latest_of,
}

latest_of-maximum :
    (observed maximum latest : Option Date)
    → latest_of observed maximum ≡ ok latest
    → latest ≡ maximum
latest_of-maximum none maximum latest h = cc
latest_of-maximum (some d) none latest h = cc
latest_of-maximum (some d) (some e) latest h = ground arith

-- Where the remembered state is used at all, the latest date is the one that Bronze has: a stale
-- state can neither widen nor narrow what is requested.
pub authoritative_latest-maximum :
    (s : IngestionState) (bounds : ObservationBounds) (latest : Option Date)
    → authoritative_latest s bounds ≡ ok latest
    → latest ≡ bounds.maximum
unfolding authoritative_latest
authoritative_latest-maximum s bounds latest h =
    latest_of-maximum s.last_observed_date bounds.maximum latest h

latest_of-same : (maximum : Option Date) → latest_of maximum maximum ≡ ok maximum
latest_of-same none = refl
latest_of-same (some d) = ground arith

-- What a durable run leaves of a series, field by field.
pub record Remembers (prior : IngestionState) (plan : FetchInstruction) (run : Run)
    (next : IngestionState) : Type 0 where
  pub same_provider : next.provider ≡ prior.provider
  pub same_series : next.series_id ≡ prior.series_id
  pub succeeded : next.last_success_utc ≡ some run.committed_at_utc
  pub observed : next.last_observed_date ≡ run.authoritative_bounds.maximum
  pub filtered :
      (start : Date) → plan.filter_start ≡ some start → next.last_requested_start ≡ some start
  pub unfiltered : plan.filter_start ≡ none → next.last_requested_start ≡ plan.request_start
  pub ended : next.last_requested_end ≡ some plan.request_end
  pub in_mode : next.mode ≡ some plan.mode
  pub fetched : next.fetched_row_count ≡ run.fetched_rows
  pub accepted : next.accepted_row_count ≡ run.accepted_rows
  pub changed : next.changed_row_count ≡ run.changed_rows
  pub reconciled :
      plan.mode ≡ OperationMode.reconcile → next.last_reconcile_utc ≡ some run.committed_at_utc
  pub not_reconciled :
      (plan.mode ≡ OperationMode.bootstrap) ⊎ (plan.mode ≡ OperationMode.update)
      → next.last_reconcile_utc ≡ prior.last_reconcile_utc

advanced-Remembers :
    (prior : IngestionState) (plan : FetchInstruction) (run : Run)
    → Remembers prior plan run (advanced prior plan run)
advanced-Remembers prior plan run = record {
  same_provider = refl;
  same_series = refl;
  succeeded = refl;
  observed = refl;
  filtered = λ start e. rw e refl;
  unfiltered = λ e. rw e refl;
  ended = refl;
  in_mode = refl;
  fetched = refl;
  accepted = refl;
  changed = refl;
  reconciled = λ e. rw e refl;
  not_reconciled = λ e. elim e [ inl bootstrap ↦ rw bootstrap refl | inr update ↦ rw update refl ];
}

-- Where a run is remembered without an error, both its Bronze files and its success record are durable
-- and its counts are not negative, and the state is then the prior one with the time of the commit, the latest date of
-- Bronze, the start, the end and the mode of the plan and the counts of the run, and with the time of
-- the commit as that of the last reconciliation exactly where the plan is one; the next run finds the
-- latest date of Bronze in it. If one of the two is not durable, the state is the prior one.
pub advance_state-authoritative_latest :
    (prior next : IngestionState) (plan : FetchInstruction) (run : Run)
    → advance_state prior plan run ≡ ok next
    → (next ≡ prior) × (run.durable_bronze && run.durable_success_manifest ≡ false)
      ⊎ (run.durable_bronze && run.durable_success_manifest ≡ true)
        × Remembers prior plan run next
        × (is_negative next.fetched_row_count
              || (is_negative next.accepted_row_count || is_negative next.changed_row_count)
            ≡ false)
        × (authoritative_latest next run.authoritative_bounds ≡ ok run.authoritative_bounds.maximum)
unfolding advance_state authoritative_latest
advance_state-authoritative_latest prior next plan run h =
    elim (Bool-cases (run.durable_bronze && run.durable_success_manifest)) [
      | inr volatile ↦
          let skipped : not run.durable_bronze || not run.durable_success_manifest ≡ true =
            ground arith in
          inl (sym (ok-injective (rw skipped at h)), volatile)
      | inl durable ↦
          let taken : not run.durable_bronze || not run.durable_success_manifest ≡ false =
            ground arith in
          let (fetched, h1) =
            refuse-eq-ok (is_negative run.fetched_rows) value_error _ (rw taken at h) in
          let (accepted, h2) = refuse-eq-ok (is_negative run.accepted_rows) value_error _ h1 in
          let (changed, h3) = refuse-eq-ok (is_negative run.changed_rows) value_error _ h2 in
          let same : next ≡ advanced prior plan run =
            sym (ok-injective {a = advanced prior plan run} h3) in
          inr (
            durable,
            rw same (advanced-Remembers prior plan run),
            rw (same, fetched, accepted, changed),
            rw same (latest_of-same run.authoritative_bounds.maximum),
          )
    ]
