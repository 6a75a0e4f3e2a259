-- ===== src/Bronze/Planner/Plans.antt =====
-- The plans of application/planner.py: when there is one, and which dates it asks for.
use market_regime_loader.Prelude.{
  ℕ, ◌+◌, ◌-◌, ◌≤◌, ◌<◌, ◌≡◌, refl, sym, ◌∙◌, arith, Date, Bool, true, false, Option, none, some,
  ltb,
}
use market_regime_loader.Prelude.Effects.{ok, ok-injective}
use market_regime_loader.Bronze.Contracts.{SeriesContract, FetchCapability}
use market_regime_loader.Bronze.Planner.{
  ObservationBounds, OperationMode, FetchInstruction, is_update, full_history, window, build_plan,
  ProviderRequest, logical_start, provider_request,
}

-- The window of an update: it starts the overlap before the latest date that Bronze has, and ends today.
pub record IsWindow (latest today : Date) (overlap_days : ℕ) (plan : FetchInstruction)
    : Type 0 where
  pub updates : plan.mode ≡ OperationMode.update
  pub start : Date
  pub starts : logical_start plan ≡ some start
  pub overlaps : start + overlap_days ≡ latest
  pub ends : plan.filter_end ≡ some today
  pub requested : plan.request_end ≡ today
  pub in_order : latest ≤ today
  pub bounded : plan.maximum_history ≡ false

pub record IsFullHistory (mode : OperationMode) (today : Date) (plan : FetchInstruction)
    : Type 0 where
  pub same_mode : plan.mode ≡ mode
  pub unbounded : logical_start plan ≡ none
  pub requested : plan.request_end ≡ today
  pub everything : plan.maximum_history ≡ true

window-IsWindow :
    (capability : FetchCapability) (latest today : Date) (overlap_days : ℕ)
    → latest ≤ today
    → overlap_days < latest
    → IsWindow latest today overlap_days (window capability (latest - overlap_days) today)
window-IsWindow FetchCapability.date_range latest today o h k = record {
  updates = refl;
  start = latest - o;
  starts = refl;
  overlaps = omega arith;
  ends = refl;
  requested = refl;
  in_order = h;
  bounded = refl;
}
window-IsWindow FetchCapability.full_file latest today o h k = record {
  updates = refl;
  start = latest - o;
  starts = refl;
  overlaps = omega arith;
  ends = refl;
  requested = refl;
  in_order = h;
  bounded = refl;
}

-- What a plan is to be, by what Bronze has and what the operator asks for.
abbrev pub Planned : Option Date → Bool → Date → ℕ → FetchInstruction → Type 0
Planned none reconcile today o plan =
    (reconcile ≡ false) × IsFullHistory OperationMode.bootstrap today plan
Planned (some latest) true today o plan =
    (latest ≤ today) × IsFullHistory OperationMode.reconcile today plan
Planned (some latest) false today o plan = (o < latest) × IsWindow latest today o plan

-- When there is a plan.
abbrev pub IsPlannable : Option Date → Bool → Date → ℕ → Type 0
IsPlannable none reconcile today o = reconcile ≡ false
IsPlannable (some latest) true today o = latest ≤ today
IsPlannable (some latest) false today o = (latest ≤ today) × (o < latest)

full_history-IsFullHistory :
    (mode : OperationMode) (today : Date) → IsFullHistory mode today (full_history mode today)
full_history-IsFullHistory mode today = record {
  same_mode = refl;
  unbounded = refl;
  requested = refl;
  everything = refl;
}

-- A plan is returned whenever the request makes sense: a reconciliation needs history, the
-- latest stored date may not be after today, and the overlap may not reach before the first date. It
-- is the full history for a bootstrap or a reconciliation, and for an update the window that overlaps
-- the stored dates by the configured days and ends today, never the full history.
pub build_plan-Planned :
    (contract : SeriesContract) (bounds : ObservationBounds) (today : Date) (reconcile : Bool)
    (o : ℕ)
    → IsPlannable bounds.maximum reconcile today o
    → (plan : FetchInstruction) × (build_plan contract bounds today reconcile o ≡ ok plan)
      × Planned bounds.maximum reconcile today o plan
unfolding build_plan
build_plan-Planned contract bounds today reconcile o h = by_maximum bounds.maximum reconcile h
  where
    by_maximum :
        (maximum : Option Date) (reconcile : Bool)
        → IsPlannable maximum reconcile today o
        → (plan : FetchInstruction) × (build_plan contract
              (record { minimum = bounds.minimum; maximum = maximum })
              today
              reconcile
              o
            ≡ ok plan)
          × Planned maximum reconcile today o plan
    by_maximum none true h = cc
    by_maximum none false h = (
      full_history OperationMode.bootstrap today,
      refl,
      (refl, full_history-IsFullHistory OperationMode.bootstrap today),
    )
    by_maximum (some latest) true h = (
      full_history OperationMode.reconcile today,
      ground arith,
      (h, full_history-IsFullHistory OperationMode.reconcile today),
    )
    by_maximum (some latest) false (h, k) = (
      window contract.fetch_capability (latest - o) today,
      ground arith,
      (k, window-IsWindow contract.fetch_capability latest today o h k),
    )

-- A request that makes no sense has no plan: a plan is returned only if there is history or no
-- reconciliation is asked for, and the latest date and the overlap fit.
pub build_plan-IsPlannable :
    (contract : SeriesContract) (bounds : ObservationBounds) (today : Date) (reconcile : Bool)
    (o : ℕ) (plan : FetchInstruction)
    → build_plan contract bounds today reconcile o ≡ ok plan
    → IsPlannable bounds.maximum reconcile today o
unfolding build_plan
build_plan-IsPlannable contract bounds today reconcile o plan h =
    by_maximum bounds.maximum reconcile h
  where
    by_maximum :
        (maximum : Option Date) (reconcile : Bool)
        → build_plan contract
            (record { minimum = bounds.minimum; maximum = maximum })
            today
            reconcile
            o
          ≡ ok plan
        → IsPlannable maximum reconcile today o
    by_maximum none true h = cc
    by_maximum none false h = refl
    by_maximum (some latest) true h = ground arith
    by_maximum (some latest) false h = (ground arith, ground arith)

-- The request that a provider is given for a plan.
abbrev pub request_of : FetchInstruction → ProviderRequest
request_of plan = record {
  operation = plan.mode;
  logical_start = logical_start plan;
  logical_end = plan.request_end;
  maximum_history = plan.maximum_history;
}

window-accepted :
    (latest today : Date) (o : ℕ) (plan : FetchInstruction)
    → IsWindow latest today o plan
    → provider_request plan ≡ ok (request_of plan)
unfolding provider_request
window-accepted latest today o plan w =
    let late : ltb today w.start ≡ false = ground (arith, w.overlaps, w.in_order) in
    rw (w.starts, w.requested, w.updates, late)

full_history-accepted :
    (mode : OperationMode) (today : Date) (plan : FetchInstruction)
    → is_update mode ≡ false
    → IsFullHistory mode today plan
    → provider_request plan ≡ ok (request_of plan)
unfolding provider_request
full_history-accepted mode today plan m f = rw (f.same_mode, f.unbounded, f.everything, m)

Planned-accepted :
    (maximum : Option Date) (reconcile : Bool) (today : Date) (o : ℕ) (plan : FetchInstruction)
    → IsPlannable maximum reconcile today o
    → Planned maximum reconcile today o plan
    → (provider_request plan ≡ ok (request_of plan)) × (plan.request_end ≡ today)
Planned-accepted none reconcile today o plan h p =
    (full_history-accepted OperationMode.bootstrap today plan refl p.1, p.1.requested)
Planned-accepted (some latest) true today o plan h p =
    (full_history-accepted OperationMode.reconcile today plan refl p.1, p.1.requested)
Planned-accepted (some latest) false today o plan h p =
    (window-accepted latest today o plan p.1, p.1.requested)

-- Every planned request passes the validation of the request that the provider is given, which asks
-- for the plan's dates up to today.
pub provider_request-build_plan :
    (contract : SeriesContract) (bounds : ObservationBounds) (today : Date) (reconcile : Bool)
    (o : ℕ) (plan : FetchInstruction)
    → build_plan contract bounds today reconcile o ≡ ok plan
    → (provider_request plan ≡ ok (request_of plan)) × (plan.request_end ≡ today)
provider_request-build_plan contract bounds today reconcile o plan h =
    let plannable = build_plan-IsPlannable contract bounds today reconcile o plan h in
    let (other, same, planned) = build_plan-Planned contract bounds today reconcile o plannable in
    Planned-accepted bounds.maximum reconcile today o plan plannable
      (rw (ok-injective (sym h ∙ same)) planned)
