-- ===== src/Postgres/Repository/Apply.antt =====
-- ingestion/postgres_gold_repository.py: apply_delta as a whole, with the checks before its
-- transaction.
use market_regime_loader.Prelude.{
  ◌≡◌, refl, sym, ap, ◌⊎◌, inl, inr, Str, str_eq, str_eq_iff, Datetime, List, ◌++◌, not, arith,
}
use market_regime_loader.Prelude.Effects.{
  Exn, Result, ok, err, lift, continue, refuse, ok-injective, value_error,
}
use market_regime_loader.Prelude.Hoare.{Post, Post-weaken}
use market_regime_loader.Postgres.Contracts.{GoldRowPayload, GoldDeltaPlan, GoldSyncState}
use market_regime_loader.Postgres.Delta.Plan.{FromSource}
use market_regime_loader.Postgres.Tables.{Tables}
use market_regime_loader.Postgres.Repository.{
  Env, World, Action, apply_delta, source_digest_map, all_digested, require_dataset, ensure_schema,
  call,
}
use market_regime_loader.Postgres.Repository.Transaction.{
  Run, then_run, Runs-bind, Runs-call, Runs-with_cursor,
}
use market_regime_loader.Postgres.Repository.Session.{Stores, transaction-Post}
use market_regime_loader.Postgres.Repository.Written.{delta_run, write_delta-Runs}
use market_regime_loader.Postgres.Repository.Outcome.{AppliedTo, delta_run-AppliedTo}

-- A check of values before what needs the database.
pub lift-then :
    {A B : Type 0} {R : B → World → Type 0} {F : Exn → World → Type 0} (r : Result A)
    (f : A → Action B) (w : World)
    → ((a : A) → r ≡ ok a → Post R F (f a w))
    → ((e : Exn) → F e w)
    → Post R F (continue f (lift r w))
lift-then (ok a) f w h k = h a refl
lift-then (err e) f w h k = record { holds = k e }

-- A delta of the rows `by_time` is committed as a whole, or the committed tables stay as they are.
abbrev pub Applied :
    Str
    → GoldDeltaPlan
    → GoldSyncState
    → List (Datetime × GoldRowPayload)
    → Tables
    → Tables
    → Type 0
Applied dataset_id plan state by_time t u =
    (digests : List (Datetime × Str)) × (source_digest_map plan.source_digests ≡ ok digests)
    × (state.dataset_id ≡ dataset_id)
    × AppliedTo dataset_id plan state digests by_time t u

module _ (env : Env) where
  pub ensure_schema-Stores :
      (w : World) → Stores (λ _ t. t ≡ w.stored) (λ t. t ≡ w.stored) (ensure_schema env w)
  unfolding ensure_schema
  ensure_schema-Stores w =
      let same : Run (Unit {0}) = λ t. ok (tt, t) in
      let ddl = Runs-with_cursor env (then_run same (λ _. then_run same (λ _. same))) _ (
        Runs-bind same (λ _. then_run same (λ _. same)) (call env) _ (Runs-call env)
          (λ _. Runs-bind same (λ _. same) (call env) _ (Runs-call env) (λ _. Runs-call env))) in
      Post-weaken _ (transaction-Post env (then_run same (λ _. then_run same (λ _. same))) _ w ddl)
        (λ _ w1 e. ap (λ (p : Unit × Tables). p.1) (sym (ok-injective e)))
        (λ _ w1 e. elim e [
          | inl kept ↦ kept
          | inr done ↦ ap (λ (p : Unit × Tables). p.1) (sym (ok-injective done))
        ])

  -- Whatever call fails, a delta of rows of the source either is committed as a whole, the rows and
  -- digests changed as the plan asks, the state stored and the summary verified, or the committed
  -- tables stay as they are; where it returns, it is committed.
  pub apply_delta-Stores :
      (dataset_id : Str) (plan : GoldDeltaPlan) (state : GoldSyncState)
      (by_time : List (Datetime × GoldRowPayload)) (w : World)
      → FromSource by_time plan
      → Stores
          (λ _ t. Applied dataset_id plan state by_time w.stored t)
          (λ t. (t ≡ w.stored) ⊎ Applied dataset_id plan state by_time w.stored t)
          (apply_delta env dataset_id plan state w)
  unfolding apply_delta
  apply_delta-Stores dataset_id plan state by_time w source =
      lift-then (require_dataset dataset_id) _ w
        (λ _ _.
          lift-then (refuse (not (str_eq state.dataset_id dataset_id)) value_error) _ w
            (λ _ named.
              lift-then (source_digest_map plan.source_digests) _ w
                (λ digests known.
                  lift-then (all_digested digests (plan.inserts ++ plan.updates)) _ w
                    (λ _ _.
                      let applied : (t : Tables)
                          → delta_run dataset_id plan state digests w.stored ≡ ok (tt, t)
                          → Applied dataset_id plan state by_time w.stored t =
                        λ t e. (
                          digests,
                          known,
                          same_name named,
                          delta_run-AppliedTo dataset_id plan state digests by_time w.stored t
                              source e,
                        ) in
                      Post-weaken _
                        (transaction-Post env (delta_run dataset_id plan state digests) _ w (
                          Runs-with_cursor env (delta_run dataset_id plan state digests) _
                            (write_delta-Runs dataset_id plan state digests env)))
                        (λ _ w1 e. applied w1.stored e)
                        (λ _ w1 e. elim e [
                          | inl kept ↦ inl kept
                          | inr done ↦ inr (applied w1.stored done)
                        ]))
                    (λ _. inl refl))
                (λ _. inl refl))
            (λ _. inl refl))
        (λ _. inl refl)
    where
      same_name :
          refuse (not (str_eq state.dataset_id dataset_id)) value_error ≡ ok tt
          → state.dataset_id ≡ dataset_id
      same_name h = (str_eq_iff state.dataset_id dataset_id).0 (ground arith)
