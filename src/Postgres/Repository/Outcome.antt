-- ===== src/Postgres/Repository/Outcome.antt =====
-- ingestion/postgres_gold_repository.py: what is found in the tables after the statements of
-- apply_delta.
use market_regime_loader.Prelude.{
  ◌≡◌, refl, sym, ap, ◌∙◌, Str, str_eq, str_eq_refl, str_eq_iff, Datetime, datetime_eq, Option,
  none, some, List, [], ◌∷◌, ◌++◌, map, All, if◌then◌else◌,
}
use market_regime_loader.Prelude.Effects.{
  ok, bind, bind-eq-ok, ok-injective, external, refuse-eq-ok,
}
use market_regime_loader.Prelude.Dict.{get, has}
use market_regime_loader.Prelude.Items.{set_item}
use market_regime_loader.Prelude.Items.Laws.{get-set_item}
use market_regime_loader.Postgres.Contracts.{
  GoldRowPayload, GoldDeltaPlan, GoldSyncState, row_timestamp, row_timestamps,
}
use market_regime_loader.Postgres.Delta.{at_time, or_key_error}
use market_regime_loader.Postgres.Delta.Partition.{mem_time}
use market_regime_loader.Postgres.Delta.Plan.{FromSource}
use market_regime_loader.Postgres.Tables.{
  Tables, run_statement, insert_row, update_row, delete_row, delete_digest, upsert_state,
  state_params, target_summary, key_eq,
}
use market_regime_loader.Postgres.Repository.{verify_summary}
use market_regime_loader.Postgres.Repository.Lookup.{
  Values, run_of, stored_values, stored_digest, record_run, OfSource, put_values, change_values,
  forget, put_digest, each-lookup, each-keeps, insert-lookup, update-lookup, change_twice,
  delete-lookup, delete-digest, record-lookup,
}
use market_regime_loader.Postgres.Repository.Written.{
  delta_run, insert_run, update_run, delete_run, digest_run, forget_run, verify_run,
}

insert-hashes :
    (row : GoldRowPayload) (t u : Tables)
    → run_of (insert_row row) t ≡ ok (tt, u)
    → u.hashes ≡ t.hashes
unfolding run_statement
insert-hashes row t u e =
    let (u1, ran, e1) = bind-eq-ok (run_statement (insert_row row) t) _ e in
    let (fresh, e2) =
      refuse-eq-ok (has datetime_eq row.timestamp_m1 t.consumer) (external 0) _ ran in
    ap (λ (p : Unit × Tables). p.1.hashes) (sym (ok-injective e1))
    ∙ ap (λ (t : Tables). t.hashes) (sym (ok-injective e2))

update-hashes :
    (row : GoldRowPayload) (t u : Tables)
    → run_of (update_row row) t ≡ ok (tt, u)
    → u.hashes ≡ t.hashes
unfolding run_statement
update-hashes row t u e = ap (λ (p : Unit × Tables). p.1.hashes) (sym (ok-injective e))

delete-hashes :
    (time : Datetime) (t u : Tables) → run_of (delete_row time) t ≡ ok (tt, u) → u.hashes ≡ t.hashes
unfolding run_statement
delete-hashes time t u e = ap (λ (p : Unit × Tables). p.1.hashes) (sym (ok-injective e))

forget-consumer :
    (dataset_id : Str) (time : Datetime) (t u : Tables)
    → run_of (delete_digest dataset_id time) t ≡ ok (tt, u)
    → u.consumer ≡ t.consumer
unfolding run_statement
forget-consumer dataset_id time t u e =
    ap (λ (p : Unit × Tables). p.1.consumer) (sym (ok-injective e))

record-consumer :
    (dataset_id : Str) (digests : List (Datetime × Str)) (row : GoldRowPayload) (t u : Tables)
    → record_run dataset_id digests row t ≡ ok (tt, u)
    → u.consumer ≡ t.consumer
unfolding run_statement
record-consumer dataset_id digests row t u e =
    let ((_, t1), found, e1) =
      bind-eq-ok (bind (or_key_error (at_time row.timestamp_m1 digests)) (λ s. ok (s, t))) _ e in
    let (sha256, there, e2) =
      bind-eq-ok (or_key_error (at_time row.timestamp_m1 digests)) _ found in
    let pair : (sha256, t) ≡ (_, t1) = ok-injective e2 in
    let e3 = rw (← pair) at e1 in ap (λ (p : Unit × Tables). p.1.consumer) (sym (ok-injective e3))

all_unit : {A : Type 0} (xs : List A) → All (λ _. Unit {0}) xs
all_unit [] = tt
all_unit (x ∷ xs) = (tt, all_unit xs)

map_same : {A : Type 0} (xs : List A) → map (λ x. x) xs ≡ xs
map_same [] = refl
map_same (x ∷ xs) = ap (λ ys. x ∷ ys) (map_same xs)

module _ (dataset_id : Str) (plan : GoldDeltaPlan) (state : GoldSyncState)
    (digests : List (Datetime × Str)) (by_time : List (Datetime × GoldRowPayload)) where
  -- The values of a row, and its digest, after the statements.
  abbrev pub values_after : Datetime → Option Values → Option Values
  values_after j o =
      let inserted =
        if mem_time j (row_timestamps plan.inserts) then put_values by_time j o else o in
      let updated =
        if mem_time j (row_timestamps plan.updates)
        then change_values by_time j inserted
        else inserted in
      if mem_time j plan.deletes then none else updated

  abbrev pub digest_after : Datetime → Option Str → Option Str
  digest_after j o =
      let recorded =
        if mem_time j (row_timestamps (plan.inserts ++ plan.updates))
        then at_time j digests
        else o in
      if mem_time j plan.deletes then none else recorded

  abbrev pub AppliedTo : Tables → Tables → Type 0
  AppliedTo t u =
      ((j : Datetime) → stored_values u j ≡ values_after j (stored_values t j))
      × ((j : Datetime)
          → stored_digest dataset_id u j ≡ digest_after j (stored_digest dataset_id t j))
      × (get str_eq state.dataset_id u.states ≡ some (state_params state))
      × (verify_summary state (target_summary u) ≡ ok tt)

  values-lookup :
      (t t1 t2 t3 : Tables) (j : Datetime)
      → FromSource by_time plan
      → insert_run dataset_id plan state digests t ≡ ok (tt, t1)
      → update_run dataset_id plan state digests t1 ≡ ok (tt, t2)
      → delete_run dataset_id plan state digests t2 ≡ ok (tt, t3)
      → stored_values t3 j ≡ values_after j (stored_values t j)
  values-lookup t t1 t2 t3 j source e1 e2 e3 =
      let i =
        each-lookup stored_values (put_values by_time) row_timestamp
          (λ row. run_of (insert_row row)) (OfSource by_time) (λ k o. refl) (insert-lookup by_time)
          plan.inserts t t1 j source.0 e1 in
      let u =
        each-lookup stored_values (change_values by_time) row_timestamp
          (λ row. run_of (update_row row)) (OfSource by_time) (change_twice by_time)
          (update-lookup by_time) plan.updates t1 t2 j source.1 e2 in
      let d =
        each-lookup stored_values forget (λ k. k) (λ time. run_of (delete_row time)) (λ _. Unit {0})
          (λ k o. refl) (λ k t u j _ e. delete-lookup k t u j e) plan.deletes t2 t3 j
          (all_unit plan.deletes) e3 in
      rw (← i, ← u) (d ∙ rw (map_same plan.deletes) refl)

  digest-lookup :
      (t t1 t2 t3 t4 t5 : Tables) (j : Datetime)
      → insert_run dataset_id plan state digests t ≡ ok (tt, t1)
      → update_run dataset_id plan state digests t1 ≡ ok (tt, t2)
      → delete_run dataset_id plan state digests t2 ≡ ok (tt, t3)
      → digest_run dataset_id plan state digests t3 ≡ ok (tt, t4)
      → forget_run dataset_id plan state digests t4 ≡ ok (tt, t5)
      → stored_digest dataset_id t5 j ≡ digest_after j (stored_digest dataset_id t j)
  digest-lookup t t1 t2 t3 t4 t5 j e1 e2 e3 e4 e5 =
      let kept : t3.hashes ≡ t.hashes =
        each-keeps (λ (t : Tables). t.hashes) _ delete-hashes plan.deletes t2 t3 e3
        ∙ each-keeps (λ (t : Tables). t.hashes) _ update-hashes plan.updates t1 t2 e2
        ∙ each-keeps (λ (t : Tables). t.hashes) _ insert-hashes plan.inserts t t1 e1 in
      let same : stored_digest dataset_id t3 j ≡ stored_digest dataset_id t j =
        ap (λ h. get key_eq (dataset_id, j) h) kept in
      let r =
        each-lookup (stored_digest dataset_id) (put_digest dataset_id digests) row_timestamp
          (record_run dataset_id digests) (λ _. Unit {0}) (λ k o. refl)
          (λ row t u j _ e. record-lookup dataset_id digests row t u j e)
          (plan.inserts ++ plan.updates) t3 t4 j (all_unit (plan.inserts ++ plan.updates)) e4 in
      let d =
        each-lookup (stored_digest dataset_id) forget (λ k. k)
          (λ time. run_of (delete_digest dataset_id time)) (λ _. Unit {0}) (λ k o. refl)
          (λ k t u j _ e. delete-digest dataset_id k t u j e) plan.deletes t4 t5 j
          (all_unit plan.deletes) e5 in
      rw (← same, ← r) (d ∙ rw (map_same plan.deletes) refl)

  assemble :
      (t t1 t2 t3 t4 t5 u : Tables)
      → FromSource by_time plan
      → insert_run dataset_id plan state digests t ≡ ok (tt, t1)
      → update_run dataset_id plan state digests t1 ≡ ok (tt, t2)
      → delete_run dataset_id plan state digests t2 ≡ ok (tt, t3)
      → digest_run dataset_id plan state digests t3 ≡ ok (tt, t4)
      → forget_run dataset_id plan state digests t4 ≡ ok (tt, t5)
      → verify_summary state (target_summary t5) ≡ ok tt
      → run_of (upsert_state state) t5 ≡ ok (tt, u)
      → AppliedTo t u
  unfolding run_statement target_summary
  assemble t t1 t2 t3 t4 t5 u source e1 e2 e3 e4 e5 verified e =
      let whole : record t5 {
        states = set_item str_eq state.dataset_id (state_params state) t5.states;
      }
          ≡ u =
        ap (λ (p : Unit × Tables). p.1) (ok-injective e) in
      let kept : t5.consumer ≡ t3.consumer =
        each-keeps (λ (t : Tables). t.consumer) _ (forget-consumer dataset_id) plan.deletes t4 t5 e5
        ∙ each-keeps (λ (t : Tables). t.consumer) _ (record-consumer dataset_id digests)
            (plan.inserts ++ plan.updates) t3 t4 e4 in
      rw (← whole) (
        λ j. ap (at_time j) kept ∙ values-lookup t t1 t2 t3 j source e1 e2 e3,
        λ j. digest-lookup t t1 t2 t3 t4 t5 j e1 e2 e3 e4 e5,
        get-set_item str_eq str_eq_iff state.dataset_id state.dataset_id (state_params state)
              t5.states
            ∙ rw (str_eq_refl state.dataset_id) refl,
        verified,
      )

  pub delta_run-AppliedTo :
      (t u : Tables)
      → FromSource by_time plan
      → delta_run dataset_id plan state digests t ≡ ok (tt, u)
      → AppliedTo t u
  unfolding run_statement target_summary
  delta_run-AppliedTo t u source e =
      let ((_, t1), e1, f1) = bind-eq-ok (insert_run dataset_id plan state digests t) _ e in
      let ((_, t2), e2, f2) = bind-eq-ok (update_run dataset_id plan state digests t1) _ f1 in
      let ((_, t3), e3, f3) = bind-eq-ok (delete_run dataset_id plan state digests t2) _ f2 in
      let ((_, t4), e4, f4) = bind-eq-ok (digest_run dataset_id plan state digests t3) _ f3 in
      let ((_, t5), e5, f5) = bind-eq-ok (forget_run dataset_id plan state digests t4) _ f4 in
      let ((_, t6), e6, f6) =
        bind-eq-ok (verify_run dataset_id plan state digests (target_summary t5) t5) _ f5 in
      let (_, verified, e7) = bind-eq-ok (verify_summary state (target_summary t5)) _ e6 in
      let same : t5 ≡ t6 = ap (λ (p : Unit × Tables). p.1) (ok-injective e7) in
      assemble t t1 t2 t3 t4 t5 u source e1 e2 e3 e4 e5 verified (rw (← same) at f6)
