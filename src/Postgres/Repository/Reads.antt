-- ===== src/Postgres/Repository/Reads.antt =====
-- ingestion/postgres_gold_repository.py: read_state and read_digests return what is committed.
use market_regime_loader.Prelude.{
  ◌≡◌, refl, ap, ◌∙◌, inl, inr, arith, Str, str_eq, Datetime, datetime_eq, datetime_eq_iff,
  datetime_lt, microseconds, true, false, Option, List, [], ◌∷◌, map, All, Bool-cases,
}
use market_regime_loader.Prelude.Effects.{ok, bind, traverse, bind-eq-ok, ok-injective}
use market_regime_loader.Prelude.Hoare.{Post-weaken}
use market_regime_loader.Prelude.Dict.{get}
use market_regime_loader.Prelude.Sorting.{sort_by, insert_sorted}
use market_regime_loader.Postgres.Contracts.{GoldRowDigest, GoldSyncState, gold_row_digest}
use market_regime_loader.Postgres.Delta.{at_time, digest_entry}
use market_regime_loader.Postgres.Delta.Total.{AwareDigest, gold_row_digest_lem}
use market_regime_loader.Postgres.Tables.{
  Tables, Value, HashKey, key_eq, text, timestamp, digests_of, earlier, select_digests,
  select_state, as_datetime, as_text,
}
use market_regime_loader.Postgres.Repository.{
  Env, World, read_state, read_digests, state_or_none, digest_from_row, require_dataset,
}
use market_regime_loader.Postgres.Repository.Transaction.{
  Run, then_run, Runs-bind, Runs-lift, Runs-query, Runs-with_cursor,
}
use market_regime_loader.Postgres.Repository.Session.{Stores, reading-Post}
use market_regime_loader.Postgres.Repository.Lookup.{stored_digest}
use market_regime_loader.Postgres.Repository.Apply.{lift-then}

-- `ORDER BY` keeps what is found under each time.
before_lem : (t u : Datetime) → datetime_lt t u ≡ true → datetime_eq u t ≡ false
before_lem t u h = elim (Bool-cases (datetime_eq u t)) [
  | inl same ↦
      let e : microseconds u ≡ microseconds t = ap microseconds ((datetime_eq_iff u t).0 same) in
      absurd (ground arith)
  | inr other ↦ other
]

at_time-insert_sorted :
    (j t : Datetime) (s : Str) (d : List (Datetime × Str))
    → at_time j (insert_sorted earlier (t, s) d) ≡ at_time j ((t, s) ∷ d)
at_time-insert_sorted j t s [] = refl
at_time-insert_sorted j t s ((u, r) ∷ d) = elim (Bool-cases (datetime_lt u t)) [
  | inl later ↦
      rw (later, at_time-insert_sorted j t s d)
        (elim (Bool-cases (datetime_eq j t)) [
          | inl here ↦
              let apart = before_lem u t later in
              let same = (datetime_eq_iff j t).0 here in rw (here, same, apart) refl
          | inr other ↦ rw other refl
        ])
  | inr first ↦ rw first refl
]

at_time-sort_by :
    (j : Datetime) (d : List (Datetime × Str)) → at_time j (sort_by earlier d) ≡ at_time j d
unfolding sort_by
at_time-sort_by j [] = refl
at_time-sort_by j ((t, s) ∷ d) =
    at_time-insert_sorted j t s (sort_by earlier d) ∙ rw (at_time-sort_by j d) refl

at_time-digests_of :
    (dataset_id : Str) (j : Datetime) (hashes : List (HashKey × Str))
    → at_time j (digests_of dataset_id hashes) ≡ get key_eq (dataset_id, j) hashes
at_time-digests_of dataset_id j [] = refl
at_time-digests_of dataset_id j (((d, t), s) ∷ hashes) = elim (Bool-cases (str_eq dataset_id d)) [
  | inl here ↦ rw (here, at_time-digests_of dataset_id j hashes) refl
  | inr other ↦ rw (other, at_time-digests_of dataset_id j hashes) refl
]

traverse-rows :
    (entries : List (Datetime × Str)) (digests : List GoldRowDigest)
    → traverse digest_from_row (map (λ (t, s). timestamp t ∷ text s ∷ []) entries) ≡ ok digests
    → (map digest_entry digests ≡ entries) × All AwareDigest digests
unfolding as_datetime as_text
traverse-rows [] digests h = rw (← ok-injective h) (refl, tt)
traverse-rows ((t, s) ∷ entries) digests h =
    let (d, here, e) = bind-eq-ok (gold_row_digest t s) _ h in
    let (ds, rest, e1) = bind-eq-ok (traverse digest_from_row _) _ e in
    let (same, hashed, there, valid) = gold_row_digest_lem t s d here in
    let (again, all) = traverse-rows entries ds rest in
    rw (← ok-injective e1) (rw (same, hashed, again) refl, (there, all))

module _ (env : Env) where
  pub read_state-Stores :
      (dataset_id : Str) (w : World)
      → Stores
          (λ o t. (state_or_none (select_state dataset_id w.stored) ≡ ok o) × (t ≡ w.stored))
          (λ t. t ≡ w.stored)
          (read_state env dataset_id w)
  unfolding read_state
  read_state-Stores dataset_id w =
      let found : Run (Option (List Value)) = λ t. ok (select_state dataset_id t, t) in
      let parsed : Option (List Value) → Run (Option GoldSyncState) =
        λ row t. bind (state_or_none row) (λ a. ok (a, t)) in
      lift-then (require_dataset dataset_id) _ w
        (λ _ _.
          Post-weaken _
            (reading-Post env (then_run found parsed) _ w (
              Runs-bind found parsed _ _
                (Runs-with_cursor env found _ (Runs-query env (select_state dataset_id)))
                (λ row. Runs-lift (state_or_none row))))
            (λ o w1 r.
              let (a, e, f) =
                bind-eq-ok (state_or_none (select_state dataset_id w.stored)) _ r.0.1 in
              (e ∙ ap (λ (p : Option GoldSyncState × Tables). ok p.0) (ok-injective f), r.1))
            (λ _ w1 r. r))
        (λ _. refl)

  pub read_digests-Stores :
      (dataset_id : Str) (w : World)
      → Stores
          (λ digests t.
            ((j : Datetime)
              → at_time j (map digest_entry digests) ≡ stored_digest dataset_id w.stored j)
            × All AwareDigest digests
            × (t ≡ w.stored))
          (λ t. t ≡ w.stored)
          (read_digests env dataset_id w)
  unfolding read_digests select_digests
  read_digests-Stores dataset_id w =
      let found : Run (List (List Value)) = λ t. ok (select_digests dataset_id t, t) in
      let parsed : List (List Value) → Run (List GoldRowDigest) =
        λ rows t. bind (traverse digest_from_row rows) (λ a. ok (a, t)) in
      let entries = sort_by earlier (digests_of dataset_id w.stored.hashes) in
      lift-then (require_dataset dataset_id) _ w
        (λ _ _.
          Post-weaken _
            (reading-Post env (then_run found parsed) _ w (
              Runs-bind found parsed _ _
                (Runs-with_cursor env found _ (Runs-query env (select_digests dataset_id)))
                (λ rows. Runs-lift (traverse digest_from_row rows))))
            (λ o w1 r.
              let (a, e, f) =
                bind-eq-ok (traverse digest_from_row (select_digests dataset_id w.stored)) _
                  r.0.1 in
              let same = ap (λ (p : List GoldRowDigest × Tables). p.0) (ok-injective f) in
              let (listed, all) = traverse-rows entries o (e ∙ ap ok same) in
              (
                λ j.
                    ap (at_time j) listed
                    ∙ at_time-sort_by j (digests_of dataset_id w.stored.hashes)
                    ∙ at_time-digests_of dataset_id j w.stored.hashes,
                all,
                r.1,
              ))
            (λ _ w1 r. r))
        (λ _. refl)
