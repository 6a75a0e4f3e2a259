-- ===== src/Postgres/Repository/Written.antt =====
-- ingestion/postgres_gold_repository.py: what the statements of apply_delta make of the tables.
use market_regime_loader.Prelude.{Str, Datetime, List, ◌++◌}
use market_regime_loader.Prelude.Effects.{ok, bind, lift, ◌>>=◌}
use market_regime_loader.Postgres.Contracts.{GoldRowPayload, GoldDeltaPlan, GoldSyncState}
use market_regime_loader.Postgres.Delta.{at_time, or_key_error}
use market_regime_loader.Postgres.Tables.{
  Value, insert_row, update_row, delete_row, upsert_digest, delete_digest, upsert_state,
  target_summary,
}
use market_regime_loader.Postgres.Repository.{
  Env, call, execute, query, for_each, record_digest, verify_summary, write_delta,
}
use market_regime_loader.Postgres.Repository.Transaction.{
  Run, then_run, Runs, Runs-bind, Runs-lift, Runs-call, Runs-query, Runs-execute, each,
  Runs-for_each,
}
use market_regime_loader.Postgres.Repository.Lookup.{run_of, record_run}

module _ (dataset_id : Str) (plan : GoldDeltaPlan) (state : GoldSyncState)
    (digests : List (Datetime × Str)) where
  abbrev pub verify_run : List Value → Run (Unit {0})
  verify_run row t = bind (verify_summary state row) (λ a. ok (a, t))

  abbrev pub insert_run : Run (Unit {0})
  insert_run = each (λ row. run_of (insert_row row)) plan.inserts

  abbrev pub update_run : Run (Unit {0})
  update_run = each (λ row. run_of (update_row row)) plan.updates

  abbrev pub delete_run : Run (Unit {0})
  delete_run = each (λ time. run_of (delete_row time)) plan.deletes

  abbrev pub digest_run : Run (Unit {0})
  digest_run = each (record_run dataset_id digests) (plan.inserts ++ plan.updates)

  abbrev pub forget_run : Run (Unit {0})
  forget_run = each (λ time. run_of (delete_digest dataset_id time)) plan.deletes

  abbrev state_run : Run (Unit {0})
  state_run = run_of (upsert_state state)

  abbrev verified_run : Run (Unit {0})
  verified_run =
      then_run (λ t. ok (target_summary t, t)) (λ row. then_run (verify_run row) (λ _. state_run))

  abbrev after_digests : Run (Unit {0})
  after_digests = then_run forget_run (λ _. verified_run)

  abbrev after_deletes : Run (Unit {0})
  after_deletes = then_run digest_run (λ _. after_digests)

  abbrev after_updates : Run (Unit {0})
  after_updates = then_run delete_run (λ _. after_deletes)

  abbrev after_inserts : Run (Unit {0})
  after_inserts = then_run update_run (λ _. after_updates)

  -- The statements in their order.
  abbrev pub delta_run : Run (Unit {0})
  delta_run = then_run (λ t. ok (tt, t)) (λ _. then_run insert_run (λ _. after_inserts))

  verified-Runs :
      (env : Env)
      → Runs verified_run (
          query env target_summary >>= λ row.
          lift (verify_summary state row) >>= λ _. execute env (upsert_state state))
  verified-Runs env =
      Runs-bind (λ t. ok (target_summary t, t)) (λ row. then_run (verify_run row) (λ _. state_run))
        (query env target_summary) _ (Runs-query env target_summary)
        (λ row.
          Runs-bind (verify_run row) (λ _. state_run) (lift (verify_summary state row)) _
            (Runs-lift (verify_summary state row)) (λ _. Runs-execute env (upsert_state state)))

  digest-Runs :
      (env : Env) (row : GoldRowPayload)
      → Runs (record_run dataset_id digests row) (record_digest env dataset_id digests row)
  digest-Runs env row =
      Runs-bind (λ t. bind (or_key_error (at_time row.timestamp_m1 digests)) (λ s. ok (s, t)))
        (λ s. run_of (upsert_digest dataset_id row.timestamp_m1 s))
        (lift (or_key_error (at_time row.timestamp_m1 digests))) _
        (Runs-lift (or_key_error (at_time row.timestamp_m1 digests)))
        (λ s. Runs-execute env (upsert_digest dataset_id row.timestamp_m1 s))

  pub write_delta-Runs :
      (env : Env) → Runs delta_run (write_delta env dataset_id plan state digests)
  unfolding write_delta
  write_delta-Runs env =
      Runs-bind (λ t. ok (tt, t)) (λ _. then_run insert_run (λ _. after_inserts)) (call env) _
        (Runs-call env)
        (λ _.
          Runs-bind insert_run (λ _. after_inserts) (for_each _ plan.inserts) _
            (Runs-for_each _ _ plan.inserts (λ row. Runs-execute env (insert_row row)))
            (λ _.
              Runs-bind update_run (λ _. after_updates) (for_each _ plan.updates) _
                (Runs-for_each _ _ plan.updates (λ row. Runs-execute env (update_row row)))
                (λ _.
                  Runs-bind delete_run (λ _. after_deletes) (for_each _ plan.deletes) _
                    (Runs-for_each _ _ plan.deletes (λ time. Runs-execute env (delete_row time)))
                    (λ _.
                      Runs-bind digest_run (λ _. after_digests)
                        (for_each _ (plan.inserts ++ plan.updates)) _
                        (Runs-for_each _ _ (plan.inserts ++ plan.updates) (digest-Runs env))
                        (λ _.
                          Runs-bind forget_run (λ _. verified_run) (for_each _ plan.deletes) _
                            (Runs-for_each _ _ plan.deletes
                              (λ time. Runs-execute env (delete_digest dataset_id time)))
                            (λ _. verified-Runs env))))))
