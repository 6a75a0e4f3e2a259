-- ===== src/Postgres/Repository/Session.antt =====
-- ingestion/postgres_gold_repository.py: a connection from its opening to its end, with the handlers
-- that hide what went wrong.
use market_regime_loader.Prelude.{suc, ◌≡◌, refl, sym, ap, ◌∙◌, ◌⊎◌, inl, inr, Bool-cases}
use market_regime_loader.Prelude.Effects.{
  Exn, Result, ok, err, pure, raise, lift, continue, is_exception, ◌>>=◌, repository_error,
}
use market_regime_loader.Prelude.Hoare.{Post, Post-continue, Post-recover, Post-weaken}
use market_regime_loader.Postgres.Tables.{Tables}
use market_regime_loader.Postgres.Repository.{
  Env, World, Action, CommitOutcome, refused, lost, finish, sanitized, call, commit_as, commit,
  rollback, with_cursor, open_connection, with_connection,
}
use market_regime_loader.Postgres.Repository.Transaction.{Run, Runs, Runs-call, Runs-with_cursor}

-- What holds of the committed tables in the end.
abbrev pub Stores :
    {A : Type 0} → (A → Tables → Type 0) → (Tables → Type 0) → Result A × World → Type 0
Stores Q E x = Post (λ a w. Q a w.stored) (λ _ w. E w.stored) x

sanitized-Stores :
    {A : Type 0} (Q : A → Tables → Type 0) (E : Tables → Type 0) (handler : Action Unit) (e : Exn)
    (w : World)
    → Stores (λ _ t. E t) E (handler w)
    → E w.stored
    → Stores Q E (sanitized {A = A} handler e w)
sanitized-Stores Q E handler e w h there = elim (Bool-cases (is_exception e)) [
  | inl caught ↦ rw caught (
      Post-continue (λ _. raise repository_error) (handler w) h (λ _ s k. record { holds = k })
        (λ _ s k. k))
  | inr passed ↦ rw passed (record { holds = there })
]

module _ (env : Env) where
  call-Stores : (E : Tables → Type 0) (w : World) → E w.stored → Stores (λ _ t. E t) E (call env w)
  call-Stores E w h = go (env.answer w.calls)
    where
      go : (r : Result (Unit {0})) → Stores (λ _ t. E t) E (r, record w { calls = suc w.calls })
      go (ok a) = record { holds = h }
      go (err e) = record { holds = h }

  closed-Stores :
      {A : Type 0} (Q : A → Tables → Type 0) (E : Tables → Type 0) (x : Result A × World)
      → ((a : A) (t : Tables) → Q a t → E t)
      → Stores Q E x
      → Stores Q E (finish (call env) x)
  closed-Stores {A} Q E (ok a, w) k h = go (env.answer w.calls)
    where
      go :
          (r : Result (Unit {0}))
          → Stores Q E (continue (λ _. lift (ok a)) (r, record w { calls = suc w.calls }))
      go (ok _) = record { holds = h.holds }
      go (err e) = record { holds = k a w.stored h.holds }
  closed-Stores {A} Q E (err x, w) k h = go (env.answer w.calls)
    where
      go :
          (r : Result (Unit {0}))
          → Stores Q E (continue (λ _. lift (err x)) (r, record w { calls = suc w.calls }))
      go (ok _) = record { holds = h.holds }
      go (err e) = record { holds = h.holds }

  open_connection-Post :
      (w : World)
      → Post
          (λ _ w'. (w'.working ≡ w.stored) × (w'.stored ≡ w.stored))
          (λ _ w'. w'.stored ≡ w.stored)
          (open_connection env w)
  unfolding open_connection
  open_connection-Post w =
      let same : Run (Unit {0}) = λ t. ok (tt, t) in
      Post-recover (sanitized (pure tt)) _
        (Post-continue _ (call env w) (Runs-call env w)
          (λ _ w1 r.
            Post-continue _ (with_cursor env (call env) w1)
              (Runs-with_cursor env same (call env) (Runs-call env) w1)
              (λ _ w2 q. record { holds = (q.1 ∙ r.1, q.1 ∙ r.1) }) (λ _ w2 q. q ∙ r.1))
          (λ _ w1 r. r))
        (λ _ w1 r. r)
        (λ e w1 r.
          Post-weaken _
            (sanitized-Stores (λ _ _. ⊥) (λ t. t ≡ w.stored) (pure tt) e w1 (record { holds = r })
              r)
            (λ _ _. elim [ ]) (λ _ _ k. k))

  commit-Stores :
      (E : Tables → Type 0) (w : World)
      → E w.stored
      → E w.working
      → Stores (λ _ t. t ≡ w.working) E (commit env w)
  commit-Stores E w before after = go (env.commit w.calls)
    where
      go :
          (outcome : CommitOutcome)
          → Stores
              (λ _ t. t ≡ w.working)
              E
              (commit_as env outcome (record w { calls = suc w.calls }))
      go CommitOutcome.committed = record { holds = refl }
      go (refused e) = record { holds = before }
      go (lost e) = record { holds = after }

  rollback-Stores :
      (E : Tables → Type 0) (w : World) → E w.stored → Stores (λ _ t. E t) E (rollback env w)
  rollback-Stores E w h = call-Stores E (record w { working = w.stored }) h

  -- A transaction returns with the tables that `g` makes committed, and raises with those or with
  -- the tables of before.
  pub transaction-Post :
      (g : Run (Unit {0})) (m : Action Unit) (w : World)
      → Runs g m
      → Stores
          (λ _ t. g w.stored ≡ ok (tt, t))
          (λ t. (t ≡ w.stored) ⊎ (g w.stored ≡ ok (tt, t)))
          (with_connection env (m >>= λ _. commit env) (rollback env) w)
  transaction-Post g m w h =
      let Done : Tables → Type 0 = λ t. g w.stored ≡ ok (tt, t) in
      let Kept : Tables → Type 0 = λ t. (t ≡ w.stored) ⊎ (g w.stored ≡ ok (tt, t)) in
      Post-continue _ (open_connection env w) (open_connection-Post w)
        (λ _ w1 opened.
          closed-Stores (λ _ t. Done t) Kept _ (λ _ _. inr)
            (Post-recover {R = λ _ w. Done w.stored} (sanitized (rollback env)) _
              (Post-continue {R = λ _ w. Done w.stored} {F = λ _ w. Kept w.stored} (λ _. commit env)
                (m w1) (h w1)
                (λ _ w2 ran.
                  let done : Done w2.working = ap g (sym opened.0) ∙ ran.0 in
                  Post-weaken (commit env w2)
                    (commit-Stores Kept w2 (inl (ran.1 ∙ opened.1)) (inr done))
                    (λ _ w3 e. rw e done) (λ _ _ k. k))
                (λ _ w2 same. inl (same ∙ opened.1)))
              (λ _ w2 k. k)
              (λ e w2 k.
                sanitized-Stores (λ _ t. Done t) Kept (rollback env) e w2
                  (rollback-Stores Kept w2 k) k)))
        (λ _ w1 same. inl same)

  -- A read returns what it finds in the committed tables, and changes nothing.
  pub reading-Post :
      {A : Type 0} (g : Run A) (m : Action A) (w : World)
      → Runs g m
      → Stores
          (λ a t. ((u : Tables) × (g w.stored ≡ ok (a, u))) × (t ≡ w.stored))
          (λ t. t ≡ w.stored)
          (with_connection env m (pure tt) w)
  reading-Post {A} g m w h =
      let Read : A → Tables → Type 0 =
        λ a t. ((u : Tables) × (g w.stored ≡ ok (a, u))) × (t ≡ w.stored) in
      let Same : Tables → Type 0 = λ t. t ≡ w.stored in
      Post-continue _ (open_connection env w) (open_connection-Post w)
        (λ _ w1 opened.
          closed-Stores Read Same _ (λ _ _ r. r.1)
            (Post-recover {R = λ a w. Read a w.stored} (sanitized (pure tt)) (m w1) (h w1)
              (λ a w2 ran. ((w2.working, ap g (sym opened.0) ∙ ran.0), ran.1 ∙ opened.1))
              (λ e w2 same.
                sanitized-Stores Read Same (pure tt) e w2 (record { holds = same ∙ opened.1 })
                  (same ∙ opened.1))))
        (λ _ w1 same. same)
