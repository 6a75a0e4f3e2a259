-- ===== src/Postgres/Repository/Transaction.antt =====
-- What ingestion/postgres_gold_repository.py does with a connection, whose transaction is committed
-- as a whole or not at all.
use market_regime_loader.Prelude.{suc, ◌≡◌, refl, ◌∙◌, List, [], ◌∷◌}
use market_regime_loader.Prelude.Effects.{Exn, Result, ok, err, modify, lift, continue, bind, ◌>>=◌}
use market_regime_loader.Prelude.Hoare.{Post, Post-continue, Post-weaken}
use market_regime_loader.Postgres.Tables.{Tables, Statement, run_statement}
use market_regime_loader.Postgres.Repository.{
  Env, World, Action, finish, finally, call, with_cursor, execute, query, for_each,
}

-- The tables that a method without faults makes of those of the transaction.
abbrev pub Run : Type 0 → Type 0
Run A = Tables → Result (A × Tables)

abbrev pub then_run : {A B : Type 0} → Run A → (A → Run B) → Run B
then_run g h t = bind (g t) (λ (a, u). h a u)

abbrev pub Unchanged : World → Exn → World → Type 0
Unchanged w _ w' = w'.stored ≡ w.stored

abbrev pub Ran : {A : Type 0} → Run A → World → A → World → Type 0
Ran g w a w' = (g w.working ≡ ok (a, w'.working)) × (w'.stored ≡ w.stored)

-- A method that returns has done what `g` says, and what is committed stays as it is.
abbrev pub Runs : {A : Type 0} → Run A → Action A → Type 0
Runs g m = (w : World) → Post (Ran g w) (Unchanged w) (m w)

pub Runs-bind :
    {A B : Type 0} (g : Run A) (h : A → Run B) (m : Action A) (f : A → Action B)
    → Runs g m
    → ((a : A) → Runs (h a) (f a))
    → Runs (then_run g h) (m >>= f)
Runs-bind g h m f p q w =
    Post-continue f (m w) (p w)
      (λ a w1 r.
        Post-weaken (f a w1) (q a w1) (λ b w2 s. (rw r.0 s.0, s.1 ∙ r.1)) (λ e w2 s. s ∙ r.1))
      (λ e w1 r. r)

pub Runs-lift : {A : Type 0} (r : Result A) → Runs (λ t. bind r (λ a. ok (a, t))) (lift r)
Runs-lift (ok a) w = record { holds = (refl, refl) }
Runs-lift (err e) w = record { holds = refl }

abbrev pub each : {A : Type 0} → (A → Run (Unit {0})) → List A → Run (Unit {0})
each g [] t = ok (tt, t)
each g (x ∷ xs) t = bind (g x t) (λ (_, u). each g xs u)

pub Runs-for_each :
    {A : Type 0} (g : A → Run (Unit {0})) (f : A → Action Unit) (xs : List A)
    → ((x : A) → Runs (g x) (f x))
    → Runs (each g xs) (for_each f xs)
Runs-for_each g f [] h = λ w. record { holds = (refl, refl) }
Runs-for_each g f (x ∷ xs) h =
    Runs-bind (g x) (λ _. each g xs) (f x) (λ _. for_each f xs) (h x) (λ _. Runs-for_each g f xs h)

module _ (env : Env) where
  pub Runs-call : Runs (λ t. ok (tt, t)) (call env)
  Runs-call w = go (env.answer w.calls)
    where
      go :
          (r : Result (Unit {0}))
          → Post (Ran (λ t. ok (tt, t)) w) (Unchanged w) (r, record w { calls = suc w.calls })
      go (ok a) = record { holds = (refl, refl) }
      go (err e) = record { holds = refl }

  pub Runs-query :
      {A : Type 0} (select : Tables → A) → Runs (λ t. ok (select t, t)) (query env select)
  Runs-query {A} select =
      let fetch : Run A = λ t. ok (select t, t) in
      Runs-bind (λ t. ok (tt, t)) (λ _. fetch) (call env) _ Runs-call
        (λ _.
          Runs-bind (λ t. ok (tt, t)) (λ _. fetch) (call env) _ Runs-call
            (λ _ w. record { holds = (refl, refl) }))

  pub Runs-execute :
      (s : Statement) → Runs (λ t. bind (run_statement s t) (λ u. ok (tt, u))) (execute env s)
  Runs-execute s =
      Runs-bind (λ t. ok (tt, t)) (λ _ t. bind (run_statement s t) (λ u. ok (tt, u))) (call env) _
        Runs-call (λ _ w. go w (run_statement s w.working) refl)
    where
      go :
          (w : World) (r : Result Tables)
          → run_statement s w.working ≡ r
          → Post
              (Ran (λ t. bind (run_statement s t) (λ u. ok (tt, u))) w)
              (Unchanged w)
              (continue (λ u. modify (λ (w : World). record w { working = u })) (r, w))
      go w (ok u) e = record { holds = (rw e, refl) }
      go w (err x) e = record { holds = refl }

  Runs-finally : {A : Type 0} (g : Run A) (m : Action A) → Runs g m → Runs g (finally m (call env))
  Runs-finally {A} g m h w = go (m w) (h w)
    where
      go :
          (x : Result A × World)
          → Post (Ran g w) (Unchanged w) x
          → Post (Ran g w) (Unchanged w) (finish (call env) x)
      go (ok a, w1) p = closed (env.answer w1.calls)
        where
          closed :
              (r : Result (Unit {0}))
              → Post
                  (Ran g w)
                  (Unchanged w)
                  (continue (λ _. lift (ok a)) (r, record w1 { calls = suc w1.calls }))
          closed (ok _) = record { holds = p.holds }
          closed (err e) = record { holds = p.holds.1 }
      go (err e, w1) p = closed (env.answer w1.calls)
        where
          closed :
              (r : Result (Unit {0}))
              → Post
                  (Ran g w)
                  (Unchanged w)
                  (continue (λ _. lift (err e)) (r, record w1 { calls = suc w1.calls }))
          closed (ok _) = record { holds = p.holds }
          closed (err e) = record { holds = p.holds }

  pub Runs-with_cursor :
      {A : Type 0} (g : Run A) (m : Action A) → Runs g m → Runs g (with_cursor env m)
  Runs-with_cursor g m h =
      Runs-bind (λ t. ok (tt, t)) (λ _. g) (call env) _ Runs-call (λ _. Runs-finally g m h)
