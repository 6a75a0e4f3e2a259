-- ===== src/Http/Bounds.antt =====
-- ingestion/httpx_adapter.py: how many requests a send makes, and how it ends.
use market_regime_loader.Prelude.{
  ℕ, zero, suc, ◌+◌, ◌<◌, ◌≡◌, refl, sym, ap, ◌∙◌, inl, inr, arith, Bool-cases, ℤ, pos, negsuc,
  below_one, to_nat, Str, ◌++◌, ◌∷◌, [], true, false, Option, none, some, List, leb,
}
use mathlib.Core.Path.{subst}
use mathlib.Core.List.{append-nil, append_assoc}
use market_regime_loader.Prelude.Effects.{Result, ok, value_error, refuse-eq-ok, continue}
use market_regime_loader.Prelude.Hoare.{Post, Post-weaken}
use market_regime_loader.Http.Delays.{IsShort, IsPace, Delayed, delay_after-Delayed}
use market_regime_loader.Http.Outcome.{
  IsRetryable, IsTransient, advice, Slept, Answered, Cause, Failed,
}
use market_regime_loader.Http.{
  slept, sleep, Floats, RetryPolicy, HttpResponse, Reply, World, Action, retryable_status,
  retry_policy, delay_after, retry_after_seconds, not_negative, fail, settle, attempts, send,
}

retryable_status-IsRetryable :
    (status_code : ℕ) → retryable_status status_code ≡ true → IsRetryable status_code
unfolding retryable_status
retryable_status-IsRetryable status_code h = ground arith

retryable_status-not :
    (status_code : ℕ) → retryable_status status_code ≡ false → IsRetryable status_code → ⊥
unfolding retryable_status
retryable_status-not status_code h k = ground arith

all_made : (m a : ℕ) → a + 1 ≡ m → leb m (suc a) ≡ true
all_made m a e = ground arith

some_left : (m a left : ℕ) → a + suc (suc left) ≡ m → leb m (suc a) ≡ false
some_left m a left e = ground arith

impossible : 0 < 0 → ⊥
impossible h = omega arith

below_one-to_nat : (i : ℤ) → below_one i ≡ false → (n : ℕ) × (to_nat i ≡ suc n)
below_one-to_nat (pos zero) h = cc
below_one-to_nat (pos (suc n)) h = (n, refl)
below_one-to_nat (negsuc _) h = cc

zero_more : (n : ℕ) → 0 + n ≡ n
zero_more n = omega arith

suc_plus : (k m : ℕ) → suc (k + m) ≡ suc k + m
suc_plus k m = omega arith

one_more : (k n : ℕ) → k + suc n ≡ suc k + n
one_more k n = omega arith

module _ {F : Type 0} (floats : Floats F) (p : RetryPolicy F)
    (same : floats.lt p.max_delay_seconds p.max_delay_seconds ≡ false) where
  module _ (header : Str → List (Str × Str) → Option Str)
      (as_dict : List (Str × Str) → List (Str × Str)) (client : ℕ → Reply)
      (sleeper : ℕ → Option ℕ) where
    abbrev Attempted : ℕ → ℕ → ℕ → List F → Result HttpResponse × World F → Type 0
    Attempted n left first before x =
        Post (Answered floats p header as_dict client sleeper n left first before)
          (Failed floats p header as_dict client sleeper n left first before) x

    -- What the rest of the attempts does, after a transient reply and a sleep.
    later :
        (n left first : ℕ) (before : List F) (d : F) (x : Result HttpResponse × World F)
        → IsTransient (client n)
        → IsPace floats p first (advice floats p header as_dict client sleeper (client n)) d
        → IsShort floats p d
        → Attempted (suc n) left (suc first) (before ++ d ∷ []) x
        → Attempted n (suc left) first before x
    later n left first before d x t delayed short h =
        Post-weaken x h
          (λ answer w (k, r, ds, less, transient, reply, last, same, count, sleeps, slept). (
            suc k,
            r,
            d ∷ ds,
            omega arith,
            (t, transient),
            subst (λ i. client i ≡ Reply.response r) (one_more k n) reply,
            last,
            same,
            count ∙ ap suc (one_more k n),
            sleeps ∙ append_assoc before (d ∷ []) ds,
            (delayed, short, slept),
          ))
          (λ e w (k, after, own, ds, all, transient, count, cause, sleeps, slept). (
            suc k,
            after,
            own,
            d ∷ ds,
            omega arith,
            (t, transient),
            count ∙ ap suc (one_more k n),
            subst (λ i. Cause floats p header as_dict client sleeper own after i (suc k + first) e)
                (one_more k n)
                (subst (λ j. Cause floats p header as_dict client sleeper own after (k + suc n) j e)
                  (one_more k first) cause),
            sleeps ∙ append_assoc before (d ∷ []) ds,
            subst (λ j. Slept floats p header as_dict client sleeper n first j (d ∷ ds))
                (suc_plus k own) (delayed, short, slept),
          ))

    module _ (n : ℕ) where
      sleep-then :
          IsTransient (client n)
          → (left first : ℕ) (d : F) (again : Action F HttpResponse) (w : World F)
          → IsPace floats p first (advice floats p header as_dict client sleeper (client n)) d
          → IsShort floats p d
          → 0 < left
          → w.requests ≡ suc n
          → ((w' : World F)
              → w'.requests ≡ suc n
              → Attempted (suc n) left (suc first) w'.sleeps (again w'))
          → Attempted n
              (suc left)
              first
              w.sleeps
              (continue (λ _. again) (sleep floats header as_dict client sleeper p d w))
      sleep-then t left first d again w delayed short some_left count h =
          go (sleeper w.requests) refl
        where
          go :
              (o : Option ℕ)
              → sleeper w.requests ≡ o
              → Attempted n (suc left) first w.sleeps (
                  continue
                    (λ _. again)
                    (
                      slept floats header as_dict client sleeper p o,
                      record w { sleeps = w.sleeps ++ d ∷ [] },
                    ))
          go none e = later n left first w.sleeps d _ t delayed short (h _ count)
          go (some m) e = record {
            holds = (
              0,
              left,
              1,
              d ∷ [],
              omega arith,
              tt,
              rw (zero_more n) count,
              rw (zero_more n, zero_more first)
                  (inr (
                    inr (
                      inl (m, refl, refl, some_left, t, subst (λ i. sleeper i ≡ some m) count e)))),
              refl,
              (delayed, short, tt),
            );
          }

      fail-Attempted :
          IsTransient (client n)
          → (a left : ℕ) (seconds : Option F) (again : Action F HttpResponse) (w : World F)
          → not_negative floats (advice floats p header as_dict client sleeper (client n)) ≡ seconds
          → a + suc left ≡ to_nat p.max_attempts
          → w.requests ≡ suc n
          → ((w' : World F)
              → 0 < left
              → w'.requests ≡ suc n
              → Attempted (suc n) left (suc (suc a)) w'.sleeps (again w'))
          → Attempted n
              (suc left)
              (suc a)
              w.sleeps
              (fail floats header as_dict client sleeper p (suc a) seconds again w)
      unfolding fail
      fail-Attempted t a zero seconds again w told total count h =
          rw (all_made (to_nat p.max_attempts) a total) record {
            holds = (
              0,
              0,
              0,
              [],
              omega arith,
              tt,
              rw (zero_more n) count,
              rw (zero_more n) (inl (refl, refl, refl, t)),
              sym (append-nil w.sleeps),
              tt,
            );
          }
      fail-Attempted t a (suc left) seconds again w told total count h =
          rw (some_left (to_nat p.max_attempts) a left total)
            (elim (subst
              (λ o.
                Delayed floats p same (suc a)
                  (advice floats p header as_dict client sleeper (client n))
                  (delay_after floats p (suc a) o))
              told
              (delay_after-Delayed floats p same a
                (advice floats p header as_dict client sleeper (client n)))) [
                  | inl (d, e, short, pace) ↦ rw e (
                      sleep-then t (suc left) (suc a) d again w pace short (omega arith) count
                        (λ w' same'. h w' (omega arith) same'))
                  | inr (e, over) ↦ rw e record {
                    holds = (
                      0,
                      suc left,
                      0,
                      [],
                      omega arith,
                      tt,
                      rw (zero_more n) count,
                      rw (zero_more n, zero_more (suc a))
                          (inr (inl (refl, refl, omega arith, t, over))),
                      sym (append-nil w.sleeps),
                      tt,
                    );
                  }
                ])

      settle-Attempted :
          (a left : ℕ) (reply : Reply) (again : Action F HttpResponse) (w : World F)
          → client n ≡ reply
          → a + suc left ≡ to_nat p.max_attempts
          → w.requests ≡ suc n
          → ((w' : World F)
              → 0 < left
              → w'.requests ≡ suc n
              → Attempted (suc n) left (suc (suc a)) w'.sleeps (again w'))
          → Attempted n
              (suc left)
              (suc a)
              w.sleeps
              (settle floats header as_dict client sleeper p (suc a) again reply w)
      unfolding settle retry_after_seconds
      settle-Attempted a left Reply.transport_error again w e total count h =
          fail-Attempted (rw e tt) a left none again w (rw e refl) total count h
      settle-Attempted a left (Reply.broken m) again w e total count h = record {
        holds = (
          0,
          left,
          0,
          [],
          omega arith,
          tt,
          rw (zero_more n) count,
          rw (zero_more n) (inr (inr (inr (m, refl, refl, e)))),
          sym (append-nil w.sleeps),
          tt,
        );
      }
      settle-Attempted a left (Reply.response r) again w e total count h =
          elim (Bool-cases (retryable_status r.status_code)) [
            | inl transient ↦ rw transient (
                fail-Attempted (rw e (retryable_status-IsRetryable r.status_code transient)) a left
                  _ again w (rw e refl) total count h)
            | inr last ↦ rw last record {
              holds = (
                0,
                r,
                [],
                omega arith,
                tt,
                rw (zero_more n) e,
                retryable_status-not r.status_code last,
                refl,
                omega arith,
                sym (append-nil w.sleeps),
                tt,
              );
            }
          ]

    attempts-Attempted :
        (left a : ℕ) (w : World F)
        → a + suc left ≡ to_nat p.max_attempts
        → Attempted w.requests
            (suc left)
            (suc a)
            w.sleeps
            (attempts floats header as_dict client sleeper p (suc left) (suc a) w)
    unfolding attempts
    attempts-Attempted zero a w total =
        settle-Attempted w.requests a zero (client w.requests) _ _ refl total refl
          (λ w' some. elim (impossible some) [ ])
    attempts-Attempted (suc left) a w total =
        settle-Attempted w.requests a (suc left) (client w.requests) _ _ refl total refl
          (λ w' _ count'.
            subst
              (λ n.
                Attempted n (suc left) (suc (suc a)) w'.sleeps
                  (attempts floats header as_dict client sleeper p (suc left) (suc (suc a)) w'))
              count' (attempts-Attempted left (suc a) w' (omega arith)))

    -- A send by a checked policy, of which the maximal delay is not below itself, makes at most
    -- `max_attempts` requests. It returns the first reply that is not transient, whose status is
    -- neither 429 nor from 500 to 599, or its last request came after transient replies only and it
    -- raises: `ProviderHttpError` if the reply is transient as well and there are no attempts left;
    -- `OverflowError` if it is transient, there are attempts left and the calculation of the delay
    -- raises it; what the sleeper raises, if it is transient and there are attempts left; or what the
    -- client raises. The loop never ends without a result. After each reply but the last one there is
    -- one sleep, and after the last one if the sleeper raises, of what its `Retry-After` header says, if it
    -- is a number and not negative, and else of the exponential delay of the attempt; both are cut to
    -- `max_delay_seconds`, and none is longer.
    pub send-Post :
        (w : World F)
        → retry_policy floats p ≡ ok p
        → Post
            (Answered floats p header as_dict client sleeper w.requests
              (to_nat p.max_attempts)
              1
              w.sleeps)
            (Failed floats p header as_dict client sleeper w.requests
              (to_nat p.max_attempts)
              1
              w.sleeps)
            (send floats header as_dict client sleeper p w)
    unfolding send retry_policy
    send-Post w valid =
        let (left, e) =
          below_one-to_nat p.max_attempts
            (refuse-eq-ok (below_one p.max_attempts) value_error _ valid).0 in
        rw e (attempts-Attempted left 0 w (omega arith))
