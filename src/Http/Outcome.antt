-- ===== src/Http/Outcome.antt =====
-- ingestion/httpx_adapter.py: the ends that a send has, and what it does before.
use market_regime_loader.Prelude.{
  ℕ, zero, suc, ◌+◌, ◌<◌, ◌≤◌, ◌≡◌, ◌⊎◌, codes, Str, ◌++◌, ◌∷◌, [], Option, none, some, List,
}
use market_regime_loader.Prelude.Effects.{Exn, provider_http_error, overflow_error, external}
use market_regime_loader.Http.Delays.{IsShort, IsPace, Overflows}
use market_regime_loader.Http.{Floats, RetryPolicy, HttpResponse, Reply, World, parsed}

-- Too many requests, or an error of the server.
abbrev pub IsRetryable : ℕ → Type 0
IsRetryable status_code = (status_code ≡ 429) ⊎ (500 ≤ status_code) × (status_code < 600)

abbrev pub IsTransient : Reply → Type 0
IsTransient (Reply.response r) = IsRetryable r.status_code
IsTransient Reply.transport_error = Unit
IsTransient (Reply.broken n) = ⊥

-- The `k` replies from the `n`-th on are transient.
abbrev pub Transient : (ℕ → Reply) → ℕ → ℕ → Type 0
Transient client n zero = Unit
Transient client n (suc k) = IsTransient (client n) × Transient client (suc n) k

module _ {F : Type 0} (floats : Floats F) (p : RetryPolicy F)
    (header : Str → List (Str × Str) → Option Str) (as_dict : List (Str × Str) → List (Str × Str))
    (client : ℕ → Reply) (sleeper : ℕ → Option ℕ) where
  -- What a reply says about the delay after it: the number in its header.
  abbrev pub advice : Reply → Option F
  advice (Reply.response r) = parsed floats (header (codes "Retry-After") r.headers)
  advice Reply.transport_error = none
  advice (Reply.broken m) = none

  -- The sleeps after `k` replies, the first of them the one after `n` requests and of the attempt
  -- `first`, each in its pace, and not longer than the longest delay.
  abbrev pub Slept : ℕ → ℕ → ℕ → List F → Type 0
  Slept n first zero [] = Unit
  Slept n first zero (_ ∷ _) = ⊥
  Slept n first (suc k) [] = ⊥
  Slept n first (suc k) (d ∷ ds) =
      IsPace floats p first (advice (client n)) d
      × IsShort floats p d
      × Slept (suc n) (suc first) k ds

  -- Before the answer, there were `k` transient replies, and a sleep after each.
  abbrev pub Answered : ℕ → ℕ → ℕ → List F → HttpResponse → World F → Type 0
  Answered n left first before answer w =
      (k : ℕ) × (r : HttpResponse) × (ds : List F) × (k < left)
      × Transient client n k
      × (client (k + n) ≡ Reply.response r)
      × ¬ IsRetryable r.status_code
      × (answer ≡ record r { headers = as_dict r.headers })
      × (w.requests ≡ suc (k + n))
      × (w.sleeps ≡ before ++ ds)
      × Slept n first k ds

  -- Why an attempt with `after` more to come raises, where `i` requests came before its own, and how
  -- many sleeps it has.
  abbrev pub Cause : ℕ → ℕ → ℕ → ℕ → Exn → Type 0
  Cause own after i attempt e =
      (e ≡ provider_http_error) × (own ≡ 0) × (after ≡ 0) × IsTransient (client i)
      ⊎ (e ≡ overflow_error)
        × (own ≡ 0)
        × (0 < after)
        × IsTransient (client i)
        × Overflows floats p attempt (advice (client i))
      ⊎ ((m : ℕ) × (e ≡ external m)
          × (own ≡ 1)
          × (0 < after)
          × IsTransient (client i)
          × (sleeper (suc i) ≡ some m))
      ⊎ ((m : ℕ) × (e ≡ external m) × (own ≡ 0) × (client i ≡ Reply.broken m))

  -- The last attempt is the one after `k` transient replies with a sleep after each, and it raises.
  abbrev pub Failed : ℕ → ℕ → ℕ → List F → Exn → World F → Type 0
  Failed n left first before e w =
      (k : ℕ) × (after : ℕ) × (own : ℕ) × (ds : List F) × (k + suc after ≡ left)
      × Transient client n k
      × (w.requests ≡ suc (k + n))
      × Cause own after (k + n) (k + first) e
      × (w.sleeps ≡ before ++ ds)
      × Slept n first (k + own) ds
