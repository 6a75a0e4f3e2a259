-- ===== src/Http.antt =====
-- application/retry.py and ingestion/httpx_adapter.py: a request that is tried again a bounded number
-- of times.
--
-- What a `float` is and its operations are given, and so are the lookup of a header and the
-- dictionary of the headers. The client answers a request with a response, a transport error, or an
-- exception of another class, by the number of requests made so far; a sleep may raise.
pub mod Delays
pub mod Outcome
pub mod Bounds
mod Samples
use market_regime_loader.Prelude.{
  ℕ, zero, suc, ◌-◌, ℤ, below_one, to_nat, Str, codes, Bool, true, false, ◌&&◌, ◌||◌, not, Option,
  none, some, List, [], ◌∷◌, ◌++◌, ltb, leb, ◌==◌, if◌then◌else◌,
}
use market_regime_loader.Prelude.Effects.{
  Result, ok, err, value_error, provider_http_error, assertion_error, overflow_error, external,
  bind, refuse, ◌⨟◌, Exec, pure, raise, lift, ◌>>=◌, ◌>>◌,
}

pub record Floats (F : Type 0) : Type 0 where
  pub zero_seconds : F
  pub one : F
  pub lt : F → F → Bool
  pub le : F → F → Bool
  pub times : F → F → F
  -- none where Python raises `OverflowError`
  pub power : F → ℕ → Option F
  -- `float(text)`, none where Python raises `ValueError`
  pub of_text : Str → Option F

pub record RetryPolicy (F : Type 0) : Type 0 where
  pub max_attempts : ℤ
  pub initial_delay_seconds : F
  pub multiplier : F
  pub max_delay_seconds : F

-- `RetryPolicy.retryable_status`
unfoldable pub retryable_status : ℕ → Bool
retryable_status status_code = (status_code == 429) || (leb 500 status_code && leb status_code 599)

pub record HttpResponse : Type 0 where
  pub status_code : ℕ
  pub content : List ℕ
  pub headers : List (Str × Str)

-- What `Client.request` does, with the headers as httpx keeps them.
pub data Reply : Type 0 where
  response : HttpResponse → Reply
  transport_error : Reply
  broken : ℕ → Reply

pub record World (F : Type 0) : Type 0 where
  pub requests : ℕ
  pub sleeps : List F

abbrev pub Action : Type 0 → Type 0 → Type 0
Action F A = Exec (World F) A

module _ {F : Type 0} (floats : Floats F) where
  -- `RetryPolicy.__post_init__`
  unfoldable pub retry_policy : RetryPolicy F → Result (RetryPolicy F)
  retry_policy p =
      refuse (below_one p.max_attempts) value_error
      ⨟ refuse (floats.lt p.initial_delay_seconds floats.zero_seconds) value_error
      ⨟ refuse (floats.lt p.multiplier floats.one) value_error
      ⨟ refuse (floats.lt p.max_delay_seconds floats.zero_seconds) value_error
      ⨟ ok p

  -- `min(a, b)`
  abbrev pub smaller : F → F → F
  smaller a b = if floats.lt b a then b else a

  -- `value if value is not None and value >= 0 else None`
  abbrev pub not_negative : Option F → Option F
  not_negative none = none
  not_negative (some value) = if floats.le floats.zero_seconds value then some value else none

  abbrev pub exponential : RetryPolicy F → Option F → Result F
  exponential p none = err overflow_error
  exponential p (some factor) =
      ok (smaller (floats.times p.initial_delay_seconds factor) p.max_delay_seconds)

  abbrev pub delay : RetryPolicy F → ℕ → Option F → Result F
  delay p failed_attempt (some seconds) = ok (smaller seconds p.max_delay_seconds)
  delay p failed_attempt none = exponential p (floats.power p.multiplier (failed_attempt - 1))

  -- `RetryPolicy.delay_after`
  unfoldable pub delay_after : RetryPolicy F → ℕ → Option F → Result F
  delay_after p failed_attempt retry_after =
      refuse (ltb failed_attempt 1) value_error ⨟ delay p failed_attempt (not_negative retry_after)

  abbrev pub parsed : Option Str → Option F
  parsed none = none
  parsed (some raw) = floats.of_text raw

  module _ (header : Str → List (Str × Str) → Option Str) where
    -- `_retry_after_seconds`
    unfoldable pub retry_after_seconds : HttpResponse → Option F
    retry_after_seconds r = not_negative (parsed (header (codes "Retry-After") r.headers))

    module _ (as_dict : List (Str × Str) → List (Str × Str)) (client : ℕ → Reply)
        (sleeper : ℕ → Option ℕ) (p : RetryPolicy F) where
      abbrev pub request : Action F Reply
      request w = (ok (client w.requests), record w { requests = suc w.requests })

      abbrev pub slept : Option ℕ → Result (Unit {0})
      slept none = ok tt
      slept (some n) = err (external n)

      abbrev pub sleep : F → Action F Unit
      sleep seconds w = (slept (sleeper w.requests), record w { sleeps = w.sleeps ++ seconds ∷ [] })

      -- A failed attempt: it was the last one, or `again`, the rest of the loop, follows a sleep.
      unfoldable pub fail : ℕ → Option F → Action F HttpResponse → Action F HttpResponse
      unfolding delay_after
      fail attempt seconds again =
          if leb (to_nat p.max_attempts) attempt
          then raise provider_http_error
          else do delay ← lift (delay_after p attempt seconds); sleep delay; again

      unfoldable pub settle : ℕ → Action F HttpResponse → Reply → Action F HttpResponse
      unfolding fail retryable_status retry_after_seconds
      settle attempt again (broken n) = raise (external n)
      settle attempt again transport_error = fail attempt none again
      settle attempt again (response r) =
          if retryable_status r.status_code
          then fail attempt (retry_after_seconds r) again
          else pure (record r { headers = as_dict r.headers })

      -- `for attempt in range(attempt, max_attempts + 1)`, where `left` attempts are left
      unfoldable pub attempts : ℕ → ℕ → Action F HttpResponse
      unfolding settle
      attempts zero attempt = raise assertion_error
      attempts (suc left) attempt = do
        reply ← request
        settle attempt (attempts left (suc attempt)) reply

      -- `HttpxTransport.send`
      unfoldable pub send : Action F HttpResponse
      unfolding attempts
      send = attempts (to_nat p.max_attempts) 1
