-- ===== src/Http/Samples.antt =====
-- A client that fails twice.
use market_regime_loader.Prelude.{
  ℕ, zero, suc, ◌*◌, ◌^◌, ◌≡◌, refl, pos, Str, str_eq, codes, leb, ltb, Option, none, some, List,
  [], ◌∷◌, if◌then◌else◌,
}
use market_regime_loader.Prelude.Effects.{ok}
use market_regime_loader.Prelude.Hoare.{Post}
use market_regime_loader.Http.{Floats, RetryPolicy, HttpResponse, Reply, World, retry_policy, send}
use market_regime_loader.Http.Outcome.{Answered, Failed}
use market_regime_loader.Http.Bounds.{send-Post}

abbrev seconds : Floats ℕ
seconds = record {
  zero_seconds = 0;
  one = 1;
  lt = ltb;
  le = leb;
  times = λ a b. a * b;
  power = λ a n. some (a ^ n);
  of_text = λ text. if str_eq text (codes "7") then some 7 else none;
}

abbrev policy : RetryPolicy ℕ
policy = record {
  max_attempts = pos 3;
  initial_delay_seconds = 2;
  multiplier = 2;
  max_delay_seconds = 5;
}

abbrev header : Str → List (Str × Str) → Option Str
header name [] = none
header name ((key, value) ∷ headers) =
    let rest = header name headers in if str_eq key name then some value else rest

abbrev busy : HttpResponse
busy = record { status_code = 503; content = []; headers = (codes "Retry-After", codes "7") ∷ [] }

abbrev page : HttpResponse
page = record { status_code = 200; content = 1 ∷ []; headers = [] }

abbrev client : ℕ → Reply
client zero = Reply.transport_error
client (suc zero) = Reply.response busy
client (suc (suc n)) = Reply.response page

abbrev fresh : World ℕ
fresh = record { requests = 0; sleeps = [] }

-- The first sleep is the exponential one, the second is cut to the longest one.
sent :
    send seconds header (λ headers. headers) client (λ n. none) policy fresh
    ≡ (ok page, record { requests = 3; sleeps = 2 ∷ 5 ∷ [] })
unfolding send str_eq
sent = refl

policy-checked : retry_policy seconds policy ≡ ok policy
unfolding retry_policy
policy-checked = refl

send-Post_example :
    Post
      (Answered seconds policy header (λ headers. headers) client (λ n. none) 0 3 1 [])
      (Failed seconds policy header (λ headers. headers) client (λ n. none) 0 3 1 [])
      (send seconds header (λ headers. headers) client (λ n. none) policy fresh)
send-Post_example =
    send-Post seconds policy refl header (λ headers. headers) client (λ n. none) fresh
      policy-checked
