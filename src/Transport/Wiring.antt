-- ===== src/Transport/Wiring.antt =====
-- How `Transport.__init__` of binance_th/transport.py chooses the limiter and the retryer from the
-- settings, and the two that do nothing.
use binance_th.Prelude.{
  ℕ, ◌≡◌, refl, inl, inr, Bool, Option, none, some, List, ltb, if◌then◌else◌, arith, String,
  Bool-cases,
}
use binance_th.Prelude.Int.{ℤ, pos}
use binance_th.Prelude.Json.{Json}
use binance_th.Config.{BinanceThConfig, has_credentials}
use binance_th.Errors.Exceptions.{Error, Result}
use binance_th.Errors.Mapping.{Headers}
use binance_th.Models.Base.{RateLimit, ExchangeInfo}
use binance_th.Models.Orders.{Order}
use binance_th.Retry.{Backoff, run_from, run}
use binance_th.Transport.Reply.{Reply}
use binance_th.Transport.Pipeline.{Request, Entry, Env, can_sign, sleep}

-- The protocol `RateLimiter`, over the state `L`.
pub record RateLimiter (L : Type 0) : Type 0 where
  pub acquire : ℕ → Bool → L → L
  pub update_from_headers : Headers → L → L
  pub reseed : List RateLimit → L → L

-- `NullRateLimiter`
abbrev pub null_rate_limiter : {L : Type 0} → RateLimiter L
null_rate_limiter = record {
  acquire = λ weight mutating l. l;
  update_from_headers = λ headers l. l;
  reseed = λ rules l. l;
}

-- `_resolve_limiter`; the last argument is `DualWindowRateLimiter`.
unfoldable pub resolve_limiter :
    {L : Type 0} → Option (RateLimiter L) → BinanceThConfig → RateLimiter L → RateLimiter L
resolve_limiter (some limiter) config dual = limiter
resolve_limiter none config dual = if config.enable_rate_limiting then dual else null_rate_limiter

-- A retryer: `NullRetryer`, or `BackoffRetryer` with its schedule.
pub data Retryer : Type 0 where
  null_retryer : Retryer
  backoff_retryer : Backoff → Retryer

-- `_resolve_retryer`; the last argument is `BackoffRetryer()`.
unfoldable pub resolve_retryer : Option Retryer → BinanceThConfig → Backoff → Retryer
resolve_retryer (some retryer) config b = retryer
resolve_retryer none config b = if ltb 0 config.max_retries then backoff_retryer b else null_retryer

-- `Retryer.run`
unfoldable pub run_with :
    {W A : Type 0}
    → Retryer
    → (ℤ → W → W)
    → (W → Result A × W)
    → (Error → Bool)
    → ℕ
    → W
    → Result A × W
unfolding run
run_with null_retryer sleep fn retryable max_retries w = fn w
run_with (backoff_retryer b) sleep fn retryable max_retries w =
    run b sleep fn retryable max_retries w

-- What a transport has that is not a setting.
pub record Parts (L : Type 0) : Type 0 where
  pub limiter : Option (RateLimiter L)
  pub dual : RateLimiter L
  pub backoff : Backoff
  pub hmac : String → String → String
  pub clock : ℕ → ℤ
  pub http : List Entry → Request → Reply
  pub server_time : Json → Option ℤ
  pub exchange_info_of : Json → Option ExchangeInfo
  pub order_of : Json → Option Order

-- `Transport.__init__` with no signer, clock or retryer injected.
unfoldable pub env_of : {L : Type 0} → BinanceThConfig → Parts L → Env L
unfolding resolve_limiter
env_of c p =
    let limiter = resolve_limiter p.limiter c p.dual in
    record {
      api_key = c.api_key;
      api_secret = c.api_secret;
      recv_window = pos c.recv_window;
      max_retries = c.max_retries;
      backoff = p.backoff;
      acquire = limiter.acquire;
      update_from_headers = limiter.update_from_headers;
      hmac = p.hmac;
      clock = p.clock;
      http = p.http;
      server_time = p.server_time;
      exchange_info_of = p.exchange_info_of;
      order_of = p.order_of;
      reseed = limiter.reseed;
    }

-- The retryer that the settings choose runs as `BackoffRetryer` does with their `max_retries`: for
-- 0 the null retryer is the same.
pub resolve_retryer-run :
    {W A : Type 0} (c : BinanceThConfig) (b : Backoff) (sleep : ℤ → W → W) (fn : W → Result A × W)
    (retryable : Error → Bool) (w : W)
    → run_with (resolve_retryer none c b) sleep fn retryable c.max_retries w
      ≡ run b sleep fn retryable c.max_retries w
unfolding resolve_retryer run_with run run_from
resolve_retryer-run c b sleep fn retryable w = elim (Bool-cases (ltb 0 c.max_retries)) [
  | inl more ↦ rw (more, resolve_retryer) refl
  | inr none_left ↦
      let e : c.max_retries ≡ 0 = ground arith in rw (none_left, resolve_retryer, e, run_from) refl
]

module _ {L : Type 0} (c : BinanceThConfig) (p : Parts L) where
  -- A transport can sign exactly if the settings have both credentials.
  can_sign-env_of : can_sign (env_of c p) ≡ has_credentials c
  unfolding has_credentials env_of
  can_sign-env_of = ground arith
