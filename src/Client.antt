-- ===== src/Client.antt =====
-- `BinanceThClient.exchange_info` of binance_th/client.py: the cache, and the reseed of the
-- limiter. The lock changes nothing for one caller.
use binance_th.Prelude.{
  String, Bool, true, false, Option, none, some, [], refl, if◌then◌else◌, Option-cases, Bool-cases,
  inl, inr, ◌≡◌, arith,
}
use binance_th.Prelude.Json.{Json}
use binance_th.Errors.Exceptions.{ok}
use binance_th.Models.Base.{ExchangeInfo}
use binance_th.Transport.Pipeline.{Call, World, Env, Act, bind, parse, request}
use binance_th.Transport.Sent.{
  Reads, Grows-refl, bind_cases, bind-Reads, parse-Reads, request-Reads,
}
pub mod Lifecycle
mod Tests

abbrev pub exchange_info_call : Call
exchange_info_call = record {
  method = "GET";
  path = "/api/v1/exchangeInfo";
  params = [];
  signed = false;
  api_key_only = false;
  envelope = false;
  weight = 10;
  mutating = false;
  parse_json = true;
}

module _ {L : Type 0} (env : Env L) where
  unfoldable pub adopt : ExchangeInfo → Act L ExchangeInfo
  adopt info w = (
    ok info,
    record w { exchange_info_cache = some info; limiter = env.reseed info.rate_limits w.limiter },
  )

  unfoldable pub fetch_exchange_info : Act L ExchangeInfo
  unfolding adopt bind parse request
  fetch_exchange_info =
      bind (request env exchange_info_call) λ body. bind (parse env.exchange_info_of body) adopt

  unfoldable pub exchange_info : Bool → Act L ExchangeInfo
  unfolding fetch_exchange_info
  exchange_info force w = elim w.exchange_info_cache [
    | none ↦ fetch_exchange_info w
    | some info ↦ if force then fetch_exchange_info w else (ok info, w)
  ]

  fetch_exchange_info-Reads : Reads fetch_exchange_info
  unfolding fetch_exchange_info adopt
  fetch_exchange_info-Reads =
      bind-Reads (request env exchange_info_call)
        (λ body. bind (parse env.exchange_info_of body) adopt)
        (request-Reads env exchange_info_call refl)
        (λ body.
          bind-Reads (parse env.exchange_info_of body) adopt (parse-Reads env.exchange_info_of body)
            (λ info w. Grows-refl refl))

  pub exchange_info-Reads : (force : Bool) → Reads (exchange_info force)
  unfolding exchange_info
  exchange_info-Reads force w = elim (Option-cases w.exchange_info_cache) [
    | inl empty ↦ rw (empty, exchange_info) (fetch_exchange_info-Reads w)
    | inr (info, held) ↦ elim (Bool-cases force) [
      | inl forced ↦ rw (held, exchange_info, forced) (fetch_exchange_info-Reads w)
      | inr cached ↦ rw (held, exchange_info, cached) (Grows-refl refl)
    ]
  ]

  fetch_stores :
      (w : World L) (info : ExchangeInfo)
      → (fetch_exchange_info w).0 ≡ ok info
      → (fetch_exchange_info w).1.exchange_info_cache ≡ some info
  unfolding fetch_exchange_info adopt
  fetch_stores w info got =
      elim (bind_cases (request env exchange_info_call)
        (λ body. bind (parse env.exchange_info_of body) adopt) w) [
          | inl (body, done, h) ↦
              elim (bind_cases (parse env.exchange_info_of body) adopt
                (request env exchange_info_call w).1) [
                  | inl (i, parsed, k) ↦ ground (arith, h, k)
                  | inr (e, raised, k) ↦ absurd (ground (arith, h, k))
                ]
          | inr (e, raised, h) ↦ absurd (ground (arith, h))
        ]

  -- Once `exchange_info` has returned, the next call without `force` returns the same, sends
  -- nothing and changes nothing.
  pub exchange_info_cached :
      (force : Bool) (w : World L) (info : ExchangeInfo)
      → (exchange_info force w).0 ≡ ok info
      → exchange_info false (exchange_info force w).1 ≡ (ok info, (exchange_info force w).1)
  unfolding exchange_info
  exchange_info_cached force w info got = elim (Option-cases w.exchange_info_cache) [
    | inl empty ↦ ground (arith, fetch_stores w info, empty)
    | inr (i, held) ↦ elim (Bool-cases force) [
      | inl forced ↦ ground (arith, fetch_stores w info, held)
      | inr cached ↦ ground (arith, held)
    ]
  ]
