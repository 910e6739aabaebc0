-- ===== src/Transport/Paced.antt =====
-- The pipeline of binance_th/transport.py with `DualWindowRateLimiter` of binance_th/ratelimit.py, for
-- requests one after another. The clock of the limiter is monotonic, and a sleep lasts at least as
-- long as it was asked to.
use binance_th.Prelude.{
  ℕ, zero, suc, ◌+◌, ◌≡◌, refl, ap, ◌∙◌, inl, inr, Bool, true, none, some, List, [], ◌∷◌, ◌==◌,
  length, arith, All, Bool-cases,
}
use binance_th.Config.{BinanceThConfig}
use binance_th.Errors.Mapping.{Headers}
use binance_th.Signing.{Params}
use binance_th.RateLimit.Limiter.{Windows, acquire_round, acquire_from, reseed}
use binance_th.RateLimit.Headers.{update_from_headers}
use binance_th.RateLimit.Counting.{Round}
use binance_th.RateLimit.Pacing.{HasDurations, second_round}
use binance_th.RateLimit.InOrder.{
  InOrder, admitted-InOrder, waiting-InOrder, answer-InOrder, later-InOrder,
}
use binance_th.RateLimit.History.{IsFresh, IsPaced, fresh-InOrder, InOrder-IsPaced}
use binance_th.Transport.Reply.{Reply, response, timed_out, failed}
use binance_th.Transport.Pipeline.{
  Request, Call, Entry, World, Env, request_of, learn, send, request,
}
use binance_th.Transport.Wiring.{RateLimiter, Parts, resolve_limiter, env_of}
use binance_th.Transport.Keeps.{Keeps, request-Keeps}

-- The limiter with the last reading of its clock, the number of readings, and the calls that it has
-- admitted, the latest first.
pub record Pacer : Type 0 where
  pub windows : Windows
  pub time : ℕ
  pub readings : ℕ
  pub admitted : List Round

-- `elapse n` is the time that passes up to the reading `n` of the clock, besides the sleeps.
module _ (elapse : ℕ → ℕ) where
  abbrev reading : Pacer → ℕ
  reading p = p.time + elapse p.readings

  -- What the clock shows in the rounds of one `acquire`.
  abbrev round_time : ℕ → Bool → Pacer → ℕ → ℕ
  round_time weight mutating p zero = reading p
  round_time weight mutating p (suc i) =
      reading p
      + (acquire_round (reading p) weight mutating p.windows).1
      + elapse (suc p.readings)
      + i

  -- `acquire`
  unfoldable pub paced_acquire : ℕ → Bool → Pacer → Pacer
  paced_acquire weight mutating p =
      elim (acquire_from (round_time weight mutating p) (λ _ d. d) weight mutating 2 0 p.windows) [
        | none ↦ p
        | some (d, i) ↦ record {
          windows = d;
          time = round_time weight mutating p i;
          readings = suc i + p.readings;
          admitted = (round_time weight mutating p i, weight, mutating) ∷ p.admitted;
        }
      ]

  unfoldable pub paced_headers : Headers → Pacer → Pacer
  paced_headers headers p = record p {
    windows = update_from_headers (reading p) headers p.windows;
    time = reading p;
    readings = suc p.readings;
  }

  -- `DualWindowRateLimiter` as a `RateLimiter`.
  abbrev pub dual_limiter : RateLimiter Pacer
  dual_limiter = record {
    acquire = paced_acquire;
    update_from_headers = paced_headers;
    reseed = λ rules p. record p { windows = reseed rules p.windows };
  }

  -- The windows are in order, and as many calls were admitted as requests were sent.
  abbrev IsOrderly : Pacer → List Entry → Type 0
  IsOrderly p sent = All (InOrder p.time p.admitted) p.windows × (length p.admitted ≡ length sent)

  InOrder-HasDurations :
      (last : ℕ) (log : List Round) (d : Windows) → All (InOrder last log) d → HasDurations d
  InOrder-HasDurations last log [] h = tt
  InOrder-HasDurations last log (e ∷ d) h = (h.0.0, InOrder-HasDurations last log d h.1)

  -- A call is admitted in the first round or in the second.
  acquire_cases :
      (weight : ℕ) (mutating : Bool) (p : Pacer)
      → All (InOrder p.time p.admitted) p.windows
      → (d : Windows) × (i : ℕ) × (acquire_from
            (round_time weight mutating p)
            (λ _ d. d)
            weight
            mutating
            2
            0
            p.windows
          ≡ some (d, i))
        × All
            (InOrder
              (round_time weight mutating p i)
              ((round_time weight mutating p i, weight, mutating) ∷ p.admitted))
            d
  unfolding acquire_from
  acquire_cases weight mutating p h =
      let now = reading p in
      let first = acquire_round now weight mutating p.windows in
      let later = round_time weight mutating p 1 in
      let second = acquire_round later weight mutating first.0 in
      elim (Bool-cases (first.1 == 0)) [
        | inl free ↦ (
          first.0,
          0,
          ground arith,
          admitted-InOrder p.time now weight mutating p.windows p.admitted (omega arith)
              (ground arith) h,
        )
        | inr busy ↦
            let free : second.1 ≡ 0 =
              second_round now later weight mutating p.windows
                (InOrder-HasDurations p.time p.admitted p.windows h) (omega arith) busy in
            (
              second.0,
              1,
              ground arith,
              admitted-InOrder now later weight mutating first.0 p.admitted (omega arith) free (
                  waiting-InOrder p.time now weight mutating p.windows p.admitted (omega arith) busy
                    h),
            )
      ]

  acquire-InOrder :
      (weight : ℕ) (mutating : Bool) (p : Pacer)
      → All (InOrder p.time p.admitted) p.windows
      → let p' = paced_acquire weight mutating p in
        All (InOrder p'.time p'.admitted) p'.windows
        × (length p'.admitted ≡ suc (length p.admitted))
  unfolding paced_acquire
  acquire-InOrder weight mutating p h =
      let (d, i, found, order) = acquire_cases weight mutating p h in
      rw (found, paced_acquire) (order, refl)

  headers-InOrder :
      (headers : Headers) (p : Pacer)
      → All (InOrder p.time p.admitted) p.windows
      → let p' = paced_headers headers p in All (InOrder p'.time p'.admitted) p'.windows
  unfolding paced_headers
  headers-InOrder headers p h =
      answer-InOrder (reading p) p.admitted headers p.windows
        (later-InOrder p.time (reading p) p.admitted p.windows (omega arith) h)

  admitted-headers :
      (headers : Headers) (p : Pacer) → (paced_headers headers p).admitted ≡ p.admitted
  unfolding paced_headers
  admitted-headers headers p = refl

  -- The limiter of a transport is the dual-window one.
  abbrev IsDual : Env Pacer → Type 0
  IsDual env = (env.acquire ≡ paced_acquire) × (env.update_from_headers ≡ paced_headers)

  learn-IsOrderly :
      (env : Env Pacer) (reply : Reply) (r : Request) (p : Pacer) (sent : List Entry)
      → IsDual env
      → All (InOrder p.time p.admitted) p.windows
      → length p.admitted ≡ suc (length sent)
      → IsOrderly (learn env reply p) ((r, reply) ∷ sent)
  learn-IsOrderly env (response a) r p sent dual order count =
      rw dual.1
        (headers-InOrder a.headers p order, ap length (admitted-headers a.headers p) ∙ count)
  learn-IsOrderly env (timed_out e) r p sent dual order count = (order, count)
  learn-IsOrderly env (failed e) r p sent dual order count = (order, count)

  send-IsOrderly :
      (env : Env Pacer) (c : Call) (params : Params)
      → IsDual env
      → Keeps IsOrderly (send env c params)
  unfolding send
  send-IsOrderly env c params dual w (order, count) =
      let (order', count') = acquire-InOrder c.weight c.mutating w.limiter order in
      learn-IsOrderly env (env.http w.sent (request_of env c params)) (request_of env c params)
        (env.acquire c.weight c.mutating w.limiter) w.sent dual (rw dual.0 order')
        (rw dual.0 (count' ∙ ap suc count))

  request-IsOrderly : (env : Env Pacer) (c : Call) → IsDual env → Keeps IsOrderly (request env c)
  request-IsOrderly env c dual =
      request-Keeps env IsOrderly (λ c. Unit) tt
        (λ c params t carries. send-IsOrderly env c params dual) c tt

  -- A transport without a limiter of the caller, when rate limiting is enabled.
  env_of-IsDual :
      (c : BinanceThConfig) (p : Parts Pacer)
      → c.enable_rate_limiting ≡ true
      → IsDual (env_of c (record p { limiter = none; dual = dual_limiter }))
  unfolding env_of resolve_limiter
  env_of-IsDual c p enabled =
      (rw (enabled, resolve_limiter) refl, rw (enabled, resolve_limiter) refl)

  -- Requests one after another, whether they raise or not.
  unfoldable pub requests : Env Pacer → List Call → World Pacer → World Pacer
  requests env [] w = w
  requests env (c ∷ calls) w = requests env calls (request env c w).1

  requests-IsOrderly :
      (env : Env Pacer) (calls : List Call) (w : World Pacer)
      → IsDual env
      → IsOrderly w.limiter w.sent
      → IsOrderly (requests env calls w).limiter (requests env calls w).sent
  unfolding requests
  requests-IsOrderly env [] w dual h = h
  requests-IsOrderly env (c ∷ calls) w dual h =
      requests-IsOrderly env calls (request env c w).1 dual (request-IsOrderly env c dual w h)

  -- A transport that the settings make with rate limiting, whose limiter has counted nothing in
  -- windows with positive intervals, sends in any requests one after another exactly as many as the
  -- limiter has admitted, whatever their retries, their syncs of the clock and the replies. The
  -- charges of these admissions since the start of a window's running interval do not exceed its
  -- limit, unless they are all those of one of these requests. The limiter's clock does not run back, and its
  -- sleeps last as long as asked.
  pub requests-IsPaced :
      (c : BinanceThConfig) (p : Parts Pacer) (calls : List Call) (w : World Pacer)
      → c.enable_rate_limiting ≡ true
      → All IsFresh w.limiter.windows
      → w.limiter.admitted ≡ []
      → w.sent ≡ []
      → let w' = requests (env_of c (record p { limiter = none; dual = dual_limiter })) calls w in
        All (IsPaced w'.limiter.admitted) w'.limiter.windows
        × (length w'.limiter.admitted ≡ length w'.sent)
  requests-IsPaced c p calls w enabled fresh unadmitted unsent =
      let env = env_of c (record p { limiter = none; dual = dual_limiter }) in
      let start : IsOrderly w.limiter w.sent =
        rw (unadmitted, unsent) (fresh-InOrder w.limiter.time w.limiter.windows fresh, refl) in
      let (order, count) = requests-IsOrderly env calls w (env_of-IsDual c p enabled) start in
      let l = (requests env calls w).limiter in
      (InOrder-IsPaced l.time l.admitted l.windows order, count)
