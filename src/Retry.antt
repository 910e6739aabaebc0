-- ===== src/Retry.antt =====
-- binance_th/retry.py. Delays are milliseconds. An attempt takes the state of the world and gives a
-- result with the state after it.
use binance_th.Prelude.{
  ℕ, zero, suc, ◌+◌, ◌*◌, ◌^◌, ◌≡◌, refl, ◌⊎◌, inl, inr, Bool, true, false, Option, none, some, min,
  not, ltb, ◌-◌, if◌then◌else◌,
}
use binance_th.Prelude.Int.{ℤ, pos, negsuc, sub_ℕ}
use binance_th.Errors.Exceptions.{
  ApiError, Error, api_error, network_error, timeout_error, web_socket_error, validation_error,
  order_unknown, foreign, Result, ok, raise, Result-cases,
}
mod Tests

-- The schedule: `base`, `factor`, `cap`, and the generator that draws from [0, ceiling].
pub record Backoff : Type 0 where
  pub base : ℕ
  pub factor : ℕ
  pub cap : ℕ
  pub jitter : ℕ → ℕ

-- `BackoffRetryer()`'s numbers.
abbrev pub default_backoff : (ℕ → ℕ) → Backoff
default_backoff jitter = record { base = 500; factor = 2; cap = 8000; jitter = jitter }

-- `getattr(exc, "retry_after", None)`, in seconds.
abbrev pub retry_after_of : Error → Option ℤ
retry_after_of (api_error e) = e.retry_after
retry_after_of _ = none

abbrev pub milliseconds : ℤ → ℤ
milliseconds (pos n) = pos (n * 1000)
milliseconds (negsuc n) = sub_ℕ 0 ((n + 1) * 1000)

-- The least whole number that is too large for a float.
abbrev pub float_limit : ℕ
float_limit = 2 ^ 1024 - 2 ^ 970

-- `_delay`, with `none` for the `OverflowError` of `factor**attempt`.
unfoldable pub delay : Backoff → Error → ℕ → Option ℤ
delay b e attempt = elim (retry_after_of e) [
  | some seconds ↦ some (milliseconds seconds)
  | none ↦
      if ltb (b.factor ^ attempt) float_limit
      then some (pos (b.jitter (min b.cap (b.base * b.factor ^ attempt))))
      else none
]

abbrev pub overflow : Error
overflow = foreign "OverflowError"

module _ {A W : Type 0} (b : Backoff) (sleep : ℤ → W → W) (fn : W → Result A × W)
    (retryable : Error → Bool) where
  -- The loop of `run`, with `left` for `max_retries - attempt`.
  unfoldable pub run_from : ℕ → ℕ → W → Result A × W
  unfolding delay
  run_from zero attempt w = fn w
  run_from (suc left) attempt w = elim (fn w).0 [
    | ok a ↦ (ok a, (fn w).1)
    | raise e ↦ elim (retryable e) [
      | false ↦ (raise e, (fn w).1)
      | true ↦ elim (delay b e attempt) [
        | none ↦ (raise overflow, (fn w).1)
        | some d ↦ run_from left (suc attempt) (sleep d (fn w).1)
      ]
    ]
  ]

  -- `BackoffRetryer.run`
  unfoldable pub run : ℕ → W → Result A × W
  unfolding run_from
  run max_retries w = run_from max_retries 0 w

  -- `n` attempts from `w` on, each of which fails with an error that is retried, and the sleeps
  -- after them, lead to `w'`.
  abbrev pub Retried : ℕ → ℕ → W → W → Type 0
  Retried zero attempt w w' = w ≡ w'
  Retried (suc n) attempt w w' =
      (e : Error) × ((fn w).0 ≡ raise e)
      × (retryable e ≡ true)
      × (d : ℤ) × (delay b e attempt ≡ some d)
      × Retried n (suc attempt) (sleep d (fn w).1) w'

  -- A result that is not retried.
  abbrev pub IsFinal : Result A → Type 0
  IsFinal (ok a) = Unit
  IsFinal (raise e) = retryable e ≡ false

  -- An attempt whose result is not retried: a last one, or one whose result is final.
  abbrev pub Ends : ℕ → ℕ → W → Result A × W → Type 0
  Ends left n w' r = (r ≡ fn w') × (IsFinal (fn w').0 ⊎ (n ≡ left))

  -- A failure that would be retried, were its delay not too large for a float.
  abbrev pub Overflows : ℕ → W → Result A × W → Type 0
  Overflows attempt w' r =
      (e : Error) × ((fn w').0 ≡ raise e)
      × (retryable e ≡ true)
      × (delay b e attempt ≡ none)
      × (r ≡ (raise overflow, (fn w').1))

  run_from-never :
      (left attempt : ℕ) (w : W)
      → ((e : Error) → retryable e ≡ false)
      → run_from left attempt w ≡ fn w
  unfolding run_from
  run_from-never zero attempt w never = refl
  run_from-never (suc left) attempt w never = elim (Result-cases (fn w).0) [
    | inl (a, h) ↦ rw (h, run_from) refl
    | inr (e, h) ↦ rw (h, run_from, never e) refl
  ]

  -- Where no error is retryable, `run` is the one call.
  pub run-never :
      (max_retries : ℕ) (w : W) → ((e : Error) → retryable e ≡ false) → run max_retries w ≡ fn w
  unfolding run
  run-never max_retries w never = run_from-never max_retries 0 w never
