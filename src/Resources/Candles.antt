-- ===== src/Resources/Candles.antt =====
-- What `MarketClient.iter_klines` of binance_th/market.py yields.
use binance_th.Prelude.{
  ℕ, suc, String, ◌+◌, ◌≤◌, ◌<◌, ◌≡◌, ◌≢◌, refl, inl, inr, none, some, List, [], ◌∷◌, ◌==◌, length,
  take, arith, All, Bool-cases, ℕ_discrete,
}
use binance_th.Prelude.Int.{ℤ, pos, pos_part}
use binance_th.Prelude.Json.{Json}
use binance_th.Errors.Exceptions.{Result, ok}
use binance_th.Models.Base.{Decimal}
use binance_th.Models.Trades.{Kline}
use binance_th.Transport.Pipeline.{World, Env}
use binance_th.Pagination.{ids_at, iter_time_windows}
use binance_th.Pagination.Rows.{Ascending, Distinct, from, before_end}
use binance_th.Pagination.Pages.{All-map}
use binance_th.Pagination.Complete.{iter_time_windows_complete}
use binance_th.Resources.Iterate.{iterate-windows}
use binance_th.Resources.Histories.{klines, iter_klines}

abbrev pub opened : Kline → ℕ
opened k = pos_part k.open_time

-- Each candle opens after those before it.
abbrev pub Rising : List Kline → Type 0
Rising [] = Unit
Rising (k ∷ ks) = All (λ q. opened k < opened q) ks × Rising ks

-- The candles that open in a range.
abbrev pub candles_from : ℕ → ℕ → List Kline → List Kline
candles_from end_time s ks = from ℕ_discrete opened opened end_time s ks

abbrev pub candles_between : ℕ → ℕ → List Kline → List Kline
candles_between s end_time ks =
    before_end ℕ_discrete opened opened end_time (candles_from end_time s ks)

module _ (end_time : ℕ) where
  Rising-Ascending : (ks : List Kline) → Rising ks → Ascending ℕ_discrete opened opened end_time ks
  Rising-Ascending [] h = tt
  Rising-Ascending (k ∷ ks) h = (
    All-map (λ q. opened k < opened q) (λ q. opened k ≤ opened q) (λ q g. omega arith) ks h.0,
    Rising-Ascending ks h.1,
  )

  Rising-Distinct : (ks : List Kline) → Rising ks → Distinct ℕ_discrete opened opened end_time ks
  Rising-Distinct [] h = tt
  Rising-Distinct (k ∷ ks) h = (
    All-map (λ q. opened k < opened q) (λ q. opened k ≡ opened q → opened k ≢ opened q)
        (λ q g e. absurd (omega arith)) ks h.0,
    Rising-Distinct ks h.1,
  )

  none_at :
      (t : ℕ) (ks : List Kline)
      → All (λ q. t < opened q) ks
      → length (ids_at ℕ_discrete opened opened end_time t ks) ≡ 0
  unfolding ids_at
  none_at t [] h = refl
  none_at t (k ∷ ks) h = ground (arith, none_at t ks h.1)

  one_at :
      (t : ℕ) (ks : List Kline)
      → Rising ks
      → length (ids_at ℕ_discrete opened opened end_time t ks) ≤ 1
  unfolding ids_at
  one_at t [] h = omega arith
  one_at t (k ∷ ks) h = elim (Bool-cases (opened k == t)) [
    | inl same ↦
        let later =
          All-map (λ q. opened k < opened q) (λ q. t < opened q) (λ q g. ground arith) ks h.0 in
        rw (same, ids_at, none_at t ks later) (omega arith)
    | inr other ↦ rw (other, ids_at) (one_at t ks h.1)
  ]

module _ {L : Type 0} (env : Env L) (int_of : Json → Result ℤ) (decimal_of : Json → Result Decimal)
    (symbol interval : String) (end_time limit : ℕ) (history : List Kline) where
  -- Where the exchange answers each window from the start to before the end with the first `limit`, two at least, of its
  -- candles from the window's start, and no two open together, `iter_klines` yields exactly the
  -- candles that open from the start to before the end, each once and in order, and raises nothing.
  pub iter_klines_complete :
      (start_time : ℕ)
      → ((s : ℕ) (w : World L)
          → start_time ≤ s
          → s < end_time
          → (klines env int_of decimal_of symbol interval
              (some (pos limit))
              (some (pos s))
              (some (pos end_time))
              w).0
            ≡ ok (take limit (candles_from end_time s history)))
      → Rising history
      → 2 ≤ limit
      → (fuel : ℕ) (w : World L) → end_time ≤ start_time + fuel
      → (w' : World L) × (iter_klines env int_of decimal_of symbol interval start_time end_time
            limit
            (suc fuel)
            w
          ≡ some ((candles_between start_time end_time history, ok tt), w'))
  unfolding iter_klines iter_time_windows
  iter_klines_complete start_time answers rising two fuel w enough =
      iterate-windows ℕ_discrete opened opened end_time limit
        (λ from to.
          klines env int_of decimal_of symbol interval (some (pos limit)) (some (pos from))
            (some (pos to)))
        (λ s e. take limit (candles_from end_time s history)) start_time answers (suc fuel)
        start_time none w (candles_between start_time end_time history) (omega arith)
        (iter_time_windows_complete ℕ_discrete opened opened end_time
          (λ s e. take limit (candles_from end_time s history)) limit history start_time
          (λ s g h. refl) (Rising-Ascending end_time history rising)
          (Rising-Distinct end_time history rising)
          (λ t. omega (arith, one_at end_time t history rising)) fuel enough)
