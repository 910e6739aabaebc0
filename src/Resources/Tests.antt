-- ===== src/Resources/Tests.antt =====
-- A public read of binance_th/market.py and a signed one on an exchange that fails at first, and a
-- history of candles in pages of two.
use binance_th.Prelude.{
  ℕ, ◌≤◌, ◌<◌, ◌≡◌, refl, ◌⊎◌, inl, inr, String, Option, none, some, List, [], ◌∷◌, take, arith,
  ite, ℕ_discrete,
}
use binance_th.Prelude.Int.{ℤ, pos}
use binance_th.Prelude.Text.{String-discrete}
use binance_th.Prelude.Dict.{lookup}
use binance_th.Prelude.Json.{Json, int, object, array, item, nil, end}
use binance_th.Errors.Exceptions.{foreign, Result, ok, raise}
use binance_th.Prelude.Show.{show_ℤ}
use binance_th.Errors.Mapping.{raise_for_http_status}
use binance_th.Models.Trades.{Kline, from_list}
use binance_th.Models.Rows.{row_of, from_list-row_of}
use binance_th.Pagination.Rows.{from}
use mathlib.Core.Path.{subst, sym}
use binance_th.Transport.Reply.{Reply, timed_out, handle}
use binance_th.Transport.Pipeline.{Entry, Request, World, Env}
use binance_th.Transport.Sent.{Reads}
use binance_th.Transport.Sample.{sample_env, sample_world, answer}
use binance_th.UserStream.ListenKey.Keys.{Asked}
use binance_th.Resources.{get_rows, rows_of, rows_or_one}
use binance_th.Resources.Candles.{candles_from, candles_between, iter_klines_complete}
use binance_th.Resources.Histories.{klines as read_klines, iter_klines}
use binance_th.Resources.Market.{market_call, klines}
use binance_th.Resources.Reads.{
  trade_fees, signed_call, public_request, signed_rows-Reads, market_rows-Asked,
}

abbrev slow_once : List Entry → Request → Reply
slow_once [] request = timed_out "slow"
slow_once (e ∷ es) request = answer 200 (array (item (object end) nil))

abbrev env : Env (Unit {0})
env = sample_env (λ j. none) (λ j. none) slow_once

market_rows-Asked_sample :
    Asked env
      (public_request (klines "BTCUSDT" "1m" (some (pos 5)) none none))
      []
      (get_rows env
        (λ j. some j)
        rows_of
        (market_call (klines "BTCUSDT" "1m" (some (pos 5)) none none))
        sample_world).1.sent
market_rows-Asked_sample =
    market_rows-Asked env (λ j. some j) rows_of (klines "BTCUSDT" "1m" (some (pos 5)) none none)
      sample_world

signed_rows-Reads_sample :
    Reads (get_rows env (λ j. some j) rows_or_one (signed_call (trade_fees none)))
signed_rows-Reads_sample = signed_rows-Reads env (λ j. some j) rows_or_one (trade_fees none)

abbrev int_of : Json → Result ℤ
int_of (int n) = ok n
int_of j = raise (foreign "ValueError")

abbrev candle : ℕ → Kline
candle t = record {
  open_time = pos t;
  open_price = pos 5;
  high_price = pos 8;
  low_price = pos 4;
  close_price = pos 6;
  volume = pos 70;
  close_time = pos t;
  quote_volume = pos 400;
  trade_count = pos 9;
  taker_buy_base_volume = pos 30;
  taker_buy_quote_volume = pos 200;
}

abbrev cell : ℕ → Json
cell n = int (pos n)

abbrev row : ℕ → Json
row t = array (
    item (cell t) (
      item (cell 5) (
        item (cell 8) (
          item (cell 4) (
            item (cell 6) (
              item (cell 70) (
                item (cell t)
                  (item (cell 400) (item (cell 9) (item (cell 30) (item (cell 200) nil)))))))))))

abbrev candles : List Kline
candles = candle 10 ∷ candle 11 ∷ candle 12 ∷ []

-- The page of two from each start.
abbrev page_from : Option String → Json
page_from none = array nil
page_from (some start) =
    ite (String-discrete start "10") (array (item (row 10) (item (row 11) nil))) (
      ite (String-discrete start "11") (array (item (row 11) (item (row 12) nil)))
        (array (item (row 12) nil)))

abbrev candle_env : Env (Unit {0})
candle_env =
    sample_env (λ j. none) (λ j. none)
      (λ log request. answer 200 (page_from (lookup String-discrete "startTime" request.params)))

abbrev pages : ℕ → World (Unit {0}) → Result (List Kline) × World (Unit {0})
pages s =
    read_klines candle_env int_of int_of "BTCTHB" "1m" (some (pos 2)) (some (pos s)) (some (pos 13))

start_cases : (s : ℕ) → 10 ≤ s → s < 13 → (s ≡ 10) ⊎ (s ≡ 11) ⊎ (s ≡ 12)
start_cases s g h = elim (ℕ_discrete s 10) [
  | yes p ↦ inl p
  | no p ↦ elim (ℕ_discrete s 11) [ yes q ↦ inr (inl q) | no q ↦ inr (inr (ground arith)) ]
]

read_answers :
    (s : ℕ) (w : World (Unit {0}))
    → 10 ≤ s
    → s < 13
    → (pages s w).0 ≡ ok (take 2 (candles_from 13 s candles))
unfolding read_klines from lookup String-discrete handle raise_for_http_status show_ℤ from_list
read_answers s w g h = elim (start_cases s g h) [
  | inl p ↦ subst (λ t. (pages t w).0 ≡ ok (take 2 (candles_from 13 t candles))) (sym p) refl
  | inr (inl p) ↦ subst (λ t. (pages t w).0 ≡ ok (take 2 (candles_from 13 t candles))) (sym p) refl
  | inr (inr p) ↦ subst (λ t. (pages t w).0 ≡ ok (take 2 (candles_from 13 t candles))) (sym p) refl
]

iter_klines_complete_example :
    (w' : World (Unit {0})) × (iter_klines candle_env int_of int_of "BTCTHB" "1m" 10 13 2 4
        sample_world
      ≡ some ((candles_between 10 13 candles, ok tt), w'))
iter_klines_complete_example =
    iter_klines_complete candle_env int_of int_of "BTCTHB" "1m" 13 2 candles 10 read_answers
      (omega arith) (omega arith) 3 sample_world (omega arith)

from_list-row_of_example :
    from_list int_of int_of (row_of (λ d. int d) (item (cell 0) nil) (candle 10)) ≡ ok (candle 10)
from_list-row_of_example =
    from_list-row_of int_of int_of (λ d. int d) (item (cell 0) nil) (candle 10) (λ n. refl)
      (λ d. refl)
