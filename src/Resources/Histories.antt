-- ===== src/Resources/Histories.antt =====
-- The generators `iter_klines` of binance_th/market.py, `iter_user_trades` of binance_th/account.py
-- and `iter_deposit_history` of binance_th/wallet.py: each pages its own read. Times in rows are
-- milliseconds since the epoch, and none is negative.
use Prim.Native.String as S
use binance_th.Prelude.{ℕ, String, ◌⊎◌, inl, inr, Option, none, some, List, [], ◌∷◌, ℕ_discrete}
use binance_th.Prelude.Int.{ℤ, pos, pos_part, ℤ-discrete}
use binance_th.Prelude.Text.{String-discrete}
use binance_th.Prelude.Json.{Json}
use binance_th.Errors.Exceptions.{Result, ok, ◌>>=◌}
use binance_th.Models.Base.{Decimal}
use binance_th.Models.Trades.{Kline, from_list}
use binance_th.Models.Account.{UserTrade, DepositRecord}
use binance_th.Transport.Pipeline.{World, Env, Act, bind, request}
use binance_th.Resources.{rows_of, get_rows}
use binance_th.Resources.Market.{klines_call}
use binance_th.Resources.Account.{user_trades_call}
use binance_th.Resources.Wallet.{deposit_history_call}
use binance_th.Resources.Iterate.{Iteration, iterate}

-- `[Kline.from_list(item) for item in rows]`
unfoldable pub made_of : {A : Type 0} → (Json → Result A) → List Json → Result (List A)
made_of make [] = ok []
made_of make (j ∷ js) = let rest = made_of make js in make j >>= λ a. rest >>= λ more. ok (a ∷ more)

-- `record.tx_id or record.insert_time`: an empty text counts as none.
abbrev pub DepositId : Type 0
DepositId = String ⊎ ℤ

abbrev pub deposit_id : DepositRecord → DepositId
deposit_id r = elim r.tx_id [
  | none ↦ inr r.insert_time
  | some S.[] ↦ inr r.insert_time
  | some (S.◌∷◌ c s) ↦ inl (S.◌∷◌ c s)
]

unfoldable pub DepositId-discrete : Discrete DepositId
unfolding String-discrete ℤ-discrete
DepositId-discrete = hlevel (String-discrete, ℤ-discrete)

module _ {L : Type 0} (env : Env L) where
  -- `MarketClient.klines`
  unfoldable pub klines :
      (Json → Result ℤ)
      → (Json → Result Decimal)
      → String
      → String
      → Option ℤ
      → Option ℤ
      → Option ℤ
      → Act L (List Kline)
  unfolding bind request made_of
  klines int_of decimal_of symbol interval limit start_time end_time =
      bind (request env (klines_call symbol interval limit start_time end_time))
        λ raw w. (rows_of raw >>= made_of (from_list int_of decimal_of), w)

  unfoldable pub iter_klines :
      (Json → Result ℤ)
      → (Json → Result Decimal)
      → String
      → String
      → (start_time end_time limit : ℕ) → (fuel : ℕ) → World L
      → Option (Iteration L Kline)
  unfolding klines iterate
  iter_klines int_of decimal_of symbol interval start_time end_time limit fuel =
      iterate ℕ_discrete (λ k. pos_part k.open_time) (λ k. pos_part k.open_time) end_time limit
        (λ from to.
          klines int_of decimal_of symbol interval (some (pos limit)) (some (pos from))
            (some (pos to)))
        fuel start_time none

  unfoldable pub iter_user_trades :
      (Json → Option UserTrade)
      → String
      → (start_time end_time limit : ℕ) → (fuel : ℕ) → World L
      → Option (Iteration L UserTrade)
  unfolding get_rows iterate
  iter_user_trades model symbol start_time end_time limit fuel =
      iterate ℤ-discrete (λ t. pos_part t.time) (λ t. t.id) end_time limit
        (λ from to.
          get_rows env model rows_of
            (user_trades_call symbol (some (pos limit)) (some (pos from)) (some (pos to))))
        fuel start_time none

  unfoldable pub iter_deposit_history :
      (Json → Option DepositRecord)
      → Option String
      → (start_time end_time limit : ℕ) → (fuel : ℕ) → World L
      → Option (Iteration L DepositRecord)
  unfolding get_rows iterate
  iter_deposit_history model coin start_time end_time limit fuel =
      iterate DepositId-discrete (λ r. pos_part r.insert_time) deposit_id end_time limit
        (λ from to.
          get_rows env model rows_of
            (deposit_history_call coin (some (pos from)) (some (pos to)) (some (pos limit))))
        fuel start_time none
