-- ===== src/Models/Codes.antt =====
-- binance_th/models/enums.py: the enumerations that callers and payloads use and no other code
-- branches on.
use binance_th.Prelude.{ℕ, String, ◌≡◌, refl, some, List, [], ◌∷◌}
use binance_th.Prelude.Text.{String-discrete}
use binance_th.Models.Enums.{of_value}

pub data KlineInterval : Type 0 where
  minute_1 minute_3 minute_5 minute_15 minute_30 hour_1 hour_2 hour_4 hour_6 hour_8 hour_12 day_1
        day_3 week_1 month_1 :
      KlineInterval

pub data SymbolStatus : Type 0 where
  trading halt break : SymbolStatus

pub data DepositStatus : Type 0 where
  pending success credited : DepositStatus

pub data WithdrawStatus : Type 0 where
  email_sent cancelled awaiting_approval rejected processing failure completed : WithdrawStatus

abbrev pub kline_interval_value : KlineInterval → String
kline_interval_value minute_1 = "1m"
kline_interval_value minute_3 = "3m"
kline_interval_value minute_5 = "5m"
kline_interval_value minute_15 = "15m"
kline_interval_value minute_30 = "30m"
kline_interval_value hour_1 = "1h"
kline_interval_value hour_2 = "2h"
kline_interval_value hour_4 = "4h"
kline_interval_value hour_6 = "6h"
kline_interval_value hour_8 = "8h"
kline_interval_value hour_12 = "12h"
kline_interval_value day_1 = "1d"
kline_interval_value day_3 = "3d"
kline_interval_value week_1 = "1w"
kline_interval_value month_1 = "1M"

abbrev pub kline_intervals : List KlineInterval
kline_intervals =
    minute_1 ∷ minute_3 ∷ minute_5 ∷ minute_15 ∷ minute_30 ∷ hour_1 ∷ hour_2 ∷ hour_4 ∷ hour_6
    ∷ hour_8 ∷ hour_12 ∷ day_1 ∷ day_3 ∷ week_1 ∷ month_1 ∷ []

abbrev pub symbol_status_value : SymbolStatus → String
symbol_status_value trading = "TRADING"
symbol_status_value halt = "HALT"
symbol_status_value break = "BREAK"

-- The number of a member, `e.value`.
abbrev pub deposit_status_value : DepositStatus → ℕ
deposit_status_value pending = 0
deposit_status_value success = 1
deposit_status_value credited = 6

abbrev pub withdraw_status_value : WithdrawStatus → ℕ
withdraw_status_value email_sent = 0
withdraw_status_value cancelled = 1
withdraw_status_value awaiting_approval = 2
withdraw_status_value rejected = 3
withdraw_status_value processing = 4
withdraw_status_value failure = 5
withdraw_status_value completed = 6

-- Every interval is found by its text: minutes and months differ in case only, and no text stands for
-- two members.
of_value-kline_interval_value :
    (i : KlineInterval)
    → of_value kline_interval_value kline_intervals (kline_interval_value i) ≡ some i
unfolding of_value String-discrete
of_value-kline_interval_value minute_1 = refl
of_value-kline_interval_value minute_3 = refl
of_value-kline_interval_value minute_5 = refl
of_value-kline_interval_value minute_15 = refl
of_value-kline_interval_value minute_30 = refl
of_value-kline_interval_value hour_1 = refl
of_value-kline_interval_value hour_2 = refl
of_value-kline_interval_value hour_4 = refl
of_value-kline_interval_value hour_6 = refl
of_value-kline_interval_value hour_8 = refl
of_value-kline_interval_value hour_12 = refl
of_value-kline_interval_value day_1 = refl
of_value-kline_interval_value day_3 = refl
of_value-kline_interval_value week_1 = refl
of_value-kline_interval_value month_1 = refl
