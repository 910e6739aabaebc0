-- ===== src/Resources/Wallet.antt =====
-- The calls of `WalletClient` of binance_th/wallet.py.
use binance_th.Prelude.{String, true, Option, [], ◌∷◌}
use binance_th.Prelude.Int.{ℤ}
use binance_th.Signing.{Params}
use binance_th.Transport.Pipeline.{Call}
use binance_th.Resources.{get_call, optional_text, optional_int}

abbrev pub history_params : Option String → Option ℤ → Option ℤ → Option ℤ → Params
history_params coin start_time end_time limit = optional_text "coin" coin (
    optional_int "startTime" start_time
      (optional_int "endTime" end_time (optional_int "limit" limit [])))

abbrev pub deposit_address_call : String → Option String → Call
deposit_address_call coin network =
    get_call "/api/v1/capital/deposit/address" (("coin", coin) ∷ optional_text "network" network [])
      true 1

abbrev pub deposit_history_call : Option String → Option ℤ → Option ℤ → Option ℤ → Call
deposit_history_call coin start_time end_time limit =
    get_call "/api/v1/capital/deposit/history" (history_params coin start_time end_time limit) true
      1

abbrev pub withdraw_history_call : Option String → Option ℤ → Option ℤ → Option ℤ → Call
withdraw_history_call coin start_time end_time limit =
    get_call "/api/v1/capital/withdraw/history" (history_params coin start_time end_time limit) true
      1
