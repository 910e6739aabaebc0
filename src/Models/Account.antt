-- ===== src/Models/Account.antt =====
-- binance_th/models/account.py: the account, its trades and fees, deposits and withdrawals.
use binance_th.Prelude.{String, Bool, Option, none, some, List, [], ◌∷◌, ite, if◌then◌else◌}
use binance_th.Prelude.Int.{ℤ, pos, ◌+ℤ◌, ltb_ℤ}
use binance_th.Prelude.Text.{String-discrete}
use binance_th.Models.Base.{Decimal}
use binance_th.Models.Enums.{SymbolType}

-- Account balance for a single asset.
pub record Balance : Type 0 where
  pub asset : String
  pub free : Decimal
  pub locked : Decimal

-- Account information response.
pub record AccountInfo : Type 0 where
  pub maker_commission : ℤ
  pub taker_commission : ℤ
  pub buyer_commission : ℤ
  pub seller_commission : ℤ
  pub can_trade : Bool
  pub can_withdraw : Bool
  pub can_deposit : Bool
  pub update_time : ℤ
  pub balances : List Balance

-- User trade history record.
pub record UserTrade : Type 0 where
  pub symbol : String
  pub id : ℤ
  pub order_id : ℤ
  pub price : Decimal
  pub qty : Decimal
  pub quote_qty : Option Decimal
  pub commission : Decimal
  pub commission_asset : String
  pub time : ℤ
  pub is_buyer : Bool
  pub is_maker : Bool
  pub is_best_match : Bool

-- Trade fee information.
pub record TradeFee : Type 0 where
  pub symbol : String
  pub maker_commission : Decimal
  pub taker_commission : Decimal

-- Deposit address information.
pub record DepositAddress : Type 0 where
  pub address : String
  pub coin : String
  pub tag : Option String
  pub url : Option String

-- Deposit history record.
pub record DepositRecord : Type 0 where
  pub amount : Decimal
  pub coin : String
  pub network : String
  pub status : ℤ
  pub address : String
  pub address_tag : Option String
  pub tx_id : Option String
  pub insert_time : ℤ
  pub transfer_type : ℤ
  pub confirm_times : String

-- Withdrawal request result.
pub record WithdrawResult : Type 0 where
  pub id : String

-- Withdrawal history record.
pub record WithdrawRecord : Type 0 where
  pub address : String
  pub amount : Decimal
  pub apply_time : String
  pub coin : String
  pub id : String
  pub withdraw_order_id : Option String
  pub network : String
  pub transfer_type : ℤ
  pub status : ℤ
  pub transaction_fee : Decimal
  pub tx_id : Option String

-- Sub-account transfer result.
pub record SubAccountTransfer : Type 0 where
  pub tx_id : ℤ

-- Listen key for user data stream.
pub record ListenKey : Type 0 where
  pub listen_key : String
  pub symbol_type : SymbolType

-- `Balance.total`
abbrev pub total : Balance → Decimal
total b = b.free +ℤ b.locked

find_balance : String → List Balance → Option Balance
find_balance asset [] = none
find_balance asset (b ∷ bs) = ite (String-discrete b.asset asset) (some b) (find_balance asset bs)

-- `AccountInfo.get_balance`
unfoldable pub get_balance : AccountInfo → String → Option Balance
unfolding find_balance
get_balance info asset = find_balance asset info.balances

non_zero : List Balance → List Balance
non_zero [] = []
non_zero (b ∷ bs) = let rest = non_zero bs in if ltb_ℤ (pos 0) (total b) then b ∷ rest else rest

-- `AccountInfo.get_non_zero_balances`
unfoldable pub get_non_zero_balances : AccountInfo → List Balance
unfolding non_zero
get_non_zero_balances info = non_zero info.balances
