-- ===== src/Models/Enums.antt =====
-- binance_th/models/enums.py: the enumerations that the modelled code reads, with the text that
-- each member stands for, and the call `E(raw)` that finds a member by its text.
use binance_th.Prelude.{String, Option, none, some, List, [], ◌∷◌, ite}
use binance_th.Prelude.Text.{String-discrete}

pub data OrderSide : Type 0 where
  buy sell : OrderSide

pub data OrderType : Type 0 where
  limit market stop_loss stop_loss_limit take_profit take_profit_limit limit_maker : OrderType

pub data OrderStatus : Type 0 where
  new partially_filled filled canceled rejected expired : OrderStatus

pub data TimeInForce : Type 0 where
  gtc ioc fok : TimeInForce

pub data SymbolType : Type 0 where
  global site : SymbolType

pub data RateLimitType : Type 0 where
  request_weight orders raw_requests : RateLimitType

pub data RateLimitInterval : Type 0 where
  second minute hour day : RateLimitInterval

pub data FilterType : Type 0 where
  price_filter percent_price lot_size min_notional iceberg_parts market_lot_size : FilterType
  max_num_orders max_num_algo_orders max_num_iceberg_orders : FilterType
  exchange_max_num_orders exchange_max_num_algo_orders : FilterType

unfoldable pub OrderType-discrete : Discrete OrderType
OrderType-discrete = hlevel

unfoldable pub RateLimitType-discrete : Discrete RateLimitType
RateLimitType-discrete = hlevel

unfoldable pub RateLimitInterval-discrete : Discrete RateLimitInterval
RateLimitInterval-discrete = hlevel

unfoldable pub FilterType-discrete : Discrete FilterType
FilterType-discrete = hlevel

unfoldable pub SymbolType-discrete : Discrete SymbolType
SymbolType-discrete = hlevel

-- The text of a member, `e.value`.
abbrev pub order_side_value : OrderSide → String
order_side_value buy = "BUY"
order_side_value sell = "SELL"

abbrev pub order_type_value : OrderType → String
order_type_value limit = "LIMIT"
order_type_value market = "MARKET"
order_type_value stop_loss = "STOP_LOSS"
order_type_value stop_loss_limit = "STOP_LOSS_LIMIT"
order_type_value take_profit = "TAKE_PROFIT"
order_type_value take_profit_limit = "TAKE_PROFIT_LIMIT"
order_type_value limit_maker = "LIMIT_MAKER"

abbrev pub order_status_value : OrderStatus → String
order_status_value new = "NEW"
order_status_value partially_filled = "PARTIALLY_FILLED"
order_status_value filled = "FILLED"
order_status_value canceled = "CANCELED"
order_status_value rejected = "REJECTED"
order_status_value expired = "EXPIRED"

abbrev pub time_in_force_value : TimeInForce → String
time_in_force_value gtc = "GTC"
time_in_force_value ioc = "IOC"
time_in_force_value fok = "FOK"

abbrev pub symbol_type_value : SymbolType → String
symbol_type_value global = "GLOBAL"
symbol_type_value site = "SITE"

-- The members in the order of their declaration.
abbrev pub order_sides : List OrderSide
order_sides = buy ∷ sell ∷ []

abbrev pub order_types : List OrderType
order_types =
    limit ∷ market ∷ stop_loss ∷ stop_loss_limit ∷ take_profit ∷ take_profit_limit ∷ limit_maker
    ∷ []

abbrev pub order_statuses : List OrderStatus
order_statuses = new ∷ partially_filled ∷ filled ∷ canceled ∷ rejected ∷ expired ∷ []

abbrev pub times_in_force : List TimeInForce
times_in_force = gtc ∷ ioc ∷ fok ∷ []

abbrev pub symbol_types : List SymbolType
symbol_types = global ∷ site ∷ []

-- `E(raw)`: the member with that text; `none` is the `ValueError`.
unfoldable pub of_value : {E : Type 0} → (E → String) → List E → String → Option E
of_value value [] raw = none
of_value value (e ∷ es) raw = ite (String-discrete (value e) raw) (some e) (of_value value es raw)
