-- ===== src/Models/Base.antt =====
-- binance_th/models/base.py: rate limits, symbol filters and exchange information, with the fields
-- that the modelled code reads.
use binance_th.Prelude.{ℕ, String, Option, none, some, List, [], ◌∷◌, ite}
use binance_th.Prelude.Int.{ℤ}
use binance_th.Prelude.Text.{String-discrete}
use binance_th.Models.Enums.{FilterType, RateLimitType, RateLimitInterval, FilterType-discrete}

-- A `Decimal`, counted in units of a power of ten below every digit in use. Two decimals that
-- differ in trailing zeros only are one value, as they are one key of a dict.
abbrev pub Decimal : Type 0
Decimal = ℤ

pub record RateLimit : Type 0 where
  pub rate_limit_type : RateLimitType
  pub interval : RateLimitInterval
  pub interval_num : ℕ
  pub limit : ℕ

pub record SymbolFilter : Type 0 where
  pub filter_type : FilterType
  pub min_price : Option Decimal
  pub max_price : Option Decimal
  pub tick_size : Option Decimal
  pub min_qty : Option Decimal
  pub max_qty : Option Decimal
  pub step_size : Option Decimal
  pub min_notional : Option Decimal

pub record SymbolInfo : Type 0 where
  pub symbol : String
  pub filters : List SymbolFilter

find_filter : FilterType → List SymbolFilter → Option SymbolFilter
find_filter t [] = none
find_filter t (f ∷ fs) = ite (FilterType-discrete f.filter_type t) (some f) (find_filter t fs)

-- The first filter of a type.
unfoldable pub get_filter : SymbolInfo → FilterType → Option SymbolFilter
unfolding find_filter
get_filter info t = find_filter t info.filters

pub record ExchangeInfo : Type 0 where
  pub rate_limits : List RateLimit
  pub symbols : List SymbolInfo

find_symbol : String → List SymbolInfo → Option SymbolInfo
find_symbol name [] = none
find_symbol name (s ∷ ss) = ite (String-discrete s.symbol name) (some s) (find_symbol name ss)

unfoldable pub get_symbol : ExchangeInfo → String → Option SymbolInfo
unfolding find_symbol
get_symbol info name = find_symbol name info.symbols
