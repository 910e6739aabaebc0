-- ===== src/Models/Depth.antt =====
-- binance_th/models/market.py: the order book made from a body.
use binance_th.Prelude.{String, none, some, List, [], ◌∷◌}
use binance_th.Prelude.Int.{ℤ}
use binance_th.Prelude.Json.{
  Json, Items, Fields, null, bool, int, real, str, array, object, nil, item, end, field, get,
}
use Prim.Native.String as S
use binance_th.Errors.Exceptions.{foreign, Result, ok, raise, ◌>>=◌}
use binance_th.Models.Base.{Decimal}
use binance_th.Models.Market.{OrderBookEntry, OrderBook}
use binance_th.Models.Trades.{subscript}

-- `data[key]`
abbrev pub subscript_key : String → Json → Result Json
subscript_key key (object fs) = elim (get key fs) [
  | none ↦ raise (foreign "KeyError")
  | some j ↦ ok j
]
subscript_key key j = raise (foreign "TypeError")

abbrev chars : String → Items
chars S.[] = nil
chars (S.◌∷◌ c s) = item (str (S.◌∷◌ c "")) (chars s)

abbrev names : Fields → Items
names end = nil
names (field k v fs) = item (str k) (names fs)

-- What a `for` loop over a decoded body meets: a text gives its characters and a dict its keys.
abbrev pub iter_of : Json → Result Items
iter_of (array is) = ok is
iter_of (object fs) = ok (names fs)
iter_of (str s) = ok (chars s)
iter_of null = raise (foreign "TypeError")
iter_of (bool b) = raise (foreign "TypeError")
iter_of (int i) = raise (foreign "TypeError")
iter_of (real s) = raise (foreign "TypeError")

module _ (decimal_of : Json → Result Decimal) where
  -- `OrderBookEntry.from_list`
  unfoldable pub from_list : Json → Result OrderBookEntry
  from_list row = do
    price ← subscript 0 row >>= decimal_of
    quantity ← subscript 1 row >>= decimal_of
    ok (record { price = price; quantity = quantity })

  entries : Items → Result (List OrderBookEntry)
  entries nil = ok []
  entries (item j is) = let rest = entries is in from_list j >>= λ e. rest >>= λ es. ok (e ∷ es)

  -- `[OrderBookEntry.from_list(x) for x in value]`
  side_of : Json → Result (List OrderBookEntry)
  unfolding entries
  side_of value = iter_of value >>= entries

  -- `OrderBook.from_api`
  unfoldable pub from_api : (Json → Result ℤ) → Json → Result OrderBook
  unfolding side_of
  from_api int_of body = do
    last_update_id ← subscript_key "lastUpdateId" body >>= int_of
    bids ← subscript_key "bids" body >>= side_of
    asks ← subscript_key "asks" body >>= side_of
    ok (record { last_update_id = last_update_id; bids = bids; asks = asks })
