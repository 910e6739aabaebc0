-- ===== src/OrderBook/Local.antt =====
-- `LocalOrderBook` of binance_th/orderbook.py.
use mathlib.Core.Option
use mathlib.Core.List.{filter_map}
use binance_th.Prelude.{ℕ, String, Bool, Option, none, List, [], ◌∷◌, ite, if◌then◌else◌, take}
use binance_th.Prelude.Int.{ℤ, pos, negsuc, ltb_ℤ, ℤ-discrete}
use binance_th.Prelude.Dict.{Dict, keys, lookup, insert, erase}
use binance_th.Models.Base.{Decimal}
use binance_th.Models.Market.{OrderBookEntry, OrderBook, DepthUpdateEvent}

abbrev pub Side : Type 0
Side = Dict Decimal Decimal

pub record LocalOrderBook : Type 0 where
  pub symbol : String
  pub bids : Side
  pub asks : Side
  pub last_applied_u : ℤ

-- `LocalOrderBook(symbol)`
unfoldable pub empty_book : String → LocalOrderBook
empty_book symbol = record { symbol = symbol; bids = []; asks = []; last_applied_u = negsuc 0 }

-- `{entry.price: entry.quantity for entry in entries}`, onto a dict.
unfoldable pub seed_side : Side → List OrderBookEntry → Side
seed_side side [] = side
seed_side side (e ∷ es) = seed_side (insert ℤ-discrete e.price e.quantity side) es

unfoldable pub seed : LocalOrderBook → OrderBook → LocalOrderBook
unfolding seed_side
seed book snapshot = record book {
  bids = seed_side [] snapshot.bids;
  asks = seed_side [] snapshot.asks;
  last_applied_u = snapshot.last_update_id;
}

-- `_apply_side`: a quantity of 0 removes the level.
unfoldable pub apply_level : Side → OrderBookEntry → Side
apply_level side level =
    ite (ℤ-discrete level.quantity (pos 0)) (erase ℤ-discrete level.price side)
      (insert ℤ-discrete level.price level.quantity side)

unfoldable pub apply_side : Side → List OrderBookEntry → Side
unfolding apply_level
apply_side side [] = side
apply_side side (level ∷ levels) = apply_side (apply_level side level) levels

unfoldable pub apply : LocalOrderBook → DepthUpdateEvent → LocalOrderBook
unfolding apply_side
apply book delta = record book {
  bids = apply_side book.bids delta.bids;
  asks = apply_side book.asks delta.asks;
  last_applied_u = delta.final_update_id;
}

-- `max(prices)` for `before = λ a b. a < b`, `min(prices)` for the order turned round.
unfoldable pub extreme : (Decimal → Decimal → Bool) → Decimal → List Decimal → Decimal
extreme before p [] = p
extreme before p (q ∷ ps) = extreme before (if before p q then q else p) ps

abbrev pub above : Decimal → Decimal → Bool
above a b = ltb_ℤ b a

abbrev pub with_quantity : Side → Decimal → Option (Decimal × Decimal)
with_quantity side price = Option.map (λ q. (price, q)) (lookup ℤ-discrete price side)

unfoldable pub best : (Decimal → Decimal → Bool) → Side → Option (Decimal × Decimal)
unfolding extreme
best before [] = none
best before ((p, q) ∷ rest) = with_quantity ((p, q) ∷ rest) (extreme before p (keys rest))

unfoldable pub best_bid : LocalOrderBook → Option (Decimal × Decimal)
unfolding best
best_bid book = best ltb_ℤ book.bids

unfoldable pub best_ask : LocalOrderBook → Option (Decimal × Decimal)
unfolding best
best_ask book = best above book.asks

-- `sorted(prices)` by `before`, as an insertion sort: the prices of a dict are distinct.
unfoldable pub sort_in : (Decimal → Decimal → Bool) → Decimal → List Decimal → List Decimal
sort_in before p [] = p ∷ []
sort_in before p (q ∷ ps) =
    let rest = sort_in before p ps in if before p q then p ∷ q ∷ ps else q ∷ rest

unfoldable pub sorted : (Decimal → Decimal → Bool) → List Decimal → List Decimal
unfolding sort_in
sorted before [] = []
sorted before (p ∷ ps) = sort_in before p (sorted before ps)

-- `[(price, side[price]) for price in sorted(side)[:n]]`
unfoldable pub top : (Decimal → Decimal → Bool) → ℕ → Side → List (Decimal × Decimal)
unfolding sorted
top before n side = filter_map (with_quantity side) (take n (sorted before (keys side)))

unfoldable pub bids_top : ℕ → LocalOrderBook → List (Decimal × Decimal)
unfolding top
bids_top n book = top above n book.bids

unfoldable pub asks_top : ℕ → LocalOrderBook → List (Decimal × Decimal)
unfolding top
asks_top n book = top ltb_ℤ n book.asks
