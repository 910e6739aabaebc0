-- ===== src/OrderBook/Tests.antt =====
-- The order book of binance_th/orderbook.py on a small feed.
use binance_th.Prelude.{
  ℕ, zero, suc, ◌≡◌, refl, Option, none, some, List, [], ◌∷◌, arith, All, if◌then◌else◌,
}
use binance_th.Prelude.Int.{pos, leb_ℤ, ltb_ℤ, ◌+ℤ◌, ◌≤ℤ◌, ◌<ℤ◌, ℤ-discrete, +ℤ_parts}
use binance_th.Prelude.Dict.{lookup}
use binance_th.Models.Base.{Decimal}
use binance_th.Models.Market.{OrderBookEntry, OrderBook, DepthUpdateEvent}
use binance_th.OrderBook.Local.{
  Side, LocalOrderBook, apply_side, best_bid, best_ask, bids_top, asks_top, above,
}
use binance_th.OrderBook.Sync.{SyncState, seeded, applied, on_delta, sync, run}
use binance_th.OrderBook.Sides.{
  listed, override, NoEmptyLevel, lookup-apply_side, apply_side-NoEmptyLevel,
}
use binance_th.OrderBook.Truth.{
  Exchange, IsSnapshot, IsDelta, EventAgrees, run-agrees, on_delta_advances,
  gapless_never_resnapshots,
}
use binance_th.OrderBook.Best.{IsBest, best_bid-IsBest, best_ask-IsBest}
use binance_th.OrderBook.Top.{IsTop, bids_top-IsTop, asks_top-IsTop}

abbrev entry : Decimal → Decimal → OrderBookEntry
entry p q = record { price = p; quantity = q }

abbrev early_bids : List OrderBookEntry
early_bids = entry (pos 100) (pos 1) ∷ entry (pos 99) (pos 2) ∷ []

abbrev late_bids : List OrderBookEntry
late_bids = entry (pos 99) (pos 2) ∷ entry (pos 101) (pos 4) ∷ []

-- The snapshot at the start, and the one after the gap.
abbrev early : OrderBook
early = record { last_update_id = pos 10; bids = early_bids; asks = [] }

abbrev late : OrderBook
late = record { last_update_id = pos 25; bids = late_bids; asks = [] }

abbrev snapshots : ℕ → Option OrderBook
snapshots zero = some early
snapshots (suc n) = some late

-- A delta that the snapshot covers, one that follows it, and one behind a gap.
abbrev stale : DepthUpdateEvent
stale = record { first_update_id = pos 10; final_update_id = pos 10; bids = []; asks = [] }

abbrev next : DepthUpdateEvent
next = record {
  first_update_id = pos 11;
  final_update_id = pos 12;
  bids = entry (pos 100) (pos 0) ∷ entry (pos 101) (pos 4) ∷ [];
  asks = [];
}

abbrev gap : DepthUpdateEvent
gap = record { first_update_id = pos 20; final_update_id = pos 21; bids = []; asks = [] }

-- The exchange whose book changes at the id 12. Ids 11 and 12 belong to one delta, and no book is
-- seen at 11.
abbrev exchange : Exchange
exchange = record {
  bids_at = λ v p. if leb_ℤ (pos 11) v then listed p none late_bids else listed p none early_bids;
  asks_at = λ v p. none;
}

snapshots_sound : (n : ℕ) (s : OrderBook) → snapshots n ≡ some s → IsSnapshot exchange s
snapshots_sound zero s e = record { bids_match = λ p. ground arith; asks_match = λ p. ground arith }
snapshots_sound (suc n) s e = record {
  bids_match = λ p. ground arith;
  asks_match = λ p. ground arith;
}

stale_sound : IsDelta exchange stale
stale_sound = record { bids_lead = λ v p h k. ground arith; asks_lead = λ v p h k. refl }

next_sound : IsDelta exchange next
next_sound = record { bids_lead = λ v p h k. ground arith; asks_lead = λ v p h k. refl }

gap_sound : IsDelta exchange gap
gap_sound = record {
  bids_lead = λ v p h k. ground (arith, +ℤ_parts v (pos 1));
  asks_lead = λ v p h k. refl;
}

run-agrees_example : All (EventAgrees exchange) (run "BTCUSDT" snapshots (stale ∷ next ∷ gap ∷ []))
run-agrees_example =
    run-agrees exchange "BTCUSDT" snapshots snapshots_sound (stale ∷ next ∷ gap ∷ [])
      (stale_sound, (next_sound, (gap_sound, tt)))

abbrev start : SyncState
start = seeded "BTCUSDT" early

on_delta_advances_sample :
    (applied start next ≡ applied start next)
    × (next.first_update_id ≤ℤ start.last_u +ℤ pos 1)
    × (start.last_u <ℤ next.final_update_id)
    × ((applied start next).last_u ≡ next.final_update_id)
unfolding on_delta seeded ◌+ℤ◌
on_delta_advances_sample = on_delta_advances start (applied start next) next refl

gapless_never_resnapshots_example :
    sync "BTCUSDT" snapshots 1 start (stale ∷ next ∷ [])
    ≡ sync "BTCUSDT" (λ _. none) 1 start (stale ∷ next ∷ [])
unfolding seeded ◌+ℤ◌
gapless_never_resnapshots_example =
    gapless_never_resnapshots "BTCUSDT" snapshots (λ _. none) 1 1 start (stale ∷ next ∷ [])
      (ground arith, (ground arith, tt))

abbrev side : Side
side = (pos 100, pos 1) ∷ (pos 99, pos 2) ∷ []

lookup-apply_side_sample :
    lookup ℤ-discrete (pos 100) (apply_side side next.bids)
    ≡ override (pos 100) (lookup ℤ-discrete (pos 100) side) next.bids
lookup-apply_side_sample = lookup-apply_side (pos 100) side next.bids

apply_side-NoEmptyLevel_sample : NoEmptyLevel (apply_side side next.bids)
apply_side-NoEmptyLevel_sample =
    apply_side-NoEmptyLevel side next.bids (ground arith, (ground arith, tt))

abbrev two_sided : LocalOrderBook
two_sided = record {
  symbol = "BTCUSDT";
  bids = side;
  asks = (pos 103, pos 1) ∷ (pos 102, pos 7) ∷ [];
  last_applied_u = pos 10;
}

best_bid-IsBest_sample : IsBest ltb_ℤ side (best_bid two_sided)
best_bid-IsBest_sample = best_bid-IsBest two_sided

best_ask-IsBest_sample : IsBest above two_sided.asks (best_ask two_sided)
best_ask-IsBest_sample = best_ask-IsBest two_sided

bids_top-IsTop_example : IsTop above 1 side (bids_top 1 two_sided)
bids_top-IsTop_example = bids_top-IsTop 1 two_sided

asks_top-IsTop_sample : IsTop ltb_ℤ 1 two_sided.asks (asks_top 1 two_sided)
asks_top-IsTop_sample = asks_top-IsTop 1 two_sided

-- The best levels and the tops as they come out.
reads_run :
    (best_bid two_sided ≡ some (pos 100, pos 1))
    × (best_ask two_sided ≡ some (pos 102, pos 7))
    × (asks_top 2 two_sided ≡ (pos 102, pos 7) ∷ (pos 103, pos 1) ∷ [])
unfolding best_bid best_ask asks_top lookup ℤ-discrete mathlib.Core.List.filter_map
reads_run = (refl, refl, refl)
