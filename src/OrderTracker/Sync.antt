-- ===== src/OrderTracker/Sync.antt =====
-- `OrderTrackerSynchronizer` of binance_th/ordertracker.py. The event stream is a list, and the
-- n-th call of the REST provider returns `snapshots n`, or raises where that is `none`.
use binance_th.Prelude.{ℕ, suc, Option, none, some, List, [], ◌∷◌}
use binance_th.Models.Orders.{Order, ExecutionReportEvent}
use binance_th.OrderTracker.View.{View, seed, apply}

-- An item of the stream: an execution report, the reconnect sentinel, or anything else.
pub data Item : Type 0 where
  report : ExecutionReportEvent → Item
  reconnected other : Item

-- What the generator gives its reader: a view, or the exception of the provider.
pub data Event : Type 0 where
  view : View → Event
  provider_raised : Event

module _ (snapshots : ℕ → Option (List Order)) where
  unfoldable pub track : ℕ → View → List Item → List Event
  track n v [] = []
  track n v (report e ∷ items) = view (apply e v) ∷ track n (apply e v) items
  track n v (other ∷ items) = track n v items
  track n v (reconnected ∷ items) = elim (snapshots n) [
    | none ↦ provider_raised ∷ []
    | some orders ↦ view (seed orders) ∷ track (suc n) (seed orders) items
  ]

  unfoldable pub run : List Item → List Event
  unfolding track
  run items = elim (snapshots 0) [
    | none ↦ provider_raised ∷ []
    | some orders ↦ view (seed orders) ∷ track 1 (seed orders) items
  ]
