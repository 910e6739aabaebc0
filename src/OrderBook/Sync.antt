-- ===== src/OrderBook/Sync.antt =====
-- `OrderBookSynchronizer` of binance_th/orderbook.py. The stream of deltas is a list, and the n-th
-- call of the depth provider returns `snapshots n`, or raises where that is `none`.
use binance_th.Prelude.{
  ℕ, suc, String, Bool, true, false, Option, none, some, List, [], ◌∷◌, ◌&&◌, if◌then◌else◌,
}
use binance_th.Prelude.Int.{ℤ, pos, ◌+ℤ◌, ltb_ℤ, leb_ℤ}
use binance_th.Models.Market.{OrderBook, DepthUpdateEvent}
use binance_th.OrderBook.Local.{LocalOrderBook, empty_book, seed, apply}

-- The variables of the inner loop.
pub record SyncState : Type 0 where
  pub book : LocalOrderBook
  pub last_u : ℤ
  pub first : Bool

-- What the loop does with one delta.
pub data Verdict : Type 0 where
  drop resnapshot : Verdict
  advance : SyncState → Verdict

unfoldable pub seeded : String → OrderBook → SyncState
unfolding seed empty_book
seeded symbol snapshot = record {
  book = seed (empty_book symbol) snapshot;
  last_u = snapshot.last_update_id;
  first = true;
}

unfoldable pub applied : SyncState → DepthUpdateEvent → SyncState
unfolding apply
applied s delta =
    let book = apply s.book delta in
    record { book = book; last_u = book.last_applied_u; first = false }

unfoldable pub on_delta : SyncState → DepthUpdateEvent → Verdict
unfolding applied
on_delta s delta =
    let next = s.last_u +ℤ pos 1 in
    if leb_ℤ delta.final_update_id s.last_u
    then drop
    else if s.first
    then (if leb_ℤ delta.first_update_id next && leb_ℤ next delta.final_update_id
        then advance (applied s delta)
        else resnapshot)
    else if ltb_ℤ next delta.first_update_id
    then resnapshot
    else advance (applied s delta)

-- What the generator gives its reader: a book, or the exception of the depth provider.
pub data Event : Type 0 where
  book : LocalOrderBook → Event
  provider_raised : Event

-- The inner loop after `n` calls of the provider; a gap starts the outer loop again.
module _ (symbol : String) (snapshots : ℕ → Option OrderBook) where
  unfoldable pub sync : ℕ → SyncState → List DepthUpdateEvent → List Event
  sync n s [] = []
  sync n s (delta ∷ deltas) = elim (on_delta s delta) [
    | drop ↦ sync n s deltas
    | advance s' ↦ book s'.book ∷ sync n s' deltas
    | resnapshot ↦ elim (snapshots n) [
      | none ↦ provider_raised ∷ []
      | some snapshot ↦
          book (seeded symbol snapshot).book ∷ sync (suc n) (seeded symbol snapshot) deltas
    ]
  ]

  unfoldable pub run : List DepthUpdateEvent → List Event
  unfolding sync
  run deltas = elim (snapshots 0) [
    | none ↦ provider_raised ∷ []
    | some snapshot ↦ book (seeded symbol snapshot).book ∷ sync 1 (seeded symbol snapshot) deltas
  ]
