-- ===== src/UserStream/WatchTests.antt =====
-- The generators of binance_th/userstream.py on a few items.
use binance_th.Prelude.{◌≡◌, refl, Option, none, some, [], ◌∷◌}
use binance_th.Prelude.Int.{ℤ, pos}
use binance_th.Prelude.Json.{Json, int, null}
use binance_th.Errors.Exceptions.{foreign}
use binance_th.Stream.Subscription.{payload, closed, reconnected}
use binance_th.UserStream.Watch.{returned, raised, watched}

abbrev number : Json → Option ℤ
number (int n) = some n
number _ = none

-- A reconnect is passed over, and nothing comes after the end.
watched_ends :
    watched number (
      payload (int (pos 1))
      ∷ reconnected
      ∷ payload (int (pos 2))
      ∷ closed
      ∷ payload (int (pos 3))
      ∷ [])
    ≡ record { yielded = pos 1 ∷ pos 2 ∷ []; ending = returned }
unfolding watched
watched_ends = refl

-- A frame that does not parse ends the generator with its error.
watched_raises :
    watched number (payload (int (pos 1)) ∷ payload null ∷ payload (int (pos 3)) ∷ [])
    ≡ record { yielded = pos 1 ∷ []; ending = raised (foreign "ValidationError") }
unfolding watched
watched_raises = refl
