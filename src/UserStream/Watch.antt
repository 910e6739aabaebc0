-- ===== src/UserStream/Watch.antt =====
-- `watch_orders`, `watch_account` and `watch_balances` of binance_th/userstream.py: what a generator
-- makes of the items of its subscription.
use binance_th.Prelude.{
  ℕ, String, ◌≡◌, refl, ap, ◌∙◌, inl, inr, Option, none, some, List, [], ◌∷◌, Option-cases,
}
use binance_th.Prelude.Json.{Json}
use binance_th.Errors.Exceptions.{Error, foreign}
use binance_th.Models.Orders.{ExecutionReportEvent}
use binance_th.Models.UserData.{OutboundAccountPositionEvent, BalanceUpdateEvent}
use binance_th.OrderTracker.Sync as Sync
use binance_th.Stream.Subscription.{Item, payload, stream_error, closed, reconnected}
use binance_th.UserStream.Hub.{Hub, unsubscribe}
use binance_th.UserStream.Tracking.{decode_reports}

-- How a generator stands: it waits for the next item, has returned, or has raised.
pub data Ending : Type 0 where
  waiting returned : Ending
  raised : Error → Ending

-- What a generator has yielded, and how it stands.
pub record Watched (A : Type 0) : Type 0 where
  pub yielded : List A
  pub ending : Ending

abbrev also : {A : Type 0} → A → Watched A → Watched A
also a g = record g { yielded = a ∷ g.yielded }

-- The loop of a watch method, over the items that its subscription hands out in order; `model` is
-- `model_validate`, with `none` where it raises.
unfoldable pub watched : {A : Type 0} → (Json → Option A) → List Item → Watched A
watched model [] = record { yielded = []; ending = waiting }
watched model (reconnected ∷ items) = watched model items
watched model (payload frame ∷ items) =
    let rest = watched model items in
    elim (model frame) [
      | none ↦ record { yielded = []; ending = raised (foreign "ValidationError") }
      | some a ↦ also a rest
    ]
watched model (stream_error e ∷ items) = record { yielded = []; ending = raised e }
watched model (closed ∷ items) = record { yielded = []; ending = returned }

-- The `finally` of the generator, whose subscription has the number `i`.
unfoldable pub finish_watch : Ending → ℕ → String → Hub → Hub
finish_watch waiting i event_type h = h
finish_watch _ i event_type h = unsubscribe i event_type h

module _ (report_of : Json → Option ExecutionReportEvent) where
  abbrev pub watch_orders : List Item → Watched ExecutionReportEvent
  watch_orders = watched report_of

  -- The reports among what the order tracker gets.
  abbrev pub reports_in : List Sync.Item → List ExecutionReportEvent
  reports_in [] = []
  reports_in (Sync.report e ∷ is) = e ∷ reports_in is
  reports_in (_ ∷ is) = reports_in is

  watched_valid :
      (frame : Json) (e : ExecutionReportEvent) (items : List Item)
      → report_of frame ≡ some e
      → watched report_of (payload frame ∷ items) ≡ also e (watched report_of items)
  unfolding watched
  watched_valid frame e items valid = rw (valid, watched) refl

  watched_invalid :
      (frame : Json) (items : List Item)
      → report_of frame ≡ none
      → (watched report_of (payload frame ∷ items)).yielded ≡ []
  unfolding watched
  watched_invalid frame items invalid = rw (invalid, watched) refl

  -- A consumer of `watch_orders` gets the same execution reports as an order tracker with a
  -- subscription of its own that was handed the same items: the tracker gets the reconnects besides.
  pub watch_orders-decode_reports :
      (items : List Item)
      → (watch_orders items).yielded ≡ reports_in (decode_reports report_of items)
  unfolding watched decode_reports
  watch_orders-decode_reports [] = refl
  watch_orders-decode_reports (reconnected ∷ items) = watch_orders-decode_reports items
  watch_orders-decode_reports (stream_error e ∷ items) = refl
  watch_orders-decode_reports (closed ∷ items) = refl
  watch_orders-decode_reports (payload frame ∷ items) = elim (Option-cases (report_of frame)) [
    | inl invalid ↦ rw (invalid, decode_reports) (watched_invalid frame items invalid)
    | inr (e, valid) ↦
        rw (valid, decode_reports)
          (ap (λ g. g.yielded) (watched_valid frame e items valid)
            ∙ ap (λ q. e ∷ q) (watch_orders-decode_reports items))
  ]

abbrev pub watch_account :
    (Json → Option OutboundAccountPositionEvent) → List Item → Watched OutboundAccountPositionEvent
watch_account = watched

abbrev pub watch_balances :
    (Json → Option BalanceUpdateEvent) → List Item → Watched BalanceUpdateEvent
watch_balances = watched
