-- ===== src/UserStream/Hub.antt =====
-- The subscribers of `UserDataStream` of binance_th/userstream.py, which both of its connections
-- feed: a table by event type, over the store of subscriptions.
use binance_th.Prelude.{
  ℕ, suc, String, Option, none, some, List, [], ◌∷◌, ◌++◌, ℕ_discrete, if◌then◌else◌,
}
use binance_th.Prelude.Text.{String-discrete}
use binance_th.Prelude.Json.{Json, Fields, str, object, get}
use binance_th.Prelude.Dict.{Dict, lookup, insert, erase, values}
use binance_th.Errors.Exceptions.{Error}
use binance_th.Stream.Subscription.{
  Store, payload, reconnected, new_subscription, offer, fault, close, update, update_all,
}
use binance_th.Stream.Connection.{entry, is_empty, remove, for_each}

pub record Hub : Type 0 where
  pub subs : Dict String (List ℕ)
  pub store : Store
  pub created : ℕ

abbrev pub new_hub : Hub
new_hub = record { subs = []; store = []; created = 0 }

-- `_ORDER_EVENT`
abbrev pub order_event : String
order_event = "executionReport"

abbrev pub offer_to : Option Json → Json → Hub → Hub
offer_to (some (str event_type)) frame h = record h {
  store = update_all (entry event_type h.subs) (offer (payload frame)) h.store;
}
offer_to _ frame h = h

-- `_dispatch`
unfoldable pub dispatch : Fields → Hub → Hub
dispatch frame h = offer_to (get "e" frame) (object frame) h

-- `_broadcast_reconnect`
unfoldable pub broadcast_reconnect : Hub → Hub
broadcast_reconnect h = record h {
  store = update_all (entry order_event h.subs) (offer reconnected) h.store;
}

-- `_fault_all`
unfoldable pub fault_all : Error → Hub → Hub
fault_all e h = record h { store = for_each (fault e) (values h.subs) h.store }

-- `_subscribe`: the new subscriber has the number `h.created`.
unfoldable pub subscribe : String → Hub → Hub
subscribe event_type h = record {
  subs = insert String-discrete event_type (entry event_type h.subs ++ h.created ∷ []) h.subs;
  store = insert ℕ_discrete h.created (new_subscription event_type) h.store;
  created = suc h.created;
}

-- `_unsubscribe(sub)`, where `sub` has the number `i` and is for that event type.
unfoldable pub unsubscribe : ℕ → String → Hub → Hub
unsubscribe i event_type h =
    let shut = update i close h.store in
    elim (lookup String-discrete event_type h.subs) [
      | none ↦ record h { store = shut }
      | some is ↦
          let left = remove i is in
          record h {
            store = shut;
            subs =
                if is_empty left
                then erase String-discrete event_type h.subs
                else insert String-discrete event_type left h.subs;
          }
    ]

-- The part of `UserDataStream.aclose` that ends the subscribers.
unfoldable pub end_all : Hub → Hub
end_all h = record h { store = for_each close (values h.subs) h.store; subs = [] }
