-- ===== src/UserStream/Lifecycle.antt =====
-- `UserDataStream` of binance_th/userstream.py: its start with the first use, the subscriptions of
-- its consumers, and `aclose`, over its keys, its connections and its subscribers.
use binance_th.Prelude.{
  ℕ, String, ◌≡◌, Bool, true, false, ◌||◌, Option, none, some, List, [], ◌∷◌, ◌++◌, if◌then◌else◌,
  map,
}
use binance_th.Prelude.Json.{Fields}
use binance_th.Errors.Exceptions.{Result, ok, raise}
use binance_th.Models.Enums.{SymbolType, global, site}
use binance_th.Transport.Pipeline.{World, Env}
use binance_th.UserStream.Hub.{Hub, new_hub, subscribe, end_all}
use binance_th.UserStream.ListenKey.{Manager, new_manager, key_for, do_create, close}
use binance_th.UserStream.Supervisor.{UserConnection, new_user_connection, start, aclose}

-- `torn_down` holds the connections that `aclose` took out of the list.
pub record UserData : Type 0 where
  pub keys : Manager
  pub conns : List (SymbolType × UserConnection)
  pub hub : Hub
  pub started : Bool
  pub closing : Bool
  pub torn_down : List (SymbolType × UserConnection)

abbrev pub new_user_data : UserData
new_user_data = record {
  keys = new_manager;
  conns = [];
  hub = new_hub;
  started = false;
  closing = false;
  torn_down = [];
}

-- A connection of this type where there is a key for it.
abbrev pub opened : SymbolType → UserData → List (SymbolType × UserConnection)
opened t d = elim (key_for t d.keys) [
  | none ↦ []
  | some key ↦ (t, start (new_user_connection d.hub)) ∷ []
]

-- `_ensure_started` once the keys are there: another caller may have come before, or `aclose`.
unfoldable pub open_connections : UserData → UserData
open_connections d =
    if d.started || d.closing
    then d
    else record d { started = true; conns = d.conns ++ (opened global d ++ opened site d) }

-- `aclose` up to the release of the keys.
unfoldable pub tear_down : UserData → UserData
tear_down d = record d {
  closing = true;
  conns = [];
  torn_down = map (λ c. (c.0, aclose c.1)) d.conns ++ d.torn_down;
  hub = end_all d.hub;
}

module _ {L : Type 0} (env : Env L) where
  unfoldable pub close_user_data : UserData → World L → UserData × World L
  unfolding tear_down close
  close_user_data d w =
      if d.closing
      then (d, w)
      else (record (tear_down d) { keys = (close env d.keys w).0 }, (close env d.keys w).1)

  module _ (listen_key_of : Fields → Option (String × SymbolType)) where
    -- The creation of the keys, in a start that found the stream not started.
    unfoldable pub create_keys : UserData → World L → (Result (Unit {0}) × UserData) × World L
    unfolding do_create
    create_keys d w =
        let made = do_create env listen_key_of d.keys w in
        ((made.0.0, record d { keys = made.0.1 }), made.1)

    -- `_ensure_started` where nothing happens in its await.
    unfoldable pub ensure_started : UserData → World L → (Result (Unit {0}) × UserData) × World L
    unfolding create_keys open_connections
    ensure_started d w =
        if d.started || d.closing
        then ((ok tt, d), w)
        else let made = create_keys d w in
          elim made.0.0 [ raise e ↦ made | ok _ ↦ ((ok tt, open_connections made.0.1), made.1) ]

    -- The start of `watch_orders`, `watch_account`, `watch_balances` and `order_tracker`: the number
    -- of the subscription.
    unfoldable pub watch : String → UserData → World L → (Result ℕ × UserData) × World L
    unfolding ensure_started
    watch event_type d w =
        let ready = ensure_started d w in
        elim ready.0.0 [
          | raise e ↦ ((raise e, ready.0.1), ready.1)
          | ok _ ↦ (
            (
              ok ready.0.1.hub.created,
              record ready.0.1 { hub = subscribe event_type ready.0.1.hub },
            ),
            ready.1,
          )
        ]

-- A connection that `aclose` has ended: no task is left and its socket is shut.
abbrev pub IsTornDown : SymbolType × UserConnection → Type 0
IsTornDown c = (c.1.closing ≡ true) × (c.1.supervisor ≡ false) × (c.1.ws ≡ false)
