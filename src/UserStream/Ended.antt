-- ===== src/UserStream/Ended.antt =====
-- What is left of a `UserDataStream` of binance_th/userstream.py after `aclose`.
use binance_th.Prelude.{
  String, ◌≡◌, refl, inl, inr, true, false, Option, some, List, [], ◌∷◌, map, arith, All,
  All-append, Bool-cases, ℕ_discrete,
}
use binance_th.Prelude.Json.{Fields}
use binance_th.Prelude.Dict.{lookup, lookup-insert}
use binance_th.Errors.Exceptions.{ok}
use binance_th.Models.Enums.{SymbolType}
use binance_th.Transport.Pipeline.{World, Env}
use binance_th.Stream.Subscription.{new_subscription}
use binance_th.UserStream.Hub.{subscribe, end_all}
use binance_th.UserStream.ListenKey.{Manager, close}
use binance_th.UserStream.Supervisor.{UserConnection, aclose}
use binance_th.UserStream.Lifecycle.{
  UserData, open_connections, tear_down, close_user_data, create_keys, ensure_started, watch,
  IsTornDown,
}

torn : (cs : List (SymbolType × UserConnection)) → All IsTornDown (map (λ c. (c.0, aclose c.1)) cs)
unfolding aclose
torn [] = tt
torn (c ∷ cs) = ((refl, refl, refl), torn cs)

module _ {L : Type 0} (env : Env L) where
  -- `aclose` ends every connection, with those that it had ended before, leaves no subscriber in
  -- the table and no key with the manager, and a second call changes nothing and sends nothing.
  pub close_user_data_done :
      (d : UserData) (w : World L)
      → d.closing ≡ false
      → All IsTornDown d.torn_down
      → All IsTornDown (close_user_data env d w).0.torn_down
        × ((close_user_data env d w).0.conns ≡ [])
        × ((close_user_data env d w).0.hub.subs ≡ [])
        × ((close_user_data env d w).0.keys.keys ≡ [])
        × ((later : World L)
            → close_user_data env (close_user_data env d w).0 later
              ≡ ((close_user_data env d w).0, later))
  unfolding close_user_data tear_down end_all close
  close_user_data_done d w open_still ended =
      rw (open_still, close_user_data)
        (
          All-append IsTornDown (map (λ c. (c.0, aclose c.1)) d.conns) d.torn_down (torn d.conns)
              ended,
          refl,
          refl,
          refl,
          λ later. refl,
        )

  module _ (listen_key_of : Fields → Option (String × SymbolType)) where
    closed_start :
        (d : UserData) (w : World L)
        → d.closing ≡ true
        → ensure_started env listen_key_of d w ≡ ((ok tt, d), w)
    unfolding ensure_started
    closed_start d w over = elim (Bool-cases d.started) [
      | inl old ↦ rw (old, ensure_started) refl
      | inr new ↦ rw (new, over, ensure_started) refl
    ]

    closed_watch :
        (event_type : String) (d : UserData) (w : World L)
        → d.closing ≡ true
        → watch env listen_key_of event_type d w
          ≡ ((ok d.hub.created, record d { hub = subscribe event_type d.hub }), w)
    unfolding watch
    closed_watch event_type d w over =
        let same = closed_start d w over in rw (same, watch, same) refl

    -- After `aclose` of a `UserDataStream` that was open, `watch_orders` and the others neither
    -- raise nor end: the consumer gets a subscription that is open and empty, no connection is there
    -- to fill it, nothing is sent, and another `aclose` changes nothing, so that nothing ends it.
    pub watch_after_close :
        (event_type : String) (d : UserData) (w later latest : World L)
        → d.closing ≡ false
        → let closed = (close_user_data env d w).0 in
          let watched = watch env listen_key_of event_type closed later in
          (watched.0.0 ≡ ok closed.hub.created)
          × (watched.1 ≡ later)
          × (watched.0.1.conns ≡ [])
          × (lookup ℕ_discrete closed.hub.created watched.0.1.hub.store
              ≡ some (new_subscription event_type))
          × (close_user_data env watched.0.1 latest ≡ (watched.0.1, latest))
    unfolding subscribe close_user_data tear_down
    watch_after_close event_type d w later latest open_still =
        let closed = (close_user_data env d w).0 in
        let shut : closed.closing ≡ true = rw (open_still, close_user_data) refl in
        let empty : closed.conns ≡ [] = rw (open_still, close_user_data) refl in
        let same = closed_watch event_type closed later shut in
        rw same (
          refl,
          refl,
          empty,
          ground (
            arith,
            lookup-insert ℕ_discrete closed.hub.created closed.hub.created
                (new_subscription event_type) closed.hub.store,
          ),
          rw (shut, close_user_data) refl,
        )

    -- Keys that are created by a start which `aclose` has overtaken stay with the exchange: no
    -- connection is opened for them, and another `aclose` sends nothing.
    pub late_keys_kept :
        (d : UserData) (w later : World L)
        → d.closing ≡ true
        → close_user_data env (open_connections (create_keys env listen_key_of d w).0.1) later
          ≡ ((create_keys env listen_key_of d w).0.1, later)
    unfolding close_user_data open_connections create_keys
    late_keys_kept d w later over = ground arith

-- Two starts that wait for the keys together open the connections once.
pub open_connections_once :
    (d : UserData) (m : Manager)
    → (open_connections (record (open_connections d) { keys = m })).conns
      ≡ (open_connections d).conns
unfolding open_connections
open_connections_once d m = ground arith
