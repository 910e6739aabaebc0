-- ===== src/Stream/Heard.antt =====
-- The subscribers of binance_th/stream.py, from `subscribe` on.
use mathlib.Core.Option
use binance_th.Prelude.{
  String, ◌≡◌, refl, ap, ◌∙◌, true, false, some, List, [], ◌∷◌, ◌++◌, arith, if_pos, if_neg,
  ℕ_discrete, All,
}
use binance_th.Prelude.Text.{String-discrete}
use binance_th.Prelude.Dict.{lookup, lookup-insert}
use binance_th.Stream.Queue.{offered, offer_all_last}
use binance_th.Stream.Subscription.{new_subscription}
use binance_th.Stream.Connection.{WsConfig, Connection, new_connection, entry, subscribe}
use binance_th.Stream.Supervisor.{Move, run}
use binance_th.Stream.Listed.{hear, IsListed, entry-insert, count-append}
use binance_th.Stream.Attached.{IsAttached, Spares, subscribe-effect}
use binance_th.Stream.Delivery.{heard, run-Hears}
use binance_th.Stream.Fresh.{IsBelow, run_new-IsBelow}

module _ (config : WsConfig) (reconnects : config.ws_auto_reconnect ≡ true) where
  subscribed-IsListed :
      (s : String) (c : Connection)
      → IsBelow c.created c.subs
      → IsListed c.created s (subscribe config s c).subs
  subscribed-IsListed s c b r =
      let e = subscribe-effect config reconnects s c in
      rw (e.0, entry-insert s r (entry s c.subs ++ c.created ∷ []) c.subs)
        (elim (String-discrete s r) [
          | yes p ↦
              rw (if_pos (String-discrete s r) p, if_pos (String-discrete s r) p)
                (ground (
                  arith,
                  count-append c.created (entry s c.subs) (c.created ∷ []),
                  b s c.created (omega arith),
                ))
          | no n ↦
              rw (if_neg (String-discrete s r) n, if_neg (String-discrete s r) n)
                (b r c.created (omega arith))
        ])

  subscribed-IsAttached :
      (s : String) (c : Connection)
      → IsBelow c.created c.subs
      → c.closing ≡ false
      → IsAttached c.created s (subscribe config s c)
  subscribed-IsAttached s c b o =
      let e = subscribe-effect config reconnects s c in
      record {
        is_listed = subscribed-IsListed s c b;
        is_old = rw e.1 (omega arith);
        is_open = rw e.2 o;
      }

  store-subscribed :
      (s : String) (c : Connection)
      → lookup ℕ_discrete c.created (subscribe config s c).store ≡ some (new_subscription s)
  store-subscribed s c =
      ap (lookup ℕ_discrete c.created) (subscribe-effect config reconnects s c).3
      ∙ lookup-insert ℕ_discrete c.created c.created (new_subscription s) c.store
      ∙ if_pos (ℕ_discrete c.created c.created) refl _ _

  -- Take a connection with automatic reconnects that any calls and events have led to and that is
  -- not closed, and subscribe to a stream. Through any further calls and events that do not end
  -- this subscription or the connection, among them failed connects and lost sessions, its queue
  -- holds exactly the last 1024 payloads that were read for its stream, in order, and it counts the
  -- others.
  pub subscriber_hears :
      (s : String) (before after : List Move)
      → (run config before new_connection).closing ≡ false
      → All (Spares (run config before new_connection).created) after
      → lookup ℕ_discrete
          (run config before new_connection).created
          (run config after (subscribe config s (run config before new_connection))).store
        ≡ some (record {
          stream = s;
          queue =
              offered 1024
                (heard config s after (subscribe config s (run config before new_connection)));
        })
  unfolding hear
  subscriber_hears s before after o h =
      let c : Connection = run config before new_connection in
      let a = subscribed-IsAttached s c (run_new-IsBelow config before) o in
      run-Hears config reconnects c.created s after (subscribe config s c) h a
      ∙ ap (Option.map (hear (heard config s after (subscribe config s c)))) (store-subscribed s c)
      ∙ ap (λ q. some (record { stream = s; queue = q }))
          (offer_all_last 1024 (heard config s after (subscribe config s c)) (omega arith))
