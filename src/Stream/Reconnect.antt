-- ===== src/Stream/Reconnect.antt =====
-- How `_run_supervisor` of binance_th/stream.py loses its connection, gets it back and gives up.
use Prim.Native.String.{◌++◌}
use mathlib.Core.Option
use binance_th.Prelude.{
  ℕ, zero, suc, ◌+◌, String, ◌≡◌, refl, ap, ◌∙◌, true, false, Option, List, [], ◌∷◌, arith,
  ℕ_discrete, All,
}
use binance_th.Prelude.Dict.{values, lookup}
use binance_th.Errors.Exceptions.{web_socket_error}
use binance_th.Stream.Subscription.{
  Subscription, Store, fault, update_all, count, times, lookup-update_all,
}
use binance_th.Stream.Phases.{Fits, run_new-IsPhased}
use binance_th.Stream.Connection.{
  WsConfig, Connection, new_connection, connecting, finished, for_each, apply_stream, subscribe,
  unsubscribe, fault_all,
}
use binance_th.Stream.Supervisor.{
  Move, subscribes, unsubscribes, closes, starts, connects, connect_fails, ends,
  session_ttl_elapses, reads, sleep_ends, connect_failed, step, run,
}

-- How often a number stands in all the lists.
abbrev pub total : ℕ → List (List ℕ) → ℕ
total j [] = 0
total j (is ∷ iss) = count j is + total j iss

times-times :
    (m n : ℕ) (f : Subscription → Subscription) (o : Option Subscription)
    → times n f (times m f o) ≡ times (m + n) f o
times-times zero n f o = let e : 0 + n ≡ n = omega arith in rw e refl
times-times (suc m) n f o =
    let e : suc m + n ≡ suc (m + n) = omega arith in rw e (times-times m n f (Option.map f o))

pub lookup-for_each :
    (f : Subscription → Subscription) (iss : List (List ℕ)) (store : Store) (j : ℕ)
    → lookup ℕ_discrete j (for_each f iss store) ≡ times (total j iss) f (lookup ℕ_discrete j store)
lookup-for_each f [] store j = refl
lookup-for_each f (is ∷ iss) store j =
    lookup-for_each f iss (update_all is f store) j
    ∙ ap (times (total j iss) f) (lookup-update_all is j f store)
    ∙ times-times (count j is) (total j iss) f (lookup ℕ_discrete j store)

-- Without automatic reconnects a connect that fails ends the supervisor, and each subscriber finds
-- the error in its queue, as often as it stands in the table; the table stays as it is.
pub connect_failed_gives_up :
    (config : WsConfig) (exc : String) (c : Connection) (j : ℕ)
    → config.ws_auto_reconnect ≡ false
    → ((connect_failed config exc c).position ≡ finished)
      × ((connect_failed config exc c).subs ≡ c.subs)
      × (lookup ℕ_discrete j (connect_failed config exc c).store
          ≡ times
              (total j (values c.subs))
              (fault (web_socket_error ("WebSocket connect failed: " ++ exc)))
              (lookup ℕ_discrete j c.store))
unfolding connect_failed fault_all
connect_failed_gives_up config exc c j h = rw h (
  refl,
  refl,
  lookup-for_each (fault (web_socket_error ("WebSocket connect failed: " ++ exc))) (values c.subs)
      c.store j,
)

-- The moves that are no call of `aclose`.
abbrev pub IsOpening : Move → Type 0
IsOpening closes = ⊥
IsOpening _ = Unit

-- The supervisor task exists and has returned.
abbrev pub HasEnded : Connection → Type 0
HasEnded c = (c.supervisor ≡ true) × (c.ws ≡ false) × (c.position ≡ finished)

module _ (config : WsConfig) where
  step-HasEnded :
      (m : Move) (c : Connection)
      → IsOpening m
      → HasEnded c
      → HasEnded (step config m c) × ((step config m c).wire ≡ c.wire)
  unfolding step subscribe unsubscribe apply_stream
  step-HasEnded (subscribes s) c o h = ground (arith, h.0, h.1, h.2)
  step-HasEnded (unsubscribes i s) c o h = ground (arith, h.0, h.1, h.2)
  step-HasEnded closes c o h = elim o [ ]
  step-HasEnded (connect_fails exc) c o h = ground (arith, h.0, h.1, h.2)
  step-HasEnded ends c o h = ground (arith, h.0, h.1, h.2)
  step-HasEnded session_ttl_elapses c o h = ground (arith, h.0, h.1, h.2)
  step-HasEnded (reads f) c o h = ground (arith, h.0, h.1, h.2)
  step-HasEnded starts c o h = ground (arith, h.0, h.1, h.2)
  step-HasEnded connects c o h = ground (arith, h.0, h.1, h.2)
  step-HasEnded sleep_ends c o h = ground (arith, h.0, h.1, h.2)

  run-HasEnded :
      (ms : List Move) (c : Connection)
      → All IsOpening ms
      → HasEnded c
      → HasEnded (run config ms c) × ((run config ms c).wire ≡ c.wire)
  unfolding run
  run-HasEnded [] c o h = (h, refl)
  run-HasEnded (m ∷ ms) c o h =
      let k = step-HasEnded m c o.0 h in
      let later = run-HasEnded ms (step config m c) o.1 k.0 in (later.0, later.1 ∙ k.1)

  failed-HasEnded :
      (exc : String) (c : Connection)
      → config.ws_auto_reconnect ≡ false
      → c.position ≡ connecting
      → Fits config c connecting
      → HasEnded (step config (connect_fails exc) c)
        × ((step config (connect_fails exc) c).wire ≡ c.wire)
  unfolding step connect_failed fault_all
  failed-HasEnded exc c a p f = ground (arith, a, p, f)

  -- Without automatic reconnects, once a connect has failed nothing more is sent or connected,
  -- whatever is subscribed to afterwards, until the connection is closed.
  pub gave_up_for_good :
      (exc : String) (before after : List Move)
      → config.ws_auto_reconnect ≡ false
      → (run config before new_connection).position ≡ connecting
      → All IsOpening after
      → HasEnded (run config (connect_fails exc ∷ after) (run config before new_connection))
        × ((run config (connect_fails exc ∷ after) (run config before new_connection)).wire
            ≡ (run config before new_connection).wire)
  unfolding run
  gave_up_for_good exc before after a p o =
      let c : Connection = run config before new_connection in
      let h = failed-HasEnded exc c a p (rw p at (run_new-IsPhased config before)) in
      let later = run-HasEnded after (step config (connect_fails exc) c) o h.0 in
      (later.0, later.1 ∙ h.1)
