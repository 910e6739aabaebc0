-- ===== src/UserStream/Tests.antt =====
-- The user-data stream of binance_th/userstream.py and binance_th/listenkey.py on small runs.
use binance_th.Prelude.{
  ℕ, suc, String, List, ◌≡◌, refl, Bool, true, false, Option, none, some, [], ◌∷◌, ◌++◌, arith,
  ℕ_discrete,
}
use mathlib.Core.Option
use binance_th.Prelude.Json.{Json, object, str, field, end}
use binance_th.Prelude.Dict.{lookup}
use binance_th.Errors.Exceptions.{web_socket_error}
use binance_th.Models.Enums.{global, site}
use binance_th.Transport.Pipeline.{Env}
use binance_th.Transport.Sample.{sample_env, sample_world, answer}
use binance_th.Stream.Subscription.{Subscription, new_subscription, fault, times}
use binance_th.Stream.Listed.{hear}
use binance_th.UserStream.ListenKey.{Manager, close}
use binance_th.UserStream.ListenKey.Keys.{Visited, close-Visited}
use binance_th.UserStream.Hub.{Hub, order_event, broadcast_reconnect}
use binance_th.UserStream.Supervisor.{
  UserConnection, new_user_connection, creating, reading, finished, Event, starts, runs, creates,
  connects, ends, other_reconnects, subscribes, sleep_ends, reads, auth_fails, step, run,
}
use binance_th.Prelude.Int.{pos}
use binance_th.Models.Orders.{Order, ExecutionReportEvent}
use binance_th.OrderTracker.Sync
use binance_th.UserStream.Tracking.{EndsSeeded, reconnects, decode_reports, reconnect_reseeds}
use binance_th.UserStream.Reports.{reports, run-reports}
use binance_th.UserStream.Expiry.{expired_key_replaced, auth_refused}

abbrev order_hub : Hub
order_hub = record {
  subs = (order_event, 0 ∷ []) ∷ [];
  store = (0, new_subscription order_event) ∷ [];
  created = 1;
}

abbrev frame : String → Option Json
frame e = some (object (field "e" (str e) end))

-- One report in each of two sessions.
abbrev two_sessions : List Event
two_sessions =
    starts
    ∷ runs
    ∷ creates (some "key")
    ∷ connects
    ∷ reads (frame order_event)
    ∷ subscribes order_event
    ∷ ends
    ∷ other_reconnects
    ∷ sleep_ends
    ∷ creates (some "key2")
    ∷ connects
    ∷ reads (frame order_event)
    ∷ []

run-reports_example :
    lookup ℕ_discrete 0 (run true global two_sessions (new_user_connection order_hub)).hub.store
    ≡ Option.map
        (hear (reports global two_sessions (new_user_connection order_hub)))
        (lookup ℕ_discrete 0 order_hub.store)
unfolding lookup
run-reports_example =
    run-reports global 0 two_sessions (new_user_connection order_hub)
      (tt, (tt, (tt, (tt, (tt, (tt, (tt, (tt, (tt, (tt, (tt, (tt, tt)))))))))))) (λ r. ground arith)
      refl (omega arith)

abbrev later_session : UserConnection
later_session = record (new_user_connection order_hub) {
  place = reading;
  first = false;
  ws = true;
  supervisor = true;
}

expired_key_replaced_example :
    let d : UserConnection =
      run false site
        (reads (frame "listenKeyExpired") ∷ creates (some "key2") ∷ connects ∷ [])
        later_session in
    (d.place ≡ reading) × (d.hub ≡ broadcast_reconnect order_hub) × (d.planned ≡ false)
unfolding binance_th.Prelude.Json.get binance_th.Prelude.Text.String-discrete
expired_key_replaced_example =
    expired_key_replaced false site (field "e" (str "listenKeyExpired") end) "key2" later_session
      refl refl refl refl

abbrev in_creation : UserConnection
in_creation = record (new_user_connection order_hub) { place = creating; supervisor = true }

auth_refused_sample :
    ((step true global (auth_fails "no") in_creation).place ≡ finished)
    × (lookup ℕ_discrete 0 (step true global (auth_fails "no") in_creation).hub.store
        ≡ times 1
            (fault (web_socket_error "user-data auth failed: no"))
            (lookup ℕ_discrete 0 order_hub.store))
unfolding lookup ℕ_discrete
auth_refused_sample = auth_refused true global "no" in_creation 0 refl

abbrev env : Env (Unit {0})
env = sample_env (λ j. none) (λ j. none) (λ log request. answer 500 (object end))

abbrev two_keys : Manager
two_keys = record {
  keys = (global, "g") ∷ (site, "s") ∷ [];
  keepalive_task = true;
  closing = false;
}

close-Visited_sample :
    Visited env "DELETE" ("g" ∷ "s" ∷ []) [] (close env two_keys sample_world).1.sent
    × ((close env two_keys sample_world).0.keys ≡ [])
close-Visited_sample = close-Visited env two_keys sample_world

abbrev message : ExecutionReportEvent
message = record {
  event_time = pos 5;
  symbol = "BTCUSDT";
  client_order_id = "a";
  side = "BUY";
  order_type = "LIMIT";
  time_in_force = "GTC";
  orig_qty = pos 10;
  price = pos 100;
  stop_price = none;
  current_order_status = "FILLED";
  order_id = pos 7;
  order_list_id = none;
  cumulative_filled_qty = pos 10;
  transaction_time = some (pos 5);
  is_on_book = none;
  order_creation_time = none;
  cumulative_quote_qty = none;
  quote_order_qty = none;
}

-- A session with a report, lost, up to the next connect.
abbrev lost_session : List Event
lost_session =
    starts
    ∷ runs
    ∷ creates (some "key")
    ∷ connects
    ∷ reads (frame order_event)
    ∷ ends
    ∷ sleep_ends
    ∷ creates (some "key2")
    ∷ []

abbrev no_orders : ℕ → List Order
no_orders n = []

reconnect_reseeds_example :
    (sub : Subscription) × (lookup ℕ_discrete 0
        (run true global (lost_session ++ connects ∷ []) (new_user_connection order_hub)).hub.store
      ≡ some sub)
    × EndsSeeded (no_orders (reconnects sub.queue.items)) (
        binance_th.OrderTracker.Sync.run
          (λ k. some (no_orders k))
          (decode_reports (λ j. some message) sub.queue.items))
unfolding run reports lookup binance_th.UserStream.Supervisor.start
    binance_th.UserStream.Supervisor.loop_head binance_th.UserStream.Supervisor.key_created
    binance_th.UserStream.Supervisor.connected binance_th.UserStream.Supervisor.frame_read
    binance_th.UserStream.Supervisor.session_over binance_th.Prelude.Json.get
    binance_th.Prelude.Text.String-discrete ℕ_discrete binance_th.Stream.Supervisor.backoff_delay
reconnect_reseeds_example =
    reconnect_reseeds no_orders (λ j. some message) global 0 lost_session
      (new_user_connection order_hub) "key2" (tt, (tt, (tt, (tt, (tt, (tt, (tt, (tt, tt))))))))
      (λ r. ground arith) refl (omega arith) refl refl refl ((message, refl), tt)
