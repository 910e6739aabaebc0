-- ===== src/Stream/Tests.antt =====
-- binance_th/stream.py on small runs: the queue with room for two items, and a connection that is
-- lost and gets its second stream back.
use binance_th.Prelude.{
  ℕ, suc, ◌*◌, ◌^◌, min, String, List, ◌≡◌, refl, Bool, true, false, Option, some, [], ◌∷◌, arith,
  ℕ_discrete,
}
use binance_th.Prelude.Text.{String-discrete}
use binance_th.Prelude.Int.{pos}
use binance_th.Prelude.Json.{Json, object, int, str, field, end}
use binance_th.Prelude.Dict.{lookup, values}
use binance_th.Errors.Exceptions.{Result, ok, web_socket_error}
use binance_th.Stream.Queue.{empty_queue, offer_all, offered, offer_all_last}
use binance_th.Stream.Subscription.{fault, times}
use binance_th.Stream.Connection.{
  WsConfig, Connection, new_connection, subscribe, connecting, finished, sleeping,
}
use binance_th.Stream.Supervisor.{
  Move, subscribes, unsubscribes, closes, starts, connects, connect_fails, ends,
  session_ttl_elapses, reads, sleep_ends, connect_failed, step, run,
}
use binance_th.Stream.Table.{IsConsistent, run_new-IsConsistent}
use binance_th.Stream.Agree.{Agrees}
use binance_th.Stream.Delivery.{heard}
use binance_th.Stream.Heard.{subscriber_hears}
use binance_th.Stream.Served.{served}
use binance_th.Stream.InStep.{served-subs}
use binance_th.Stream.Recovery.{outage, outage_schedule}
use binance_th.Stream.Reconnect.{HasEnded, total, connect_failed_gives_up, gave_up_for_good}
use binance_th.Stream.Router.{SymbolTypeInfo}

abbrev three : List ℕ
three = 1 ∷ 2 ∷ 3 ∷ []

offer_all_last_sample : offer_all 2 empty_queue three ≡ offered 2 three
offer_all_last_sample = offer_all_last 2 three (omega arith)

offer_all_runs : offer_all 2 empty_queue three ≡ record { items = 2 ∷ 3 ∷ []; lagged = 1 }
unfolding offer_all
offer_all_runs = refl

abbrev config : Bool → WsConfig
config auto = record {
  ws_base_url_global = "wss://global";
  ws_base_url_site = "wss://site";
  ws_auto_reconnect = auto;
  ws_supports_live_subscribe = true;
}

abbrev frame_of : String → ℕ → Option Json
frame_of s n = some (object (field "stream" (str s) (field "data" (int (pos n)) end)))

-- The first stream is read, and the connection is in its first session.
abbrev in_session : List Move
in_session = subscribes "a" ∷ starts ∷ connects ∷ []

-- A frame, a lost session, a connect that fails, and another frame.
abbrev interrupted : List Move
interrupted =
    reads (frame_of "b" 1)
    ∷ reads (frame_of "a" 7)
    ∷ ends
    ∷ sleep_ends
    ∷ connect_fails "refused"
    ∷ sleep_ends
    ∷ connects
    ∷ reads (frame_of "b" 2)
    ∷ []

subscriber_hears_example :
    lookup ℕ_discrete
      (run (config true) in_session new_connection).created
      (run
        (config true)
        interrupted
        (subscribe (config true) "b" (run (config true) in_session new_connection))).store
    ≡ some (record {
      stream = "b";
      queue = offered 1024 (
          heard
            (config true)
            "b"
            interrupted
            (subscribe (config true) "b" (run (config true) in_session new_connection)));
    })
unfolding run subscribe binance_th.Stream.Supervisor.loop_head
subscriber_hears_example =
    subscriber_hears (config true) refl "b" in_session interrupted refl
      (tt, (tt, (tt, (tt, (tt, (tt, (tt, (tt, tt))))))))

abbrev changed : List Move
changed = subscribes "a" ∷ starts ∷ connects ∷ subscribes "b" ∷ unsubscribes 0 "a" ∷ []

run_new-IsConsistent_example : IsConsistent (run (config true) changed new_connection)
run_new-IsConsistent_example = run_new-IsConsistent (config true) changed

served-subs_example :
    Agrees
      (lookup String-discrete "b" (served (run (config true) changed new_connection).wire))
      (lookup String-discrete "b" (run (config true) changed new_connection).subs)
unfolding run subscribe binance_th.Stream.Supervisor.loop_head lookup binance_th.Prelude.Dict.insert
    String-discrete binance_th.Stream.Connection.unsubscribe ℕ_discrete
served-subs_example =
    served-subs (config true) refl changed (tt, (tt, (tt, (tt, (tt, tt))))) refl "b"

abbrev lost : List Move
lost = subscribes "a" ∷ starts ∷ connects ∷ ends ∷ []

outage_schedule_example :
    (run
      (config true)
      (ends ∷ outage "refused" 7)
      (run (config true) in_session new_connection)).position
    ≡ sleeping 30000
unfolding run subscribe binance_th.Stream.Supervisor.loop_head
outage_schedule_example = outage_schedule (config true) refl "refused" 7 in_session refl refl

abbrev first_connect : List Move
first_connect = subscribes "a" ∷ starts ∷ []

connect_failed_gives_up_sample :
    let c : Connection = run (config false) first_connect new_connection in
    let d : Connection = connect_failed (config false) "refused" c in
    (d.position ≡ finished)
    × (d.subs ≡ c.subs)
    × (lookup ℕ_discrete 0 d.store
        ≡ times
            (total 0 (values c.subs))
            (fault (web_socket_error "WebSocket connect failed: refused"))
            (lookup ℕ_discrete 0 c.store))
connect_failed_gives_up_sample =
    connect_failed_gives_up (config false) "refused"
      (run (config false) first_connect new_connection) 0 refl

gave_up_for_good_example :
    let c : Connection = run (config false) first_connect new_connection in
    let d : Connection =
      run (config false) (connect_fails "refused" ∷ subscribes "b" ∷ starts ∷ []) c in
    HasEnded d × (d.wire ≡ c.wire)
unfolding run subscribe binance_th.Stream.Supervisor.loop_head
gave_up_for_good_example =
    gave_up_for_good (config false) "refused" first_connect (subscribes "b" ∷ starts ∷ []) refl refl
      (tt, (tt, tt))

abbrev types_of : ℕ → String → Result (List SymbolTypeInfo)
types_of n s = ok (record { symbol = s; symbol_type = "GLOBAL" } ∷ [])
