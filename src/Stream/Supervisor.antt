-- ===== src/Stream/Supervisor.antt =====
-- `_Backoff` and `_Connection._run_supervisor` of binance_th/stream.py, as steps between the places
-- where the task waits. Delays are milliseconds. The closing of a socket whose session is over is
-- taken with the step that ends the session.
use Prim.Native.String.{◌++◌}
use binance_th.Prelude.{
  ℕ, suc, ltb, ◌*◌, ◌^◌, min, String, Bool, true, false, not, ◌||◌, Option, none, some, List, [],
  ◌∷◌, if◌then◌else◌,
}
use binance_th.Prelude.Json.{Json}
use binance_th.Prelude.Dict.{keys}
use binance_th.Errors.Exceptions.{web_socket_error, ok, raise}
use binance_th.Stream.Connection.{
  WsConfig, Connection, connect, close_socket, Position, scheduled, connecting, reading, finished,
  crashed, sleeping, subscribe, unsubscribe, dispatch, fault_all, aclose,
}

-- `_Backoff` with the defaults, a base of 0.5 s and a cap of 30 s.
abbrev pub backoff_base : ℕ
backoff_base = 500

abbrev pub backoff_cap : ℕ
backoff_cap = 30000

-- From this exponent on `2**n` is too large for a float.
abbrev pub backoff_limit : ℕ
backoff_limit = 1024

-- `_Backoff.next` after `n` others: the delay, or `none` for the `OverflowError`.
unfoldable pub backoff_delay : ℕ → Option ℕ
backoff_delay n =
    if ltb n backoff_limit then some (min (backoff_base * 2 ^ n) backoff_cap) else none

-- The head of the loop: it ends, or it builds the URL from the streams that are desired now.
unfoldable pub loop_head : Connection → Connection
loop_head c =
    if c.closing
    then record c { position = finished }
    else record c { position = connecting; wire = connect (keys c.desired) ∷ c.wire }

-- `await self._sleep(backoff.next())`: the `OverflowError` ends the task, and tells no subscriber.
abbrev pub back_off : Connection → Connection
back_off c = elim (backoff_delay c.backoff) [
  | some ms ↦ record c { position = sleeping ms; backoff = suc c.backoff }
  | none ↦ record c { position = crashed }
]

-- The task has failed for good: every subscriber is told, and it returns.
abbrev pub give_up : String → Connection → Connection
give_up message c = record (fault_all (web_socket_error message) c) { position = finished }

abbrev pub connected : Connection → Connection
connected c = record c { ws = true; backoff = 0; position = reading }

module _ (config : WsConfig) where
  -- `connect` raised, and `exc` is the text of the exception.
  unfoldable pub connect_failed : String → Connection → Connection
  unfolding loop_head backoff_delay
  connect_failed exc c =
      if not config.ws_auto_reconnect || c.closing
      then give_up ("WebSocket connect failed: " ++ exc) c
      else back_off c

  -- The wait for the reader is over, by its end or by the time limit.
  unfoldable pub session_over : Bool → Connection → Connection
  unfolding loop_head backoff_delay
  session_over timed_out c =
      let shut : Connection = record c { ws = false; wire = close_socket ∷ c.wire } in
      if c.closing
      then record shut { position = finished }
      else if timed_out || c.planned
      then loop_head (record shut { planned = false })
      else if not config.ws_auto_reconnect
      then give_up "WebSocket disconnected" shut
      else back_off shut

  -- A frame is read; an exception of `_dispatch` ends the reader.
  unfoldable pub frame_read : Option Json → Connection → Connection
  unfolding session_over
  frame_read f c = elim (dispatch f c) [ ok d ↦ d | raise e ↦ session_over false c ]

-- What happens to a connection: a call of one of its methods, or what its supervisor waits for.
pub data Move : Type 0 where
  subscribes : String → Move
  unsubscribes : ℕ → String → Move
  closes : Move
  starts connects sleep_ends ends session_ttl_elapses : Move
  connect_fails : String → Move
  reads : Option Json → Move

-- What the supervisor does when it is woken; in another place it is not waiting for that.
abbrev pub resume : WsConfig → Move → Position → Connection → Connection
resume config starts scheduled c = loop_head c
resume config connects connecting c = connected c
resume config (connect_fails exc) connecting c = connect_failed config exc c
resume config ends reading c = session_over config false c
resume config session_ttl_elapses reading c = session_over config true c
resume config (reads f) reading c = frame_read config f c
resume config sleep_ends (sleeping ms) c = loop_head c
resume config _ _ c = c

unfoldable pub step : WsConfig → Move → Connection → Connection
step config (subscribes s) c = subscribe config s c
step config (unsubscribes i s) c = unsubscribe config i s c
step config closes c = aclose c
step config move c = resume config move c.position c

unfoldable pub run : WsConfig → List Move → Connection → Connection
unfolding step
run config [] c = c
run config (m ∷ ms) c = run config ms (step config m c)
