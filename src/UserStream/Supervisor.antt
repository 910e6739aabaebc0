-- ===== src/UserStream/Supervisor.antt =====
-- `_UserDataConnection` of binance_th/userstream.py: its supervisor, as steps between the places
-- where it waits, over the subscribers it shares with the other connection. The closing of a socket
-- whose session is over is taken with the step that ends the session.
use Prim.Native.String.{◌++◌}
use binance_th.Prelude.{
  ℕ, suc, String, Bool, true, false, not, ◌||◌, Option, none, some, List, [], ◌∷◌, if◌then◌else◌,
  ite,
}
use binance_th.Prelude.Text.{String-discrete}
use binance_th.Prelude.Json.{Json, Fields, object, str, get}
use binance_th.Errors.Exceptions.{web_socket_error}
use binance_th.Models.Enums.{SymbolType, symbol_type_value}
use binance_th.Stream.Supervisor.{backoff_delay}
use binance_th.UserStream.Hub.{Hub, dispatch, broadcast_reconnect, fault_all}

-- Where the supervisor stands: no task, created and not yet run, in the creation of the keys, in
-- `connect` with a key, in the wait for its reader, in `sleep` for some milliseconds, or returned.
pub data Place : Type 0 where
  idle scheduled creating reading finished : Place
  connecting : String → Place
  sleeping : ℕ → Place

pub record UserConnection : Type 0 where
  pub ws : Bool
  pub supervisor : Bool
  pub closing : Bool
  pub planned : Bool
  pub first : Bool
  pub backoff : ℕ
  pub place : Place
  pub hub : Hub

abbrev pub new_user_connection : Hub → UserConnection
new_user_connection h = record {
  ws = false;
  supervisor = false;
  closing = false;
  planned = false;
  first = true;
  backoff = 0;
  place = idle;
  hub = h;
}

-- `start`
unfoldable pub start : UserConnection → UserConnection
start c = if c.supervisor then c else record c { supervisor = true; place = scheduled }

-- The head of the loop.
unfoldable pub loop_head : UserConnection → UserConnection
loop_head c = record c { place = if c.closing then finished else creating }

-- `await self._sleep(backoff.next())`: the `OverflowError` ends the task, and tells no subscriber.
abbrev pub back_off : UserConnection → UserConnection
back_off c = elim (backoff_delay c.backoff) [
  | some ms ↦ record c { place = sleeping ms; backoff = suc c.backoff }
  | none ↦ record c { place = finished }
]

abbrev pub give_up : String → UserConnection → UserConnection
give_up message c = record c { hub = fault_all (web_socket_error message) c.hub; place = finished }

-- `create` of the keys raised `BinanceThAuthError`.
abbrev pub auth_failed : String → UserConnection → UserConnection
auth_failed exc = give_up ("user-data auth failed: " ++ exc)

-- The keys were created; the argument is the one for this symbol type.
unfoldable pub key_created : SymbolType → Option String → UserConnection → UserConnection
key_created t none c = give_up ("no listenKey for " ++ symbol_type_value t) c
key_created t (some key) c = record c { place = connecting key }

-- The socket is open: on every connect but the first the order subscribers are told.
unfoldable pub connected : UserConnection → UserConnection
connected c = record c {
  hub = if c.first then c.hub else broadcast_reconnect c.hub;
  first = false;
  ws = true;
  backoff = 0;
  place = reading;
}

-- What `_handle` makes of a frame: it stops the reader, or gives it to the subscribers.
abbrev pub is_expired : Option Json → Bool
is_expired (some (str e)) = ite (String-discrete e "listenKeyExpired") true false
is_expired _ = false

unfoldable pub handle : Option Json → UserConnection → Bool × UserConnection
handle (some (object frame)) c =
    if is_expired (get "e" frame)
    then (true, c)
    else (false, record c { hub = dispatch frame c.hub })
handle _ c = (false, c)

module _ (auto_reconnect : Bool) where
  -- Any other exception of `create`, and one of `connect`, with the message of the fault.
  unfoldable pub failed : String → UserConnection → UserConnection
  failed message c = if not auto_reconnect || c.closing then give_up message c else back_off c

  unfoldable pub session_over : Bool → UserConnection → UserConnection
  unfolding loop_head
  session_over timed_out c =
      let shut : UserConnection = record c { ws = false } in
      if c.closing
      then record shut { place = finished }
      else if timed_out || c.planned
      then loop_head (record shut { planned = false })
      else if not auto_reconnect
      then give_up "user-data stream disconnected" shut
      else back_off shut

  -- A frame is read; one that says that the key has expired ends the reader with `_planned` set.
  unfoldable pub frame_read : Option Json → UserConnection → UserConnection
  unfolding handle session_over
  frame_read f c =
      if (handle f c).0 then session_over false (record c { planned = true }) else (handle f c).1

-- `aclose` of the connection.
unfoldable pub aclose : UserConnection → UserConnection
aclose c = record c {
  closing = true;
  supervisor = false;
  place = if c.supervisor then finished else c.place;
  ws = false;
}

-- What the supervisor waits for, and what others do to the connection and its subscribers. The other
-- connection reads a frame for them or connects again, or it leaves them in any other state.
pub data Event : Type 0 where
  starts runs connects sleep_ends ends session_ttl_elapses closes : Event
  creates : Option String → Event
  auth_fails create_fails connect_fails : String → Event
  reads : Option Json → Event
  subscribes : String → Event
  unsubscribes : ℕ → String → Event
  other_reads : Fields → Event
  other_reconnects : Event
  others_act : Hub → Event

abbrev pub resume : Bool → SymbolType → Event → Place → UserConnection → UserConnection
resume auto t runs scheduled c = loop_head c
resume auto t (creates key) creating c = key_created t key c
resume auto t (auth_fails exc) creating c = auth_failed exc c
resume auto t (create_fails exc) creating c = failed auto ("listenKey create failed: " ++ exc) c
resume auto t (connect_fails exc) (connecting key) c = failed auto "user-data connect failed" c
resume auto t connects (connecting key) c = connected c
resume auto t ends reading c = session_over auto false c
resume auto t session_ttl_elapses reading c = session_over auto true c
resume auto t (reads f) reading c = frame_read auto f c
resume auto t sleep_ends (sleeping ms) c = loop_head c
resume auto t _ _ c = c

unfoldable pub step : Bool → SymbolType → Event → UserConnection → UserConnection
step auto t starts c = start c
step auto t closes c = aclose c
step auto t (subscribes event_type) c = record c {
  hub = binance_th.UserStream.Hub.subscribe event_type c.hub;
}
step auto t (unsubscribes i event_type) c = record c {
  hub = binance_th.UserStream.Hub.unsubscribe i event_type c.hub;
}
step auto t (other_reads frame) c = record c { hub = dispatch frame c.hub }
step auto t other_reconnects c = record c { hub = broadcast_reconnect c.hub }
step auto t (others_act h) c = record c { hub = h }
step auto t event c = resume auto t event c.place c

unfoldable pub run : Bool → SymbolType → List Event → UserConnection → UserConnection
unfolding step
run auto t [] c = c
run auto t (e ∷ es) c = run auto t es (step auto t e c)
