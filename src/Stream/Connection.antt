-- ===== src/Stream/Connection.antt =====
-- `_Connection` of binance_th/stream.py: the table of subscribers of one socket, and the frames
-- that are read from it. The supervisor's place in its loop is part of the state.
use binance_th.Prelude.{
  ◌&&◌, ℕ, suc, String, Bool, true, false, not, Option, none, some, List, [], ◌∷◌, ◌++◌, ite,
  ℕ_discrete, if◌then◌else◌, or_else, is_some,
}
use binance_th.Prelude.Text.{String-discrete}
use binance_th.Prelude.Json.{Json, object, str, array, get}
use binance_th.Prelude.Dict.{Dict, values, lookup, insert, erase}
use binance_th.Errors.Exceptions.{Error, foreign, Result, ok, raise}
use binance_th.Stream.Subscription.{
  Subscription, Store, payload, new_subscription, offer, fault, close, update, update_all,
}

-- The settings that the connection reads.
pub record WsConfig : Type 0 where
  pub ws_base_url_global : String
  pub ws_base_url_site : String
  pub ws_auto_reconnect : Bool
  pub ws_supports_live_subscribe : Bool

pub data Method : Type 0 where
  subscribe_method unsubscribe_method : Method

-- What the connection hands to the `websockets` library: the streams of the URL it connects to, a
-- control frame with its id, and the closing of the socket.
pub data Wire : Type 0 where
  connect : List String → Wire
  frame : Method → String → ℕ → Wire
  close_socket : Wire

-- Where the supervisor task stands: no task, created and not yet run, in `connect`, in the wait for
-- its reader, in `sleep` for some milliseconds, returned, or ended by an exception.
pub data Position : Type 0 where
  idle scheduled connecting reading finished crashed : Position
  sleeping : ℕ → Position

pub record Connection : Type 0 where
  pub desired : Dict String Unit
  pub subs : Dict String (List ℕ)
  pub ws : Bool
  pub supervisor : Bool
  pub closing : Bool
  pub planned : Bool
  pub req_id : ℕ
  pub backoff : ℕ
  pub position : Position
  pub store : Store
  pub created : ℕ
  pub wire : List Wire

abbrev pub new_connection : Connection
new_connection = record {
  desired = [];
  subs = [];
  ws = false;
  supervisor = false;
  closing = false;
  planned = false;
  req_id = 0;
  backoff = 0;
  position = idle;
  store = [];
  created = 0;
  wire = [];
}

-- `self._subs.get(stream, ())`
abbrev pub entry : String → Dict String (List ℕ) → List ℕ
entry s subs = or_else (lookup String-discrete s subs) []

abbrev pub is_empty : {A : Type 0} → List A → Bool
is_empty [] = true
is_empty (x ∷ xs) = false

-- `subs.remove(sub)`: the first one goes.
unfoldable pub remove : ℕ → List ℕ → List ℕ
remove i [] = []
remove i (j ∷ js) = let rest = remove i js in ite (ℕ_discrete j i) js (j ∷ rest)

module _ (config : WsConfig) where
  -- `_apply_stream`; a failure of `send` or `close` is suppressed.
  unfoldable pub apply_stream : String → Method → Connection → Connection
  apply_stream s method c =
      if not c.ws
      then c
      else if config.ws_supports_live_subscribe
      then record c { req_id = suc c.req_id; wire = frame method s (suc c.req_id) ∷ c.wire }
      else if not (is_empty c.desired)
      then record c { planned = true; wire = close_socket ∷ c.wire }
      else c

  -- The new subscriber has the number `c.created`.
  unfoldable pub subscribe : String → Connection → Connection
  unfolding apply_stream
  subscribe s c =
      let first = not (is_some (lookup String-discrete s c.subs)) in
      let added : Connection = record c {
        subs = insert String-discrete s (entry s c.subs ++ c.created ∷ []) c.subs;
        desired = insert String-discrete s tt c.desired;
        store = insert ℕ_discrete c.created (new_subscription s) c.store;
        created = suc c.created;
      } in
      if not c.supervisor
      then record added { supervisor = true; position = scheduled }
      else if first
      then apply_stream s subscribe_method added
      else added

  -- `unsubscribe(sub)`, where `sub` has the number `i` and reads the stream `s`.
  unfoldable pub unsubscribe : ℕ → String → Connection → Connection
  unfolding apply_stream remove
  unsubscribe i s c =
      let closed_store = update i close c.store in
      elim (lookup String-discrete s c.subs) [
        | none ↦ record c { store = closed_store }
        | some is ↦
            let left = remove i is in
            if is_empty left
            then apply_stream s unsubscribe_method (record c {
              store = closed_store;
              subs = erase String-discrete s c.subs;
              desired = erase String-discrete s c.desired;
            })
            else record c { store = closed_store; subs = insert String-discrete s left c.subs }
      ]

-- `self._subs.get(frame["stream"], ())`: the keys are texts, and a list or a dict cannot be hashed.
abbrev pub receivers : Json → Dict String (List ℕ) → Result (List ℕ)
receivers (str s) subs = ok (entry s subs)
receivers (array _) subs = raise (foreign "TypeError")
receivers (object _) subs = raise (foreign "TypeError")
receivers _ subs = ok []

abbrev pub deliver : Option Json → Option Json → Connection → Result Connection
deliver (some name) (some body) c = elim (receivers name c.subs) [
  | ok is ↦ ok (record c { store = update_all is (offer (payload body)) c.store })
  | raise e ↦ raise e
]
deliver _ _ c = ok c

-- `_dispatch` of what `json.loads` makes of a frame, `none` where that raises.
unfoldable pub dispatch : Option Json → Connection → Result Connection
dispatch (some (object f)) c = deliver (get "stream" f) (get "data" f) c
dispatch _ c = ok c

abbrev pub for_each : (Subscription → Subscription) → List (List ℕ) → Store → Store
for_each f [] store = store
for_each f (is ∷ iss) store = for_each f iss (update_all is f store)

-- `_fault_all`
unfoldable pub fault_all : Error → Connection → Connection
fault_all e c = record c { store = for_each (fault e) (values c.subs) c.store }

abbrev pub has_crashed : Position → Bool
has_crashed crashed = true
has_crashed _ = false

-- `aclose`: the supervisor task is cancelled, wherever it waits. A task that has ended with an
-- exception raises it where it is awaited, and the rest is left undone.
unfoldable pub aclose : Connection → Connection
aclose c =
    if c.supervisor && has_crashed c.position
    then record c { closing = true; supervisor = false }
    else record c {
      closing = true;
      supervisor = false;
      position = if c.supervisor then finished else c.position;
      ws = false;
      wire = if c.ws then close_socket ∷ c.wire else c.wire;
      store = for_each close (values c.subs) c.store;
      subs = [];
      desired = [];
    }
