-- ===== src/Lib.antt =====
-- binance_th: a model of the Python client for the Binance Thailand REST and WebSocket interfaces.
--
-- The program's parts, and the modules that model them:
--
-- Errors (binance_th/exceptions.py, errors.py, envelope.py): the exception hierarchy as data, the
-- map from a status and a body to an exception, and the unwrapping of enveloped bodies. A call that
-- may raise is a `Result`.
--
-- RateLimit (binance_th/ratelimit.py): the dual-window limiter. `roll`, `wait_time`,
-- `acquire_round` (the body of the lock), `acquire_from` (the loop), `update_from_headers` and
-- `reseed` have the source's names. Times are whole milliseconds. The loop runs on fuel: two rounds
-- are enough when no other task touches the windows. `History` takes any list of rounds and of
-- responses, of any number of tasks.
--
-- OrderBook (binance_th/orderbook.py): the local book (`seed`, `apply`, `best_bid`, `bids_top`,
-- ...) and the loop of `OrderBookSynchronizer.run`, with the stream of deltas as a list and the
-- depth provider as a parameter that gives its n-th snapshot or raises.
--
-- OrderTracker (binance_th/ordertracker.py): the view of open orders and the loop of
-- `OrderTrackerSynchronizer.run`, in the same way.
--
-- Validation (binance_th/validation.py): snapping with the rounding of Python's `decimal` at its
-- default precision of 28 digits, and `validate_order`. A decimal is an integer count of a unit
-- below every digit in use.
--
-- Retry (binance_th/retry.py): the loop of `BackoffRetryer.run` over any state, with the random
-- draw as a parameter. A delay whose power is too large for a float is the `OverflowError` that
-- Python raises.
--
-- Signing, TimeSync (binance_th/signing.py, timesync.py): signed parameters, with the HMAC digest
-- as a parameter, and the clock offset.
--
-- Transport (binance_th/transport.py): `request`, `attempt`, `execute` and `sync_time` as
-- operations on a state that holds the offset, the limiter and the log of all requests with their
-- replies. The HTTP client is any function of the log and the request, so that a theorem holds for
-- every behaviour of the network and the exchange; `Transport.Sample` is one, for the tests.
-- `Paced` is the pipeline with the limiter of RateLimit. `Wiring` is `Transport.__init__` with
-- `_resolve_limiter` and `_resolve_retryer`.
--
-- Client (binance_th/client.py): the cache of `exchange_info`; `Lifecycle` is the client over its
-- market streams, user-data stream and transport, with `ping` and `aclose`, the one of the
-- transport included.
--
-- Orders (binance_th/orders.py): `create_order` on top of Transport, Client and Validation, with
-- the reconciliation of an order whose outcome is unknown, the resolution of its arguments, and
-- `cancel_order`. The proofs are in `Safety`, `Outcome`, `Named` (the id of an order in what is
-- sent) and beside the operations.
--
-- Pagination (binance_th/pagination.py): `iter_time_windows` as the list of what it yields, and in
-- `Iterate` over a fetch that changes a state and may raise. It runs on fuel: one window for each
-- millisecond of the range and one more are enough.
--
-- Idempotency (binance_th/idempotency.py): the minted client order id. The digits are computed on
-- fuel, of which the number itself is enough, since each turn divides it by 36.
--
-- Stream (binance_th/stream.py): `Queue` and `Subscription` are `_Subscription`, kept in a store
-- under numbers, since the table of a connection and the consumer share the object. `Connection` is
-- `_Connection` with its table of subscribers, `subscribe`, `unsubscribe`, `_apply_stream`,
-- `_dispatch` and `aclose`; `Supervisor` is `_Backoff` and `_run_supervisor` as steps between the
-- awaits of the task, and a run is any list of calls and of outcomes of what the task waits for.
-- `Router` and `Client` are `StreamRouter` and `StreamClient`. What goes to the `websockets`
-- library is a log. The proofs are in `Agree` and `Table` (the table of streams), `Listed`,
-- `Attached`, `Frames`, `Delivery`, `Fresh` and `Heard` (what a subscriber gets), `Phases`,
-- `Recovery` and `Reconnect` (losing and regaining the connection), `Served`, `Linked` and `InStep`
-- (what the exchange is asked for), and `Routing`.
--
-- UserStream (binance_th/listenkey.py, userstream.py): `ListenKey` is `RestListenKeyManager` on top
-- of Transport, and `ListenKey.Flight` the task that callers of `create` share, with any order of
-- their turns; `Lifecycle` is `_ensure_started`, `aclose` and the start of the `watch` methods of
-- `UserDataStream`, and `Watch` the generators of these methods; `Hub` is the table of subscribers
-- of `UserDataStream`, and `Supervisor` is `_UserDataConnection` with its supervisor, in the same
-- way as in Stream, with events for what the connection of the other key does to that table. The
-- proofs are in `ListenKey.Keys`, `Items`, `Reports`, `Expiry`, `Ended` and `Tracking`, the last
-- with OrderTracker.
--
-- Managed (binance_th/orderbook.py, ordertracker.py): the background task of `ManagedOrderBook` and
-- `OrderTracker`, with `start` and `aclose`, over any view.
--
-- Resources (binance_th/market.py, account.py, wallet.py, and the reads of client.py and
-- orders.py): each method as the call that it makes of Transport, and what becomes of the body.
-- `Histories` has the `iter_` methods on top of `iterate`, and `Candles` shows what `iter_klines`
-- yields of a history of candles.
--
-- Redaction (binance_th/redaction.py): the masking of sensitive fields in what is logged. `Query`
-- is `redact_query`, its regular expression as a scan from left to right; `Logging` is what
-- Transport hands to its logger.
--
-- Config (binance_th/config.py): the settings with their defaults and bounds.
--
-- Models (binance_th/models): the payloads and their own methods. In `Base`, and in the execution
-- report of `Orders`, they have the fields that the modelled code reads; in `Trades`, `Tickers`,
-- `Depth`, `Account`, `Stream` and `UserData` all of them.
--
-- Prelude: the helpers that the components share: lists and dicts in insertion order, the integers
-- over native numbers, ASCII text, decoded JSON.
--
-- Bounds: texts are ASCII where they are compared without case, stripped or parsed; the clock is
-- monotonic where a theorem says so; floats are exact numbers, with the `OverflowError` of a delay
-- that is too large for one, and a retry-after header is read as an integer, as the code does.
--
-- In Stream and UserStream delays are milliseconds, and the `OverflowError` of `_Backoff.next` ends
-- the task of the supervisor; a step takes the closing of a socket whose session is over together
-- with the end of the session; a call of `send` or `close` whose failure the code suppresses is in
-- the log whether it fails or not.
--
-- Not modelled: input and output (httpx, websockets), pydantic's parsing of payloads and the
-- reading of the environment, the timer of the keepalive task, and the cancelling of tasks other
-- than by `aclose`.
pub mod Prelude
pub mod Models
pub mod Errors
pub mod RateLimit
pub mod OrderBook
pub mod OrderTracker
pub mod Validation
pub mod Signing
pub mod TimeSync
pub mod Retry
pub mod Transport
pub mod Client
pub mod Idempotency
pub mod Orders
pub mod Pagination
pub mod Stream
pub mod UserStream
pub mod Managed
pub mod Resources
pub mod Redaction
pub mod Config
