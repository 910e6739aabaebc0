-- ===== src/Stream/Subscription.antt =====
-- `_Subscription` of binance_th/stream.py: what stands in its queue and what its consumer meets.
-- The objects are kept in a store under their numbers, since a connection's table and the consumer
-- share them.
use mathlib.Core.Option
use binance_th.Prelude.{
  ℕ, zero, suc, String, ◌≡◌, refl, inl, inr, ite, Option, none, some, List, [], ◌∷◌, arith,
  ℕ_discrete, Option-cases,
}
use binance_th.Prelude.Json.{Json}
use binance_th.Prelude.Dict.{Dict, lookup, insert, lookup-insert}
use binance_th.Errors.Exceptions.{Error}
use binance_th.Stream.Queue.{Queue, empty_queue, offer as queue_offer}

-- What the queue holds: a payload, `_StreamError(exc)`, `_CLOSED`, or the sentinel `_RECONNECTED`
-- of binance_th/ordertracker.py.
pub data Item : Type 0 where
  payload : Json → Item
  stream_error : Error → Item
  closed reconnected : Item

pub record Subscription : Type 0 where
  pub stream : String
  pub queue : Queue Item

-- `_QUEUE_MAXSIZE`
abbrev pub queue_maxsize : ℕ
queue_maxsize = 1024

abbrev pub new_subscription : String → Subscription
new_subscription s = record { stream = s; queue = empty_queue }

unfoldable pub offer : Item → Subscription → Subscription
offer i sub = record sub { queue = queue_offer queue_maxsize sub.queue i }

abbrev pub fault : Error → Subscription → Subscription
fault e = offer (stream_error e)

abbrev pub close : Subscription → Subscription
close = offer closed

-- What `__anext__` does: it gives a payload, raises, ends the iteration, or waits.
pub data Next : Type 0 where
  gives : Json → Next
  gives_reconnected : Next
  raises : Error → Next
  stops waits : Next

abbrev next_of : Item → Next
next_of (payload p) = gives p
next_of (stream_error e) = raises e
next_of closed = stops
next_of reconnected = gives_reconnected

abbrev pub anext : Subscription → Next × Subscription
anext sub = elim sub.queue.items [
  | [] ↦ (waits, sub)
  | i ∷ is ↦ (next_of i, record sub { queue = record sub.queue { items = is } })
]

-- The subscriptions that exist, by number.
abbrev pub Store : Type 0
Store = Dict ℕ Subscription

-- A change of the object with a number.
unfoldable pub update : ℕ → (Subscription → Subscription) → Store → Store
update i f store = elim (lookup ℕ_discrete i store) [
  | none ↦ store
  | some sub ↦ insert ℕ_discrete i (f sub) store
]

-- The same change for each number of a list, `for sub in subs: …`.
unfoldable pub update_all : List ℕ → (Subscription → Subscription) → Store → Store
unfolding update
update_all [] f store = store
update_all (i ∷ is) f store = update_all is f (update i f store)

pub lookup-update :
    (i j : ℕ) (f : Subscription → Subscription) (store : Store)
    → lookup ℕ_discrete j (update i f store)
      ≡ ite (ℕ_discrete i j) (Option.map f (lookup ℕ_discrete j store)) (lookup ℕ_discrete j store)
unfolding update
lookup-update i j f store = elim (Option-cases (lookup ℕ_discrete i store)) [
  | inl missing ↦ rw (update, missing) ground (arith, missing)
  | inr (sub, e) ↦ rw (update, e, lookup-insert ℕ_discrete i j (f sub) store) ground (arith, e)
]

-- How often a number stands in a list, and a change made so often.
abbrev pub count : ℕ → List ℕ → ℕ
count j [] = 0
count j (i ∷ is) = ite (ℕ_discrete i j) (suc (count j is)) (count j is)

abbrev pub times : ℕ → (Subscription → Subscription) → Option Subscription → Option Subscription
times zero f o = o
times (suc n) f o = times n f (Option.map f o)

pub lookup-update_all :
    (is : List ℕ) (j : ℕ) (f : Subscription → Subscription) (store : Store)
    → lookup ℕ_discrete j (update_all is f store) ≡ times (count j is) f (lookup ℕ_discrete j store)
unfolding update_all
lookup-update_all [] j f store = refl
lookup-update_all (i ∷ is) j f store =
    rw (lookup-update_all is j f (update i f store), lookup-update i j f store) ground arith
