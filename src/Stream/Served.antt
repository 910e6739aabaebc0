-- ===== src/Stream/Served.antt =====
-- What a `_Connection` of binance_th/stream.py has asked the exchange for, with control frames.
use binance_th.Prelude.{
  ℕ, suc, String, ◌≡◌, refl, sym, ap, Bool, true, false, not, Option, none, some, List, [], ◌∷◌,
  arith, if◌then◌else◌, is_some, if_pos, if_neg,
}
use binance_th.Prelude.Text.{String-discrete}
use binance_th.Prelude.Dict.{Dict, keys, lookup, insert, erase, lookup-insert, lookup-erase}
use binance_th.Stream.Agree.{Agrees}
use binance_th.Stream.Connection.{
  WsConfig, Connection, Position, Wire, connect, frame, close_socket, subscribe_method,
  unsubscribe_method, connecting, reading, is_empty, remove, apply_stream, subscribe, unsubscribe,
}
use binance_th.Stream.Supervisor.{Move, subscribes, unsubscribes, step}

-- A set of the streams of a list.
abbrev pub from : List String → Dict String (Unit {0})
from [] = []
from (s ∷ ss) = (s, tt) ∷ from ss

-- The streams that the exchange then sends: those of the last URL, changed by the frames after it.
abbrev pub served : List Wire → Dict String (Unit {0})
served [] = []
served (connect ss ∷ w) = from ss
served (frame subscribe_method s n ∷ w) = insert String-discrete s tt (served w)
served (frame unsubscribe_method s n ∷ w) = erase String-discrete s (served w)
served (close_socket ∷ w) = []

pub from-keys : (d : Dict String (Unit {0})) → from (keys d) ≡ d
from-keys [] = refl
from-keys ((k, u) ∷ d) = ap (λ t. (k, tt) ∷ t) (from-keys d)

-- Two sets with the same members.
abbrev pub Same : Dict String (Unit {0}) → Dict String (Unit {0}) → Type 0
Same d e = (r : String) → lookup String-discrete r d ≡ lookup String-discrete r e

pub insert-Same :
    (s : String) (d e : Dict String (Unit {0}))
    → Same d e
    → Same (insert String-discrete s tt d) (insert String-discrete s tt e)
insert-Same s d e h r =
    rw (lookup-insert String-discrete s r tt d, lookup-insert String-discrete s r tt e, h r) refl

pub erase-Same :
    (s : String) (d e : Dict String (Unit {0}))
    → Same d e
    → Same (erase String-discrete s d) (erase String-discrete s e)
erase-Same s d e h r =
    rw (lookup-erase String-discrete s r d, lookup-erase String-discrete s r e, h r) refl

pub insert_present-Same :
    (s : String) (d e : Dict String (Unit {0}))
    → lookup String-discrete s e ≡ some tt
    → Same d e
    → Same d (insert String-discrete s tt e)
insert_present-Same s d e p h r =
    rw (h r, lookup-insert String-discrete s r tt e)
      (elim (String-discrete s r) [
        | yes q ↦ rw (if_pos (String-discrete s r) q, sym q) p
        | no n ↦ rw (if_neg (String-discrete s r) n) refl
      ])

pub listed_desired : (o : Option (Unit {0})) (is : List ℕ) → Agrees o (some is) → o ≡ some tt
listed_desired none is h = elim h [ ]
listed_desired (some u) is h = refl

abbrev pub is_linked : Position → Bool
is_linked connecting = true
is_linked reading = true
is_linked _ = false

-- In a connect or a session, what is asked for is what is desired.
abbrev pub InStep : Connection → Type 0
InStep c = is_linked c.position ≡ true → Same (served c.wire) c.desired

-- A change of the table that does not fall between the start and the end of a connect.
abbrev pub IsTimely : Move → Position → Type 0
IsTimely (subscribes s) connecting = ⊥
IsTimely (unsubscribes i s) connecting = ⊥
IsTimely _ _ = Unit

-- Each move of a run is timely.
abbrev pub AllTimely : WsConfig → List Move → Connection → Type 0
AllTimely config [] c = Unit
AllTimely config (m ∷ ms) c = IsTimely m c.position × AllTimely config ms (step config m c)

module _ (config : WsConfig) (live : config.ws_supports_live_subscribe ≡ true) where
  pub wire-subscribe :
      (s : String) (c : Connection)
      → c.supervisor ≡ true
      → c.ws ≡ true
      → ((subscribe config s c).position ≡ c.position)
        × ((subscribe config s c).wire ≡ (
            if not (is_some (lookup String-discrete s c.subs))
            then frame subscribe_method s (suc c.req_id) ∷ c.wire
            else c.wire))
  unfolding subscribe apply_stream
  wire-subscribe s c p w = ground (arith, p, w, live)

  pub subscribe_unlinked :
      (s : String) (c : Connection)
      → is_linked c.position ≡ false
      → is_linked (subscribe config s c).position ≡ false
  unfolding subscribe apply_stream
  subscribe_unlinked s c p = ground (arith, p)

  pub wire-unsubscribe :
      (i : ℕ) (s : String) (is : List ℕ) (c : Connection)
      → c.ws ≡ true
      → lookup String-discrete s c.subs ≡ some is
      → (unsubscribe config i s c).wire ≡ (
          if is_empty (remove i is)
          then frame unsubscribe_method s (suc c.req_id) ∷ c.wire
          else c.wire)
  unfolding unsubscribe apply_stream
  wire-unsubscribe i s is c w e = ground (arith, w, e, live)

  pub wire-unsubscribe_unknown :
      (i : ℕ) (s : String) (c : Connection)
      → lookup String-discrete s c.subs ≡ none
      → (unsubscribe config i s c).wire ≡ c.wire
  unfolding unsubscribe
  wire-unsubscribe_unknown i s c e = ground (arith, e)

  pub position-unsubscribe :
      (i : ℕ) (s : String) (c : Connection) → (unsubscribe config i s c).position ≡ c.position
  unfolding unsubscribe apply_stream
  position-unsubscribe i s c = ground arith
