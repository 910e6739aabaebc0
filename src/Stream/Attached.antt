-- ===== src/Stream/Attached.antt =====
-- A subscription that stays in the table of a `_Connection` of binance_th/stream.py.
use mathlib.Core.Option
use binance_th.Prelude.{
  ℕ, suc, ◌<◌, String, ◌≡◌, refl, sym, ap, ◌∙◌, inl, inr, Bool, true, false, Option, none, some,
  List, [], ◌∷◌, ◌++◌, arith, Bool-cases, Option-cases, if◌then◌else◌, ℕ_discrete,
}
use binance_th.Prelude.Text.{String-discrete}
use binance_th.Prelude.Dict.{Dict, lookup, insert, erase}
use binance_th.Stream.Queue.{offer_all}
use binance_th.Stream.Subscription.{Item, Subscription, close, update, count, new_subscription}
use binance_th.Stream.Connection.{
  WsConfig, Connection, Position, reading, entry, is_empty, remove, apply_stream, subscribe,
  unsubscribe,
}
use binance_th.Stream.Supervisor.{
  Move, unsubscribes, closes, reads, loop_head, connect_failed, session_over,
}
use binance_th.Stream.Listed.{
  addressed, hear, IsListed, count-append, count-remove, count_empty, insert-IsListed,
  erase-IsListed,
}

-- The subscription `j` reads the stream `s` of an open connection.
pub record IsAttached (j : ℕ) (s : String) (c : Connection) : Type 0 where
  pub is_listed : IsListed j s c.subs
  pub is_old : j < c.created
  pub is_open : c.closing ≡ false

-- A move that is not the end of the subscription `j` or of the connection.
abbrev pub Spares : ℕ → Move → Type 0
Spares j (unsubscribes i s) = ¬ (i ≡ j)
Spares j closes = ⊥
Spares j _ = Unit

-- What the subscribers of a stream get by a move.
abbrev pub items_of : String → Move → Position → List Item
items_of s (reads f) reading = addressed s f
items_of s _ _ = []

-- A step that a subscriber of another stream cannot tell from none.
abbrev pub IsQuiet : Connection → Connection → Type 0
IsQuiet c d =
    (d.subs ≡ c.subs) × (d.created ≡ c.created) × (d.closing ≡ c.closing) × (d.store ≡ c.store)

pub hear_nothing : (o : Option Subscription) → Option.map (hear []) o ≡ o
unfolding hear offer_all
hear_nothing none = refl
hear_nothing (some sub) = refl

pub removed-IsListed :
    (i j : ℕ) (s r : String) (is : List ℕ) (t : Dict String (List ℕ))
    → ¬ (i ≡ j)
    → lookup String-discrete r t ≡ some is
    → IsListed j s t
    → IsListed j s (
        if is_empty (remove i is)
        then erase String-discrete r t
        else insert String-discrete r (remove i is) t)
removed-IsListed i j s r is t n e h =
    let here : entry r t ≡ is = rw e refl in
    let same_count : count j (remove i is) ≡ count j (entry r t) =
      count-remove i j is n ∙ ap (count j) (sym here) in
    elim (Bool-cases (is_empty (remove i is))) [
      | inl gone ↦
          rw gone
            (λ q. erase-IsListed j s r t h (sym same_count ∙ count_empty j (remove i is) gone) q)
      | inr left ↦ rw left (λ q. insert-IsListed j s r t (remove i is) h same_count q)
    ]

module _ (config : WsConfig) (reconnects : config.ws_auto_reconnect ≡ true) where
  pub session_over-IsQuiet : (t : Bool) (c : Connection) → IsQuiet c (session_over config t c)
  unfolding session_over loop_head
  session_over-IsQuiet t c = ground (arith, reconnects)

  pub connect_failed-IsQuiet :
      (exc : String) (c : Connection) → c.closing ≡ false → IsQuiet c (connect_failed config exc c)
  unfolding connect_failed loop_head
  connect_failed-IsQuiet exc c h = ground (arith, reconnects, h)

  pub loop_head-IsQuiet : (c : Connection) → IsQuiet c (loop_head c)
  unfolding loop_head
  loop_head-IsQuiet c = ground arith

  pub subscribe-effect :
      (s : String) (c : Connection)
      → ((subscribe config s c).subs
          ≡ insert String-discrete s (entry s c.subs ++ c.created ∷ []) c.subs)
        × ((subscribe config s c).created ≡ suc c.created)
        × ((subscribe config s c).closing ≡ c.closing)
        × ((subscribe config s c).store ≡ insert ℕ_discrete c.created (new_subscription s) c.store)
  unfolding subscribe apply_stream
  subscribe-effect s c = ground arith

  pub unsubscribe-effect :
      (i : ℕ) (s : String) (c : Connection)
      → ((unsubscribe config i s c).created ≡ c.created)
        × ((unsubscribe config i s c).closing ≡ c.closing)
        × ((unsubscribe config i s c).store ≡ update i close c.store)
  unfolding unsubscribe apply_stream
  unsubscribe-effect i s c = ground arith

  -- With no entry for the stream, the table is as it was.
  pub unsubscribe-subs :
      (i : ℕ) (s : String) (c : Connection)
      → (unsubscribe config i s c).subs ≡ elim (lookup String-discrete s c.subs) [
        | none ↦ c.subs
        | some is ↦
            if is_empty (remove i is)
            then erase String-discrete s c.subs
            else insert String-discrete s (remove i is) c.subs
      ]
  unfolding unsubscribe apply_stream
  unsubscribe-subs i s c = ground arith

  pub quiet-IsAttached :
      (j : ℕ) (s : String) (c d : Connection) → IsQuiet c d → IsAttached j s c → IsAttached j s d
  quiet-IsAttached j s c d q a = record {
    is_listed = λ r. rw q.0 (a.is_listed r);
    is_old = rw q.1 a.is_old;
    is_open = rw q.2 a.is_open;
  }

  pub subscribe-IsAttached :
      (j : ℕ) (s r : String) (c : Connection)
      → IsAttached j s c
      → IsAttached j s (subscribe config r c)
  subscribe-IsAttached j s r c a =
      let e = subscribe-effect r c in
      let old = a.is_old in
      let same_count : count j (entry r c.subs ++ c.created ∷ []) ≡ count j (entry r c.subs) =
        ground (arith, count-append j (entry r c.subs) (c.created ∷ []), old) in
      record {
        is_listed = λ q. rw e.0 (
            insert-IsListed j s r c.subs (entry r c.subs ++ c.created ∷ []) a.is_listed same_count
              q);
        is_old = rw e.1 (omega (arith, old));
        is_open = rw e.2 a.is_open;
      }

  pub unsubscribe-IsListed :
      (i j : ℕ) (s r : String) (c : Connection)
      → ¬ (i ≡ j)
      → IsListed j s c.subs
      → IsListed j s (unsubscribe config i r c).subs
  unsubscribe-IsListed i j s r c n h = elim (Option-cases (lookup String-discrete r c.subs)) [
    | inl missing ↦ rw (unsubscribe-subs i r c, missing) (λ q. h q)
    | inr (is, e) ↦ rw (unsubscribe-subs i r c, e) (λ q. removed-IsListed i j s r is c.subs n e h q)
  ]

  pub unsubscribe-IsAttached :
      (i j : ℕ) (s r : String) (c : Connection)
      → ¬ (i ≡ j)
      → IsAttached j s c
      → IsAttached j s (unsubscribe config i r c)
  unsubscribe-IsAttached i j s r c n a =
      let e = unsubscribe-effect i r c in
      record {
        is_listed = unsubscribe-IsListed i j s r c n a.is_listed;
        is_old = rw e.0 a.is_old;
        is_open = rw e.1 a.is_open;
      }
