-- ===== src/Stream/Delivery.antt =====
-- What reaches one subscriber of a `_Connection` of binance_th/stream.py.
use mathlib.Core.Option
use binance_th.Prelude.{
  ℕ, ◌<◌, String, ◌≡◌, refl, sym, ap, ◌∙◌, Bool, true, false, Option, none, some, List, [], ◌∷◌,
  ◌++◌, arith, if_neg, ℕ_discrete, All,
}
use binance_th.Prelude.Json.{Json}
use binance_th.Prelude.Dict.{lookup, lookup-insert}
use binance_th.Stream.Queue.{Queue, offer_all, offer as queue_offer}
use binance_th.Stream.Subscription.{Item, Subscription, close, lookup-update, new_subscription}
use binance_th.Stream.Connection.{
  WsConfig, Connection, Position, reading, scheduled, connecting, sleeping, subscribe, unsubscribe,
}
use binance_th.Stream.Supervisor.{
  Move, subscribes, unsubscribes, closes, starts, connects, connect_fails, ends,
  session_ttl_elapses, reads, sleep_ends, connected, loop_head, connect_failed, session_over,
  frame_read, resume, step, run,
}
use binance_th.Stream.Listed.{addressed, hear}
use binance_th.Stream.Attached.{
  IsAttached, Spares, items_of, IsQuiet, hear_nothing, session_over-IsQuiet, connect_failed-IsQuiet,
  loop_head-IsQuiet, subscribe-effect, unsubscribe-effect, quiet-IsAttached, subscribe-IsAttached,
  unsubscribe-IsAttached,
}
use binance_th.Stream.Frames.{unhashable, delivered, dispatch-FrameCase}

-- A step that the subscription outlives, and that puts some items in its queue.
abbrev Hears : ℕ → String → List Item → Connection → Connection → Type 0
Hears j s is c d =
    IsAttached j s d
    × (lookup ℕ_discrete j d.store ≡ Option.map (hear is) (lookup ℕ_discrete j c.store))

module _ (config : WsConfig) (reconnects : config.ws_auto_reconnect ≡ true) where
  quiet-Hears :
      (j : ℕ) (s : String) (c d : Connection) → IsQuiet c d → IsAttached j s c → Hears j s [] c d
  quiet-Hears j s c d q a = (
    quiet-IsAttached config reconnects j s c d q a,
    ap (lookup ℕ_discrete j) q.3 ∙ sym (hear_nothing (lookup ℕ_discrete j c.store)),
  )

  frame_read-Hears :
      (j : ℕ) (s : String) (f : Option Json) (c : Connection)
      → IsAttached j s c
      → Hears j s (addressed s f) c (frame_read config f c)
  unfolding frame_read
  frame_read-Hears j s f c a = elim (dispatch-FrameCase j s f c a.is_listed) [
    | unhashable e q ↦
        rw (frame_read, e, q)
          (quiet-Hears j s c (session_over config false c)
            (session_over-IsQuiet config reconnects false c) a)
    | delivered store e q ↦
        rw (frame_read, e)
          (record { is_listed = a.is_listed; is_old = a.is_old; is_open = a.is_open }, q)
  ]

  resume-Hears :
      (j : ℕ) (s : String) (m : Move) (p : Position) (c : Connection)
      → IsAttached j s c
      → Hears j s (items_of s m p) c (resume config m p c)
  resume-Hears j s m p c a =
      let stays : Hears j s [] c c = quiet-Hears j s c c (refl, refl, refl, refl) a in
      let heads : Hears j s [] c (loop_head c) =
        quiet-Hears j s c (loop_head c) (loop_head-IsQuiet config reconnects c) a in
      let over : (t : Bool) → Hears j s [] c (session_over config t c) = λ t.
        quiet-Hears j s c (session_over config t c) (session_over-IsQuiet config reconnects t c)
          a in
      elim m as (λ n. Hears j s (items_of s n p) c (resume config n p c)) [
        | starts ↦ elim p as (λ q. Hears j s (items_of s starts q) c (resume config starts q c)) [
          | scheduled ↦ heads
          | _ ↦ stays
        ]
        | sleep_ends ↦
            elim p as (λ q. Hears j s (items_of s sleep_ends q) c (resume config sleep_ends q c)) [
              | sleeping ms ↦ heads
              | _ ↦ stays
            ]
        | connects ↦
            elim p as (λ q. Hears j s (items_of s connects q) c (resume config connects q c)) [
              | connecting ↦ quiet-Hears j s c (connected c) (refl, refl, refl, refl) a
              | _ ↦ stays
            ]
        | ends ↦ elim p as (λ q. Hears j s (items_of s ends q) c (resume config ends q c)) [
          | reading ↦ over false
          | _ ↦ stays
        ]
        | session_ttl_elapses ↦
            elim p
              as (λ q.
                Hears j s (items_of s session_ttl_elapses q) c
                  (resume config session_ttl_elapses q c)) [ reading ↦ over true | _ ↦ stays ]
        | connect_fails exc ↦
            elim p
              as (λ q.
                Hears j s (items_of s (connect_fails exc) q) c
                  (resume config (connect_fails exc) q c)) [
                    | connecting ↦
                        quiet-Hears j s c (connect_failed config exc c)
                          (connect_failed-IsQuiet config reconnects exc c a.is_open) a
                    | _ ↦ stays
                  ]
        | reads f ↦
            elim p as (λ q. Hears j s (items_of s (reads f) q) c (resume config (reads f) q c)) [
              | reading ↦ frame_read-Hears j s f c a
              | _ ↦ stays
            ]
        | _ ↦ stays
      ]

  store-subscribe :
      (j : ℕ) (r : String) (c : Connection)
      → j < c.created
      → lookup ℕ_discrete j (subscribe config r c).store ≡ lookup ℕ_discrete j c.store
  store-subscribe j r c old =
      ap (lookup ℕ_discrete j) (subscribe-effect config reconnects r c).3
      ∙ lookup-insert ℕ_discrete c.created j (new_subscription r) c.store
      ∙ if_neg (ℕ_discrete c.created j) (λ e. omega (arith, e)) _ _

  store-unsubscribe :
      (i j : ℕ) (r : String) (c : Connection)
      → ¬ (i ≡ j)
      → lookup ℕ_discrete j (unsubscribe config i r c).store ≡ lookup ℕ_discrete j c.store
  store-unsubscribe i j r c n =
      ap (lookup ℕ_discrete j) (unsubscribe-effect config reconnects i r c).2
      ∙ lookup-update i j close c.store
      ∙ if_neg (ℕ_discrete i j) n _ _

  step-Hears :
      (j : ℕ) (s : String) (m : Move) (c : Connection)
      → Spares j m
      → IsAttached j s c
      → Hears j s (items_of s m c.position) c (step config m c)
  unfolding step
  step-Hears j s (subscribes r) c h a = (
    subscribe-IsAttached config reconnects j s r c a,
    store-subscribe j r c a.is_old ∙ sym (hear_nothing (lookup ℕ_discrete j c.store)),
  )
  step-Hears j s (unsubscribes i r) c h a = (
    unsubscribe-IsAttached config reconnects i j s r c h a,
    store-unsubscribe i j r c h ∙ sym (hear_nothing (lookup ℕ_discrete j c.store)),
  )
  step-Hears j s closes c h a = elim h [ ]
  step-Hears j s starts c h a = resume-Hears j s starts c.position c a
  step-Hears j s connects c h a = resume-Hears j s connects c.position c a
  step-Hears j s sleep_ends c h a = resume-Hears j s sleep_ends c.position c a
  step-Hears j s ends c h a = resume-Hears j s ends c.position c a
  step-Hears j s session_ttl_elapses c h a = resume-Hears j s session_ttl_elapses c.position c a
  step-Hears j s (connect_fails exc) c h a = resume-Hears j s (connect_fails exc) c.position c a
  step-Hears j s (reads f) c h a = resume-Hears j s (reads f) c.position c a

-- The items for the subscribers of a stream in a run, in the order in which they were read.
unfoldable pub heard : WsConfig → String → List Move → Connection → List Item
heard config s [] c = []
heard config s (m ∷ ms) c = items_of s m c.position ++ heard config s ms (step config m c)

offer_all-append :
    (q : Queue Item) (is ks : List Item)
    → offer_all 1024 (offer_all 1024 q is) ks ≡ offer_all 1024 q (is ++ ks)
unfolding offer_all
offer_all-append q [] ks = refl
offer_all-append q (i ∷ is) ks = offer_all-append (queue_offer 1024 q i) is ks

pub hear-append :
    (o : Option Subscription) (is ks : List Item)
    → Option.map (hear ks) (Option.map (hear is) o) ≡ Option.map (hear (is ++ ks)) o
unfolding hear
hear-append none is ks = refl
hear-append (some sub) is ks =
    ap (λ q. some (record sub { queue = q })) (offer_all-append sub.queue is ks)

module _ (config : WsConfig) (reconnects : config.ws_auto_reconnect ≡ true) where
  pub run-Hears :
      (j : ℕ) (s : String) (ms : List Move) (c : Connection)
      → All (Spares j) ms
      → IsAttached j s c
      → lookup ℕ_discrete j (run config ms c).store
        ≡ Option.map (hear (heard config s ms c)) (lookup ℕ_discrete j c.store)
  unfolding run heard
  run-Hears j s [] c h a = sym (hear_nothing (lookup ℕ_discrete j c.store))
  run-Hears j s (m ∷ ms) c h a =
      let now = step-Hears config reconnects j s m c h.0 a in
      run-Hears j s ms (step config m c) h.1 now.0
      ∙ ap (Option.map (hear (heard config s ms (step config m c)))) now.1
      ∙ hear-append (lookup ℕ_discrete j c.store) (items_of s m c.position)
          (heard config s ms (step config m c))
