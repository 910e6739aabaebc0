-- ===== src/UserStream/Items.antt =====
-- What one event puts into the queue of an order subscriber of binance_th/userstream.py.
use mathlib.Core.Option
use binance_th.Prelude.{
  ℕ, ◌<◌, ◌++◌, arith, Option-cases, String, ◌≡◌, refl, sym, ap, ◌∙◌, inl, inr, ite, if_pos, if_neg,
  Bool, false, Option, none, some, List, [], ◌∷◌, Bool-cases, ℕ_discrete, if◌then◌else◌,
}
use binance_th.Prelude.Text.{String-discrete}
use binance_th.Prelude.Json.{Json, Fields, null, bool, int, real, str, array, object, get}
use binance_th.Prelude.Dict.{lookup, lookup-insert}
use binance_th.Stream.Subscription.{
  Item, payload, reconnected, offer, close, count, update, update_all, lookup-update,
  lookup-update_all, new_subscription,
}
use binance_th.Stream.Connection.{entry}
use binance_th.Stream.Listed.{hear, IsListed, count-append, insert-IsListed}
use binance_th.Stream.Attached.{hear_nothing, removed-IsListed}
use binance_th.UserStream.Hub.{
  Hub, order_event, offer_to, dispatch, broadcast_reconnect, subscribe, unsubscribe,
}
use binance_th.UserStream.Supervisor.{
  Place, UserConnection, reading, connecting, is_expired, connected, Event, connects, closes,
  creates, auth_fails, reads, unsubscribes, other_reads, other_reconnects, others_act,
}

-- The frame as an item of an order subscriber, by its event type.
abbrev pub report_of : Option Json → Json → List Item
report_of (some (str t)) frame = ite (String-discrete order_event t) (payload frame ∷ []) []
report_of _ frame = []

abbrev pub frame_reports : Option Json → List Item
frame_reports (some (object f)) =
    if is_expired (get "e" f) then [] else report_of (get "e" f) (object f)
frame_reports _ = []

-- What an event in a place puts into the queue of an order subscriber, where `first` says that
-- there was no session yet.
abbrev pub reports_of : Event → Place → Bool → List Item
reports_of (reads f) reading first = frame_reports f
reports_of connects (connecting key) first = if first then [] else reconnected ∷ []
reports_of (other_reads f) place first = report_of (get "e" f) (object f)
reports_of other_reconnects place first = reconnected ∷ []
reports_of _ _ _ = []

-- The events that end neither the supervisor for good nor the subscription `j`, and where the other
-- connection does no more than read and connect again.
abbrev pub IsOrdinary : ℕ → Event → Type 0
IsOrdinary j closes = ⊥
IsOrdinary j (auth_fails exc) = ⊥
IsOrdinary j (creates none) = ⊥
IsOrdinary j (unsubscribes i t) = ¬ (i ≡ j)
IsOrdinary j (others_act h) = ⊥
IsOrdinary j _ = Unit

-- The subscriber `j` is for order reports, once.
abbrev pub IsOrderSub : ℕ → UserConnection → Type 0
IsOrderSub j c = IsListed j order_event c.hub.subs × (c.closing ≡ false) × (j < c.hub.created)

abbrev pub Gets : ℕ → List Item → UserConnection → UserConnection → Type 0
Gets j is c d =
    IsOrderSub j d
    × (lookup ℕ_discrete j d.hub.store ≡ Option.map (hear is) (lookup ℕ_discrete j c.hub.store))

pub same_hub-Gets :
    (j : ℕ) (c d : UserConnection)
    → d.hub ≡ c.hub
    → d.closing ≡ c.closing
    → IsOrderSub j c
    → Gets j [] c d
same_hub-Gets j c d e o s = (
  ((λ r. rw e (s.0 r)), o ∙ s.1, rw e s.2),
  ap (λ h. lookup ℕ_discrete j h.store) e ∙ sym (hear_nothing (lookup ℕ_discrete j c.hub.store)),
)

-- Another consumer comes or goes.
pub subscribe-Gets :
    (j : ℕ) (r : String) (c : UserConnection)
    → IsOrderSub j c
    → Gets j [] c (record c { hub = subscribe r c.hub })
unfolding subscribe
subscribe-Gets j r c (listed, open_still, old) =
    let h = c.hub in
    let same_count : count j (entry r h.subs ++ h.created ∷ []) ≡ count j (entry r h.subs) =
      ground (arith, count-append j (entry r h.subs) (h.created ∷ []), old) in
    (
      (
        (λ q.
            insert-IsListed j order_event r h.subs (entry r h.subs ++ h.created ∷ []) listed
              same_count q),
        open_still,
        omega (arith, old),
      ),
      ground (arith, lookup-insert ℕ_discrete h.created j (new_subscription r) h.store, old)
          ∙ sym (hear_nothing (lookup ℕ_discrete j h.store)),
    )

pub unsubscribe-Gets :
    (i j : ℕ) (r : String) (c : UserConnection)
    → ¬ (i ≡ j)
    → IsOrderSub j c
    → Gets j [] c (record c { hub = unsubscribe i r c.hub })
unfolding unsubscribe
unsubscribe-Gets i j r c n (listed, open_still, old) =
    let h = c.hub in
    let store : lookup ℕ_discrete j (update i close h.store)
        ≡ Option.map (hear []) (lookup ℕ_discrete j h.store) =
      rw (lookup-update i j close h.store, if_neg (ℕ_discrete i j) n)
        (sym (hear_nothing (lookup ℕ_discrete j h.store))) in
    elim (Option-cases (lookup String-discrete r h.subs)) [
      | inl missing ↦ rw (unsubscribe, missing) ((listed, open_still, old), store)
      | inr (is, e) ↦
          rw (unsubscribe, e)
            (
              ((λ q. removed-IsListed i j order_event r is h.subs n e listed q), open_still, old),
              store,
            )
    ]

pub offered-hear :
    (j : ℕ) (t : String) (i : Item) (h : Hub)
    → IsListed j order_event h.subs
    → lookup ℕ_discrete j (update_all (entry t h.subs) (offer i) h.store)
      ≡ Option.map
          (hear (ite (String-discrete order_event t) (i ∷ []) []))
          (lookup ℕ_discrete j h.store)
unfolding hear offer binance_th.Stream.Queue.offer_all
offered-hear j t i h l =
    rw (lookup-update_all (entry t h.subs) j (offer i) h.store, l t)
      (elim (String-discrete order_event t) [
        | yes p ↦
            rw (if_pos (String-discrete order_event t) p, if_pos (String-discrete order_event t) p)
              refl
        | no n ↦
            rw (if_neg (String-discrete order_event t) n, if_neg (String-discrete order_event t) n)
              (sym (hear_nothing (lookup ℕ_discrete j h.store)))
      ])

pub offer_to-hear :
    (j : ℕ) (name : Option Json) (frame : Json) (h : Hub)
    → IsListed j order_event h.subs
    → ((offer_to name frame h).subs ≡ h.subs)
      × (lookup ℕ_discrete j (offer_to name frame h).store
          ≡ Option.map (hear (report_of name frame)) (lookup ℕ_discrete j h.store))
offer_to-hear j none frame h l = (refl, sym (hear_nothing (lookup ℕ_discrete j h.store)))
offer_to-hear j (some (str t)) frame h l = (refl, offered-hear j t (payload frame) h l)
offer_to-hear j (some null) frame h l = (refl, sym (hear_nothing (lookup ℕ_discrete j h.store)))
offer_to-hear j (some (bool b)) frame h l = (refl, sym (hear_nothing (lookup ℕ_discrete j h.store)))
offer_to-hear j (some (int n)) frame h l = (refl, sym (hear_nothing (lookup ℕ_discrete j h.store)))
offer_to-hear j (some (real t)) frame h l = (refl, sym (hear_nothing (lookup ℕ_discrete j h.store)))
offer_to-hear j (some (array is)) frame h l =
    (refl, sym (hear_nothing (lookup ℕ_discrete j h.store)))
offer_to-hear j (some (object f)) frame h l =
    (refl, sym (hear_nothing (lookup ℕ_discrete j h.store)))

pub created-offer_to :
    (name : Option Json) (frame : Json) (h : Hub) → (offer_to name frame h).created ≡ h.created
created-offer_to none frame h = refl
created-offer_to (some (str t)) frame h = refl
created-offer_to (some null) frame h = refl
created-offer_to (some (bool b)) frame h = refl
created-offer_to (some (int n)) frame h = refl
created-offer_to (some (real t)) frame h = refl
created-offer_to (some (array is)) frame h = refl
created-offer_to (some (object f)) frame h = refl

pub dispatch-Gets :
    (j : ℕ) (frame : Fields) (c : UserConnection)
    → IsOrderSub j c
    → Gets j (report_of (get "e" frame) (object frame)) c (record c { hub = dispatch frame c.hub })
unfolding dispatch
dispatch-Gets j frame c s =
    let o = offer_to-hear j (get "e" frame) (object frame) c.hub s.0 in
    let created = created-offer_to (get "e" frame) (object frame) c.hub in
    (((λ r. rw o.0 (s.0 r)), s.1, rw created s.2), o.1)

pub broadcast-hear :
    (j : ℕ) (h : Hub)
    → IsListed j order_event h.subs
    → lookup ℕ_discrete j (broadcast_reconnect h).store
      ≡ Option.map (hear (reconnected ∷ [])) (lookup ℕ_discrete j h.store)
unfolding broadcast_reconnect
broadcast-hear j h l =
    offered-hear j order_event reconnected h l
    ∙ ap (λ is. Option.map (hear is) (lookup ℕ_discrete j h.store))
        (if_pos (String-discrete order_event order_event) refl _ _)

pub broadcast-Gets :
    (j : ℕ) (c : UserConnection)
    → IsOrderSub j c
    → Gets j (reconnected ∷ []) c (record c { hub = broadcast_reconnect c.hub })
unfolding broadcast_reconnect
broadcast-Gets j c s = (s, broadcast-hear j c.hub s.0)

pub connected-Gets :
    (j : ℕ) (key : String) (c : UserConnection)
    → IsOrderSub j c
    → Gets j (reports_of connects (connecting key) c.first) c (connected c)
unfolding connected broadcast_reconnect
connected-Gets j key c s = elim (Bool-cases c.first) [
  | inl fresh ↦ rw (fresh, connected) (s, sym (hear_nothing (lookup ℕ_discrete j c.hub.store)))
  | inr again ↦ rw (again, connected) (s, broadcast-hear j c.hub s.0)
]
