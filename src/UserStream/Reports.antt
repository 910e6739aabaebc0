-- ===== src/UserStream/Reports.antt =====
-- What an order subscriber of binance_th/userstream.py finds in its queue over several sessions.
use Prim.Native.String.{◌++◌ as ◌+++◌}
use mathlib.Core.Option
use binance_th.Prelude.{
  ℕ, ◌<◌, String, ◌≡◌, refl, sym, ap, ◌∙◌, inl, inr, Bool, true, false, Option, none, some, List,
  [], ◌∷◌, ◌++◌, arith, All, Bool-cases, ℕ_discrete,
}
use binance_th.Prelude.Json.{Json, null, bool, int, real, str, array, object, get}
use binance_th.Prelude.Dict.{lookup}
use binance_th.Models.Enums.{SymbolType}
use binance_th.Stream.Subscription.{Item}
use binance_th.Stream.Listed.{hear, IsListed}
use binance_th.Stream.Attached.{hear_nothing}
use binance_th.Stream.Delivery.{hear-append}
use binance_th.UserStream.Hub.{order_event, dispatch}
use binance_th.UserStream.Supervisor.{
  Place, UserConnection, scheduled, creating, reading, connecting, sleeping, is_expired, start,
  loop_head, key_created, handle, failed, session_over, frame_read, Event, starts, runs, connects,
  sleep_ends, ends, session_ttl_elapses, closes, creates, auth_fails, create_fails, connect_fails,
  reads, subscribes, unsubscribes, other_reads, other_reconnects, others_act, resume, step, run,
}
use binance_th.UserStream.Items.{
  reports_of, IsOrdinary, IsOrderSub, Gets, same_hub-Gets, subscribe-Gets, unsubscribe-Gets,
  dispatch-Gets, broadcast-Gets, connected-Gets,
}

session_over-keeps :
    (timed_out : Bool) (c : UserConnection)
    → ((session_over true timed_out c).hub ≡ c.hub)
      × ((session_over true timed_out c).closing ≡ c.closing)
unfolding session_over loop_head
session_over-keeps timed_out c = ground arith

failed-keeps :
    (message : String) (c : UserConnection)
    → c.closing ≡ false
    → ((failed true message c).hub ≡ c.hub) × ((failed true message c).closing ≡ c.closing)
unfolding failed
failed-keeps message c o = ground (arith, o)

start-keeps : (c : UserConnection) → ((start c).hub ≡ c.hub) × ((start c).closing ≡ c.closing)
unfolding start
start-keeps c = ground arith

-- The events that are not of the other connection.
abbrev IsOwn : Event → Type 0
IsOwn (other_reads f) = ⊥
IsOwn other_reconnects = ⊥
IsOwn _ = Unit

module _ (t : SymbolType) where
  frame_read-Gets :
      (j : ℕ) (f : Option Json) (c : UserConnection)
      → IsOrderSub j c
      → Gets j (reports_of (reads f) reading c.first) c (frame_read true f c)
  unfolding frame_read handle session_over loop_head dispatch
  frame_read-Gets j none c s = same_hub-Gets j c c refl refl s
  frame_read-Gets j (some null) c s = same_hub-Gets j c c refl refl s
  frame_read-Gets j (some (bool b)) c s = same_hub-Gets j c c refl refl s
  frame_read-Gets j (some (int n)) c s = same_hub-Gets j c c refl refl s
  frame_read-Gets j (some (real r)) c s = same_hub-Gets j c c refl refl s
  frame_read-Gets j (some (str r)) c s = same_hub-Gets j c c refl refl s
  frame_read-Gets j (some (array is)) c s = same_hub-Gets j c c refl refl s
  frame_read-Gets j (some (object f)) c s = elim (Bool-cases (is_expired (get "e" f))) [
    | inl expired ↦
        rw (frame_read, handle, expired)
          (same_hub-Gets j c (session_over true false (record c { planned = true }))
            (session_over-keeps false (record c { planned = true })).0
            (session_over-keeps false (record c { planned = true })).1 s)
    | inr other ↦ rw (frame_read, handle, other) (dispatch-Gets j f c s)
  ]

  resume-Gets :
      (j : ℕ) (e : Event) (p : Place) (c : UserConnection)
      → IsOwn e
      → IsOrdinary j e
      → IsOrderSub j c
      → Gets j (reports_of e p c.first) c (resume true t e p c)
  unfolding loop_head key_created
  resume-Gets j e p c own o s =
      let stays : Gets j [] c c = same_hub-Gets j c c refl refl s in
      let heads : Gets j [] c (loop_head c) = same_hub-Gets j c (loop_head c) refl refl s in
      let fails : (m : String) → Gets j [] c (failed true m c) =
        λ m. let k = failed-keeps m c s.1 in same_hub-Gets j c (failed true m c) k.0 k.1 s in
      let over : (b : Bool) → Gets j [] c (session_over true b c) = λ b.
        let k = session_over-keeps b c in same_hub-Gets j c (session_over true b c) k.0 k.1 s in
      elim e
          as (λ x.
            IsOwn x → IsOrdinary j x → Gets j (reports_of x p c.first) c (resume true t x p c)) [
              | runs ↦ λ own h.
                  elim p as (λ q. Gets j (reports_of runs q c.first) c (resume true t runs q c)) [
                    | scheduled ↦ heads
                    | _ ↦ stays
                  ]
              | sleep_ends ↦ λ own h.
                  elim p
                    as (λ q.
                      Gets j (reports_of sleep_ends q c.first) c (resume true t sleep_ends q c)) [
                        | sleeping ms ↦ heads
                        | _ ↦ stays
                      ]
              | ends ↦ λ own h.
                  elim p as (λ q. Gets j (reports_of ends q c.first) c (resume true t ends q c)) [
                    | reading ↦ over false
                    | _ ↦ stays
                  ]
              | session_ttl_elapses ↦ λ own h.
                  elim p
                    as (λ q.
                      Gets j (reports_of session_ttl_elapses q c.first) c
                        (resume true t session_ttl_elapses q c)) [ reading ↦ over true | _ ↦ stays ]
              | create_fails m ↦ λ own h.
                  elim p
                    as (λ q.
                      Gets j (reports_of (create_fails m) q c.first) c
                        (resume true t (create_fails m) q c)) [
                          | creating ↦ fails ("listenKey create failed: " +++ m)
                          | _ ↦ stays
                        ]
              | connect_fails m ↦ λ own h.
                  elim p
                    as (λ q.
                      Gets j (reports_of (connect_fails m) q c.first) c
                        (resume true t (connect_fails m) q c)) [
                          | connecting key ↦ fails "user-data connect failed"
                          | _ ↦ stays
                        ]
              | connects ↦ λ own h.
                  elim p
                    as (λ q.
                      Gets j (reports_of connects q c.first) c (resume true t connects q c)) [
                        | connecting key ↦ connected-Gets j key c s
                        | _ ↦ stays
                      ]
              | reads f ↦ λ own h.
                  elim p
                    as (λ q.
                      Gets j (reports_of (reads f) q c.first) c (resume true t (reads f) q c)) [
                        | reading ↦ frame_read-Gets j f c s
                        | _ ↦ stays
                      ]
              | creates k ↦ λ own.
                  elim k
                    as (λ x.
                      IsOrdinary j (creates x) → Gets j [] c (resume true t (creates x) p c)) [
                        | none ↦ λ h. elim h [ ]
                        | some key ↦ λ h.
                            elim p as (λ q. Gets j [] c (resume true t (creates (some key)) q c)) [
                              | creating ↦
                                  same_hub-Gets j c (key_created t (some key) c) refl refl s
                              | _ ↦ stays
                            ]
                      ]
              | auth_fails m ↦ λ own h. elim h [ ]
              | other_reads f ↦ λ own h. elim own [ ]
              | other_reconnects ↦ λ own h. elim own [ ]
              | _ ↦ λ own h. stays
            ]
        own o

  step-Gets :
      (j : ℕ) (e : Event) (c : UserConnection)
      → IsOrdinary j e
      → IsOrderSub j c
      → Gets j (reports_of e c.place c.first) c (step true t e c)
  unfolding step start
  step-Gets j starts c o s = let k = start-keeps c in same_hub-Gets j c (start c) k.0 k.1 s
  step-Gets j runs c o s = resume-Gets j runs c.place c tt o s
  step-Gets j connects c o s = resume-Gets j connects c.place c tt o s
  step-Gets j sleep_ends c o s = resume-Gets j sleep_ends c.place c tt o s
  step-Gets j ends c o s = resume-Gets j ends c.place c tt o s
  step-Gets j session_ttl_elapses c o s = resume-Gets j session_ttl_elapses c.place c tt o s
  step-Gets j closes c o s = elim o [ ]
  step-Gets j (creates k) c o s = resume-Gets j (creates k) c.place c tt o s
  step-Gets j (auth_fails m) c o s = elim o [ ]
  step-Gets j (create_fails m) c o s = resume-Gets j (create_fails m) c.place c tt o s
  step-Gets j (connect_fails m) c o s = resume-Gets j (connect_fails m) c.place c tt o s
  step-Gets j (reads f) c o s = resume-Gets j (reads f) c.place c tt o s
  step-Gets j (subscribes r) c o s = subscribe-Gets j r c s
  step-Gets j (unsubscribes i r) c o s = unsubscribe-Gets i j r c o s
  step-Gets j (other_reads f) c o s = dispatch-Gets j f c s
  step-Gets j other_reconnects c o s = broadcast-Gets j c s
  step-Gets j (others_act h) c o s = elim o [ ]

  -- The items for the order subscribers in a run.
  unfoldable pub reports : List Event → UserConnection → List Item
  unfolding step
  reports [] c = []
  reports (e ∷ es) c = reports_of e c.place c.first ++ reports es (step true t e c)

  -- An order subscriber that stays, in a run with automatic reconnects in which nothing ends the
  -- supervisor for good, while other consumers come and go and the other connection reads and
  -- connects again: what is put into its queue are the items of `reports` in their order, which are
  -- the order reports that either connection reads, and a reconnect sentinel at each connect of this
  -- one but the first and at each further one of the other. Beyond 1024 items the queue drops its
  -- oldest.
  pub run-reports :
      (j : ℕ) (es : List Event) (c : UserConnection)
      → All (IsOrdinary j) es
      → IsListed j order_event c.hub.subs
      → c.closing ≡ false
      → j < c.hub.created
      → lookup ℕ_discrete j (run true t es c).hub.store
        ≡ Option.map (hear (reports es c)) (lookup ℕ_discrete j c.hub.store)
  unfolding run reports
  run-reports j [] c o l h n = sym (hear_nothing (lookup ℕ_discrete j c.hub.store))
  run-reports j (e ∷ es) c o l h n =
      let now = step-Gets j e c o.0 (l, h, n) in
      run-reports j es (step true t e c) o.1 now.0.0 now.0.1 now.0.2
      ∙ ap (Option.map (hear (reports es (step true t e c)))) now.1
      ∙ hear-append (lookup ℕ_discrete j c.hub.store) (reports_of e c.place c.first)
          (reports es (step true t e c))
