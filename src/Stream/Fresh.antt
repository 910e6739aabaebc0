-- ===== src/Stream/Fresh.antt =====
-- The number of the next subscriber is not in the table of a `_Connection` of binance_th/stream.py.
use binance_th.Prelude.{
  ◌&&◌, ℕ, suc, ◌≤◌, String, ◌≡◌, refl, sym, ap, ◌∙◌, inl, inr, Bool, true, false, Option, List, [],
  ◌∷◌, ◌++◌, arith, Bool-cases, Option-cases, if_pos, if_neg,
}
use binance_th.Prelude.Text.{String-discrete}
use binance_th.Prelude.Json.{Json}
use binance_th.Prelude.Dict.{Dict, lookup, insert, erase}
use binance_th.Stream.Subscription.{count}
use binance_th.Stream.Listed.{entry-insert, entry-erase, count-append}
use binance_th.Stream.Table.{
  dispatch-cases, resume-keeps, subscribe-keeps, unsubscribe-keeps, unsubscribe_unknown-keeps,
}
use binance_th.Stream.Connection.{
  WsConfig, Connection, Position, new_connection, entry, is_empty, remove, apply_stream, subscribe,
  unsubscribe, fault_all, aclose, has_crashed,
}
use binance_th.Stream.Supervisor.{
  Move, subscribes, unsubscribes, closes, starts, connects, connect_fails, ends,
  session_ttl_elapses, reads, sleep_ends, loop_head, connect_failed, session_over, frame_read,
  resume, step, run,
}

-- No number from `n` on stands in the table.
abbrev pub IsBelow : ℕ → Dict String (List ℕ) → Type 0
IsBelow n subs = (r : String) (i : ℕ) → n ≤ i → count i (entry r subs) ≡ 0

insert-IsBelow :
    (n : ℕ) (s : String) (is : List ℕ) (t : Dict String (List ℕ))
    → ((i : ℕ) → n ≤ i → count i is ≡ 0)
    → IsBelow n t
    → IsBelow n (insert String-discrete s is t)
insert-IsBelow n s is t h b r i l = rw (entry-insert s r is t) (elim (String-discrete s r) [
  | yes p ↦ rw (if_pos (String-discrete s r) p) (h i l)
  | no q ↦ rw (if_neg (String-discrete s r) q) (b r i l)
])

erase-IsBelow :
    (n : ℕ) (s : String) (t : Dict String (List ℕ))
    → IsBelow n t
    → IsBelow n (erase String-discrete s t)
erase-IsBelow n s t b r i l = rw (entry-erase s r t) (elim (String-discrete s r) [
  | yes p ↦ rw (if_pos (String-discrete s r) p) refl
  | no q ↦ rw (if_neg (String-discrete s r) q) (b r i l)
])

remove_adds_none : (j k : ℕ) (is : List ℕ) → count j is ≡ 0 → count j (remove k is) ≡ 0
unfolding remove
remove_adds_none j k [] h = refl
remove_adds_none j k (i ∷ is) h = ground (arith, h, remove_adds_none j k is)

module _ (config : WsConfig) where
  connect_failed-created :
      (exc : String) (c : Connection) → (connect_failed config exc c).created ≡ c.created
  unfolding connect_failed fault_all
  connect_failed-created exc c = ground arith

  session_over-created : (t : Bool) (c : Connection) → (session_over config t c).created ≡ c.created
  unfolding session_over fault_all loop_head
  session_over-created t c = ground arith

  frame_read-created :
      (f : Option Json) (c : Connection) → (frame_read config f c).created ≡ c.created
  unfolding frame_read
  frame_read-created f c = elim (dispatch-cases f c) [
    | inl e ↦ rw (frame_read, e) (session_over-created false c)
    | inr (store, e) ↦ rw (frame_read, e) refl
  ]

  resume-created :
      (m : Move) (p : Position) (c : Connection) → (resume config m p c).created ≡ c.created
  unfolding loop_head
  resume-created (connect_fails exc) p c = ground (arith, connect_failed-created exc c)
  resume-created ends p c = ground (arith, session_over-created false c)
  resume-created session_ttl_elapses p c = ground (arith, session_over-created true c)
  resume-created (reads f) p c = ground (arith, frame_read-created f c)
  resume-created starts p c = ground arith
  resume-created connects p c = ground arith
  resume-created sleep_ends p c = ground arith
  resume-created (subscribes s) p c = ground arith
  resume-created (unsubscribes i s) p c = ground arith
  resume-created closes p c = ground arith

  subscribe-created : (s : String) (c : Connection) → (subscribe config s c).created ≡ suc c.created
  unfolding subscribe apply_stream
  subscribe-created s c = ground arith

  unsubscribe-created :
      (i : ℕ) (s : String) (c : Connection) → (unsubscribe config i s c).created ≡ c.created
  unfolding unsubscribe apply_stream
  unsubscribe-created i s c = ground arith

  subscribe-IsBelow :
      (s : String) (c : Connection)
      → IsBelow c.created c.subs
      → IsBelow (subscribe config s c).created (subscribe config s c).subs
  subscribe-IsBelow s c b =
      rw (subscribe-created s c, (subscribe-keeps config s c).0)
        (insert-IsBelow (suc c.created) s (entry s c.subs ++ c.created ∷ []) c.subs
          (λ i l.
            ground (
              arith,
              l,
              count-append i (entry s c.subs) (c.created ∷ []),
              b s i (omega (arith, l)),
            ))
          (λ r i l. b r i (omega (arith, l))))

  unsubscribe-IsBelow :
      (i : ℕ) (s : String) (c : Connection)
      → IsBelow c.created c.subs
      → IsBelow (unsubscribe config i s c).created (unsubscribe config i s c).subs
  unsubscribe-IsBelow i s c b = elim (Option-cases (lookup String-discrete s c.subs)) [
    | inl missing ↦
        rw (unsubscribe-created i s c, (unsubscribe_unknown-keeps config i s c missing).0)
          (λ r k l. b r k l)
    | inr (is, e) ↦
        let here : entry s c.subs ≡ is = rw e refl in
        let none_new : (k : ℕ) → c.created ≤ k → count k (remove i is) ≡ 0 =
          λ k l. remove_adds_none k i is (ap (count k) (sym here) ∙ b s k l) in
        rw (unsubscribe-created i s c, (unsubscribe-keeps config i s is c e).0)
          (elim (Bool-cases (is_empty (remove i is))) [
            | inl gone ↦ rw gone (λ r k l. erase-IsBelow c.created s c.subs b r k l)
            | inr left ↦
                rw left (λ r k l. insert-IsBelow c.created s (remove i is) c.subs none_new b r k l)
          ])
  ]

  kept-IsBelow :
      (c d : Connection)
      → d.created ≡ c.created
      → d.subs ≡ c.subs
      → IsBelow c.created c.subs
      → IsBelow d.created d.subs
  kept-IsBelow c d n t b r i l = rw t (b r i (rw n at l))

  resume-IsBelow :
      (m : Move) (c : Connection)
      → IsBelow c.created c.subs
      → IsBelow (resume config m c.position c).created (resume config m c.position c).subs
  resume-IsBelow m c =
      kept-IsBelow c (resume config m c.position c) (resume-created m c.position c)
        (resume-keeps config m c.position c).0

  step-IsBelow :
      (m : Move) (c : Connection)
      → IsBelow c.created c.subs
      → IsBelow (step config m c).created (step config m c).subs
  unfolding step aclose lookup
  step-IsBelow (subscribes s) c b = subscribe-IsBelow s c b
  step-IsBelow (unsubscribes i s) c b = unsubscribe-IsBelow i s c b
  step-IsBelow closes c b = elim (Bool-cases (c.supervisor && has_crashed c.position)) [
    | inl stuck ↦ rw stuck b
    | inr free ↦ rw free (λ r i l. refl)
  ]
  step-IsBelow starts c b = resume-IsBelow starts c b
  step-IsBelow connects c b = resume-IsBelow connects c b
  step-IsBelow sleep_ends c b = resume-IsBelow sleep_ends c b
  step-IsBelow ends c b = resume-IsBelow ends c b
  step-IsBelow session_ttl_elapses c b = resume-IsBelow session_ttl_elapses c b
  step-IsBelow (connect_fails exc) c b = resume-IsBelow (connect_fails exc) c b
  step-IsBelow (reads f) c b = resume-IsBelow (reads f) c b

  run-IsBelow :
      (ms : List Move) (c : Connection)
      → IsBelow c.created c.subs
      → IsBelow (run config ms c).created (run config ms c).subs
  unfolding run
  run-IsBelow [] c b = b
  run-IsBelow (m ∷ ms) c b = run-IsBelow ms (step config m c) (step-IsBelow m c b)

  pub run_new-IsBelow :
      (ms : List Move)
      → IsBelow (run config ms new_connection).created (run config ms new_connection).subs
  unfolding lookup
  run_new-IsBelow ms = run-IsBelow ms new_connection (λ r i l. refl)
