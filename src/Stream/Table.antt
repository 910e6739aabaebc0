-- ===== src/Stream/Table.antt =====
-- The two tables of `_Connection` of binance_th/stream.py, `desired` and `_subs`, name the same
-- streams.
use binance_th.Prelude.{
  ◌&&◌, ℕ, String, ◌≡◌, refl, ◌⊎◌, inl, inr, Bool, true, false, Option, none, some, List, [], ◌∷◌,
  ◌++◌, arith, Bool-cases, Option-cases, if◌then◌else◌,
}
use binance_th.Prelude.Text.{String-discrete}
use binance_th.Prelude.Json.{Json, null, bool, int, real, str, array, object, get}
use binance_th.Prelude.Dict.{lookup, insert, erase}
use binance_th.Errors.Exceptions.{foreign, ok, raise}
use binance_th.Stream.Subscription.{Store, payload, offer, update_all}
use binance_th.Stream.Connection.{
  WsConfig, Connection, Position, Method, new_connection, entry, is_empty, remove, apply_stream,
  subscribe, unsubscribe, deliver, dispatch, fault_all, aclose, has_crashed,
}
use binance_th.Stream.Supervisor.{
  Move, subscribes, unsubscribes, closes, starts, connects, connect_fails, ends,
  session_ttl_elapses, reads, sleep_ends, loop_head, connect_failed, session_over, frame_read,
  resume, step, run,
}
use binance_th.Stream.Agree.{
  TablesAgree, insert-TablesAgree, replace-TablesAgree, erase-TablesAgree,
}

module _ (config : WsConfig) where
  apply_stream-keeps :
      (s : String) (m : Method) (c : Connection)
      → ((apply_stream config s m c).subs ≡ c.subs)
        × ((apply_stream config s m c).desired ≡ c.desired)
  unfolding apply_stream
  apply_stream-keeps s m c = ground arith

  pub subscribe-keeps :
      (s : String) (c : Connection)
      → ((subscribe config s c).subs
          ≡ insert String-discrete s (entry s c.subs ++ c.created ∷ []) c.subs)
        × ((subscribe config s c).desired ≡ insert String-discrete s tt c.desired)
  unfolding subscribe apply_stream
  subscribe-keeps s c = ground arith

  connect_failed-keeps :
      (exc : String) (c : Connection)
      → ((connect_failed config exc c).subs ≡ c.subs)
        × ((connect_failed config exc c).desired ≡ c.desired)
  unfolding connect_failed fault_all
  connect_failed-keeps exc c = ground arith

  session_over-keeps :
      (t : Bool) (c : Connection)
      → ((session_over config t c).subs ≡ c.subs) × ((session_over config t c).desired ≡ c.desired)
  unfolding session_over fault_all loop_head
  session_over-keeps t c = ground arith

  pub unsubscribe-keeps :
      (i : ℕ) (s : String) (is : List ℕ) (c : Connection)
      → lookup String-discrete s c.subs ≡ some is
      → ((unsubscribe config i s c).subs ≡ (
          if is_empty (remove i is)
          then erase String-discrete s c.subs
          else insert String-discrete s (remove i is) c.subs))
        × ((unsubscribe config i s c).desired
            ≡ (if is_empty (remove i is) then erase String-discrete s c.desired else c.desired))
  unfolding unsubscribe apply_stream
  unsubscribe-keeps i s is c h = ground (arith, h)

  pub unsubscribe_unknown-keeps :
      (i : ℕ) (s : String) (c : Connection)
      → lookup String-discrete s c.subs ≡ none
      → ((unsubscribe config i s c).subs ≡ c.subs)
        × ((unsubscribe config i s c).desired ≡ c.desired)
  unfolding unsubscribe
  unsubscribe_unknown-keeps i s c h = ground (arith, h)

unfoldable pub IsConsistent : Connection → Type 0
IsConsistent c = TablesAgree c.desired c.subs

kept-IsConsistent :
    (c d : Connection)
    → (d.subs ≡ c.subs) × (d.desired ≡ c.desired)
    → IsConsistent c
    → IsConsistent d
unfolding IsConsistent
kept-IsConsistent c d k h s = rw (k.0, k.1) (h s)

deliver-cases :
    (name body : Option Json) (c : Connection)
    → (deliver name body c ≡ raise (foreign "TypeError"))
      ⊎ ((store : Store) × (deliver name body c ≡ ok (record c { store = store })))
unfolding update_all
deliver-cases none body c = inr (c.store, refl)
deliver-cases (some name) none c = inr (c.store, refl)
deliver-cases (some null) (some b) c = inr (c.store, refl)
deliver-cases (some (bool t)) (some b) c = inr (c.store, refl)
deliver-cases (some (int n)) (some b) c = inr (c.store, refl)
deliver-cases (some (real t)) (some b) c = inr (c.store, refl)
deliver-cases (some (str s)) (some b) c =
    inr (update_all (entry s c.subs) (offer (payload b)) c.store, refl)
deliver-cases (some (array is)) (some b) c = inl refl
deliver-cases (some (object f)) (some b) c = inl refl

-- A frame either has a key that no dict takes, or leaves all but the queues as they are.
pub dispatch-cases :
    (f : Option Json) (c : Connection)
    → (dispatch f c ≡ raise (foreign "TypeError"))
      ⊎ ((store : Store) × (dispatch f c ≡ ok (record c { store = store })))
unfolding dispatch
dispatch-cases none c = inr (c.store, refl)
dispatch-cases (some null) c = inr (c.store, refl)
dispatch-cases (some (bool b)) c = inr (c.store, refl)
dispatch-cases (some (int n)) c = inr (c.store, refl)
dispatch-cases (some (real t)) c = inr (c.store, refl)
dispatch-cases (some (str t)) c = inr (c.store, refl)
dispatch-cases (some (array is)) c = inr (c.store, refl)
dispatch-cases (some (object f)) c = deliver-cases (get "stream" f) (get "data" f) c

module _ (config : WsConfig) where
  frame_read-keeps :
      (f : Option Json) (c : Connection)
      → ((frame_read config f c).subs ≡ c.subs) × ((frame_read config f c).desired ≡ c.desired)
  unfolding frame_read
  frame_read-keeps f c = elim (dispatch-cases f c) [
    | inl e ↦ rw (frame_read, e) (session_over-keeps config false c)
    | inr (store, e) ↦ rw (frame_read, e) (refl, refl)
  ]

  pub resume-keeps :
      (m : Move) (p : Position) (c : Connection)
      → ((resume config m p c).subs ≡ c.subs) × ((resume config m p c).desired ≡ c.desired)
  unfolding loop_head
  resume-keeps (connect_fails exc) p c = ground (arith, connect_failed-keeps config exc c)
  resume-keeps ends p c = ground (arith, session_over-keeps config false c)
  resume-keeps session_ttl_elapses p c = ground (arith, session_over-keeps config true c)
  resume-keeps (reads f) p c = ground (arith, frame_read-keeps f c)
  resume-keeps starts p c = ground arith
  resume-keeps connects p c = ground arith
  resume-keeps sleep_ends p c = ground arith
  resume-keeps (subscribes s) p c = ground arith
  resume-keeps (unsubscribes i s) p c = ground arith
  resume-keeps closes p c = ground arith

  subscribe-IsConsistent :
      (s : String) (c : Connection) → IsConsistent c → IsConsistent (subscribe config s c)
  unfolding IsConsistent
  subscribe-IsConsistent s c h r =
      rw ((subscribe-keeps config s c).0, (subscribe-keeps config s c).1)
        (insert-TablesAgree s c.created (entry s c.subs) c.desired c.subs h r)

  unsubscribe-IsConsistent :
      (i : ℕ) (s : String) (c : Connection)
      → IsConsistent c
      → IsConsistent (unsubscribe config i s c)
  unfolding IsConsistent
  unsubscribe-IsConsistent i s c h = elim (Option-cases (lookup String-discrete s c.subs)) [
    | inl missing ↦
        let k = unsubscribe_unknown-keeps config i s c missing in
        kept-IsConsistent c (unsubscribe config i s c) k h
    | inr (is, e) ↦
        let k = unsubscribe-keeps config i s is c e in
        elim (Bool-cases (is_empty (remove i is))) [
          | inl gone ↦ λ r. rw (k.0, k.1, gone) (erase-TablesAgree s c.desired c.subs h r)
          | inr left ↦ λ r.
              rw (k.0, k.1, left)
                (replace-TablesAgree s is (remove i is) c.desired c.subs e left h r)
        ]
  ]

  closed-IsConsistent : (c : Connection) → IsConsistent c → IsConsistent (aclose c)
  unfolding IsConsistent aclose lookup
  closed-IsConsistent c h s = elim (Bool-cases (c.supervisor && has_crashed c.position)) [
    | inl stuck ↦ rw stuck (h s)
    | inr free ↦ rw free tt
  ]

  pub step-IsConsistent :
      (m : Move) (c : Connection) → IsConsistent c → IsConsistent (step config m c)
  unfolding step
  step-IsConsistent (subscribes s) c h = subscribe-IsConsistent s c h
  step-IsConsistent (unsubscribes i s) c h = unsubscribe-IsConsistent i s c h
  step-IsConsistent closes c h = closed-IsConsistent c h
  step-IsConsistent starts c h = kept-IsConsistent c _ (resume-keeps starts c.position c) h
  step-IsConsistent connects c h = kept-IsConsistent c _ (resume-keeps connects c.position c) h
  step-IsConsistent sleep_ends c h = kept-IsConsistent c _ (resume-keeps sleep_ends c.position c) h
  step-IsConsistent ends c h = kept-IsConsistent c _ (resume-keeps ends c.position c) h
  step-IsConsistent session_ttl_elapses c h =
      kept-IsConsistent c _ (resume-keeps session_ttl_elapses c.position c) h
  step-IsConsistent (connect_fails exc) c h =
      kept-IsConsistent c _ (resume-keeps (connect_fails exc) c.position c) h
  step-IsConsistent (reads f) c h = kept-IsConsistent c _ (resume-keeps (reads f) c.position c) h

  run-IsConsistent :
      (ms : List Move) (c : Connection) → IsConsistent c → IsConsistent (run config ms c)
  unfolding run
  run-IsConsistent [] c h = h
  run-IsConsistent (m ∷ ms) c h = run-IsConsistent ms (step config m c) (step-IsConsistent m c h)

  -- After any calls and any events, in any order, a connection that was new desires exactly the
  -- streams that have a subscriber in its table.
  pub run_new-IsConsistent : (ms : List Move) → IsConsistent (run config ms new_connection)
  unfolding IsConsistent lookup
  run_new-IsConsistent ms = run-IsConsistent ms new_connection (λ s. tt)
