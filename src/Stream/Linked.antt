-- ===== src/Stream/Linked.antt =====
-- Single steps of a `_Connection` of binance_th/stream.py that keep what it has asked for in step.
use binance_th.Prelude.{
  ℕ, String, ◌≡◌, refl, inl, inr, Bool, true, false, Option, ◌∷◌, arith, Bool-cases, Option-cases,
}
use binance_th.Prelude.Text.{String-discrete}
use binance_th.Prelude.Json.{Json}
use binance_th.Prelude.Dict.{lookup}
use binance_th.Stream.Table.{
  IsConsistent, dispatch-cases, subscribe-keeps, unsubscribe-keeps, unsubscribe_unknown-keeps,
}
use binance_th.Stream.Phases.{Fits, IsPhased}
use binance_th.Stream.Connection.{
  WsConfig, Connection, Position, close_socket, idle, scheduled, connecting, reading, finished,
  crashed, sleeping, is_empty, remove, subscribe, unsubscribe, fault_all,
}
use binance_th.Stream.Supervisor.{loop_head, connect_failed, session_over, frame_read}
use binance_th.Stream.Served.{
  served, from-keys, Same, insert-Same, erase-Same, insert_present-Same, listed_desired, is_linked,
  InStep, wire-subscribe, subscribe_unlinked, wire-unsubscribe, wire-unsubscribe_unknown,
  position-unsubscribe,
}

module _ (config : WsConfig) (live : config.ws_supports_live_subscribe ≡ true) where
  -- In a timely change of a linked connection there is a session.
  pub in_session :
      (p : Position) (c : Connection)
      → is_linked p ≡ true
      → ¬ (p ≡ connecting)
      → Fits config c p
      → (c.supervisor ≡ true) × (c.ws ≡ true)
  in_session idle c l t f = ground (arith, l)
  in_session scheduled c l t f = ground (arith, l)
  in_session connecting c l t f = elim (t refl) [ ]
  in_session (sleeping ms) c l t f = ground (arith, l)
  in_session finished c l t f = ground (arith, l)
  in_session crashed c l t f = ground (arith, l)
  in_session reading c l t f = ground (arith, f)

  pub subscribe_reading-Same :
      (s : String) (c : Connection)
      → c.supervisor ≡ true
      → c.ws ≡ true
      → IsConsistent c
      → Same (served c.wire) c.desired
      → Same (served (subscribe config s c).wire) (subscribe config s c).desired
  unfolding IsConsistent
  subscribe_reading-Same s c u w k h =
      let e = wire-subscribe config live s c u w in
      elim (Option-cases (lookup String-discrete s c.subs)) [
        | inl missing ↦
            rw (e.1, (subscribe-keeps config s c).1, missing)
              (insert-Same s (served c.wire) c.desired h)
        | inr (is, there) ↦
            rw (e.1, (subscribe-keeps config s c).1, there)
              (insert_present-Same s (served c.wire) c.desired
                (listed_desired (lookup String-discrete s c.desired) is (rw there at (k s))) h)
      ]

  pub unsubscribe_reading-Same :
      (i : ℕ) (s : String) (c : Connection)
      → c.ws ≡ true
      → Same (served c.wire) c.desired
      → Same (served (unsubscribe config i s c).wire) (unsubscribe config i s c).desired
  unsubscribe_reading-Same i s c w h = elim (Option-cases (lookup String-discrete s c.subs)) [
    | inl missing ↦
        rw
          (
            wire-unsubscribe_unknown config live i s c missing,
            (unsubscribe_unknown-keeps config i s c missing).1,
          )
          h
    | inr (is, e) ↦
        rw (wire-unsubscribe config live i s is c w e, (unsubscribe-keeps config i s is c e).1)
          (elim (Bool-cases (is_empty (remove i is))) [
            | inl gone ↦ rw gone (erase-Same s (served c.wire) c.desired h)
            | inr left ↦ rw left h
          ])
  ]

  pub subscribe-InStep :
      (s : String) (c : Connection)
      → ¬ (c.position ≡ connecting)
      → IsConsistent c
      → IsPhased config c
      → InStep c
      → InStep (subscribe config s c)
  subscribe-InStep s c t k f h l = elim (Bool-cases (is_linked c.position)) [
    | inl linked ↦
        let p = in_session c.position c linked t f in
        subscribe_reading-Same s c p.0 p.1 k (h linked)
    | inr apart ↦ let n = subscribe_unlinked config live s c apart in ground (arith, n, l)
  ]

  pub unsubscribe-InStep :
      (i : ℕ) (s : String) (c : Connection)
      → ¬ (c.position ≡ connecting)
      → IsPhased config c
      → InStep c
      → InStep (unsubscribe config i s c)
  unsubscribe-InStep i s c t f h l =
      let linked : is_linked c.position ≡ true = rw (position-unsubscribe config live i s c) at l in
      unsubscribe_reading-Same i s c (in_session c.position c linked t f).1 (h linked)

  pub loop_head-InStep : (c : Connection) → InStep (loop_head c)
  unfolding loop_head
  loop_head-InStep c l = elim (Bool-cases c.closing) [
    | inl shut ↦ ground (arith, l, shut)
    | inr still ↦ rw (loop_head, still) (λ r. rw (from-keys c.desired) refl)
  ]

  pub session_over_linked :
      (t : Bool) (c : Connection)
      → is_linked (session_over config t c).position ≡ true
      → session_over config t c
        ≡ loop_head (record c { ws = false; planned = false; wire = close_socket ∷ c.wire })
  unfolding session_over fault_all loop_head
  session_over_linked t c l = ground (arith, l)

  pub session_over-InStep : (t : Bool) (c : Connection) → InStep (session_over config t c)
  session_over-InStep t c l =
      let e = session_over_linked t c l in
      rw e (
        loop_head-InStep (record c { ws = false; planned = false; wire = close_socket ∷ c.wire })
          (rw e at l))

  pub connect_failed_unlinked :
      (exc : String) (c : Connection) → is_linked (connect_failed config exc c).position ≡ false
  unfolding connect_failed fault_all
  connect_failed_unlinked exc c = ground arith

  pub connect_failed-InStep : (exc : String) (c : Connection) → InStep (connect_failed config exc c)
  connect_failed-InStep exc c l = let n = connect_failed_unlinked exc c in ground (arith, n, l)

  pub frame_read-InStep :
      (f : Option Json) (c : Connection) → InStep c → InStep (frame_read config f c)
  unfolding frame_read
  frame_read-InStep f c h = elim (dispatch-cases f c) [
    | inl e ↦ rw (frame_read, e) (session_over-InStep false c)
    | inr (store, e) ↦ rw (frame_read, e) h
  ]
