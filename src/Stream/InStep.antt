-- ===== src/Stream/InStep.antt =====
-- That what a `_Connection` of binance_th/stream.py has asked for keeps in step with its table.
use binance_th.Prelude.{ℕ, String, ◌≡◌, refl, true, false, List, [], ◌∷◌, arith}
use binance_th.Prelude.Text.{String-discrete}
use binance_th.Prelude.Dict.{lookup}
use binance_th.Stream.Table.{IsConsistent, step-IsConsistent, run_new-IsConsistent}
use binance_th.Stream.Agree.{Agrees}
use binance_th.Stream.Phases.{IsPhased, step-IsPhased}
use binance_th.Stream.Connection.{
  WsConfig, Connection, Position, new_connection, scheduled, connecting, reading, sleeping, aclose,
}
use binance_th.Stream.Supervisor.{
  Move, subscribes, unsubscribes, closes, starts, connects, connect_fails, ends,
  session_ttl_elapses, reads, sleep_ends, resume, step, run,
}
use binance_th.Stream.Served.{served, is_linked, InStep, IsTimely, AllTimely}
use binance_th.Stream.Linked.{
  subscribe-InStep, unsubscribe-InStep, loop_head-InStep, session_over-InStep,
  connect_failed-InStep, frame_read-InStep,
}

module _ (config : WsConfig) (live : config.ws_supports_live_subscribe ≡ true) where
  resume-InStep :
      (m : Move) (p : Position) (c : Connection)
      → c.position ≡ p
      → InStep c
      → InStep (resume config m p c)
  resume-InStep m p c e h = elim m as (λ n. InStep (resume config n p c)) [
    | starts ↦ elim p as (λ q. InStep (resume config starts q c)) [
      | scheduled ↦ loop_head-InStep config live c
      | _ ↦ h
    ]
    | sleep_ends ↦ elim p as (λ q. InStep (resume config sleep_ends q c)) [
      | sleeping ms ↦ loop_head-InStep config live c
      | _ ↦ h
    ]
    | connects ↦
        elim p as (λ q. c.position ≡ q → InStep (resume config connects q c)) [
          | connecting ↦ λ k l. h (rw k refl)
          | _ ↦ λ k. h
        ]
          e
    | ends ↦ elim p as (λ q. InStep (resume config ends q c)) [
      | reading ↦ session_over-InStep config live false c
      | _ ↦ h
    ]
    | session_ttl_elapses ↦ elim p as (λ q. InStep (resume config session_ttl_elapses q c)) [
      | reading ↦ session_over-InStep config live true c
      | _ ↦ h
    ]
    | connect_fails exc ↦ elim p as (λ q. InStep (resume config (connect_fails exc) q c)) [
      | connecting ↦ connect_failed-InStep config live exc c
      | _ ↦ h
    ]
    | reads f ↦ elim p as (λ q. InStep (resume config (reads f) q c)) [
      | reading ↦ frame_read-InStep config live f c h
      | _ ↦ h
    ]
    | _ ↦ h
  ]

  subscribes_timely : (s : String) (p : Position) → IsTimely (subscribes s) p → ¬ (p ≡ connecting)
  subscribes_timely s p t e = rw e at t

  unsubscribes_timely :
      (i : ℕ) (s : String) (p : Position) → IsTimely (unsubscribes i s) p → ¬ (p ≡ connecting)
  unsubscribes_timely i s p t e = rw e at t

  aclose_unlinked : (c : Connection) → IsPhased config c → is_linked (aclose c).position ≡ false
  unfolding aclose
  aclose_unlinked c f = ground (arith, f)

  closed-InStep : (c : Connection) → IsPhased config c → InStep (aclose c)
  closed-InStep c f l = let n = aclose_unlinked c f in ground (arith, n, l)

  step-InStep :
      (m : Move) (c : Connection)
      → IsTimely m c.position
      → IsConsistent c
      → IsPhased config c
      → InStep c
      → InStep (step config m c)
  unfolding step
  step-InStep (subscribes s) c t k f h =
      subscribe-InStep config live s c (subscribes_timely s c.position t) k f h
  step-InStep (unsubscribes i s) c t k f h =
      unsubscribe-InStep config live i s c (unsubscribes_timely i s c.position t) f h
  step-InStep closes c t k f h = closed-InStep c f
  step-InStep starts c t k f h = resume-InStep starts c.position c refl h
  step-InStep connects c t k f h = resume-InStep connects c.position c refl h
  step-InStep sleep_ends c t k f h = resume-InStep sleep_ends c.position c refl h
  step-InStep ends c t k f h = resume-InStep ends c.position c refl h
  step-InStep session_ttl_elapses c t k f h = resume-InStep session_ttl_elapses c.position c refl h
  step-InStep (connect_fails exc) c t k f h = resume-InStep (connect_fails exc) c.position c refl h
  step-InStep (reads f) c t k g h = resume-InStep (reads f) c.position c refl h

  run-InStep :
      (ms : List Move) (c : Connection)
      → AllTimely config ms c
      → IsConsistent c
      → IsPhased config c
      → InStep c
      → InStep (run config ms c) × IsConsistent (run config ms c)
  unfolding run
  run-InStep [] c t k f h = (h, k)
  run-InStep (m ∷ ms) c t k f h =
      run-InStep ms (step config m c) t.1 (step-IsConsistent config m c k)
        (step-IsPhased config m c f) (step-InStep m c t.0 k f h)

  -- With control frames, and where no call of `subscribe` or `unsubscribe` falls within a connect,
  -- the streams that a connection has asked the exchange for are in every session exactly those
  -- that have a subscriber, after any calls and events.
  pub served-subs :
      (ms : List Move)
      → AllTimely config ms new_connection
      → (run config ms new_connection).position ≡ reading
      → (s : String)
      → Agrees
          (lookup String-discrete s (served (run config ms new_connection).wire))
          (lookup String-discrete s (run config ms new_connection).subs)
  unfolding IsConsistent run
  served-subs ms t p s =
      let h =
        run-InStep ms new_connection t (run_new-IsConsistent config []) refl
          (λ l. ground (arith, l)) in
      rw (h.0 (rw p refl) s) (h.1 s)
