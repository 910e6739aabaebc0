-- ===== src/Stream/Phases.antt =====
-- The flags of a `_Connection` of binance_th/stream.py in each place of its supervisor.
use binance_th.Prelude.{
  ℕ, String, ◌≡◌, refl, inl, inr, Bool, true, false, not, ◌&&◌, ◌||◌, Option, List, [], ◌∷◌, arith,
  ◌==◌, leb,
}
use binance_th.Prelude.Json.{Json}
use binance_th.Stream.Table.{dispatch-cases}
use binance_th.Stream.Connection.{
  WsConfig, Connection, Position, new_connection, idle, scheduled, connecting, reading, finished,
  crashed, sleeping, apply_stream, subscribe, unsubscribe, fault_all, aclose,
}
use binance_th.Stream.Supervisor.{
  Move, subscribes, unsubscribes, closes, starts, connects, connect_fails, ends,
  session_ttl_elapses, reads, sleep_ends, loop_head, connect_failed, session_over, frame_read,
  resume, step, run, backoff_limit,
}

-- The values of `supervisor`, `ws`, `closing` and `backoff` that can stand with a place, where
-- `auto` is the setting `ws_auto_reconnect`.
abbrev pub fits : Bool → Position → Bool → Bool → Bool → ℕ → Bool
fits auto idle supervisor ws closing n = not supervisor && not ws
fits auto scheduled supervisor ws closing n = supervisor && not ws
fits auto connecting supervisor ws closing n = supervisor && (not ws && not closing)
fits auto (sleeping ms) supervisor ws closing n = supervisor && (not ws && not closing)
fits auto reading supervisor ws closing n = supervisor && (ws && (not closing && n == 0))
fits auto finished supervisor ws closing n = not ws && (not auto || (not supervisor || closing))
fits auto crashed supervisor ws closing n = not ws && leb backoff_limit n

module _ (config : WsConfig) where
  abbrev pub Fits : Connection → Position → Type 0
  Fits c p = fits config.ws_auto_reconnect p c.supervisor c.ws c.closing c.backoff ≡ true

  abbrev pub IsPhased : Connection → Type 0
  IsPhased c = Fits c c.position

  subscribe-IsPhased : (s : String) (c : Connection) → IsPhased c → IsPhased (subscribe config s c)
  unfolding subscribe apply_stream
  subscribe-IsPhased s c h = ground (arith, h)

  unsubscribe-IsPhased :
      (i : ℕ) (s : String) (c : Connection) → IsPhased c → IsPhased (unsubscribe config i s c)
  unfolding unsubscribe apply_stream
  unsubscribe-IsPhased i s c h = ground (arith, h)

  aclose-IsPhased : (c : Connection) → IsPhased c → IsPhased (aclose c)
  unfolding aclose
  aclose-IsPhased c h = ground (arith, h)

  loop_head-IsPhased :
      (c : Connection) → c.supervisor ≡ true → c.ws ≡ false → IsPhased (loop_head c)
  unfolding loop_head
  loop_head-IsPhased c s w = ground (arith, s, w)

  connect_failed-IsPhased :
      (exc : String) (c : Connection) → Fits c connecting → IsPhased (connect_failed config exc c)
  unfolding connect_failed fault_all
  connect_failed-IsPhased exc c h = ground (arith, h)

  session_over-IsPhased :
      (t : Bool) (c : Connection) → Fits c reading → IsPhased (session_over config t c)
  unfolding session_over fault_all loop_head
  session_over-IsPhased t c h = ground (arith, h)

  frame_read-IsPhased :
      (f : Option Json) (c : Connection)
      → Fits c reading
      → IsPhased c
      → IsPhased (frame_read config f c)
  unfolding frame_read
  frame_read-IsPhased f c p h = elim (dispatch-cases f c) [
    | inl e ↦ rw (frame_read, e) (session_over-IsPhased false c p)
    | inr (store, e) ↦ rw (frame_read, e) h
  ]

  resume-IsPhased :
      (m : Move) (p : Position) (c : Connection)
      → c.position ≡ p
      → IsPhased c
      → Fits c p
      → IsPhased (resume config m p c)
  resume-IsPhased m p c e h = elim m as (λ n. Fits c p → IsPhased (resume config n p c)) [
    | starts ↦ elim p as (λ q. Fits c q → IsPhased (resume config starts q c)) [
      | scheduled ↦ λ k. loop_head-IsPhased c (ground (arith, k)) (ground (arith, k))
      | _ ↦ λ k. h
    ]
    | sleep_ends ↦ elim p as (λ q. Fits c q → IsPhased (resume config sleep_ends q c)) [
      | sleeping ms ↦ λ k. loop_head-IsPhased c (ground (arith, k)) (ground (arith, k))
      | _ ↦ λ k. h
    ]
    | connects ↦ elim p as (λ q. Fits c q → IsPhased (resume config connects q c)) [
      | connecting ↦ λ k. ground (arith, k)
      | _ ↦ λ k. h
    ]
    | ends ↦ elim p as (λ q. Fits c q → IsPhased (resume config ends q c)) [
      | reading ↦ λ k. session_over-IsPhased false c k
      | _ ↦ λ k. h
    ]
    | session_ttl_elapses ↦
        elim p as (λ q. Fits c q → IsPhased (resume config session_ttl_elapses q c)) [
          | reading ↦ λ k. session_over-IsPhased true c k
          | _ ↦ λ k. h
        ]
    | connect_fails exc ↦
        elim p as (λ q. Fits c q → IsPhased (resume config (connect_fails exc) q c)) [
          | connecting ↦ λ k. connect_failed-IsPhased exc c k
          | _ ↦ λ k. h
        ]
    | reads f ↦ elim p as (λ q. Fits c q → IsPhased (resume config (reads f) q c)) [
      | reading ↦ λ k. frame_read-IsPhased f c k h
      | _ ↦ λ k. h
    ]
    | _ ↦ λ k. h
  ]

  pub step-IsPhased : (m : Move) (c : Connection) → IsPhased c → IsPhased (step config m c)
  unfolding step
  step-IsPhased (subscribes s) c h = subscribe-IsPhased s c h
  step-IsPhased (unsubscribes i s) c h = unsubscribe-IsPhased i s c h
  step-IsPhased closes c h = aclose-IsPhased c h
  step-IsPhased starts c h = resume-IsPhased starts c.position c refl h h
  step-IsPhased connects c h = resume-IsPhased connects c.position c refl h h
  step-IsPhased sleep_ends c h = resume-IsPhased sleep_ends c.position c refl h h
  step-IsPhased ends c h = resume-IsPhased ends c.position c refl h h
  step-IsPhased session_ttl_elapses c h = resume-IsPhased session_ttl_elapses c.position c refl h h
  step-IsPhased (connect_fails exc) c h = resume-IsPhased (connect_fails exc) c.position c refl h h
  step-IsPhased (reads f) c h = resume-IsPhased (reads f) c.position c refl h h

  run-IsPhased : (ms : List Move) (c : Connection) → IsPhased c → IsPhased (run config ms c)
  unfolding run
  run-IsPhased [] c h = h
  run-IsPhased (m ∷ ms) c h = run-IsPhased ms (step config m c) (step-IsPhased m c h)

  pub run_new-IsPhased : (ms : List Move) → IsPhased (run config ms new_connection)
  run_new-IsPhased ms = run-IsPhased ms new_connection refl
