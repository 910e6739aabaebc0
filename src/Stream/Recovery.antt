-- ===== src/Stream/Recovery.antt =====
-- That `_run_supervisor` of binance_th/stream.py reads again, and how long it waits between
-- attempts.
use binance_th.Prelude.{
  ℕ, zero, suc, ◌+◌, ◌*◌, ◌^◌, min, String, ◌≡◌, refl, sym, ap, ◌∙◌, inl, inr, ◌<◌, Bool-cases, ltb,
  if◌then◌else◌, true, false, List, [], ◌∷◌, arith,
}
use binance_th.Stream.Connection.{
  WsConfig, Connection, Position, new_connection, scheduled, connecting, reading, crashed, sleeping,
}
use binance_th.Stream.Supervisor.{
  backoff_delay, Move, starts, connects, connect_fails, ends, sleep_ends, loop_head, connect_failed,
  session_over, step, run,
}
use binance_th.Stream.Phases.{Fits, run_new-IsPhased}

-- What the supervisor waits for in each place, up to its next session.
abbrev pub awaited : Position → List Move
awaited scheduled = starts ∷ connects ∷ []
awaited connecting = connects ∷ []
awaited (sleeping ms) = sleep_ends ∷ connects ∷ []
awaited _ = []

-- An outage: the sleep ends and the next connect fails, so many times.
abbrev pub outage : String → ℕ → List Move
outage exc zero = []
outage exc (suc k) = sleep_ends ∷ connect_fails exc ∷ outage exc k

-- Where the supervisor is after a loss and so many connects that failed.
abbrev pub down_for : ℕ → Position
down_for n = if ltb n 1024 then sleeping (min (500 * 2 ^ n) 30000) else crashed

abbrev IsDown : ℕ → Connection → Type 0
IsDown n c = (c.position ≡ down_for n) × (c.closing ≡ false) × (n < 1024 → c.backoff ≡ suc n)

module _ (config : WsConfig) (reconnects : config.ws_auto_reconnect ≡ true) where
  -- One sleep and one connect that fails.
  failure-IsDown :
      (exc : String) (n : ℕ) (c : Connection)
      → IsDown n c
      → IsDown (suc n) (step config (connect_fails exc) (step config sleep_ends c))
  unfolding step loop_head connect_failed backoff_delay
  failure-IsDown exc n c (p, o, count) = elim (Bool-cases (ltb n 1024)) [
    | inl sleeps ↦
        let b : c.backoff ≡ suc n = count (ground (arith, sleeps)) in
        let at_sleep : c.position ≡ sleeping (min (500 * 2 ^ n) 30000) = rw sleeps at p in
        elim (Bool-cases (ltb (suc n) 1024)) [
          | inl again ↦ (
            ground (arith, at_sleep, o, reconnects, b, again),
            ground (arith, at_sleep, o, reconnects, b, again),
            λ few. ground (arith, at_sleep, o, reconnects, b, again),
          )
          | inr over ↦ (
            ground (arith, at_sleep, o, reconnects, b, over),
            ground (arith, at_sleep, o, reconnects, b, over),
            λ few. absurd (ground (arith, over)),
          )
        ]
    | inr ended ↦
        let at_end : c.position ≡ crashed = rw ended at p in
        let over : ltb (suc n) 1024 ≡ false = ground arith in
        rw (at_end, over) (refl, o, λ few. absurd (ground (arith, over)))
  ]

  outage-IsDown :
      (exc : String) (k n : ℕ) (c : Connection)
      → IsDown n c
      → (run config (outage exc k) c).position ≡ down_for (k + n)
  unfolding run
  outage-IsDown exc zero n c d = let e : 0 + n ≡ n = omega arith in rw e d.0
  outage-IsDown exc (suc k) n c d =
      let e : suc k + n ≡ k + suc n = omega arith in
      outage-IsDown exc k (suc n) (step config (connect_fails exc) (step config sleep_ends c))
        (failure-IsDown exc n c d)
      ∙ ap down_for (sym e)

  lost-IsDown :
      (c : Connection)
      → c.position ≡ reading
      → c.planned ≡ false
      → Fits config c reading
      → IsDown 0 (step config ends c)
  unfolding step session_over backoff_delay
  lost-IsDown c p q f = (
    ground (arith, p, q, f, reconnects),
    ground (arith, p, q, f, reconnects),
    λ few. ground (arith, p, q, f, reconnects),
  )

  -- A session of any connection that calls and events can lead to is lost, with no reconnect
  -- planned, and then so many connects fail: up to the 1023rd failure the supervisor sleeps for 0.5 s
  -- doubled so many times, and for no more than 30 s; from the 1024th on its task has ended with an
  -- exception.
  pub outage_schedule :
      (exc : String) (k : ℕ) (ms : List Move)
      → (run config ms new_connection).position ≡ reading
      → (run config ms new_connection).planned ≡ false
      → (run config (ends ∷ outage exc k) (run config ms new_connection)).position
        ≡ (if ltb k 1024 then sleeping (min (500 * 2 ^ k) 30000) else crashed)
  unfolding run
  outage_schedule exc k ms p q =
      let c : Connection = run config ms new_connection in
      let e : k + 0 ≡ k = omega arith in
      outage-IsDown exc k 0 (step config ends c)
        (lost-IsDown c p q (rw p at (run_new-IsPhased config ms)))
      ∙ ap down_for e
