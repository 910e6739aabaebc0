-- ===== src/Managed.antt =====
-- The task around a synchronizer: `ManagedOrderBook` of binance_th/orderbook.py and `OrderTracker`
-- of binance_th/ordertracker.py, which differ in what they hold only. `on_close` is the
-- `unsubscribe` of a stream, which does not raise.
use binance_th.Prelude.{
  ℕ, suc, ◌+◌, ◌≡◌, refl, ap, ◌∙◌, Bool, true, false, Option, none, some, List, [], ◌∷◌, ◌++◌,
  arith, if◌then◌else◌,
}
use binance_th.Errors.Exceptions.{Error, Result, ok, raise}
mod Tests

-- `_task`: none, or one that runs, has returned or has raised.
pub data Task : Type 0 where
  absent running returned : Task
  failed : Error → Task

-- `on_close` says that the callback is still there, and `closings` how often it has run.
pub record Managed (V : Type 0) : Type 0 where
  pub task : Task
  pub view : Option V
  pub on_close : Bool
  pub closings : ℕ

abbrev pub new_managed : {V : Type 0} → Managed V
new_managed = record { task = absent; view = none; on_close = true; closings = 0 }

-- What happens: a call of `start` or `aclose`, a view that the synchronizer yields, and its end.
pub data Move (V : Type 0) : Type 0 where
  starts closes ends : Move V
  yields : V → Move V
  fails : Error → Move V

abbrev started : Task → Task
started absent = running
started t = t

module _ {V : Type 0} where
  unfoldable pub start : Managed V → Managed V
  start m = record m { task = started m.task }

  -- The part of `aclose` after the wait for the task.
  unfoldable pub finish_close : Managed V → Managed V
  finish_close m = record m {
    on_close = false;
    closings = if m.on_close then suc m.closings else m.closings;
  }

  -- `aclose`: a task that has raised raises again where it is awaited, since only its cancellation
  -- is suppressed there.
  abbrev closed : Task → Managed V → Result (Unit {0}) × Managed V
  closed (failed e) m = (raise e, m)
  closed _ m = (ok tt, finish_close m)

  unfoldable pub aclose : Managed V → Result (Unit {0}) × Managed V
  unfolding finish_close
  aclose m = closed m.task (record m { task = absent })

  -- A read, `f(self._view) if self._view is not None else default`.
  abbrev pub read : {A : Type 0} → (V → A) → A → Managed V → A
  read f default m = elim m.view [ none ↦ default | some v ↦ f v ]

  -- The task goes on only while it runs.
  abbrev progress : Task → Move V → Managed V → Managed V
  progress running (yields v) m = record m { view = some v }
  progress running ends m = record m { task = returned }
  progress running (fails e) m = record m { task = failed e }
  progress _ _ m = m

  unfoldable pub step : Move V → Managed V → Managed V
  unfolding start aclose
  step starts m = start m
  step closes m = (aclose m).1
  step (yields v) m = progress m.task (yields v) m
  step ends m = progress m.task ends m
  step (fails e) m = progress m.task (fails e) m

  unfoldable pub run : List (Move V) → Managed V → Managed V
  unfolding step
  run [] m = m
  run (x ∷ xs) m = run xs (step x m)

  -- The callback has run, or it is still there, and not both.
  abbrev pub ClosesOnce : Managed V → Type 0
  ClosesOnce m = m.closings + (if m.on_close then 1 else 0) ≡ 1

  step-ClosesOnce : (x : Move V) (m : Managed V) → ClosesOnce m → ClosesOnce (step x m)
  unfolding step start aclose finish_close
  step-ClosesOnce starts m h = h
  step-ClosesOnce closes m h = ground (arith, h)
  step-ClosesOnce (yields v) m h = ground (arith, h)
  step-ClosesOnce ends m h = ground (arith, h)
  step-ClosesOnce (fails e) m h = ground (arith, h)

  run-ClosesOnce : (xs : List (Move V)) (m : Managed V) → ClosesOnce m → ClosesOnce (run xs m)
  unfolding run
  run-ClosesOnce [] m h = h
  run-ClosesOnce (x ∷ xs) m h = run-ClosesOnce xs (step x m) (step-ClosesOnce x m h)

  -- After any calls and events, the callback that ends the subscription has run once or is still to
  -- run, never twice.
  pub run_new-ClosesOnce : (xs : List (Move V)) → ClosesOnce (run xs (new_managed {V = V}))
  run_new-ClosesOnce xs = run-ClosesOnce xs new_managed refl

  -- Where the task has failed, a call of `aclose` raises its error and does not end the
  -- subscription; it takes a second call, which then raises nothing, for the callback to have run
  -- once.
  pub aclose_after_failure :
      (xs : List (Move V)) (e : Error)
      → (run xs (new_managed {V = V})).task ≡ failed e
      → ((aclose (run xs (new_managed {V = V}))).0 ≡ raise e)
        × ((aclose (run xs (new_managed {V = V}))).1.closings
            ≡ (run xs (new_managed {V = V})).closings)
        × ((aclose (aclose (run xs (new_managed {V = V}))).1).0 ≡ ok tt)
        × ((aclose (aclose (run xs (new_managed {V = V}))).1).1.closings ≡ 1)
  unfolding aclose finish_close
  aclose_after_failure xs e h =
      let m : Managed V = run xs new_managed in
      let once : ClosesOnce m = run_new-ClosesOnce xs in
      (ground (arith, h), ground (arith, h), ground (arith, h), ground (arith, h, once))
