-- ===== src/RateLimit/History.antt =====
-- What the limiter of binance_th/ratelimit.py admits over time.
use binance_th.Prelude.{
  ℕ, ◌≤◌, ◌<◌, ◌≡◌, ◌⊎◌, inl, inr, none, some, List, [], ◌∷◌, ◌==◌, arith, All, Bool-cases,
}
use binance_th.RateLimit.Window.{WindowKey, Window}
use binance_th.RateLimit.Headers.{update_from_headers}
use binance_th.RateLimit.Limiter.{Windows, acquire_round}
use binance_th.RateLimit.InOrder.{
  InOrder, admitted-InOrder, waiting-InOrder, answer-InOrder, later-InOrder,
}
use binance_th.RateLimit.Counting.{
  Round, Event, round, answer, charged_since, limiter_run, IsOneCall,
}

abbrev time_of : Event → ℕ
time_of (round (now, weight, mutating)) = now
time_of (answer now headers) = now

-- The events come in the order of their times, none before `last`.
abbrev pub Ordered : ℕ → List Event → Type 0
Ordered last [] = Unit
Ordered last (e ∷ events) = (last ≤ time_of e) × Ordered (time_of e) events

-- The time of the last of some events.
abbrev final_time : ℕ → List Event → ℕ
final_time last [] = last
final_time last (e ∷ events) = final_time (time_of e) events

run-InOrder :
    (events : List Event) (last : ℕ) (d : Windows) (log : List Round)
    → Ordered last events
    → All (InOrder last log) d
    → All
        (InOrder (final_time last events) (limiter_run events (d, log)).1)
        (limiter_run events (d, log)).0
unfolding limiter_run
run-InOrder [] last d log le h = h
run-InOrder (round (now, weight, mutating) ∷ events) last d log le h =
    elim (Bool-cases ((acquire_round now weight mutating d).1 == 0)) [
      | inl free ↦
          rw (free, limiter_run)
            (run-InOrder events now _ ((now, weight, mutating) ∷ log) le.1
              (admitted-InOrder last now weight mutating d log le.0 (ground arith) h))
      | inr busy ↦
          rw (busy, limiter_run)
            (run-InOrder events now _ log le.1
              (waiting-InOrder last now weight mutating d log le.0 busy h))
    ]
run-InOrder (answer now headers ∷ events) last d log le h =
    run-InOrder events now (update_from_headers now headers d) log le.1
      (answer-InOrder now log headers d (later-InOrder last now log d le.0 h))

-- A window that has counted nothing.
abbrev pub IsFresh : WindowKey × Window → Type 0
IsFresh e = (0 < e.1.duration) × (e.1.used ≡ 0) × (e.1.window_start ≡ none)

-- The charges of the calls admitted since a window's interval began come to its limit at most, or
-- are all those of one of these calls.
abbrev pub IsPaced : List Round → WindowKey × Window → Type 0
IsPaced log e =
    (start : ℕ)
    → e.1.window_start ≡ some start
    → (charged_since start e.1.key log ≤ e.1.limit) ⊎ IsOneCall start e.1.key log

pub fresh-InOrder : (last : ℕ) (d : Windows) → All IsFresh d → All (InOrder last []) d
fresh-InOrder last [] h = tt
fresh-InOrder last ((k, w) ∷ d) ((pos, unused, unanchored), h) =
    ((pos, rw unanchored (unused, tt)), fresh-InOrder last d h)

pub InOrder-IsPaced :
    (last : ℕ) (log : List Round) (d : Windows) → All (InOrder last log) d → All (IsPaced log) d
InOrder-IsPaced last log [] h = tt
InOrder-IsPaced last log ((k, w) ∷ d) h = (
  λ start anchor. let (counted, ended, before, kept) = rw anchor at h.0.1 in kept,
  InOrder-IsPaced last log d h.1,
)

-- From windows that have counted nothing, with positive intervals, and on a clock that does not run
-- back: after any rounds of `acquire` and of `update_from_headers`, the charges of the calls that
-- were admitted since the start of a window's running interval do not exceed its limit, unless they
-- are all those of one of these calls.
pub limiter_run-IsPaced :
    (events : List Event) (start : ℕ) (d : Windows)
    → All IsFresh d
    → Ordered start events
    → All (IsPaced (limiter_run events (d, [])).1) (limiter_run events (d, [])).0
limiter_run-IsPaced events start d fresh order =
    InOrder-IsPaced (final_time start events) (limiter_run events (d, [])).1
      (limiter_run events (d, [])).0
      (run-InOrder events start d [] order (fresh-InOrder start d fresh))
