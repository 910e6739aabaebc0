-- ===== src/RateLimit/Window.antt =====
-- `Window` of binance_th/ratelimit.py, and how a window rolls. Times are whole milliseconds of a
-- monotonic clock; rounding of floats is not modelled.
use binance_th.Prelude.{
  ℕ, ◌+◌, ◌-◌, ◌*◌, ◌/◌, ◌≤◌, ◌<◌, ◌≡◌, ◌⊎◌, inl, inr, Option, none, some, ◌||◌, leb, ◌==◌,
  if◌then◌else◌, or_else, is_some, arith, true, Bool-cases,
}
use binance_th.Models.Enums.{RateLimitType, RateLimitInterval, second, minute, hour, day}
use native.Mathlib.Decide.{ℕ_discrete}

pub record WindowKey : Type 0 where
  pub rate_limit_type : RateLimitType
  pub interval : RateLimitInterval
  pub interval_num : ℕ

unfoldable pub WindowKey-discrete : Discrete WindowKey
unfolding ℕ_discrete
WindowKey-discrete = hlevel ℕ_discrete

-- `_INTERVAL_SECONDS`, in milliseconds.
abbrev pub interval_ms : RateLimitInterval → ℕ
interval_ms second = 1000
interval_ms minute = 60_000
interval_ms hour = 3_600_000
interval_ms day = 86_400_000

pub record Window : Type 0 where
  pub key : WindowKey
  pub limit : ℕ
  pub duration : ℕ
  pub used : ℕ
  pub window_start : Option ℕ

-- `start + duration <= now` is the test `now - start >= duration` without a negative difference.
unfoldable pub roll : ℕ → Window → Window
roll now w = elim w.window_start [
  | none ↦ record w { window_start = some now }
  | some start ↦
      if leb (start + w.duration) now
      then record w {
        used = 0;
        window_start = some (start + w.duration * ((now - start) / w.duration));
      }
      else w
]

unfoldable pub wait_time : ℕ → ℕ → Window → ℕ
wait_time now charge w =
    if w.used == 0 || leb (w.used + charge) w.limit
    then 0
    else or_else w.window_start now + w.duration - now

-- The interval that the window counts has an anchor, and `now` lies before its end.
pub record IsCurrent (now : ℕ) (w : Window) : Type 0 where
  pub anchored : is_some w.window_start ≡ true
  pub running : now < or_else w.window_start now + w.duration

div_mul_bounds : (a d : ℕ) → 0 < d → (a < d * (a / d) + d) × (d * (a / d) ≤ a)
div_mul_bounds a d h = grind arith

pub roll-IsCurrent : (now : ℕ) (w : Window) → 0 < w.duration → IsCurrent now (roll now w)
unfolding roll
roll-IsCurrent now w h =
    ground (arith, div_mul_bounds (now - or_else w.window_start now) w.duration h)

-- A roll of an anchored window with a positive interval keeps the counter while the interval runs,
-- and else clears it with a new anchor that lies a whole number of intervals after the old one and
-- not after `now`.
pub roll_effect :
    (now start : ℕ) (w : Window)
    → 0 < w.duration
    → w.window_start ≡ some start
    → ((now < start + w.duration) × (roll now w ≡ w))
      ⊎ ((start + w.duration ≤ now)
          × ((roll now w).used ≡ 0)
          × ((n : ℕ) × ((roll now w).window_start ≡ some (start + w.duration * n))
              × (start + w.duration * n ≤ now)))
unfolding roll
roll_effect now start w h e = elim (Bool-cases (leb (start + w.duration) now)) [
  | inl over ↦ inr (
    ground arith,
    ground arith,
    (
      (now - start) / w.duration,
      ground arith,
      ground (arith, div_mul_bounds (now - start) w.duration h),
    ),
  )
  | inr runs ↦ inl (ground arith, ground arith)
]

pub duration-roll : (now : ℕ) (w : Window) → (roll now w).duration ≡ w.duration
unfolding roll
duration-roll now w = ground arith

-- A window that runs at `now` has room, or is empty after the next roll, once its wait is over.
pub waited_has_room :
    (now later charge : ℕ) (w : Window)
    → IsCurrent now w
    → now + wait_time now charge w ≤ later
    → wait_time later charge (roll later w) ≡ 0
unfolding roll wait_time
waited_has_room now later charge w c le = ground arith

-- A window that runs at `now` is not rolled.
pub roll_current : (now : ℕ) (w : Window) → IsCurrent now w → roll now w ≡ w
unfolding roll
roll_current now w c = ground arith
