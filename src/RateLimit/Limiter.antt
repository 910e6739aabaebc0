-- ===== src/RateLimit/Limiter.antt =====
-- `DualWindowRateLimiter` of binance_th/ratelimit.py: construction, one locked round of `acquire`,
-- the loop of `acquire`, and `reseed`.
use mathlib.Core.List.{foldl}
use binance_th.Prelude.{
  ℕ, zero, suc, ◌+◌, ◌*◌, Bool, Option, none, some, List, [], ◌∷◌, map, max, ◌==◌, if◌then◌else◌,
}
use binance_th.Prelude.Dict.{Dict, lookup, insert}
use binance_th.Models.Base.{RateLimit}
use binance_th.Models.Enums.{request_weight, orders, raw_requests, second, minute}
use binance_th.RateLimit.Window.{
  WindowKey, WindowKey-discrete, Window, interval_ms, roll, wait_time,
}

abbrev pub Windows : Type 0
Windows = Dict WindowKey Window

abbrev pub key_of : RateLimit → WindowKey
key_of rule = record {
  rate_limit_type = rule.rate_limit_type;
  interval = rule.interval;
  interval_num = rule.interval_num;
}

abbrev pub duration_of : RateLimit → ℕ
duration_of rule = interval_ms rule.interval * rule.interval_num

-- A window that has counted nothing.
abbrev pub fresh : RateLimit → Window
fresh rule = record {
  key = key_of rule;
  limit = rule.limit;
  duration = duration_of rule;
  used = 0;
  window_start = none;
}

-- `{w.key: w for w in windows}`
unfoldable pub by_key : List Window → Windows
by_key = foldl (λ d w. insert WindowKey-discrete w.key w d) []

unfoldable pub from_rate_limits : List RateLimit → Windows
unfolding by_key
from_rate_limits rules = by_key (map fresh rules)

abbrev pub default_rate_limits : List RateLimit
default_rate_limits =
    record { rate_limit_type = request_weight; interval = minute; interval_num = 1; limit = 6000 }
    ∷ record { rate_limit_type = orders; interval = minute; interval_num = 1; limit = 6000 }
    ∷ record { rate_limit_type = orders; interval = second; interval_num = 10; limit = 1000 }
    ∷ []

-- `_charges`: what a call charges a window, if it charges it at all.
unfoldable pub charge_amount : ℕ → Bool → Window → Option ℕ
charge_amount weight mutating w = elim w.key.rate_limit_type [
  | request_weight ↦ some weight
  | raw_requests ↦ some 1
  | orders ↦ if mutating then some 1 else none
]

abbrev pub rolled : ℕ → Option ℕ → Window → Window
rolled now none w = w
rolled now (some amount) w = roll now w

abbrev pub waits : ℕ → Option ℕ → Window → ℕ
waits now none w = 0
waits now (some amount) w = wait_time now amount w

abbrev pub charged : Option ℕ → Window → Window
charged none w = w
charged (some amount) w = record w { used = w.used + amount }

module _ (now weight : ℕ) (mutating : Bool) where
  -- `window.roll(now)` for each window that the call charges.
  unfoldable pub roll_all : Windows → Windows
  roll_all = map λ (k, w). (k, rolled now (charge_amount weight mutating w) w)

  -- The longest wait among the windows that the call charges.
  unfoldable pub longest_wait : Windows → ℕ
  longest_wait [] = 0
  longest_wait ((k, w) ∷ d) = max (waits now (charge_amount weight mutating w) w) (longest_wait d)

  unfoldable pub charge_all : Windows → Windows
  charge_all = map λ (k, w). (k, charged (charge_amount weight mutating w) w)

  -- The body of the lock in `acquire`: the windows after it, and the wait, 0 if the call is
  -- admitted.
  unfoldable pub acquire_round : Windows → Windows × ℕ
  acquire_round d =
      let d' = roll_all d in
      let wait = longest_wait d' in if wait == 0 then (charge_all d', 0) else (d', wait)

-- `acquire`: `clock i` is the reading of the clock in round `i`, and `others i` is what the other
-- tasks do to the windows while round `i` sleeps. `none` means that the fuel ran out.
module _ (clock : ℕ → ℕ) (others : ℕ → Windows → Windows) (weight : ℕ) (mutating : Bool) where
  unfoldable pub acquire_from : ℕ → ℕ → Windows → Option (Windows × ℕ)
  acquire_from zero i d = none
  acquire_from (suc fuel) i d =
      let (d', wait) = acquire_round (clock i) weight mutating d in
      let again = acquire_from fuel (suc i) (others i d') in
      if wait == 0 then some (d', i) else again

-- The window that `reseed` stores for a rule: a kept one has the new limit and duration, and its
-- counter and anchor.
unfoldable pub reseeded : Option Window → RateLimit → Window
reseeded none rule = fresh rule
reseeded (some w) rule = record w { limit = rule.limit; duration = duration_of rule }

unfoldable pub reseed_onto : Windows → Windows → List RateLimit → Windows
unfolding reseeded
reseed_onto old new [] = new
reseed_onto old new (rule ∷ rules) =
    let window = reseeded (lookup WindowKey-discrete (key_of rule) old) rule in
    reseed_onto old (insert WindowKey-discrete (key_of rule) window new) rules

unfoldable pub reseed : List RateLimit → Windows → Windows
unfolding reseed_onto
reseed rules old = reseed_onto old [] rules
