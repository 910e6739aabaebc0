-- ===== src/RateLimit/Tests.antt =====
-- The rate limiter of binance_th/ratelimit.py on a few calls.
use mathlib.Core.Option
use binance_th.Prelude.{
  ℕ, ◌+◌, ◌*◌, ◌≤◌, ◌<◌, ◌≡◌, refl, ◌⊎◌, true, false, none, some, All, List, [], ◌∷◌, arith, String,
}
use binance_th.Prelude.Dict.{lookup}
use binance_th.Models.Base.{RateLimit}
use binance_th.Models.Enums.{request_weight, orders, second, minute}
use binance_th.RateLimit.Window.{
  WindowKey, WindowKey-discrete, Window, roll, wait_time, roll_effect,
}
use binance_th.RateLimit.Limiter.{
  Windows, charge_amount, acquire_round, acquire_from, reseed, reseeded, longest_wait, roll_all,
  charge_all,
}
use binance_th.RateLimit.Headers.{update_from_headers}
use binance_th.RateLimit.Pacing.{Each, Admits, acquire_round-Admits, acquire_returns}
use binance_th.RateLimit.Counting.{Event, round, answer, limiter_run}
use binance_th.RateLimit.History.{IsPaced, limiter_run-IsPaced}
use binance_th.RateLimit.Reconcile.{
  reports, raised, rule_for, update_from_headers-lookup, reseed-lookup,
}

abbrev weight_key : WindowKey
weight_key = record { rate_limit_type = request_weight; interval = minute; interval_num = 1 }

abbrev weight_window : Window
weight_window = record {
  key = weight_key;
  limit = 10;
  duration = 60_000;
  used = 8;
  window_start = some 1000;
}

abbrev order_key : WindowKey
order_key = record { rate_limit_type = orders; interval = second; interval_num = 10 }

abbrev order_window : Window
order_window = record {
  key = order_key;
  limit = 2;
  duration = 10_000;
  used = 2;
  window_start = some 5000;
}

abbrev windows : Windows
windows = (weight_key, weight_window) ∷ (order_key, order_window) ∷ []

roll_effect_sample :
    ((15_500 < 5000 + 10_000) × (roll 15_500 order_window ≡ order_window))
    ⊎ ((5000 + 10_000 ≤ 15_500)
        × ((roll 15_500 order_window).used ≡ 0)
        × ((n : ℕ) × ((roll 15_500 order_window).window_start ≡ some (5000 + 10_000 * n))
            × (5000 + 10_000 * n ≤ 15_500)))
roll_effect_sample = roll_effect 15_500 5000 order_window (omega arith) refl

acquire_round-Admits_sample :
    Each
      (λ w. Admits 15_500 (charge_amount 2 true w) w)
      windows
      (acquire_round 15_500 2 true windows).0
unfolding acquire_round charge_amount roll wait_time longest_wait roll_all
acquire_round-Admits_sample =
    acquire_round-Admits 15_500 2 true windows (omega arith, (omega arith, tt)) refl

-- A clock on which a second call at 6000 ms waits until 15000 ms.
abbrev clock : ℕ → ℕ
clock i = 6000 + i * 9000

acquire_returns_example :
    (r : Windows × ℕ) × (acquire_from clock (λ _ d. d) 1 true 2 0 windows ≡ some r) × (r.1 ≤ 1)
unfolding acquire_round charge_amount roll wait_time longest_wait roll_all
acquire_returns_example =
    acquire_returns clock 1 true 0 0 windows (omega arith, (omega arith, tt)) (ground arith)

abbrev headers : List (String × String)
headers = ("X-MBX-USED-WEIGHT-1M", "9") ∷ ("Date", "today") ∷ []

update_from_headers-lookup_example :
    lookup WindowKey-discrete weight_key (update_from_headers 2000 headers windows)
    ≡ some (raised 2000 (reports weight_key headers) weight_window)
unfolding lookup WindowKey-discrete
update_from_headers-lookup_example =
    update_from_headers-lookup 2000 headers windows weight_key weight_window (omega arith) refl

abbrev rules : List RateLimit
rules =
    record { rate_limit_type = request_weight; interval = minute; interval_num = 1; limit = 20 }
    ∷ []

reseed-lookup_sample :
    lookup WindowKey-discrete weight_key (reseed rules windows)
    ≡ Option.map
        (reseeded (lookup WindowKey-discrete weight_key windows))
        (rule_for weight_key rules)
reseed-lookup_sample = reseed-lookup rules windows weight_key

-- The headers' largest usage wins, and only for its window.
headers_run :
    (raised 2000 (reports weight_key headers) weight_window ≡ record weight_window { used = 9 })
    × (reports order_key headers ≡ [])
unfolding WindowKey-discrete roll binance_th.RateLimit.Headers.report
headers_run = (refl, refl)

abbrev new_windows : Windows
new_windows =
    (weight_key, record weight_window { used = 0; window_start = none })
    ∷ (order_key, record order_window { used = 0; window_start = none })
    ∷ []

-- The second finds no room, the third none by what the server reports, and the last comes in the
-- next minute.
abbrev rounds : List Event
rounds =
    round (0, 6, true)
    ∷ round (10, 6, false)
    ∷ answer 15 headers
    ∷ round (20, 4, true)
    ∷ answer 30 (("x-mbx-used-weight-1m", "7") ∷ [])
    ∷ round (60_000, 6, false)
    ∷ []

limiter_run-IsPaced_example :
    All (IsPaced (limiter_run rounds (new_windows, [])).1) (limiter_run rounds (new_windows, [])).0
limiter_run-IsPaced_example =
    limiter_run-IsPaced rounds 0 new_windows
      ((omega arith, refl, refl), ((omega arith, refl, refl), tt)) (omega arith)

limiter_run_runs : (limiter_run rounds (new_windows, [])).1 ≡ (60_000, 6, false) ∷ (0, 6, true) ∷ []
unfolding WindowKey-discrete lookup binance_th.Prelude.Dict.insert limiter_run acquire_round
    roll_all longest_wait charge_amount roll wait_time charge_all
limiter_run_runs = refl
