-- ===== src/RateLimit/Headers.antt =====
-- `update_from_headers` of binance_th/ratelimit.py, with its two regular expressions on ASCII.
use binance_th.Prelude.{
  ℕ, ◌+◌, ◌-◌, ◌*◌, String, ◌≡◌, refl, Bool, true, false, Option, none, some, List, [], ◌∷◌, max,
  ◌==◌, if◌then◌else◌,
}
use binance_th.Prelude.Int.{ℤ, pos_part}
use binance_th.Prelude.Dict.{lookup, insert}
use binance_th.Prelude.Text.{codes, lower, is_digit, parse_int}
use binance_th.Models.Enums.{
  RateLimitType, RateLimitInterval, request_weight, orders, second, minute, hour, day,
}
use binance_th.RateLimit.Window.{WindowKey, WindowKey-discrete, Window, roll}
use binance_th.RateLimit.Limiter.{Windows}

-- `_UNIT_TO_INTERVAL`
abbrev unit_to_interval : ℕ → Option RateLimitInterval
unit_to_interval c =
    if c == b's'
    then some second
    else if c == b'm'
    then some minute
    else if c == b'h'
    then some hour
    else if c == b'd'
    then some day
    else none

-- What follows the prefix: `(\d+)([smhd])` to the end. `after` says that a digit was read.
unfoldable pub count_and_unit : ℕ → Bool → List ℕ → Option (ℕ × RateLimitInterval)
unfolding is_digit
count_and_unit n after [] = none
count_and_unit n after (c ∷ []) = elim (unit_to_interval c) [
  | none ↦ none
  | some u ↦ if after then some (n, u) else none
]
count_and_unit n after (c ∷ d ∷ s) =
    let rest = count_and_unit (n * 10 + (c - 48)) true (d ∷ s) in if is_digit c then rest else none

-- The rest of a text behind a prefix.
unfoldable pub strip_prefix : List ℕ → List ℕ → Option (List ℕ)
strip_prefix [] s = some s
strip_prefix (c ∷ p) [] = none
strip_prefix (c ∷ p) (d ∷ s) = if c == d then strip_prefix p s else none

abbrev keyed : RateLimitType → Option (ℕ × RateLimitInterval) → Option WindowKey
keyed t none = none
keyed t (some (n, u)) = some (record { rate_limit_type = t; interval = u; interval_num = n })

abbrev match_header : String → RateLimitType → List ℕ → Option WindowKey
match_header prefix t name = elim (strip_prefix (codes prefix) name) [
  | none ↦ none
  | some s ↦ keyed t (count_and_unit 0 false s)
]

-- The window that a header speaks of.
unfoldable pub header_key : String → Option WindowKey
unfolding count_and_unit strip_prefix lower
header_key raw_key =
    let name = lower (codes raw_key) in
    elim (match_header "x-mbx-used-weight-" request_weight name) [
      | some k ↦ some k
      | none ↦ match_header "x-mbx-order-count-" orders name
    ]

-- What a header reports: a window and its usage. A name or a value that does not parse is skipped.
unfoldable pub report : String × String → Option (WindowKey × ℤ)
unfolding header_key parse_int
report (raw_key, raw_value) = elim (header_key raw_key) [
  | none ↦ none
  | some k ↦ elim (parse_int (codes raw_value)) [ none ↦ none | some used ↦ some (k, used) ]
]

unfoldable pub raise_used : ℕ → ℤ → Window → Window
raise_used now used w = let v = roll now w in record v { used = max v.used (pos_part used) }

unfoldable pub apply_report : ℕ → Option (WindowKey × ℤ) → Windows → Windows
unfolding raise_used
apply_report now none d = d
apply_report now (some (k, used)) d = elim (lookup WindowKey-discrete k d) [
  | none ↦ d
  | some w ↦ insert WindowKey-discrete k (raise_used now used w) d
]

unfoldable pub update_from_headers : ℕ → List (String × String) → Windows → Windows
unfolding apply_report report
update_from_headers now [] d = d
update_from_headers now (h ∷ hs) d = update_from_headers now hs (apply_report now (report h) d)

header_key_runs :
    (header_key "X-MBX-USED-WEIGHT-1m"
      ≡ some (record { rate_limit_type = request_weight; interval = minute; interval_num = 1 }))
    × (header_key "x-mbx-order-count-10s"
        ≡ some (record { rate_limit_type = orders; interval = second; interval_num = 10 }))
    × (header_key "x-mbx-used-weight-m" ≡ none)
unfolding header_key
header_key_runs = (refl, refl, refl)
