-- ===== src/Validation/Rounding.antt =====
-- `snap_price` and `snap_qty` of binance_th/validation.py, with the rounding of Python's `decimal`
-- at its default context: 28 significant digits, half to even. Values count units, and the unit is
-- below every digit of an operand.
use binance_th.Prelude.{
  ℕ, zero, suc, ◌+◌, ◌-◌, ◌*◌, ◌/◌, ◌%◌, ◌^◌, ◌≡◌, refl, Option, none, some, ltb, leb, ◌==◌,
  if◌then◌else◌,
}
use binance_th.Prelude.Int.{ℤ, pos, negsuc, pos_part, neg_part, sub_ℕ}
use binance_th.Models.Base.{Decimal}

-- The number of decimal digits of `n`, by trying `d`, `d + 1`, …
digits_from : ℕ → ℕ → ℕ → ℕ
digits_from zero d n = d
digits_from (suc fuel) d n =
    let more = digits_from fuel (suc d) n in if ltb n (10 ^ d) then d else more

unfoldable pub digits : ℕ → ℕ
unfolding digits_from
digits n = digits_from n 0 n

-- n / d to the nearest integer, a tie to the even one.
unfoldable pub half_even : ℕ → ℕ → ℕ
half_even n d =
    let q = n / d in
    let r = n % d in
    if ltb (2 * r) d then q else if ltb d (2 * r) then q + 1 else if q % 2 == 0 then q else q + 1

abbrev pub precision : ℕ
precision = 28

-- The integer part of the quotient p / t as `decimal` rounds it.
unfoldable pub quotient : ℕ → ℕ → ℕ
unfolding digits half_even
quotient p t =
    let d = digits (p / t) in
    if leb d precision
    then half_even (p * 10 ^ (precision - d)) t / 10 ^ (precision - d)
    else half_even p (t * 10 ^ (d - precision)) * 10 ^ (d - precision)

-- A number as `decimal` rounds it.
unfoldable pub rounded : ℕ → ℕ
unfolding digits half_even
rounded n =
    let d = digits n in
    if leb d precision then n else half_even n (10 ^ (d - precision)) * 10 ^ (d - precision)

abbrev pub magnitude : ℤ → ℕ
magnitude a = pos_part a + neg_part a

unfoldable pub snap_magnitude : ℕ → ℕ → ℕ
unfolding quotient rounded
snap_magnitude p t = rounded (quotient p t * t)

-- A multiple of a non-zero step, towards 0; the sign of the step cancels out.
unfoldable pub snap_to : Decimal → Decimal → Decimal
unfolding snap_magnitude
snap_to (pos p) step = pos (snap_magnitude p (magnitude step))
snap_to (negsuc p) step = sub_ℕ 0 (snap_magnitude (suc p) (magnitude step))

-- `if not step: return value`; else the multiple. `snap_qty` is the same function.
unfoldable pub snap_price : Decimal → Option Decimal → Decimal
unfolding snap_to
snap_price value none = value
snap_price value (some step) = if magnitude step == 0 then value else snap_to value step

snap_runs :
    (snap_price (pos 12345) (some (pos 100)) ≡ pos 12300)
    × (snap_price (negsuc 149) (some (pos 100)) ≡ negsuc 99)
    × (snap_price (pos 7) (some (pos 0)) ≡ pos 7)
unfolding snap_price
snap_runs = (refl, refl, refl)

-- The rounding of the quotient can carry a price over the next tick: 29 nines, in units of the last
-- one, at a tick of 10 ^ 29 units.
snap_above : snap_price (pos (10 ^ 29 - 1)) (some (pos (10 ^ 29))) ≡ pos (10 ^ 29)
unfolding snap_price
snap_above = refl
