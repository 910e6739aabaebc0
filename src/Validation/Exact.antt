-- ===== src/Validation/Exact.antt =====
-- Within the precision of `decimal`, snapping is the exact multiple: binance_th/validation.py.
use native.Mathlib.Nat.{
  div-add-mod, mul-le-mul_left, mul-le-mul_right, div-mul-le_self, lt-div-mul-add,
  le-div_iff_mul-le, div-lt_iff_lt-mul,
}
use binance_th.Prelude.{
  ℕ, ◌+◌, ◌-◌, ◌*◌, ◌/◌, ◌%◌, ◌^◌, ◌≤◌, ◌<◌, ◌≡◌, refl, arith, ◌⊎◌, inl, inr, dec_lt, ◌∙◌, ap,
}
use binance_th.Validation.Rounding.{digits, half_even, precision, quotient, rounded, snap_magnitude}

half_even_cases :
    (n d : ℕ) → (half_even n d ≡ n / d) ⊎ ((half_even n d ≡ n / d + 1) × (d ≤ 2 * (n % d)))
unfolding half_even
half_even_cases n d = ground arith

div_unique : (x m q : ℕ) → 0 < m → q * m ≤ x → x < q * m + m → x / m ≡ q
div_unique x m q h lo hi = grind arith

-- The remainder of p by t leaves room for the rounding below the next multiple of m.
half_even-div : (p t m : ℕ) → 0 < t → t ≤ m → half_even (p * m) t / m ≡ p / t
half_even-div p t m ht hm =
    let below = mul-le-mul_right m (div-mul-le_self p t) in
    let above = mul-le-mul_right m (lt-div-mul-add {a = p} ht) in
    let low : p / t * m ≤ p * m / t = (le-div_iff_mul-le ht).1 (omega arith) in
    let high : p * m / t < p / t * m + m = (div-lt_iff_lt-mul ht).1 (omega arith) in
    elim (half_even_cases (p * m) t) [
      | inl e ↦ div_unique _ m (p / t) (omega arith) (rw e low) (rw e high)
      | inr (e, up) ↦ div_unique _ m (p / t) (omega arith) (rw e (omega arith)) (
          rw e (elim (dec_lt (p * m / t + 1) (p / t * m + m)) [
            | yes room ↦ room
            | no full ↦
                let top : p / t * m + m ≤ p * m / t + 1 = omega arith in
                absurd (omega (arith, mul-le-mul_left t top, div-add-mod (p * m) t))
          ]))
    ]

-- The precision of `decimal` suffices to snap p to t: the quotient has 28 digits at most, t has no
-- more digits than are left of them, and so has the multiple.
pub record InPrecision (p t : ℕ) : Type 0 where
  pub quotient_fits : digits (p / t) ≤ precision
  pub step_fits : t ≤ 10 ^ (precision - digits (p / t))
  pub multiple_fits : digits (p / t * t) ≤ precision

quotient_exact : (p t : ℕ) → 0 < t → InPrecision p t → quotient p t ≡ p / t
unfolding quotient
quotient_exact p t ht h = ground (arith, half_even-div p t (10 ^ (precision - digits (p / t))) ht)

rounded_exact : (n : ℕ) → digits n ≤ precision → rounded n ≡ n
unfolding rounded
rounded_exact n h = ground arith

multiple_exact : (p t : ℕ) → 0 < t → InPrecision p t → snap_magnitude p t ≡ p / t * t
unfolding snap_magnitude
multiple_exact p t ht h = rw (quotient_exact p t ht h) (rounded_exact (p / t * t) h.multiple_fits)

-- Within the precision, snapping gives the largest multiple of the step that is not above the
-- value.
pub snap_magnitude_exact :
    (p t : ℕ)
    → 0 < t
    → InPrecision p t
    → (snap_magnitude p t ≡ p / t * t) × (snap_magnitude p t ≤ p) × (p < snap_magnitude p t + t)
snap_magnitude_exact p t ht h =
    rw (multiple_exact p t ht h) (refl, div-mul-le_self p t, lt-div-mul-add {a = p} ht)

-- Within the precision, a value that is snapped already stays as it is.
pub snap_magnitude_twice :
    (p t : ℕ) → 0 < t → InPrecision p t → snap_magnitude (snap_magnitude p t) t ≡ snap_magnitude p t
snap_magnitude_twice p t ht h =
    let same : p / t * t / t ≡ p / t =
      div_unique (p / t * t) t (p / t) ht (omega arith) (omega arith) in
    let fits : InPrecision (p / t * t) t = record {
      quotient_fits = rw same h.quotient_fits;
      step_fits = rw same h.step_fits;
      multiple_fits = rw same h.multiple_fits;
    } in
    rw (multiple_exact p t ht h) (multiple_exact (p / t * t) t ht fits ∙ ap (λ q. q * t) same)
