-- ===== src/RateLimit/InOrder.antt =====
-- How the rounds of `acquire` and of `update_from_headers` of binance_th/ratelimit.py leave the
-- windows of a limiter.
use binance_th.Prelude.{
  ℕ, ◌≤◌, ◌<◌, ◌≡◌, refl, ◌∙◌, inl, inr, Bool, false, none, some, List, [], ◌∷◌, ◌==◌, arith, All,
  Bool-cases, Option-cases, String, Option, max,
}
use binance_th.RateLimit.Window.{
  WindowKey, WindowKey-discrete, Window, roll, roll-IsCurrent, duration-roll,
}
use binance_th.RateLimit.Pacing.{charge_amount-rolled}
use binance_th.RateLimit.Headers.{report, raise_used, apply_report, update_from_headers}
use binance_th.Prelude.Int.{ℤ, pos_part}
use binance_th.Prelude.Dict.{lookup, insert, insert-All, lookup-All}
use binance_th.RateLimit.Limiter.{
  Windows, charge_amount, rolled, waits, charged, roll_all, longest_wait, charge_all, acquire_round,
}
use binance_th.RateLimit.Counting.{
  Round, raise-Counted, amount_of, Counted, roll-Counted, charge-Counted, skip-Counted,
  later-Counted, key-roll, amount_of_lem,
}

-- A window of the limiter in order at a time.
abbrev pub InOrder : ℕ → List Round → WindowKey × Window → Type 0
InOrder last log e = (0 < e.1.duration) × Counted last log e.1

module _ (last now weight : ℕ) (mutating : Bool) (log : List Round) (le : last ≤ now) where
  abbrev call : Round
  call = (now, weight, mutating)

  rolled-InOrder :
      (k : WindowKey) (w : Window)
      → InOrder last log (k, w)
      → InOrder now log (k, rolled now (charge_amount weight mutating w) w)
  rolled-InOrder k w (pos, c) = elim (Option-cases (charge_amount weight mutating w)) [
    | inl free ↦ rw free (pos, later-Counted last now log w le c)
    | inr (a, charges) ↦
        rw charges (rw (duration-roll now w) pos, roll-Counted last now log w pos le c)
  ]

  roll_all-InOrder :
      (d : Windows)
      → All (InOrder last log) d
      → All (InOrder now log) (roll_all now weight mutating d)
  unfolding roll_all
  roll_all-InOrder [] h = tt
  roll_all-InOrder ((k, w) ∷ d) h = (rolled-InOrder k w h.0, roll_all-InOrder d h.1)

  admit-InOrder :
      (k : WindowKey) (w : Window)
      → waits now (charge_amount weight mutating w) (rolled now (charge_amount weight mutating w) w)
        ≡ 0
      → InOrder last log (k, w)
      → InOrder now (call ∷ log) (
        k,
        charged (charge_amount weight mutating w) (rolled now (charge_amount weight mutating w) w),
      )
  admit-InOrder k w free (pos, c) = elim (Option-cases (charge_amount weight mutating w)) [
    | inl none_here ↦ rw none_here (
      pos,
      skip-Counted now call log w (amount_of_lem now weight mutating w ∙ none_here)
          (later-Counted last now log w le c),
    )
    | inr (a, charges) ↦
        let charges' : amount_of (roll now w).key call ≡ some a =
          rw (key-roll now w) (amount_of_lem now weight mutating w ∙ charges) in
        rw charges (
          rw (duration-roll now w) pos,
          charge-Counted now a call log (roll now w) charges' refl (roll-IsCurrent now w pos)
              (rw charges at free) (roll-Counted last now log w pos le c),
        )
  ]

  charge_all-InOrder :
      (d : Windows)
      → longest_wait now weight mutating (roll_all now weight mutating d) ≡ 0
      → All (InOrder last log) d
      → All
          (InOrder now (call ∷ log))
          (charge_all now weight mutating (roll_all now weight mutating d))
  unfolding roll_all charge_all longest_wait
  charge_all-InOrder [] free h = tt
  charge_all-InOrder ((k, w) ∷ d) free h =
      let o = charge_amount weight mutating w in
      let same = charge_amount-rolled now weight mutating o w in
      let here : waits now (charge_amount weight mutating (rolled now o w)) (rolled now o w) ≡ 0 =
        omega arith in
      (rw same (admit-InOrder k w (rw same at here) h.0), charge_all-InOrder d (omega arith) h.1)

raise_used-InOrder :
    (last now : ℕ) (used : ℤ) (log : List Round) (k : WindowKey) (w : Window)
    → last ≤ now
    → InOrder last log (k, w)
    → InOrder now log (k, raise_used now used w)
unfolding raise_used
raise_used-InOrder last now used log k w le (pos, c) =
    let current = roll-IsCurrent now w pos in
    let rolled_one = roll-Counted last now log w pos le c in
    elim (Option-cases (roll now w).window_start) [
      | inl fresh ↦ absurd (ground (arith, current.anchored))
      | inr (start, anchor) ↦ (
        rw (duration-roll now w) pos,
        raise-Counted now start (max (roll now w).used (pos_part used)) log (roll now w) anchor
            (ground arith) rolled_one,
      )
    ]

pub later-InOrder :
    (last now : ℕ) (log : List Round) (d : Windows)
    → last ≤ now
    → All (InOrder last log) d
    → All (InOrder now log) d
later-InOrder last now log [] le h = tt
later-InOrder last now log ((k, w) ∷ d) le h =
    ((h.0.0, later-Counted last now log w le h.0.1), later-InOrder last now log d le h.1)

apply_report-InOrder :
    (now : ℕ) (log : List Round) (r : Option (WindowKey × ℤ)) (d : Windows)
    → All (InOrder now log) d
    → All (InOrder now log) (apply_report now r d)
apply_report-InOrder now log none d h = unfold apply_report in h
apply_report-InOrder now log (some (k, used)) d h =
    elim (Option-cases (lookup WindowKey-discrete k d)) [
      | inl missing ↦
          let same : apply_report now (some (k, used)) d ≡ d =
            unfold apply_report in ground arith in
          rw same h
      | inr (w, found) ↦
          let same : apply_report now (some (k, used)) d
              ≡ insert WindowKey-discrete k (raise_used now used w) d =
            unfold apply_report in ground arith in
          rw same (
            insert-All WindowKey-discrete (InOrder now log) k (raise_used now used w) d
              (raise_used-InOrder now now used log k w (omega arith)
                (lookup-All WindowKey-discrete (InOrder now log) k w d found h))
              h)
    ]

pub answer-InOrder :
    (now : ℕ) (log : List Round) (headers : List (String × String)) (d : Windows)
    → All (InOrder now log) d
    → All (InOrder now log) (update_from_headers now headers d)
unfolding update_from_headers
answer-InOrder now log [] d h = h
answer-InOrder now log (x ∷ headers) d h =
    answer-InOrder now log headers (apply_report now (report x) d)
      (apply_report-InOrder now log (report x) d h)

-- A round that admits its call, and one that does not.
pub admitted-InOrder :
    (last now weight : ℕ) (mutating : Bool) (d : Windows) (log : List Round)
    → last ≤ now
    → (acquire_round now weight mutating d).1 ≡ 0
    → All (InOrder last log) d
    → All (InOrder now ((now, weight, mutating) ∷ log)) (acquire_round now weight mutating d).0
unfolding acquire_round
admitted-InOrder last now weight mutating d log le free h =
    elim (Bool-cases (longest_wait now weight mutating (roll_all now weight mutating d) == 0)) [
      | inl none_left ↦
          rw none_left (charge_all-InOrder last now weight mutating log le d (ground arith) h)
      | inr busy ↦ absurd (ground arith)
    ]

pub waiting-InOrder :
    (last now weight : ℕ) (mutating : Bool) (d : Windows) (log : List Round)
    → last ≤ now
    → ((acquire_round now weight mutating d).1 == 0) ≡ false
    → All (InOrder last log) d
    → All (InOrder now log) (acquire_round now weight mutating d).0
unfolding acquire_round
waiting-InOrder last now weight mutating d log le busy h =
    elim (Bool-cases (longest_wait now weight mutating (roll_all now weight mutating d) == 0)) [
      | inl free ↦ absurd (ground arith)
      | inr waits ↦ rw waits (roll_all-InOrder last now weight mutating log le d h)
    ]
