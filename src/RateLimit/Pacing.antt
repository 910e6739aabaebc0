-- ===== src/RateLimit/Pacing.antt =====
-- What `acquire` of binance_th/ratelimit.py promises.
use binance_th.Prelude.{
  ℕ, suc, ◌+◌, ◌≤◌, ◌<◌, ◌≡◌, refl, ◌⊎◌, inl, inr, Bool, false, Option, none, some, [], ◌∷◌, arith,
  All, ◌==◌, Bool-cases,
}
use binance_th.RateLimit.Window.{
  Window, roll, wait_time, IsCurrent, roll-IsCurrent, waited_has_room,
}
use binance_th.RateLimit.Limiter.{
  Windows, charge_amount, rolled, waits, charged, roll_all, longest_wait, charge_all, acquire_round,
  acquire_from,
}

-- Every window has an interval.
abbrev pub HasDurations : Windows → Type 0
HasDurations = All λ e. 0 < e.1.duration

-- Two dicts with the same keys in the same order, whose values are related.
abbrev pub Each : (Window → Window → Type 0) → Windows → Windows → Type 0
Each R [] [] = Unit
Each R ((k, w) ∷ d) ((k', w') ∷ d') = (k ≡ k') × R w w' × Each R d d'
Each R _ _ = ⊥

-- What an admitted call does to a window: nothing if it does not charge it; else it adds the charge
-- to the counter that runs at `now`, and stays within the limit unless the counter was 0.
abbrev pub Admits : ℕ → Option ℕ → Window → Window → Type 0
Admits now none w w' = w' ≡ w
Admits now (some amount) w w' =
    IsCurrent now w'
    × (w'.used ≡ (roll now w).used + amount)
    × ((w'.used ≤ w'.limit) ⊎ (w'.used ≡ amount))

admit_one :
    (now : ℕ) (o : Option ℕ) (w : Window)
    → 0 < w.duration
    → waits now o (rolled now o w) ≡ 0
    → Admits now o w (charged o (rolled now o w))
unfolding wait_time
admit_one now none w h e = refl
admit_one now (some amount) w h e = ground (arith, roll-IsCurrent now w h)

module _ (now weight : ℕ) (mutating : Bool) where
  pub charge_amount-rolled :
      (o : Option ℕ) (w : Window)
      → charge_amount weight mutating (rolled now o w) ≡ charge_amount weight mutating w
  unfolding charge_amount roll
  charge_amount-rolled none w = refl
  charge_amount-rolled (some a) w = ground arith

  admit_all :
      (d : Windows)
      → HasDurations d
      → longest_wait now weight mutating (roll_all now weight mutating d) ≡ 0
      → Each
          (λ w. Admits now (charge_amount weight mutating w) w)
          d
          (charge_all now weight mutating (roll_all now weight mutating d))
  unfolding longest_wait roll_all charge_all
  admit_all [] h e = tt
  admit_all ((k, w) ∷ d) h e =
      let o = charge_amount weight mutating w in
      let same = charge_amount-rolled o w in
      let free : waits now (charge_amount weight mutating (rolled now o w)) (rolled now o w) ≡ 0 =
        omega arith in
      (refl, rw same (admit_one now o w h.0 (rw same at free)), admit_all d h.1 (omega arith))

  -- Where all intervals are positive, a call that is admitted leaves each window it charges running
  -- at `now`, with the charge added, and over the limit only if the window had counted nothing; it
  -- leaves the others alone.
  pub acquire_round-Admits :
      (d : Windows)
      → HasDurations d
      → (acquire_round now weight mutating d).1 ≡ 0
      → Each
          (λ w. Admits now (charge_amount weight mutating w) w)
          d
          (acquire_round now weight mutating d).0
  unfolding acquire_round
  acquire_round-Admits d h e =
      elim (Bool-cases (longest_wait now weight mutating (roll_all now weight mutating d) == 0)) [
        | inl admitted ↦ rw admitted (admit_all d h (ground arith))
        | inr waiting ↦ absurd (ground arith)
      ]

-- After the wait of one round, a window that nobody else has charged admits the call.
settle_one :
    (now later wait : ℕ) (o : Option ℕ) (w : Window)
    → 0 < w.duration
    → waits now o (rolled now o w) ≤ wait
    → now + wait ≤ later
    → waits later o (rolled later o (rolled now o w)) ≡ 0
settle_one now later wait none w h e le = refl
settle_one now later wait (some amount) w h e le =
    waited_has_room now later amount (roll now w) (roll-IsCurrent now w h) (omega arith)

module _ (now later wait weight : ℕ) (mutating : Bool) where
  abbrev amount : Window → Option ℕ
  amount = charge_amount weight mutating

  settle_entry :
      (w : Window)
      → 0 < w.duration
      → now + wait ≤ later
      → let v = rolled now (amount w) w in
        waits now (amount v) v ≤ wait
        → waits later (amount (rolled later (amount v) v)) (rolled later (amount v) v) ≡ 0
  settle_entry w h le e =
      let v = rolled now (amount w) w in
      let same = charge_amount-rolled now weight mutating (amount w) w in
      rw (charge_amount-rolled later weight mutating (amount v) v, same)
        (settle_one now later wait (amount w) w h (rw same at e) le)

  settle_all :
      (d : Windows)
      → HasDurations d
      → longest_wait now weight mutating (roll_all now weight mutating d) ≤ wait
      → now + wait ≤ later
      → longest_wait later weight mutating
          (roll_all later weight mutating (roll_all now weight mutating d))
        ≡ 0
  unfolding longest_wait roll_all
  settle_all [] h e le = refl
  settle_all ((k, w) ∷ d) h e le =
      let head = settle_entry w h.0 le (omega arith) in
      let rest = settle_all d h.1 (omega arith) le in rw (head, rest)

-- After the wait of one round, the next one admits the call.
pub second_round :
    (now later weight : ℕ) (mutating : Bool) (d : Windows)
    → HasDurations d
    → now + (acquire_round now weight mutating d).1 ≤ later
    → ((acquire_round now weight mutating d).1 == 0) ≡ false
    → (acquire_round later weight mutating (acquire_round now weight mutating d).0).1 ≡ 0
unfolding acquire_round
second_round now later weight mutating d h slept busy = ground (
  arith,
  settle_all now later (longest_wait now weight mutating (roll_all now weight mutating d)) weight
      mutating d h,
)

-- If all intervals are positive, no other task touches the windows and the sleep lasts as long as
-- it was asked to, `acquire` returns, after one sleep at most.
pub acquire_returns :
    (clock : ℕ → ℕ) (weight : ℕ) (mutating : Bool) (fuel i : ℕ) (d : Windows)
    → HasDurations d
    → clock i + (acquire_round (clock i) weight mutating d).1 ≤ clock (suc i)
    → (r : Windows × ℕ) × (acquire_from clock (λ _ d. d) weight mutating (suc (suc fuel)) i d
        ≡ some r)
      × (r.1 ≤ suc i)
unfolding acquire_from
acquire_returns clock weight mutating fuel i d h slept =
    let first = acquire_round (clock i) weight mutating d in
    let second = acquire_round (clock (suc i)) weight mutating first.0 in
    elim (Bool-cases (first.1 == 0)) [
      | inl admitted ↦ ((first.0, i), ground arith, omega arith)
      | inr waiting ↦ (
        (second.0, suc i),
        ground (arith, second_round (clock i) (clock (suc i)) weight mutating d h slept waiting),
        omega arith,
      )
    ]
