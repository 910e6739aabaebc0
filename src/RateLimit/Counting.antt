-- ===== src/RateLimit/Counting.antt =====
-- Rounds of `acquire` and of `update_from_headers` of binance_th/ratelimit.py one after another, with
-- a log of the calls that were admitted, and what one window has counted of it.
use mathlib.Core.List.{Mem, mem-cons_of_mem, mem-cons_self}
use binance_th.Prelude.{
  ℕ, String, ◌+◌, ◌-◌, ◌*◌, ◌/◌, ◌≤◌, ◌<◌, ◌≡◌, refl, ap, ◌∙◌, ◌⊎◌, inl, inr, Bool, true, false,
  Option, none, some, List, [], ◌∷◌, leb, ◌==◌, if◌then◌else◌, or_else, arith, All, Bool-cases,
  Option-cases,
}
use binance_th.RateLimit.Window.{WindowKey, Window, roll, wait_time, IsCurrent}
use binance_th.RateLimit.Limiter.{Windows, charge_amount, acquire_round}
use binance_th.RateLimit.Headers.{update_from_headers}

-- A round of `acquire`: its time, and the weight and kind of the call.
abbrev pub Round : Type 0
Round = ℕ × ℕ × Bool

-- What a call charges the windows of a key.
abbrev pub amount_of : WindowKey → Round → Option ℕ
amount_of key (now, weight, mutating) =
    charge_amount weight mutating
      (record { key = key; limit = 0; duration = 0; used = 0; window_start = none })

-- The charges of the calls admitted from a time on.
unfoldable pub charged_since : ℕ → WindowKey → List Round → ℕ
charged_since start key [] = 0
charged_since start key (e ∷ log) =
    charged_since start key log + (if leb start e.0 then or_else (amount_of key e) 0 else 0)

-- What happens to a limiter: a round of `acquire`, and at a time the headers of a response.
pub data Event : Type 0 where
  round : Round → Event
  answer : ℕ → List (String × String) → Event

-- Events one after another, each on the windows that the one before left; the admitted calls are
-- logged, the latest first.
unfoldable pub limiter_run : List Event → Windows × List Round → Windows × List Round
unfolding update_from_headers
limiter_run [] s = s
limiter_run (round (now, weight, mutating) ∷ events) (d, log) =
    let (d', wait) = acquire_round now weight mutating d in
    limiter_run events (d', if wait == 0 then (now, weight, mutating) ∷ log else log)
limiter_run (answer now headers ∷ events) (d, log) =
    limiter_run events (update_from_headers now headers d, log)

-- The charges since a time are all those of one of the calls that were admitted since.
abbrev pub IsOneCall : ℕ → WindowKey → List Round → Type 0
IsOneCall start key log =
    (e : Round) × Mem e log × (start ≤ e.0) × (amount_of key e ≡ some (charged_since start key log))

-- Before `last` the window has counted at least what the log holds since its start, which all came
-- before its end, and which has kept to its limit.
abbrev CountedFrom : ℕ → List Round → Window → Option ℕ → Type 0
CountedFrom last log w none = (w.used ≡ 0) × All (λ e. amount_of w.key e ≡ none) log
CountedFrom last log w (some start) =
    (charged_since start w.key log ≤ w.used)
    × All (λ e. (amount_of w.key e ≡ none) ⊎ (e.0 < start + w.duration)) log
    × (start ≤ last)
    × ((charged_since start w.key log ≤ w.limit) ⊎ IsOneCall start w.key log)

abbrev pub Counted : ℕ → List Round → Window → Type 0
Counted last log w = CountedFrom last log w w.window_start

pub none_charged :
    (start : ℕ) (key : WindowKey) (log : List Round)
    → All (λ e. amount_of key e ≡ none) log
    → charged_since start key log ≡ 0
unfolding charged_since
none_charged start key [] h = refl
none_charged start key (e ∷ log) h = rw h.0 (ground (arith, none_charged start key log h.1))

earlier_uncharged :
    (start bound : ℕ) (key : WindowKey) (log : List Round)
    → bound ≤ start
    → All (λ e. (amount_of key e ≡ none) ⊎ (e.0 < bound)) log
    → charged_since start key log ≡ 0
unfolding charged_since
earlier_uncharged start bound key [] le h = refl
earlier_uncharged start bound key (e ∷ log) le h =
    let rest = earlier_uncharged start bound key log le h.1 in
    elim h.0 [
      | inl none_here ↦ rw none_here (ground arith)
      | inr early ↦
          let test : leb start e.0 ≡ false = ground arith in
          rw (test, charged_since) (omega (arith, rest))
    ]

pub still_uncharged :
    (bound : ℕ) (key : WindowKey) (log : List Round)
    → All (λ e. amount_of key e ≡ none) log
    → All (λ e. (amount_of key e ≡ none) ⊎ (e.0 < bound)) log
still_uncharged bound key [] h = tt
still_uncharged bound key (e ∷ log) h = (inl h.0, still_uncharged bound key log h.1)

later_bound :
    (bound bound' : ℕ) (key : WindowKey) (log : List Round)
    → bound ≤ bound'
    → All (λ e. (amount_of key e ≡ none) ⊎ (e.0 < bound)) log
    → All (λ e. (amount_of key e ≡ none) ⊎ (e.0 < bound')) log
later_bound bound bound' key [] le h = tt
later_bound bound bound' key (e ∷ log) le h = (
  elim h.0 [ inl n ↦ inl n | inr lt ↦ inr (omega arith) ],
  later_bound bound bound' key log le h.1,
)

whole_interval : (a d : ℕ) → 0 < d → d ≤ a → d ≤ d * (a / d)
whole_interval a d pos le = grind arith

whole_before : (a d : ℕ) → 0 < d → d * (a / d) ≤ a
whole_before a d pos = grind arith

pub roll-Counted :
    (last now : ℕ) (log : List Round) (w : Window)
    → 0 < w.duration
    → last ≤ now
    → Counted last log w
    → Counted now log (roll now w)
roll-Counted last now log w pos le c = elim (Option-cases w.window_start) [
  | inl fresh ↦
      let same : roll now w ≡ record w { window_start = some now } = unfold roll in ground arith in
      let (unused, uncharged) = rw fresh at c in
      let zero_since = none_charged now w.key log uncharged in
      rw same (
        omega (arith, zero_since),
        still_uncharged (now + w.duration) w.key log uncharged,
        omega arith,
        inl (omega (arith, zero_since)),
      )
  | inr (start, at) ↦
      let (counted, ended, before, kept) = rw at at c in
      elim (Bool-cases (leb (start + w.duration) now)) [
        | inl over ↦
            let start' = start + w.duration * ((now - start) / w.duration) in
            let same : roll now w ≡ record w { used = 0; window_start = some start' } =
              unfold roll in ground arith in
            let later : start + w.duration ≤ start' =
              omega (arith, whole_interval (now - start) w.duration pos (ground arith)) in
            let zero_since = earlier_uncharged start' (start + w.duration) w.key log later ended in
            rw same (
              omega (arith, zero_since),
              later_bound (start + w.duration) (start' + w.duration) w.key log (omega arith) ended,
              omega (arith, whole_before (now - start) w.duration pos),
              inl (omega (arith, zero_since)),
            )
        | inr runs ↦
            let same : roll now w ≡ w = unfold roll in ground arith in
            rw (same, at) (counted, ended, omega arith, kept)
      ]
]

pub charge-Counted :
    (now a : ℕ) (e : Round) (log : List Round) (w : Window)
    → amount_of w.key e ≡ some a
    → e.0 ≡ now
    → IsCurrent now w
    → wait_time now a w ≡ 0
    → Counted now log w
    → Counted now (e ∷ log) (record w { used = w.used + a })
unfolding wait_time
charge-Counted now a e log w charges at cur free c = elim (Option-cases w.window_start) [
  | inl fresh ↦ absurd (ground (arith, cur.anchored))
  | inr (start, anchor) ↦
      let (counted, ended, before, kept) = rw anchor at c in
      let running : now < start + w.duration = rw anchor at cur.running in
      let test : leb start e.0 ≡ true = ground arith in
      let grown : charged_since start w.key (e ∷ log) ≡ charged_since start w.key log + a =
        unfold charged_since in rw (test, charges) refl in
      rw (anchor, grown)
        (
          omega (arith, counted),
          (inr (omega arith), ended),
          before,
          elim (Bool-cases (w.used == 0)) [
            | inl empty ↦ inr (e, mem-cons_self, omega arith, charges ∙ ap some (ground arith))
            | inr some_used ↦ inl (ground arith)
          ],
        )
]

pub skip-Counted :
    (now : ℕ) (e : Round) (log : List Round) (w : Window)
    → amount_of w.key e ≡ none
    → Counted now log w
    → Counted now (e ∷ log) w
skip-Counted now e log w free c = elim (Option-cases w.window_start) [
  | inl fresh ↦ let (unused, uncharged) = rw fresh at c in rw fresh (unused, (free, uncharged))
  | inr (start, anchor) ↦
      let (counted, ended, before, kept) = rw anchor at c in
      let same : charged_since start w.key (e ∷ log) ≡ charged_since start w.key log =
        unfold charged_since in rw free (ground arith) in
      rw (anchor, same)
        (
          counted,
          (inl free, ended),
          before,
          elim kept [
            | inl within ↦ inl within
            | inr (one, there, since, alone) ↦ inr (one, mem-cons_of_mem e there, since, alone)
          ],
        )
]

pub later-Counted :
    (last now : ℕ) (log : List Round) (w : Window)
    → last ≤ now
    → Counted last log w
    → Counted now log w
later-Counted last now log w le c = elim (Option-cases w.window_start) [
  | inl fresh ↦ rw fresh (rw fresh at c)
  | inr (start, anchor) ↦
      let (counted, ended, before, kept) = rw anchor at c in
      rw anchor (counted, ended, omega arith, kept)
]

pub key-roll : (now : ℕ) (w : Window) → (roll now w).key ≡ w.key
unfolding roll
key-roll now w = ground arith

pub amount_of_lem :
    (now weight : ℕ) (mutating : Bool) (w : Window)
    → amount_of w.key (now, weight, mutating) ≡ charge_amount weight mutating w
unfolding charge_amount
amount_of_lem now weight mutating w = refl

-- A window that counts more than before.
pub raise-Counted :
    (now start used : ℕ) (log : List Round) (w : Window)
    → w.window_start ≡ some start
    → w.used ≤ used
    → Counted now log w
    → Counted now log (record w { used = used })
raise-Counted now start used log w anchor le c =
    let (counted, ended, before, kept) = rw anchor at c in
    rw anchor (omega arith, ended, before, kept)
