-- ===== src/RateLimit/Reconcile.antt =====
-- What the server's headers and a reseed do to the windows: binance_th/ratelimit.py.
use mathlib.Core.Option
use binance_th.Prelude.{
  ℕ, ◌<◌, String, ◌≡◌, refl, ◌∙◌, Option, none, some, List, [], ◌∷◌, arith, max, ite, if_pos,
  if_neg, Option-cases, inl, inr, ap,
}
use binance_th.Prelude.Int.{ℤ, pos_part}
use binance_th.Prelude.Dict.{lookup, insert, lookup-insert}
use binance_th.Models.Base.{RateLimit}
use binance_th.RateLimit.Window.{
  WindowKey, WindowKey-discrete, Window, roll, duration-roll, roll-IsCurrent, roll_current,
}
use binance_th.RateLimit.Limiter.{Windows, key_of, reseeded, reseed_onto, reseed}
use binance_th.RateLimit.Headers.{report, raise_used, apply_report, update_from_headers}

-- The usages that a response reports for one window, in order.
abbrev pub own : WindowKey → Option (WindowKey × ℤ) → List ℕ → List ℕ
own k none rest = rest
own k (some (j, used)) rest = ite (WindowKey-discrete j k) (pos_part used ∷ rest) rest

abbrev pub reports : WindowKey → List (String × String) → List ℕ
reports k [] = []
reports k (h ∷ hs) = own k (report h) (reports k hs)

abbrev pub largest : List ℕ → ℕ
largest [] = 0
largest (n ∷ ns) = max n (largest ns)

-- The window with its counter raised to the largest usage.
abbrev pub raised : ℕ → List ℕ → Window → Window
raised now [] w = w
raised now (n ∷ ns) w = record (roll now w) { used = max (roll now w).used (largest (n ∷ ns)) }

-- A second roll at one time changes nothing, whatever the counter.
roll_again :
    (now u : ℕ) (w : Window)
    → 0 < w.duration
    → roll now (record (roll now w) { used = u }) ≡ record (roll now w) { used = u }
roll_again now u w h =
    let c = roll-IsCurrent now w h in
    roll_current now (record (roll now w) { used = u })
      (record { anchored = c.anchored; running = c.running })

raised_again :
    (now : ℕ) (used : ℤ) (ns : List ℕ) (w : Window)
    → 0 < w.duration
    → raised now ns (raise_used now used w) ≡ raised now (pos_part used ∷ ns) w
unfolding raise_used
raised_again now used [] w h = ground arith
raised_again now used (n ∷ ns) w h =
    ground (arith, roll_again now (max (roll now w).used (pos_part used)) w h)

abbrev after_report : ℕ → WindowKey → Option (WindowKey × ℤ) → Window → Window
after_report now k none w = w
after_report now k (some (j, used)) w = ite (WindowKey-discrete j k) (raise_used now used w) w

apply_report-lookup :
    (now : ℕ) (k : WindowKey) (w : Window) (d : Windows) (r : Option (WindowKey × ℤ))
    → lookup WindowKey-discrete k d ≡ some w
    → lookup WindowKey-discrete k (apply_report now r d) ≡ some (after_report now k r w)
unfolding apply_report
apply_report-lookup now k w d none e = e
apply_report-lookup now k w d (some (j, used)) e =
    elim (Option-cases (lookup WindowKey-discrete j d)) [
      | inl missing ↦ ground arith
      | inr (v, found) ↦
          ground (arith, lookup-insert WindowKey-discrete j k (raise_used now used v) d)
    ]

after_report_duration :
    (now : ℕ) (k : WindowKey) (r : Option (WindowKey × ℤ)) (w : Window)
    → (after_report now k r w).duration ≡ w.duration
unfolding raise_used
after_report_duration now k none w = refl
after_report_duration now k (some (j, used)) w = ground (arith, duration-roll now w)

raised-own :
    (now : ℕ) (k : WindowKey) (r : Option (WindowKey × ℤ)) (ns : List ℕ) (w : Window)
    → 0 < w.duration
    → raised now ns (after_report now k r w) ≡ raised now (own k r ns) w
raised-own now k none ns w h = refl
raised-own now k (some (j, used)) ns w h = elim (WindowKey-discrete j k) [
  | yes q ↦ rw (if_pos _ q, if_pos _ q) (raised_again now used ns w h)
  | no q ↦ rw (if_neg _ q, if_neg _ q)
]

-- A response raises the counter of each window with a positive interval that it reports to the
-- largest reported usage, after a roll, and never lowers it; a window that it does not report keeps
-- everything.
pub update_from_headers-lookup :
    (now : ℕ) (hs : List (String × String)) (d : Windows) (k : WindowKey) (w : Window)
    → 0 < w.duration
    → lookup WindowKey-discrete k d ≡ some w
    → lookup WindowKey-discrete k (update_from_headers now hs d)
      ≡ some (raised now (reports k hs) w)
unfolding update_from_headers
update_from_headers-lookup now [] d k w h e = e
update_from_headers-lookup now (x ∷ hs) d k w h e =
    let w' = after_report now k (report x) w in
    update_from_headers-lookup now hs (apply_report now (report x) d) k w'
      (rw (after_report_duration now k (report x) w) h) (apply_report-lookup now k w d (report x) e)
    ∙ ap some (raised-own now k (report x) (reports k hs) w h)

-- After a reseed, the window of a rule's key.
abbrev pub rule_for : WindowKey → List RateLimit → Option RateLimit
rule_for k [] = none
rule_for k (r ∷ rs) = elim (rule_for k rs) [
  | some later ↦ some later
  | none ↦ ite (WindowKey-discrete (key_of r) k) (some r) none
]

abbrev or_kept : Option Window → Option Window → Option Window
or_kept none kept = kept
or_kept (some w) kept = some w

reseed_onto-lookup :
    (old new : Windows) (rules : List RateLimit) (k : WindowKey)
    → lookup WindowKey-discrete k (reseed_onto old new rules)
      ≡ or_kept
          (Option.map (reseeded (lookup WindowKey-discrete k old)) (rule_for k rules))
          (lookup WindowKey-discrete k new)
unfolding reseed_onto
reseed_onto-lookup old new [] k = refl
reseed_onto-lookup old new (r ∷ rs) k =
    let window = reseeded (lookup WindowKey-discrete (key_of r) old) r in
    let later = reseed_onto-lookup old (insert WindowKey-discrete (key_of r) window new) rs k in
    let stored = lookup-insert WindowKey-discrete (key_of r) k window new in
    elim (Option-cases (rule_for k rs)) [
      | inl last ↦ ground (arith, later, stored)
      | inr (rule, e) ↦ ground (arith, later, stored)
    ]

-- A reseed keeps exactly the windows of the new rules: a key that had a window keeps its counter
-- and its anchor under the new limit and duration, and the last rule for a key decides.
pub reseed-lookup :
    (rules : List RateLimit) (old : Windows) (k : WindowKey)
    → lookup WindowKey-discrete k (reseed rules old)
      ≡ Option.map (reseeded (lookup WindowKey-discrete k old)) (rule_for k rules)
unfolding reseed lookup
reseed-lookup rules old k = ground (arith, reseed_onto-lookup old [] rules k, empty k)
  where
    empty : (k : WindowKey) → lookup {V = Window} WindowKey-discrete k [] ≡ none
    empty k = refl
