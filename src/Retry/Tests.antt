-- ===== src/Retry/Tests.antt =====
-- The retries of binance_th/retry.py on a call that fails twice.
use binance_th.Prelude.{ℕ, zero, suc, ◌≡◌, refl, none, some, Bool, true, List, [], ◌∷◌}
use binance_th.Prelude.Int.{ℤ, pos}
use binance_th.Errors.Exceptions.{Error, network_error, Result, ok, raise}
use binance_th.Retry.{Backoff, default_backoff, run, delay}

-- The world: the failures still to come, and the delays slept so far.
abbrev World : Type 0
World = ℕ × List ℤ

abbrev fn : World → Result ℕ × World
fn (zero, slept) = (ok 7, (zero, slept))
fn (suc n, slept) = (raise (network_error "down"), (n, slept))

abbrev sleep : ℤ → World → World
sleep d (n, slept) = (n, d ∷ slept)

abbrev always : Error → Bool
always e = true

-- No jitter: the ceiling itself.
abbrev backoff : Backoff
backoff = default_backoff (λ ceiling. ceiling)

-- Two delays, the second twice the first; and the failure of the last attempt where retries run
-- out.
run_runs :
    (run backoff sleep fn always 3 (2, []) ≡ (ok 7, (0, pos 1000 ∷ pos 500 ∷ [])))
    × (run backoff sleep fn always 1 (2, []) ≡ (raise (network_error "down"), (0, pos 500 ∷ [])))
unfolding run
run_runs = (refl, refl)

-- The delays of the attempts 3, 1023 and 1024.
delay_runs :
    (delay backoff (network_error "down") 3 ≡ some (pos 4000))
    × (delay backoff (network_error "down") 1023 ≡ some (pos 8000))
    × (delay backoff (network_error "down") 1024 ≡ none)
unfolding delay
delay_runs = (refl, refl, refl)
