-- ===== src/Managed/Tests.antt =====
-- A task of binance_th/orderbook.py whose provider fails after two books.
use binance_th.Prelude.{ℕ, ◌≡◌, refl, List, [], ◌∷◌}
use binance_th.Errors.Exceptions.{network_error, ok, raise}
use binance_th.Managed.{
  Managed, new_managed, Move, starts, yields, fails, closes, aclose, run, read, ClosesOnce,
  run_new-ClosesOnce, aclose_after_failure,
}

abbrev failing : List (Move ℕ)
failing = starts ∷ yields 4 ∷ yields 5 ∷ fails (network_error "down") ∷ []

abbrev failed_book : Managed ℕ
failed_book = run failing new_managed

run_new-ClosesOnce_sample :
    ClosesOnce (run (starts ∷ yields 4 ∷ closes ∷ closes ∷ []) (new_managed {V = ℕ}))
run_new-ClosesOnce_sample = run_new-ClosesOnce (starts ∷ yields 4 ∷ closes ∷ closes ∷ [])

aclose_after_failure_sample :
    ((aclose failed_book).0 ≡ raise (network_error "down"))
    × ((aclose failed_book).1.closings ≡ failed_book.closings)
    × ((aclose (aclose failed_book).1).0 ≡ ok tt)
    × ((aclose (aclose failed_book).1).1.closings ≡ 1)
unfolding run
aclose_after_failure_sample = aclose_after_failure failing (network_error "down") refl

-- The last book is still read.
read_runs : read (λ v. v) 0 failed_book ≡ 5
unfolding run
read_runs = refl
