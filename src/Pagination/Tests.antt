-- ===== src/Pagination/Tests.antt =====
-- The pages of binance_th/pagination.py over a small history.
use binance_th.Prelude.{
  ℕ, ◌<◌, ◌≡◌, refl, some, List, [], ◌∷◌, leb, take, length, arith, All, ℕ_discrete, if◌then◌else◌,
}
use binance_th.Pagination.{iter_time_windows, iter_time_windows_ends, ids_at}
use binance_th.Pagination.Rows.{Distinct, from as rows_since, before_end}
use binance_th.Pagination.Complete.{iter_time_windows_complete}

-- Rows with their time and their id; two share the time 11.
abbrev Row : Type 0
Row = ℕ × ℕ

abbrev history : List Row
history = (10, 1) ∷ (11, 2) ∷ (11, 3) ∷ (12, 4) ∷ (15, 5) ∷ (16, 6) ∷ []

abbrev from : ℕ → List Row → List Row
from start [] = []
from start (row ∷ rows) = if leb start row.0 then row ∷ rows else from start rows

-- Pages of three rows.
abbrev fetch : ℕ → ℕ → List Row
fetch start end_time = take 3 (from start history)

abbrev key : Row → ℕ
key row = row.0

abbrev id : Row → ℕ
id row = row.1

iter_time_windows_ends_example :
    (rows : List Row) × (iter_time_windows ℕ_discrete key id 16 fetch 3 7 10 ≡ some rows)
    × All (λ row. row.0 < 16) rows
iter_time_windows_ends_example =
    iter_time_windows_ends ℕ_discrete key id 16 fetch 3 6 10 (omega arith)

-- Every row of the range comes once.
iter_time_windows_runs :
    iter_time_windows ℕ_discrete key id 16 fetch 3 7 10
    ≡ some ((10, 1) ∷ (11, 2) ∷ (11, 3) ∷ (12, 4) ∷ (15, 5) ∷ [])
unfolding iter_time_windows ℕ_discrete
iter_time_windows_runs = refl

abbrev served : ℕ → ℕ → List Row
served start end_time = take 3 (rows_since ℕ_discrete key id 16 start history)

few_of_a_time : (t : ℕ) → length (ids_at ℕ_discrete key id 16 t history) < 3
unfolding ids_at
few_of_a_time t = ground arith

no_repeats : Distinct ℕ_discrete key id 16 history
no_repeats = ground arith

iter_time_windows_complete_example :
    iter_time_windows ℕ_discrete key id 16 served 3 7 10
    ≡ some (before_end ℕ_discrete key id 16 (rows_since ℕ_discrete key id 16 10 history))
iter_time_windows_complete_example =
    iter_time_windows_complete ℕ_discrete key id 16 served 3 history 10 (λ s g h. refl)
      (omega arith) no_repeats few_of_a_time 6 (omega arith)
