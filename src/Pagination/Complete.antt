-- ===== src/Pagination/Complete.antt =====
-- What `iter_time_windows` of binance_th/pagination.py yields from a server that pages one history.
use binance_th.Prelude.{
  ℕ, zero, suc, ◌+◌, ◌≤◌, ◌<◌, ◌≡◌, refl, sym, ap, ◌∙◌, inl, inr, true, none, some, List, [], ◌∷◌,
  ◌++◌, leb, length, take, drop, arith, All, Bool-cases,
}
use binance_th.Pagination.{ids_at, windows, iter_time_windows}
use binance_th.Pagination.Rows.{Ascending, Distinct, from, before_end, B, unrepeated}
use binance_th.Pagination.Pages.{
  take-append-drop, drop_short, from-from, from-late, from-Ascending, from-Distinct, ids_at_page,
}
use binance_th.Pagination.Turns.{left, Joins, Rest, turned, turn_complete, keeps_at_start}

module _ {T I : Type 0} (dec : Discrete I) (window_key : T → ℕ) (identity : T → I) (end_time : ℕ)
    (fetch : ℕ → ℕ → List T) (page_limit : ℕ) (history : List T) (start_time : ℕ)
    (pages : (s : ℕ)
      → start_time ≤ s
      → s < end_time
      → fetch s end_time ≡ take page_limit (from dec window_key identity end_time s history))
    (up : Ascending dec window_key identity end_time history)
    (distinct : Distinct dec window_key identity end_time history)
    (few : (t : ℕ) → length (ids_at dec window_key identity end_time t history) < page_limit) where
  abbrev rows_from : ℕ → List T
  rows_from s = from dec window_key identity end_time s history

  abbrev left_of : B dec window_key identity end_time → List T → List T
  left_of = left dec window_key identity end_time page_limit

  page-Rest :
      (s : ℕ)
      → Rest dec window_key identity end_time page_limit s
          (take page_limit (rows_from s))
          (drop page_limit (rows_from s))
  page-Rest s =
      let rows = rows_from s in
      let whole = take-append-drop page_limit rows in
      (
        rw whole (from-Ascending dec window_key identity end_time s history up),
        rw whole (from-Distinct dec window_key identity end_time s history distinct),
        rw whole (from-late dec window_key identity end_time s history up),
        drop_short page_limit rows,
        omega (arith, ids_at_page dec window_key identity end_time s page_limit s history, few s),
      )

  none_early :
      (s : ℕ) (rs : List T)
      → end_time ≤ s
      → All (λ q. s ≤ window_key q) rs
      → before_end dec window_key identity end_time rs ≡ []
  unfolding before_end
  none_early s [] h g = refl
  none_early s (r ∷ rs) h g = ground arith

  left_over :
      (s : ℕ) (b : B dec window_key identity end_time) → end_time ≤ s → left_of b (rows_from s) ≡ []
  unfolding unrepeated
  left_over s b h =
      rw (none_early s (rows_from s) h (from-late dec window_key identity end_time s history up))
        refl

  windows_complete :
      (fuel s : ℕ) (b : B dec window_key identity end_time)
      → start_time ≤ s
      → end_time ≤ s + fuel
      → Joins dec window_key identity end_time page_limit s b
      → windows dec window_key identity end_time fetch page_limit (suc fuel) s b
        ≡ some (left_of b (rows_from s))
  unfolding windows
  windows_complete zero s b g h j =
      let over : leb end_time s ≡ true = ground arith in rw (over, left_over s b (omega arith)) refl
  windows_complete (suc fuel) s b g h j = elim (Bool-cases (leb end_time s)) [
    | inl over ↦ rw (over, left_over s b (ground arith)) refl
    | inr more ↦
        let answered = pages s g (ground arith) in
        let page = take page_limit (rows_from s) in
        let rest = drop page_limit (rows_from s) in
        let whole = take-append-drop page_limit (rows_from s) in
        elim (turn_complete dec window_key identity end_time page_limit s b page rest j
          (page-Rest s)) [
            | inl (stop, all) ↦ rw (more, windows, answered, stop, answered, all, whole) refl
            | inr (k, b', goes, later, joins, split) ↦
                let next = windows_complete fuel k b' (omega arith) (omega arith) joins in
                let same = from-from dec window_key identity end_time s k history (omega arith) in
                let split' : left_of b (rows_from s)
                    ≡ (turned dec window_key identity end_time page_limit s b page).0
                      ++ left_of b' (rows_from k) =
                  ap (left_of b) (sym whole)
                  ∙ split
                  ∙ ap
                      (λ q.
                        (turned dec window_key identity end_time page_limit s b page).0
                        ++ left_of b' q)
                      (ap (from dec window_key identity end_time k) whole ∙ same) in
                rw (more, windows, answered, goes, next, answered, split') refl
          ]
  ]

  -- A server holds rows in the order of their times, no two with one time and one identity, and
  -- fewer of each time than fit on a page, and answers for a window with the first rows from its
  -- start: then the generator yields exactly the rows from the start to before the end, each once
  -- and in order.
  pub iter_time_windows_complete :
      (fuel : ℕ)
      → end_time ≤ start_time + fuel
      → iter_time_windows dec window_key identity end_time fetch page_limit (suc fuel) start_time
        ≡ some (before_end dec window_key identity end_time (rows_from start_time))
  unfolding iter_time_windows
  iter_time_windows_complete fuel h =
      windows_complete fuel start_time none (omega arith) h tt
      ∙ ap some (
          keeps_at_start dec window_key identity end_time page_limit
            (before_end dec window_key identity end_time (rows_from start_time)))
