-- ===== src/Pagination.antt =====
-- binance_th/pagination.py. Times are milliseconds since the epoch. `fetch` is the server: a page
-- for a window. The generator is the list of what it yields.
use mathlib.Core.Option
use binance_th.Prelude.{
  ℕ, zero, suc, ◌+◌, ◌-◌, ◌≤◌, ◌<◌, ◌≡◌, refl, ◌⊎◌, inl, inr, Bool, true, false, Option, none, some,
  List, [], ◌∷◌, ◌++◌, ◌&&◌, ltb, leb, ◌==◌, ite, if◌then◌else◌, length, map, arith, All,
  All-append, Bool-cases, Option-cases,
}
mod Tests
pub mod Rows
pub mod Pages
mod Repeats
mod Turns
pub mod Complete

module _ {T I : Type 0} (dec : Discrete I) (window_key : T → ℕ) (identity : T → I)
    (end_time : ℕ) where
  unfoldable pub contains : I → List I → Bool
  contains i [] = false
  contains i (j ∷ js) = let rest = contains i js in ite (dec i j) true rest

  -- `boundary_key` and `boundary_ids`.
  abbrev pub Boundary : Type 0
  Boundary = Option (ℕ × List I)

  abbrev pub is_repeated : Boundary → T → Bool
  is_repeated none row = false
  is_repeated (some (key, ids)) row = window_key row == key && contains (identity row) ids

  -- The loop over a page: what it yields, and whether it met a row at or past the end.
  unfoldable pub walk : Boundary → List T → List T × Bool
  unfolding contains
  walk b [] = ([], false)
  walk b (row ∷ rows) =
      let rest = walk b rows in
      if leb end_time (window_key row)
      then ([], true)
      else if is_repeated b row
      then rest
      else (row ∷ rest.0, rest.1)

  -- `page[-1]` of a page that begins with `row`.
  unfoldable pub last_row : T → List T → T
  last_row row [] = row
  last_row row (next ∷ rows) = last_row next rows

  unfoldable pub ids_at : ℕ → List T → List I
  ids_at key [] = []
  ids_at key (row ∷ rows) =
      let rest = ids_at key rows in if window_key row == key then identity row ∷ rest else rest

  module _ (page_limit : ℕ) where
    abbrev pub boundary_after : T → List T → Boundary
    boundary_after row rows =
        let key = window_key (last_row row rows) in some (key, ids_at key (row ∷ rows))

    -- What a page yields, and the window and the boundary to go on with, if the loop goes on.
    unfoldable pub turn : ℕ → Boundary → List T → List T × Option (ℕ × Boundary)
    unfolding walk last_row ids_at
    turn window_start b [] = ([], none)
    turn window_start b (row ∷ rows) =
        let (yielded, past_end) = walk b (row ∷ rows) in
        let last_key = window_key (last_row row rows) in
        if past_end
        then (yielded, none)
        else if ltb (length (row ∷ rows)) page_limit
        then (yielded, none)
        else if leb last_key window_start
        then (yielded, none)
        else (yielded, some (last_key, boundary_after row rows))

  module _ (fetch : ℕ → ℕ → List T) (page_limit : ℕ) where
    -- `iter_time_windows` from one window on. `none` means that the fuel ran out.
    unfoldable pub windows : ℕ → ℕ → Boundary → Option (List T)
    unfolding turn
    windows zero window_start b = none
    windows (suc fuel) window_start b =
        if leb end_time window_start
        then some []
        else let t = turn page_limit window_start b (fetch window_start end_time) in
          elim t.1 [
            | none ↦ some t.0
            | some (next, b') ↦ Option.map (λ rows. t.0 ++ rows) (windows fuel next b')
          ]

    unfoldable pub iter_time_windows : ℕ → ℕ → Option (List T)
    unfolding windows
    iter_time_windows fuel start_time = windows fuel start_time none

    abbrev pub IsBefore : T → Type 0
    IsBefore row = window_key row < end_time

    walk-IsBefore : (b : Boundary) (rows : List T) → All IsBefore (walk b rows).0
    unfolding walk
    walk-IsBefore b [] = tt
    walk-IsBefore b (row ∷ rows) = elim (Bool-cases (leb end_time (window_key row))) [
      | inl past ↦ rw (past, walk) tt
      | inr before ↦ elim (Bool-cases (is_repeated b row)) [
        | inl again ↦ rw (before, walk, again) (walk-IsBefore b rows)
        | inr fresh ↦ rw (before, walk, fresh) (ground arith, walk-IsBefore b rows)
      ]
    ]

    -- A turn goes on only with a later window.
    pub turn_advances :
        (window_start next : ℕ) (b b' : Boundary) (page : List T)
        → (turn page_limit window_start b page).1 ≡ some (next, b')
        → window_start < next
    unfolding turn
    turn_advances window_start next b b' [] h = ground arith
    turn_advances window_start next b b' (row ∷ rows) h = ground arith

    pub turn_yields :
        (window_start : ℕ) (b : Boundary) (page : List T)
        → (turn page_limit window_start b page).0 ≡ (walk b page).0
    unfolding turn
    turn_yields window_start b [] = refl
    turn_yields window_start b (row ∷ rows) = ground arith

    turn-IsBefore :
        (window_start : ℕ) (b : Boundary) (page : List T)
        → All IsBefore (turn page_limit window_start b page).0
    turn-IsBefore window_start b page = rw (turn_yields window_start b page) (walk-IsBefore b page)

    windows_end :
        (fuel window_start : ℕ) (b : Boundary)
        → end_time ≤ window_start + fuel
        → (rows : List T) × (windows (suc fuel) window_start b ≡ some rows) × All IsBefore rows
    unfolding windows
    windows_end zero window_start b h = ([], ground arith, tt)
    windows_end (suc fuel) window_start b h =
        let page = fetch window_start end_time in
        let t = turn page_limit window_start b page in
        elim (Bool-cases (leb end_time window_start)) [
          | inl over ↦ ([], ground arith, tt)
          | inr more ↦ elim (Option-cases t.1) [
            | inl stop ↦ (t.0, rw (more, windows, stop) refl, turn-IsBefore window_start b page)
            | inr ((next, b'), e) ↦
                let later = turn_advances window_start next b b' page e in
                let (rows, same, before) = windows_end fuel next b' (omega arith) in
                (
                  t.0 ++ rows,
                  rw (more, windows, e, same) refl,
                  All-append IsBefore t.0 rows (turn-IsBefore window_start b page) before,
                )
          ]
        ]

    -- Whatever pages the server returns, the generator ends after at most one window for each
    -- millisecond of the range and one more, and yields only rows before the end.
    pub iter_time_windows_ends :
        (fuel start_time : ℕ)
        → end_time ≤ start_time + fuel
        → (rows : List T) × (iter_time_windows (suc fuel) start_time ≡ some rows)
          × All IsBefore rows
    unfolding iter_time_windows
    iter_time_windows_ends fuel start_time h = windows_end fuel start_time none h
