-- ===== src/Resources/Iterate.antt =====
-- `iter_time_windows` of binance_th/pagination.py where `fetch` is a call of the transport: it
-- changes the world and may raise.
use mathlib.Core.Option
use binance_th.Prelude.{
  ℕ, zero, suc, ◌≤◌, ◌<◌, ◌≡◌, inl, inr, Option, none, some, List, [], ◌++◌, leb, if◌then◌else◌,
  arith, Bool-cases, Option-cases,
}
use binance_th.Errors.Exceptions.{Result, ok, raise}
use binance_th.Transport.Pipeline.{World, Act}
use binance_th.Pagination.{Boundary, turn, turn_advances, windows}

-- What a consumer has got when the generator has ended: the rows, and whether it raised.
abbrev pub Iteration : Type 0 → Type 0 → Type 0
Iteration L T = (List T × Result (Unit {0})) × World L

abbrev pub after_rows : {L T : Type 0} → List T → Iteration L T → Iteration L T
after_rows rows ((more, end), w) = ((rows ++ more, end), w)

module _ {T I : Type 0} (dec : Discrete I) (window_key : T → ℕ) (identity : T → I) (end_time : ℕ)
    (page_limit : ℕ) where
  abbrev Bound : Type 0
  Bound = Boundary dec window_key identity end_time

  abbrev turn_of : ℕ → Bound → List T → List T × Option (ℕ × Bound)
  turn_of = turn dec window_key identity end_time page_limit

  module _ {L : Type 0} (fetch : ℕ → ℕ → Act L (List T)) where
    -- `none` means that the fuel ran out.
    unfoldable pub iterate : ℕ → ℕ → Bound → World L → Option (Iteration L T)
    iterate zero s b w = none
    iterate (suc fuel) s b w =
        if leb end_time s then some (([], ok tt), w) else elim (fetch s end_time w).0 [
          | raise e ↦ some (([], raise e), (fetch s end_time w).1)
          | ok page ↦ elim (turn_of s b page).1 [
            | none ↦ some (((turn_of s b page).0, ok tt), (fetch s end_time w).1)
            | some (next, b') ↦
                Option.map (after_rows (turn_of s b page).0)
                  (iterate fuel next b' (fetch s end_time w).1)
          ]
        ]

    -- Where no page raises and the pages do not depend on the calls before, the generator yields
    -- the rows of the plain loop over these pages.
    pub iterate-windows :
        (pages : ℕ → ℕ → List T) (start_time : ℕ)
        → ((s : ℕ) (w : World L)
            → start_time ≤ s
            → s < end_time
            → (fetch s end_time w).0 ≡ ok (pages s end_time))
        → (fuel s : ℕ) (b : Bound) (w : World L) (rows : List T) → start_time ≤ s
        → windows dec window_key identity end_time pages page_limit fuel s b ≡ some rows
        → (w' : World L) × (iterate fuel s b w ≡ some ((rows, ok tt), w'))
    unfolding iterate windows
    iterate-windows pages start_time answers zero s b w rows g h = absurd (ground arith)
    iterate-windows pages start_time answers (suc fuel) s b w rows g h =
        elim (Bool-cases (leb end_time s)) [
          | inl over ↦ (w, ground arith)
          | inr more ↦
              let answered = answers s w g (ground arith) in
              let page = pages s end_time in
              let after = (fetch s end_time w).1 in
              elim (Option-cases (turn_of s b page).1) [
                | inl stop ↦ (after, ground (arith, answered))
                | inr ((next, b'), goes) ↦
                    let later_window =
                      turn_advances dec window_key identity end_time pages page_limit s next b b'
                        page goes in
                    elim (Option-cases
                      (windows dec window_key identity end_time pages page_limit fuel next b')) [
                        | inl out ↦ absurd (ground arith)
                        | inr (later, found) ↦
                            let (w', same) =
                              iterate-windows pages start_time answers fuel next b' after later
                                (omega arith) found in
                            (w', ground (arith, answered))
                      ]
              ]
        ]
