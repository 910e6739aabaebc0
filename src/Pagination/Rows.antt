-- ===== src/Pagination/Rows.antt =====
-- The rows of a history, and what one page of binance_th/pagination.py gives of them.
use binance_th.Prelude.{
  ℕ, ◌≤◌, ◌<◌, ◌≡◌, ◌≢◌, refl, ap, inl, inr, Bool, true, false, List, [], ◌∷◌, ◌++◌, leb,
  if◌then◌else◌, arith, All, Bool-cases,
}
use binance_th.Pagination.{Boundary, is_repeated, walk}

module _ {T I : Type 0} (dec : Discrete I) (window_key : T → ℕ) (identity : T → I)
    (end_time : ℕ) where
  -- The rows are in the order of their times.
  abbrev pub Ascending : List T → Type 0
  Ascending [] = Unit
  Ascending (r ∷ rs) = All (λ q. window_key r ≤ window_key q) rs × Ascending rs

  -- Two rows of one time have different identities.
  abbrev pub Distinct : List T → Type 0
  Distinct [] = Unit
  Distinct (r ∷ rs) =
      All (λ q. window_key r ≡ window_key q → identity r ≢ identity q) rs × Distinct rs

  -- The rows from a time on, and those before the end, of an ascending list.
  unfoldable pub from : ℕ → List T → List T
  from s [] = []
  from s (r ∷ rs) = let rest = from s rs in if leb s (window_key r) then r ∷ rs else rest

  unfoldable pub before_end : List T → List T
  before_end [] = []
  before_end (r ∷ rs) =
      let rest = r ∷ before_end rs in if leb end_time (window_key r) then [] else rest

  abbrev pub B : Type 0
  B = Boundary dec window_key identity end_time

  abbrev pub repeated : B → T → Bool
  repeated = is_repeated dec window_key identity end_time

  unfoldable pub unrepeated : B → List T → List T
  unrepeated b [] = []
  unrepeated b (r ∷ rs) = let rest = unrepeated b rs in if repeated b r then rest else r ∷ rest

  abbrev pub walked : B → List T → List T × Bool
  walked = walk dec window_key identity end_time

  pub walk_yields : (b : B) (rs : List T) → (walked b rs).0 ≡ unrepeated b (before_end rs)
  unfolding walk before_end unrepeated
  walk_yields b [] = refl
  walk_yields b (r ∷ rs) = elim (Bool-cases (leb end_time (window_key r))) [
    | inl past ↦ rw (past, walk, before_end) refl
    | inr before ↦ elim (Bool-cases (repeated b r)) [
      | inl again ↦ rw (before, walk, before_end, again, unrepeated) (walk_yields b rs)
      | inr fresh ↦
          rw (before, walk, before_end, fresh, unrepeated) (ap (λ q. r ∷ q) (walk_yields b rs))
    ]
  ]

  -- Where a page meets the end, what follows the page does not matter.
  pub walk_ended :
      (b : B) (rs more : List T) → (walked b rs).1 ≡ true → before_end (rs ++ more) ≡ before_end rs
  unfolding walk before_end
  walk_ended b [] more h = cc
  walk_ended b (r ∷ rs) more h = elim (Bool-cases (leb end_time (window_key r))) [
    | inl past ↦ rw (past, before_end) refl
    | inr before ↦ ground (arith, before, walk_ended b rs more)
  ]

  -- Where it does not, all its rows are before the end.
  pub walk_open :
      (b : B) (rs : List T) → (walked b rs).1 ≡ false → All (λ r. window_key r < end_time) rs
  unfolding walk
  walk_open b [] h = tt
  walk_open b (r ∷ rs) h =
      let later : (walked b rs).1 ≡ false = ground arith in (ground arith, walk_open b rs later)

  pub before_end-append :
      (xs ys : List T)
      → All (λ r. window_key r < end_time) xs
      → before_end (xs ++ ys) ≡ xs ++ before_end ys
  unfolding before_end
  before_end-append [] ys h = refl
  before_end-append (x ∷ xs) ys h = ground (arith, before_end-append xs ys h.1)

  pub before_end-All {κ} : (P : T → Type κ) (rs : List T) → All P rs → All P (before_end rs)
  unfolding before_end
  before_end-All P [] h = tt
  before_end-All P (r ∷ rs) h = elim (Bool-cases (leb end_time (window_key r))) [
    | inl past ↦ rw (past, before_end) tt
    | inr before ↦ rw (before, before_end) (h.0, before_end-All P rs h.1)
  ]

  pub unrepeated-append :
      (b : B) (xs ys : List T) → unrepeated b (xs ++ ys) ≡ unrepeated b xs ++ unrepeated b ys
  unfolding unrepeated
  unrepeated-append b [] ys = refl
  unrepeated-append b (x ∷ xs) ys = ground (arith, unrepeated-append b xs ys)

  pub keeps_fresh :
      (b : B) (rs : List T) → All (λ r. repeated b r ≡ false) rs → unrepeated b rs ≡ rs
  unfolding unrepeated
  keeps_fresh b [] h = refl
  keeps_fresh b (r ∷ rs) h = rw h.0 (ap (λ q. r ∷ q) (keeps_fresh b rs h.1))

  pub drops_repeated :
      (b : B) (rs : List T) → All (λ r. repeated b r ≡ true) rs → unrepeated b rs ≡ []
  unfolding unrepeated
  drops_repeated b [] h = refl
  drops_repeated b (r ∷ rs) h = rw h.0 (drops_repeated b rs h.1)
