-- ===== src/Pagination/Pages.antt =====
-- The pages of a history in the order of its times, for binance_th/pagination.py: what is left of
-- the history after a page, and which of its rows the next page repeats.
use binance_th.Prelude.{
  ℕ, zero, suc, ◌≤◌, ◌<◌, ◌≡◌, ◌≢◌, refl, ap, inl, inr, List, [], ◌∷◌, ◌++◌, leb, length, take,
  drop, arith, All, Bool-cases,
}
use binance_th.Pagination.{last_row, ids_at}
use binance_th.Pagination.Rows.{Ascending, Distinct, from}

module _ {T : Type 0} where
  pub take-append-drop : (n : ℕ) (rs : List T) → take n rs ++ drop n rs ≡ rs
  take-append-drop zero rs = refl
  take-append-drop (suc n) [] = refl
  take-append-drop (suc n) (r ∷ rs) = ap (λ q. r ∷ q) (take-append-drop n rs)

  pub drop_short : (n : ℕ) (rs : List T) → length (take n rs) < n → drop n rs ≡ []
  drop_short zero rs h = elim h [ ]
  drop_short (suc n) [] h = refl
  drop_short (suc n) (r ∷ rs) h = drop_short n rs (omega arith)

  pub All-append_parts {κ} :
      (P : T → Type κ) (xs ys : List T) → All P (xs ++ ys) → All P xs × All P ys
  All-append_parts P [] ys h = (tt, h)
  All-append_parts P (x ∷ xs) ys h = let (hx, hy) = All-append_parts P xs ys h.1 in ((h.0, hx), hy)

  pub All-map {κ μ} :
      (P : T → Type κ) (Q : T → Type μ)
      → ((x : T) → P x → Q x)
      → (xs : List T) → All P xs
      → All Q xs
  All-map P Q f [] h = tt
  All-map P Q f (x ∷ xs) h = (f x h.0, All-map P Q f xs h.1)

module _ {T I : Type 0} (dec : Discrete I) (window_key : T → ℕ) (identity : T → I)
    (end_time : ℕ) where
  abbrev pub Asc : List T → Type 0
  Asc = Ascending dec window_key identity end_time

  abbrev pub Dist : List T → Type 0
  Dist = Distinct dec window_key identity end_time

  abbrev pub since : ℕ → List T → List T
  since = from dec window_key identity end_time

  abbrev pub ids : ℕ → List T → List I
  ids = ids_at dec window_key identity end_time

  abbrev pub final : T → List T → T
  final = last_row dec window_key identity end_time

  pub from-from : (s k : ℕ) (rs : List T) → s ≤ k → since k (since s rs) ≡ since k rs
  unfolding from
  from-from s k [] h = refl
  from-from s k (r ∷ rs) h = ground (arith, from-from s k rs)

  pub from-late : (s : ℕ) (rs : List T) → Asc rs → All (λ r. s ≤ window_key r) (since s rs)
  unfolding from
  from-late s [] h = tt
  from-late s (r ∷ rs) h = elim (Bool-cases (leb s (window_key r))) [
    | inl late ↦
        rw (late, from)
          (
            ground arith,
            All-map (λ q. window_key r ≤ window_key q) (λ q. s ≤ window_key q) (λ q g. ground arith)
                rs h.0,
          )
    | inr early ↦ rw (early, from) (from-late s rs h.1)
  ]

  pub from-Ascending : (s : ℕ) (rs : List T) → Asc rs → Asc (since s rs)
  unfolding from
  from-Ascending s [] h = tt
  from-Ascending s (r ∷ rs) h = elim (Bool-cases (leb s (window_key r))) [
    | inl late ↦ rw (late, from) h
    | inr early ↦ rw (early, from) (from-Ascending s rs h.1)
  ]

  pub from-Distinct : (s : ℕ) (rs : List T) → Dist rs → Dist (since s rs)
  unfolding from
  from-Distinct s [] h = tt
  from-Distinct s (r ∷ rs) h = elim (Bool-cases (leb s (window_key r))) [
    | inl late ↦ rw (late, from) h
    | inr early ↦ rw (early, from) (from-Distinct s rs h.1)
  ]

  ids_at-from : (t s : ℕ) (rs : List T) → length (ids t (since s rs)) ≤ length (ids t rs)
  unfolding from ids_at
  ids_at-from t s [] = omega arith
  ids_at-from t s (r ∷ rs) = ground (arith, ids_at-from t s rs)

  ids_at-take : (t n : ℕ) (rs : List T) → length (ids t (take n rs)) ≤ length (ids t rs)
  unfolding ids_at
  ids_at-take t zero rs = omega arith
  ids_at-take t (suc n) [] = omega arith
  ids_at-take t (suc n) (r ∷ rs) = ground (arith, ids_at-take t n rs)

  -- A page has no more rows of a time than the history.
  pub ids_at_page :
      (t n s : ℕ) (rs : List T) → length (ids t (take n (since s rs))) ≤ length (ids t rs)
  ids_at_page t n s rs = omega (arith, ids_at-take t n (since s rs), ids_at-from t s rs)

  pub Ascending-append :
      (xs ys : List T)
      → Asc (xs ++ ys)
      → Asc xs × Asc ys × All (λ x. All (λ y. window_key x ≤ window_key y) ys) xs
  Ascending-append [] ys h = (tt, h, tt)
  Ascending-append (x ∷ xs) ys h =
      let (a, b, c) = Ascending-append xs ys h.1 in
      let (p, q) = All-append_parts (λ y. window_key x ≤ window_key y) xs ys h.0 in
      ((p, a), b, (q, c))

  pub Distinct-append :
      (xs ys : List T)
      → Dist (xs ++ ys)
      → All (λ x. All (λ y. window_key x ≡ window_key y → identity x ≢ identity y) ys) xs
  Distinct-append [] ys h = tt
  Distinct-append (x ∷ xs) ys h = (
    (All-append_parts (λ y. window_key x ≡ window_key y → identity x ≢ identity y) xs ys h.0).1,
    Distinct-append xs ys h.1,
  )

  final-late : (r : T) (rs : List T) → Asc (r ∷ rs) → window_key r ≤ window_key (final r rs)
  unfolding last_row
  final-late r [] h = omega arith
  final-late r (q ∷ rs) h = omega (arith, final-late q rs h.1)

  -- The last row of a list has a property that all have.
  pub last_row-All {κ} : (P : T → Type κ) (r : T) (rs : List T) → All P (r ∷ rs) → P (final r rs)
  unfolding last_row
  last_row-All P r [] h = h.0
  last_row-All P r (q ∷ rs) h = last_row-All P q rs h.1

  -- The history from the last time of a page on is the page from there, and the rest.
  pub from_last :
      (r : T) (rs more : List T) (k : ℕ)
      → k ≤ window_key (final r rs)
      → since k ((r ∷ rs) ++ more) ≡ since k (r ∷ rs) ++ more
  unfolding from last_row
  from_last r [] more k h = ground arith
  from_last r (q ∷ rs) more k h = elim (Bool-cases (leb k (window_key r))) [
    | inl late ↦ rw (late, from) refl
    | inr early ↦ rw (early, from) (from_last q rs more k h)
  ]
