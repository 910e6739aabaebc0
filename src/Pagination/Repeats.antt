-- ===== src/Pagination/Repeats.antt =====
-- Which rows of a history a page of binance_th/pagination.py repeats after the page before it.
use binance_th.Prelude.{
  ℕ, ◌≤◌, ◌<◌, ◌≡◌, ◌≢◌, refl, sym, inl, inr, Bool, true, false, some, List, [], ◌∷◌, leb, ◌==◌,
  if_neg, length, arith, All, Bool-cases,
}
use binance_th.Pagination.{contains, last_row, ids_at}
use binance_th.Pagination.Rows.{from, B, repeated}
use binance_th.Pagination.Pages.{All-map, from-late, Asc, since, ids, final, last_row-All}

module _ {T I : Type 0} (dec : Discrete I) (window_key : T → ℕ) (identity : T → I)
    (end_time : ℕ) where
  abbrev among : I → List I → Bool
  among = contains dec window_key identity end_time

  abbrev again : B dec window_key identity end_time → T → Bool
  again = repeated dec window_key identity end_time

  abbrev ids_of : ℕ → List T → List I
  ids_of = ids dec window_key identity end_time

  abbrev rows_from : ℕ → List T → List T
  rows_from = since dec window_key identity end_time

  ids_at-from_self : (k : ℕ) (rs : List T) → ids_of k (rows_from k rs) ≡ ids_of k rs
  unfolding ids_at from
  ids_at-from_self k [] = refl
  ids_at-from_self k (r ∷ rs) = ground (arith, ids_at-from_self k rs)

  pub from-All {κ} : (P : T → Type κ) (k : ℕ) (rs : List T) → All P rs → All P (rows_from k rs)
  unfolding from
  from-All P k [] h = tt
  from-All P k (r ∷ rs) h = elim (Bool-cases (leb k (window_key r))) [
    | inl late ↦ rw (late, from) h
    | inr early ↦ rw (early, from) (from-All P k rs h.1)
  ]

  -- Identities other than those of the rows at a time are not among them.
  among-other :
      (k : ℕ) (row : T) (rs : List T)
      → All (λ q. window_key q ≡ window_key row → identity q ≢ identity row) rs
      → window_key row ≡ k
      → among (identity row) (ids_of k rs) ≡ false
  unfolding contains ids_at
  among-other k row [] h e = refl
  among-other k row (q ∷ rs) h e = elim (Bool-cases (window_key q == k)) [
    | inl same ↦
        let differ : identity row ≢ identity q = λ p. h.0 (ground arith) (sym p) in
        rw (same, ids_at, contains, if_neg _ differ) (among-other k row rs h.1 e)
    | inr other ↦ rw (other, ids_at) (among-other k row rs h.1 e)
  ]

  among_head : (i : I) (js : List I) → among i (i ∷ js) ≡ true
  unfolding contains
  among_head i js = ground arith

  among_tail : (i j : I) (js : List I) → among i js ≡ true → among i (j ∷ js) ≡ true
  unfolding contains
  among_tail i j js h = ground arith

  each_again :
      (k : ℕ) (found : List I) (rs : List T)
      → All (λ q. window_key q ≡ k) rs
      → ((i : I) → among i (ids_of k rs) ≡ true → among i found ≡ true)
      → All (λ q. again (some (k, found)) q ≡ true) rs
  unfolding ids_at
  each_again k found [] h within = tt
  each_again k found (r ∷ rs) h within =
      let here : (window_key r == k) ≡ true = ground arith in
      let within' = rw here at within in
      (
        rw (here, within' (identity r) (among_head (identity r) (ids_of k rs))) refl,
        each_again k found rs h.1 (λ i m. within' i (among_tail i (identity r) (ids_of k rs) m)),
      )

  pub both-All :
      (k : ℕ) (rs : List T)
      → All (λ q. window_key q ≤ k) rs
      → All (λ q. k ≤ window_key q) rs
      → All (λ q. window_key q ≡ k) rs
  both-All k [] h g = tt
  both-All k (r ∷ rs) h g = (omega arith, both-All k rs h.1 g.1)

  -- The rows of a page with its last time are repeated by the next page.
  pub page_again :
      (k : ℕ) (rs : List T)
      → Asc dec window_key identity end_time rs
      → All (λ q. window_key q ≤ k) rs
      → All (λ q. again (some (k, ids_of k rs)) q ≡ true) (rows_from k rs)
  page_again k rs up small =
      each_again k (ids_of k rs) (rows_from k rs)
        (both-All k (rows_from k rs) (from-All (λ q. window_key q ≤ k) k rs small)
          (from-late dec window_key identity end_time k rs up))
        (λ i m. rw (sym (ids_at-from_self k rs)) m)

  pub up_to_last :
      (r : T) (rs : List T)
      → Asc dec window_key identity end_time (r ∷ rs)
      → All (λ q. window_key q ≤ window_key (final dec window_key identity end_time r rs)) (r ∷ rs)
  unfolding last_row
  up_to_last r [] h = (omega arith, tt)
  up_to_last r (q ∷ rs) h = (
    last_row-All dec window_key identity end_time (λ p. window_key r ≤ window_key p) q rs h.0,
    up_to_last q rs h.1,
  )

  -- A row after a page, with the page's last time or a later one, is not repeated.
  pub rest_fresh :
      (k : ℕ) (page more : List T)
      → All (λ x. All (λ y. window_key x ≡ window_key y → identity x ≢ identity y) more) page
      → All (λ q. again (some (k, ids_of k page)) q ≡ false) more
  rest_fresh k page [] h = tt
  rest_fresh k page (q ∷ more) h =
      let heads =
        All-map (λ x. All (λ y. window_key x ≡ window_key y → identity x ≢ identity y) (q ∷ more))
          (λ x. window_key x ≡ window_key q → identity x ≢ identity q) (λ x g. g.0) page h in
      let tails =
        All-map (λ x. All (λ y. window_key x ≡ window_key y → identity x ≢ identity y) (q ∷ more))
          (λ x. All (λ y. window_key x ≡ window_key y → identity x ≢ identity y) more) (λ x g. g.1)
          page h in
      (
        elim (Bool-cases (window_key q == k)) [
          | inl same ↦ rw (same, among-other k q page heads (ground arith)) refl
          | inr other ↦ rw other refl
        ],
        rest_fresh k page more tails,
      )

  -- Rows later than the boundary are not repeated.
  pub later_fresh :
      (s : ℕ) (found : List I) (rs : List T)
      → All (λ q. s < window_key q) rs
      → All (λ q. again (some (s, found)) q ≡ false) rs
  later_fresh s found [] h = tt
  later_fresh s found (r ∷ rs) h = (ground arith, later_fresh s found rs h.1)

  pub same_time_ids :
      (s : ℕ) (rs : List T) → All (λ q. window_key q ≡ s) rs → length (ids_of s rs) ≡ length rs
  unfolding ids_at
  same_time_ids s [] h = refl
  same_time_ids s (r ∷ rs) h = ground (arith, same_time_ids s rs)
