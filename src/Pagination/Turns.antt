-- ===== src/Pagination/Turns.antt =====
-- What one turn of the loop of binance_th/pagination.py yields of a history, and what it leaves.
use mathlib.Core.List.{append-nil}
use binance_th.Prelude.{
  ℕ, ◌≤◌, ◌<◌, ◌≡◌, refl, sym, ap, ◌∙◌, ◌⊎◌, inl, inr, true, false, Option, none, some, List, [],
  ◌∷◌, ◌++◌, ltb, leb, length, arith, All, Bool-cases,
}
use binance_th.Pagination.{turn, turn_yields}
use binance_th.Pagination.Rows.{
  before_end, B, repeated, unrepeated, walked, walk_yields, walk_ended, walk_open,
  before_end-append, before_end-All, unrepeated-append, keeps_fresh, drops_repeated,
}
use binance_th.Pagination.Pages.{
  All-map, All-append_parts, Asc, Dist, since, ids, final, from_last, last_row-All,
  Ascending-append, Distinct-append,
}
use binance_th.Pagination.Repeats.{
  from-All, page_again, up_to_last, rest_fresh, later_fresh, both-All, same_time_ids,
}

module _ {T I : Type 0} (dec : Discrete I) (window_key : T → ℕ) (identity : T → I) (end_time : ℕ)
    (page_limit : ℕ) where
  abbrev pub left : B dec window_key identity end_time → List T → List T
  left b rs =
      unrepeated dec window_key identity end_time b (before_end dec window_key identity end_time rs)

  abbrev pub turned :
      ℕ
      → B dec window_key identity end_time
      → List T
      → List T × Option (ℕ × B dec window_key identity end_time)
  turned = turn dec window_key identity end_time page_limit

  -- The boundary stands at the start of the window.
  abbrev pub Joins : ℕ → B dec window_key identity end_time → Type 0
  Joins s none = Unit
  Joins s (some (key, found)) = key ≡ s

  abbrev pub plain : B dec window_key identity end_time → List T → List T
  plain = unrepeated dec window_key identity end_time

  abbrev pub early : List T → List T
  early = before_end dec window_key identity end_time

  pub keeps_at_start : (rs : List T) → plain none rs ≡ rs
  unfolding unrepeated
  keeps_at_start [] = refl
  keeps_at_start (r ∷ rs) = ap (λ q. r ∷ q) (keeps_at_start rs)

  later_kept :
      (s : ℕ) (b : B dec window_key identity end_time) (rs : List T)
      → Joins s b
      → All (λ q. s < window_key q) rs
      → plain b rs ≡ rs
  later_kept s none rs j h = keeps_at_start rs
  later_kept s (some (key, found)) rs j h =
      keeps_fresh dec window_key identity end_time (some (key, found)) rs
        (later_fresh dec window_key identity end_time key found rs (rw j h))

  abbrev pub last_key : T → List T → ℕ
  last_key r rs = window_key (final dec window_key identity end_time r rs)

  abbrev pub next_boundary : T → List T → B dec window_key identity end_time
  next_boundary r rs =
      some (last_key r rs, ids dec window_key identity end_time (last_key r rs) (r ∷ rs))

  -- Where a turn goes on, what is left of the history is what the page yields and what is left at
  -- the next window.
  turn_next :
      (s : ℕ) (b : B dec window_key identity end_time) (r : T) (rs more : List T)
      → Asc dec window_key identity end_time ((r ∷ rs) ++ more)
      → Dist dec window_key identity end_time ((r ∷ rs) ++ more)
      → Joins s b
      → s < last_key r rs
      → (walked dec window_key identity end_time b (r ∷ rs)).1 ≡ false
      → left b ((r ∷ rs) ++ more)
        ≡ (walked dec window_key identity end_time b (r ∷ rs)).0
          ++ left
              (next_boundary r rs)
              (since dec window_key identity end_time (last_key r rs) ((r ∷ rs) ++ more))
  turn_next s b r rs more up distinct j lt still =
      let page = r ∷ rs in
      let k = last_key r rs in
      let b' = next_boundary r rs in
      let (up_page, up_more, below) =
        Ascending-append dec window_key identity end_time page more up in
      let open_page = walk_open dec window_key identity end_time b page still in
      let whole : early page ≡ page =
        ap early (sym (append-nil page))
        ∙ before_end-append dec window_key identity end_time page [] open_page
        ∙ (unfold before_end in append-nil page) in
      let after_k : All (λ q. k ≤ window_key q) more =
        last_row-All dec window_key identity end_time
          (λ x. All (λ y. window_key x ≤ window_key y) more) r rs below in
      let rest = early more in
      let after_s : All (λ q. s < window_key q) rest =
        before_end-All dec window_key identity end_time (λ q. s < window_key q) more
          (All-map (λ q. k ≤ window_key q) (λ q. s < window_key q) (λ q g. omega arith) more
            after_k) in
      let again_page =
        page_again dec window_key identity end_time k page up_page
          (up_to_last dec window_key identity end_time r rs up_page) in
      let fresh =
        before_end-All dec window_key identity end_time
          (λ q. repeated dec window_key identity end_time b' q ≡ false) more
          (rest_fresh dec window_key identity end_time k page more
            (Distinct-append dec window_key identity end_time page more distinct)) in
      let left_side : left b (page ++ more) ≡ plain b page ++ rest =
        ap (plain b) (before_end-append dec window_key identity end_time page more open_page)
        ∙ unrepeated-append dec window_key identity end_time b page rest
        ∙ ap (λ q. plain b page ++ q) (later_kept s b rest j after_s) in
      let yields : (walked dec window_key identity end_time b page).0 ≡ plain b page =
        walk_yields dec window_key identity end_time b page ∙ ap (plain b) whole in
      let later = since dec window_key identity end_time k page in
      let open_later =
        from-All dec window_key identity end_time (λ q. window_key q < end_time) k page open_page in
      let right_side : left b' (since dec window_key identity end_time k (page ++ more)) ≡ rest =
        ap (left b') (from_last dec window_key identity end_time r rs more k (omega arith))
        ∙ ap (plain b') (before_end-append dec window_key identity end_time later more open_later)
        ∙ unrepeated-append dec window_key identity end_time b' later rest
        ∙ ap (λ q. q ++ plain b' rest)
            (drops_repeated dec window_key identity end_time b' later again_page)
        ∙ keeps_fresh dec window_key identity end_time b' rest fresh in
      rw (left_side, yields, right_side) refl

  -- The rows of the history from `s` on, as a page and the rest.
  abbrev pub Rest : ℕ → List T → List T → Type 0
  Rest s page more =
      Asc dec window_key identity end_time (page ++ more)
      × Dist dec window_key identity end_time (page ++ more)
      × All (λ q. s ≤ window_key q) (page ++ more)
      × (length page < page_limit → more ≡ [])
      × (length (ids dec window_key identity end_time s page) < page_limit)

  abbrev pub Goes : ℕ → B dec window_key identity end_time → List T → List T → Type 0
  Goes s b page more =
      (k : ℕ) × (b' : B dec window_key identity end_time) × ((turned s b page).1 ≡ some (k, b'))
      × (s < k)
      × Joins k b'
      × (left b (page ++ more)
          ≡ (turned s b page).0
            ++ left b' (since dec window_key identity end_time k (page ++ more)))

  abbrev pub Stops : ℕ → B dec window_key identity end_time → List T → List T → Type 0
  Stops s b page more = ((turned s b page).1 ≡ none) × ((turned s b page).0 ≡ left b (page ++ more))

  turn_past :
      (s : ℕ) (b : B dec window_key identity end_time) (r : T) (rs : List T)
      → (walked dec window_key identity end_time b (r ∷ rs)).1 ≡ true
      → (turned s b (r ∷ rs)).1 ≡ none
  unfolding turn
  turn_past s b r rs h = ground arith

  turn_short :
      (s : ℕ) (b : B dec window_key identity end_time) (r : T) (rs : List T)
      → ltb (length (r ∷ rs)) page_limit ≡ true
      → (turned s b (r ∷ rs)).1 ≡ none
  unfolding turn
  turn_short s b r rs h = ground arith

  turn_goes :
      (s : ℕ) (b : B dec window_key identity end_time) (r : T) (rs : List T)
      → (walked dec window_key identity end_time b (r ∷ rs)).1 ≡ false
      → ltb (length (r ∷ rs)) page_limit ≡ false
      → leb (last_key r rs) s ≡ false
      → (turned s b (r ∷ rs)).1 ≡ some (last_key r rs, next_boundary r rs)
  unfolding turn
  turn_goes s b r rs still full ahead = ground arith

  -- A full page that does not pass its window has too many rows of one time.
  turn_stuck :
      (s : ℕ) (r : T) (rs more : List T)
      → Rest s (r ∷ rs) more
      → ltb (length (r ∷ rs)) page_limit ≡ false
      → leb (last_key r rs) s ≡ true
      → ⊥
  turn_stuck s r rs more (up, distinct, late, short, few) full stuck =
      let page = r ∷ rs in
      let up_page = (Ascending-append dec window_key identity end_time page more up).0 in
      let small =
        All-map (λ q. window_key q ≤ last_key r rs) (λ q. window_key q ≤ s) (λ q g. ground arith)
          page (up_to_last dec window_key identity end_time r rs up_page) in
      let large = (All-append_parts (λ q. s ≤ window_key q) page more late).0 in
      let same =
        same_time_ids dec window_key identity end_time s page
          (both-All dec window_key identity end_time s page small large) in
      ground arith

  -- A turn yields what is left, or goes on with the rest of it.
  pub turn_complete :
      (s : ℕ) (b : B dec window_key identity end_time) (page more : List T)
      → Joins s b
      → Rest s page more
      → Stops s b page more ⊎ Goes s b page more
  turn_complete s b [] more j (up, distinct, late, short, few) =
      let none_left : more ≡ [] = short (omega arith) in
      rw none_left (inl (unfold turn in refl, unfold turn before_end unrepeated in refl))
  turn_complete s b (r ∷ rs) more j rest =
      let page = r ∷ rs in
      let yields = turn_yields dec window_key identity end_time (λ _ _. []) page_limit s b page in
      let all = yields ∙ walk_yields dec window_key identity end_time b page in
      elim (Bool-cases (walked dec window_key identity end_time b page).1) [
        | inl past ↦ inl (
          turn_past s b r rs past,
          all ∙ ap (plain b) (sym (walk_ended dec window_key identity end_time b page more past)),
        )
        | inr still ↦ elim (Bool-cases (ltb (length page) page_limit)) [
          | inl last ↦
              let none_left : more ≡ [] = rest.3 (ground arith) in
              inl (
                turn_short s b r rs last,
                all ∙ ap (left b) (sym (append-nil page) ∙ ap (λ q. page ++ q) (sym none_left)),
              )
          | inr full ↦ elim (Bool-cases (leb (last_key r rs) s)) [
            | inl stuck ↦ absurd (turn_stuck s r rs more rest full stuck)
            | inr ahead ↦ inr (
              last_key r rs,
              next_boundary r rs,
              turn_goes s b r rs still full ahead,
              ground arith,
              refl,
              turn_next s b r rs more rest.0 rest.1 j (ground arith) still
                  ∙ ap
                      (λ q.
                        q
                        ++ left (next_boundary r rs)
                            (since dec window_key identity end_time (last_key r rs) (page ++ more)))
                      (sym yields),
            )
          ]
        ]
      ]
