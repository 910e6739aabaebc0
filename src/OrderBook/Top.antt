-- ===== src/OrderBook/Top.antt =====
-- The top-of-book lists of the local order book: binance_th/orderbook.py.
use mathlib.Core.List.{Perm, map, filter_map}
use mathlib.Core.List.Perm
use binance_th.Prelude.{
  ℕ, zero, suc, ◌≡◌, refl, ap, inl, inr, Bool, true, false, some, List, [], ◌∷◌, All, Bool-cases,
  take,
}
use binance_th.Prelude.Int.{ltb_ℤ, ℤ-discrete}
use binance_th.Prelude.Dict.{lookup, keys}
use binance_th.Models.Base.{Decimal}
use binance_th.OrderBook.Local.{
  Side, LocalOrderBook, above, sort_in, sorted, top, with_quantity, bids_top, asks_top,
}
use binance_th.OrderBook.Best.{Has, lookup-Has, IsOrder, ltb_ℤ-IsOrder, above-IsOrder}

-- A list in the order of `before`, repetitions allowed.
abbrev IsSorted : (Decimal → Decimal → Bool) → List Decimal → Type 0
IsSorted before [] = Unit
IsSorted before (p ∷ ps) = All (λ k. before k p ≡ false) ps × IsSorted before ps

sort_in-perm :
    (before : Decimal → Decimal → Bool) (p : Decimal) (ps : List Decimal)
    → Perm (sort_in before p ps) (p ∷ ps)
unfolding sort_in
sort_in-perm before p [] = Perm.refl (p ∷ [])
sort_in-perm before p (q ∷ ps) = elim (Bool-cases (before p q)) [
  | inl h ↦ rw h (Perm.refl (p ∷ q ∷ ps))
  | inr h ↦ rw h (Perm.trans (Perm.cons q (sort_in-perm before p ps)) (Perm.swap p q ps))
]

sorted-perm : (before : Decimal → Decimal → Bool) (ps : List Decimal) → Perm (sorted before ps) ps
unfolding sorted
sorted-perm before [] = Perm.refl []
sorted-perm before (p ∷ ps) =
    Perm.trans (sort_in-perm before p (sorted before ps)) (Perm.cons p (sorted-perm before ps))

sort_in-All :
    (before : Decimal → Decimal → Bool) (P : Decimal → Type 0) (p : Decimal) (ps : List Decimal)
    → P p
    → All P ps
    → All P (sort_in before p ps)
unfolding sort_in
sort_in-All before P p [] h hs = (h, tt)
sort_in-All before P p (q ∷ ps) h hs = elim (Bool-cases (before p q)) [
  | inl e ↦ rw e (h, hs)
  | inr e ↦ rw e (hs.0, sort_in-All before P p ps h hs.1)
]

sorted-All :
    (before : Decimal → Decimal → Bool) (P : Decimal → Type 0) (ps : List Decimal)
    → All P ps
    → All P (sorted before ps)
unfolding sorted
sorted-All before P [] h = tt
sorted-All before P (p ∷ ps) h =
    sort_in-All before P p (sorted before ps) h.0 (sorted-All before P ps h.1)

module _ (before : Decimal → Decimal → Bool) (order : IsOrder before) where
  All-past :
      (p q : Decimal) (ps : List Decimal)
      → before p q ≡ true
      → All (λ k. before k q ≡ false) ps
      → All (λ k. before k p ≡ false) ps
  All-past p q [] h hs = tt
  All-past p q (k ∷ ps) h hs = (order.past p q k h hs.0, All-past p q ps h hs.1)

  sort_in-IsSorted :
      (p : Decimal) (ps : List Decimal) → IsSorted before ps → IsSorted before (sort_in before p ps)
  unfolding sort_in
  sort_in-IsSorted p [] h = (tt, tt)
  sort_in-IsSorted p (q ∷ ps) h = elim (Bool-cases (before p q)) [
    | inl e ↦ rw e ((order.past p q q e (order.irreflexive q), All-past p q ps e h.0), h)
    | inr e ↦
        rw e (sort_in-All before (λ k. before k q ≡ false) p ps e h.0, sort_in-IsSorted p ps h.1)
  ]

  sorted-IsSorted : (ps : List Decimal) → IsSorted before (sorted before ps)
  unfolding sorted
  sorted-IsSorted [] = tt
  sorted-IsSorted (p ∷ ps) = sort_in-IsSorted p (sorted before ps) (sorted-IsSorted ps)

All-Has : (P : Decimal → Type 0) (ps : List Decimal) → ((p : Decimal) → Has p ps → P p) → All P ps
All-Has P [] h = tt
All-Has P (p ∷ ps) h = (h p (inl refl), All-Has P ps (λ q m. h q (inr m)))

All-take : (P : Decimal → Type 0) (n : ℕ) (ps : List Decimal) → All P ps → All P (take n ps)
All-take P zero ps h = tt
All-take P (suc n) [] h = tt
All-take P (suc n) (p ∷ ps) h = (h.0, All-take P n ps h.1)

map-found :
    (side : Side) (ps : List Decimal)
    → All (λ p. (q : Decimal) × (lookup ℤ-discrete p side ≡ some q)) ps
    → map (λ l. l.0) (filter_map (with_quantity side) ps) ≡ ps
unfolding filter_map
map-found side [] h = refl
map-found side (p ∷ ps) h = rw h.0.1 (ap (λ l. p ∷ l) (map-found side ps h.1))

-- What the first `n` levels are: their prices are the first `n` of the side's prices in order.
abbrev pub IsTop : (Decimal → Decimal → Bool) → ℕ → Side → List (Decimal × Decimal) → Type 0
IsTop before n side levels =
    (ps : List Decimal) × Perm ps (keys side)
    × IsSorted before ps
    × (map (λ l. l.0) levels ≡ take n ps)
    × All (λ l. lookup ℤ-discrete l.0 side ≡ some l.1) levels

found-All :
    (side : Side) (ps : List Decimal)
    → All (λ p. (q : Decimal) × (lookup ℤ-discrete p side ≡ some q)) ps
    → All (λ l. lookup ℤ-discrete l.0 side ≡ some l.1) (filter_map (with_quantity side) ps)
unfolding filter_map
found-All side [] h = tt
found-All side (p ∷ ps) h = rw h.0.1 (h.0.1, found-All side ps h.1)

top-IsTop :
    (before : Decimal → Decimal → Bool)
    → IsOrder before
    → (n : ℕ) (side : Side) → IsTop before n side (top before n side)
unfolding top
top-IsTop before order n side =
    let ps = sorted before (keys side) in
    let found : All (λ p. (q : Decimal) × (lookup ℤ-discrete p side ≡ some q)) (take n ps) =
      All-take (λ p. (q : Decimal) × (lookup ℤ-discrete p side ≡ some q)) n ps
        (sorted-All before (λ p. (q : Decimal) × (lookup ℤ-discrete p side ≡ some q)) (keys side)
          (All-Has (λ p. (q : Decimal) × (lookup ℤ-discrete p side ≡ some q)) (keys side)
            (λ p m. lookup-Has p side m))) in
    (
      ps,
      sorted-perm before (keys side),
      sorted-IsSorted before order (keys side),
      map-found side (take n ps) found,
      found-All side (take n ps) found,
    )

-- `bids_top n` gives the levels of the `n` highest bid prices, the highest first.
pub bids_top-IsTop : (n : ℕ) (b : LocalOrderBook) → IsTop above n b.bids (bids_top n b)
unfolding bids_top
bids_top-IsTop n b = top-IsTop above above-IsOrder n b.bids

-- `asks_top n` gives the levels of the `n` lowest ask prices, the lowest first.
pub asks_top-IsTop : (n : ℕ) (b : LocalOrderBook) → IsTop ltb_ℤ n b.asks (asks_top n b)
unfolding asks_top
asks_top-IsTop n b = top-IsTop ltb_ℤ ltb_ℤ-IsOrder n b.asks
