-- ===== src/OrderBook/Best.antt =====
-- The reads of the local order book: binance_th/orderbook.py.
use mathlib.Core.Path.{subst}
use binance_th.Prelude.{
  ◌≡◌, refl, sym, ◌⊎◌, inl, inr, Bool, true, false, Option, none, some, List, [], ◌∷◌, arith, All,
  Bool-cases, if◌then◌else◌, if_pos, if_neg,
}
use binance_th.Prelude.Int.{ltb_ℤ, ℤ-discrete}
use binance_th.Prelude.Dict.{lookup, keys}
use binance_th.Models.Base.{Decimal}
use binance_th.OrderBook.Local.{Side, LocalOrderBook, extreme, above, best, best_bid, best_ask}

-- A price that is among some prices.
abbrev pub Has : Decimal → List Decimal → Type 0
Has p [] = ⊥
Has p (q ∷ ps) = (p ≡ q) ⊎ Has p ps

pub lookup-Has :
    (p : Decimal) (side : Side)
    → Has p (keys side)
    → (q : Decimal) × (lookup ℤ-discrete p side ≡ some q)
unfolding lookup
lookup-Has p [] h = absurd h
lookup-Has p ((j, q) ∷ side) h = elim (ℤ-discrete j p) [
  | yes e ↦ rw (if_pos _ e) (q, refl)
  | no n ↦ rw (if_neg _ n) (elim h [ inl e ↦ absurd (n (sym e)) | inr r ↦ lookup-Has p side r ])
]

-- A strict order that compares any two prices.
pub record IsOrder (before : Decimal → Decimal → Bool) : Type 0 where
  pub irreflexive : (p : Decimal) → before p p ≡ false
  pub past : (p q r : Decimal) → before p q ≡ true → before r q ≡ false → before r p ≡ false
  pub stay : (p q r : Decimal) → before p q ≡ false → before r p ≡ false → before r q ≡ false

pub ltb_ℤ-IsOrder : IsOrder ltb_ℤ
ltb_ℤ-IsOrder = record {
  irreflexive = λ p. ground arith;
  past = λ p q r h k. ground arith;
  stay = λ p q r h k. ground arith;
}

pub above-IsOrder : IsOrder above
above-IsOrder = record {
  irreflexive = λ p. ground arith;
  past = λ p q r h k. ground arith;
  stay = λ p q r h k. ground arith;
}

-- No price of a dict lies beyond `r`.
abbrev pub IsLast : (Decimal → Decimal → Bool) → Decimal → List Decimal → Type 0
IsLast before r = All λ k. before r k ≡ false

module _ (before : Decimal → Decimal → Bool) (order : IsOrder before) where
  extreme-IsLast : (p : Decimal) (ps : List Decimal) → IsLast before (extreme before p ps) (p ∷ ps)
  unfolding extreme
  extreme-IsLast p [] = (order.irreflexive p, tt)
  extreme-IsLast p (q ∷ ps) = elim (Bool-cases (before p q)) [
    | inl h ↦
        let (last, rest) = extreme-IsLast q ps in
        subst (λ b. IsLast before (extreme before (if b then q else p) ps) (p ∷ q ∷ ps)) (sym h)
          (order.past p q _ h last, (last, rest))
    | inr h ↦
        let (last, rest) = extreme-IsLast p ps in
        subst (λ b. IsLast before (extreme before (if b then q else p) ps) (p ∷ q ∷ ps)) (sym h)
          (last, (order.stay p q _ h last, rest))
  ]

Has-extreme :
    (before : Decimal → Decimal → Bool) (p : Decimal) (ps : List Decimal)
    → Has (extreme before p ps) (p ∷ ps)
unfolding extreme
Has-extreme before p [] = inl refl
Has-extreme before p (q ∷ ps) = elim (Bool-cases (before p q)) [
  | inl h ↦
      subst (λ b. Has (extreme before (if b then q else p) ps) (p ∷ q ∷ ps)) (sym h)
        (inr (Has-extreme before q ps))
  | inr h ↦
      subst (λ b. Has (extreme before (if b then q else p) ps) (p ∷ q ∷ ps)) (sym h)
        (elim (Has-extreme before p ps) [ inl e ↦ inl e | inr r ↦ inr (inr r) ])
]

-- A best level exists exactly if the side has a level; it is a level of the side, and no other
-- level's price is beyond its price.
abbrev pub IsBest : (Decimal → Decimal → Bool) → Side → Option (Decimal × Decimal) → Type 0
IsBest before side none = side ≡ []
IsBest before side (some (p, q)) = (lookup ℤ-discrete p side ≡ some q) × IsLast before p (keys side)

best-IsBest :
    (before : Decimal → Decimal → Bool)
    → IsOrder before
    → (side : Side) → IsBest before side (best before side)
unfolding best
best-IsBest before order [] = refl
best-IsBest before order ((p, q) ∷ side) =
    let r = extreme before p (keys side) in
    let (v, e) = lookup-Has r ((p, q) ∷ side) (Has-extreme before p (keys side)) in
    rw e (e, extreme-IsLast before order p (keys side))

-- `best_bid` gives a level with the highest price of the bids, and nothing exactly if there are no
-- bids.
pub best_bid-IsBest : (b : LocalOrderBook) → IsBest ltb_ℤ b.bids (best_bid b)
unfolding best_bid
best_bid-IsBest b = best-IsBest ltb_ℤ ltb_ℤ-IsOrder b.bids

-- `best_ask` gives a level with the lowest price of the asks, and nothing exactly if there are no
-- asks.
pub best_ask-IsBest : (b : LocalOrderBook) → IsBest above b.asks (best_ask b)
unfolding best_ask
best_ask-IsBest b = best-IsBest above above-IsOrder b.asks
