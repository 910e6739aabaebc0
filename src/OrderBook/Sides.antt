-- ===== src/OrderBook/Sides.antt =====
-- One side of a book as a map from prices to quantities: binance_th/orderbook.py.
use binance_th.Prelude.{
  ◌≡◌, refl, Option, none, some, List, [], ◌∷◌, ite, if_pos, if_neg, arith, ap, ◌∙◌, All,
}
use binance_th.Prelude.Int.{pos, ℤ-discrete}
use binance_th.Prelude.Dict.{lookup, insert, lookup-insert, lookup-erase, insert-All, erase-All}
use binance_th.Models.Base.{Decimal}
use binance_th.Models.Market.{OrderBookEntry}
use binance_th.OrderBook.Local.{Side, seed_side, apply_level, apply_side}

-- The quantity at a price after a snapshot's entries: that of the last entry for the price.
abbrev pub listed : Decimal → Option Decimal → List OrderBookEntry → Option Decimal
listed p o [] = o
listed p o (e ∷ es) = listed p (ite (ℤ-discrete e.price p) (some e.quantity) o) es

-- A quantity of 0 stands for no level.
abbrev pub level_of : Decimal → Option Decimal
level_of q = ite (ℤ-discrete q (pos 0)) none (some q)

-- The quantity at a price after a delta's levels.
abbrev pub override : Decimal → Option Decimal → List OrderBookEntry → Option Decimal
override p o [] = o
override p o (e ∷ es) = override p (ite (ℤ-discrete e.price p) (level_of e.quantity) o) es

pub lookup-seed_side :
    (p : Decimal) (side : Side) (es : List OrderBookEntry)
    → lookup ℤ-discrete p (seed_side side es) ≡ listed p (lookup ℤ-discrete p side) es
unfolding seed_side
lookup-seed_side p side [] = refl
lookup-seed_side p side (e ∷ es) =
    lookup-seed_side p (insert ℤ-discrete e.price e.quantity side) es
    ∙ ap (λ o. listed p o es) (lookup-insert ℤ-discrete e.price p e.quantity side)

lookup-apply_level :
    (p : Decimal) (side : Side) (e : OrderBookEntry)
    → lookup ℤ-discrete p (apply_level side e)
      ≡ ite (ℤ-discrete e.price p) (level_of e.quantity) (lookup ℤ-discrete p side)
unfolding apply_level
lookup-apply_level p side e = ground (
  arith,
  lookup-insert ℤ-discrete e.price p e.quantity side,
  lookup-erase ℤ-discrete e.price p side,
)

-- Applying a delta's levels overrides exactly the prices that they name: the last level for a price
-- decides, and a quantity of 0 removes it.
pub lookup-apply_side :
    (p : Decimal) (side : Side) (es : List OrderBookEntry)
    → lookup ℤ-discrete p (apply_side side es) ≡ override p (lookup ℤ-discrete p side) es
unfolding apply_side
lookup-apply_side p side [] = refl
lookup-apply_side p side (e ∷ es) =
    lookup-apply_side p (apply_level side e) es
    ∙ ap (λ o. override p o es) (lookup-apply_level p side e)

-- No level of a side has quantity 0.
abbrev pub NoEmptyLevel : Side → Type 0
NoEmptyLevel = All λ e. ¬ (e.1 ≡ pos 0)

apply_level-NoEmptyLevel :
    (side : Side) (e : OrderBookEntry) → NoEmptyLevel side → NoEmptyLevel (apply_level side e)
unfolding apply_level
apply_level-NoEmptyLevel side e h = elim (ℤ-discrete e.quantity (pos 0)) [
  | yes q ↦ rw (if_pos _ q) (erase-All ℤ-discrete (λ l. ¬ (l.1 ≡ pos 0)) e.price side h)
  | no q ↦
      rw (if_neg _ q) (insert-All ℤ-discrete (λ l. ¬ (l.1 ≡ pos 0)) e.price e.quantity side q h)
]

-- A side without empty levels has none after a delta's levels.
pub apply_side-NoEmptyLevel :
    (side : Side) (es : List OrderBookEntry) → NoEmptyLevel side → NoEmptyLevel (apply_side side es)
unfolding apply_side
apply_side-NoEmptyLevel side [] h = h
apply_side-NoEmptyLevel side (e ∷ es) h =
    apply_side-NoEmptyLevel (apply_level side e) es (apply_level-NoEmptyLevel side e h)
