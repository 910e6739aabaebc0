-- ===== src/Prelude/Dict.antt =====
-- A Python dict: pairs in the order of insertion. A key that is set again keeps its place.
use mathlib.Core.Path.{◌≡◌, refl, sym, subst}
use mathlib.Core.Logic.{ite, if_pos, if_neg}
use mathlib.Core.List.{List, [], ◌∷◌, map}
use mathlib.Core.Option.{Option, none, some}
use native.Mathlib.Omega.{arith}
use binance_th.Prelude.Lists.{All}

abbrev pub Dict {ℓ} : Type ℓ → Type ℓ → Type ℓ
Dict K V = List (K × V)

module _ {ℓ} {K V : Type ℓ} where
  abbrev pub keys : Dict K V → List K
  keys = map λ e. e.0

  abbrev pub values : Dict K V → List V
  values = map λ e. e.1

module _ {ℓ} {K V : Type ℓ} (dec : Discrete K) where
  -- `d.get(k)`
  unfoldable pub lookup : K → Dict K V → Option V
  lookup k [] = none
  lookup k ((j, v) ∷ d) = ite (dec j k) (some v) (lookup k d)

  -- `d[k] = v`
  unfoldable pub insert : K → V → Dict K V → Dict K V
  insert k v [] = (k, v) ∷ []
  insert k v ((j, w) ∷ d) = ite (dec j k) ((j, v) ∷ d) ((j, w) ∷ insert k v d)

  -- `d.pop(k, None)`
  unfoldable pub erase : K → Dict K V → Dict K V
  erase k [] = []
  erase k ((j, w) ∷ d) = let rest = erase k d in ite (dec j k) rest ((j, w) ∷ rest)

  pub lookup-insert :
      (k j : K) (v : V) (d : Dict K V)
      → lookup j (insert k v d) ≡ ite (dec k j) (some v) (lookup j d)
  unfolding lookup insert
  lookup-insert k j v [] = refl
  lookup-insert k j v ((i, w) ∷ d) = ground (arith, lookup-insert k j v d)

  pub lookup-erase :
      (k j : K) (d : Dict K V) → lookup j (erase k d) ≡ ite (dec k j) none (lookup j d)
  unfolding lookup erase
  lookup-erase k j [] = ground arith
  lookup-erase k j ((i, w) ∷ d) = ground (arith, lookup-erase k j d)

module _ {ℓ κ} {K V : Type ℓ} (dec : Discrete K) (P : K × V → Type κ) where
  pub insert-All : (k : K) (v : V) (d : Dict K V) → P (k, v) → All P d → All P (insert dec k v d)
  unfolding insert
  insert-All k v [] p h = (p, tt)
  insert-All k v ((j, w) ∷ d) p h = elim (dec j k) [
    | yes q ↦ rw (if_pos _ q) (subst (λ i. P (i, v)) (sym q) p, h.1)
    | no q ↦ rw (if_neg _ q) (h.0, insert-All k v d p h.1)
  ]

  pub lookup-All : (k : K) (v : V) (d : Dict K V) → lookup dec k d ≡ some v → All P d → P (k, v)
  unfolding lookup
  lookup-All k v [] e h = ground (arith, e)
  lookup-All k v ((j, w) ∷ d) e h = elim (dec j k) [
    | yes q ↦
        let same : w ≡ v = ground (arith, e, q) in
        subst (λ i. P (i, v)) q (subst (λ x. P (j, x)) same h.0)
    | no q ↦ lookup-All k v d (rw (if_neg (dec j k) q) at e) h.1
  ]

  pub erase-All : (k : K) (d : Dict K V) → All P d → All P (erase dec k d)
  unfolding erase
  erase-All k [] h = tt
  erase-All k ((j, w) ∷ d) h = elim (dec j k) [
    | yes q ↦ rw (if_pos _ q) (erase-All k d h.1)
    | no q ↦ rw (if_neg _ q) (h.0, erase-All k d h.1)
  ]
