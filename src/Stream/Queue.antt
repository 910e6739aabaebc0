-- ===== src/Stream/Queue.antt =====
-- `_Subscription.offer` of binance_th/stream.py: a bounded queue that drops its oldest item.
use mathlib.Core.List.{append_assoc, append-nil}
use binance_th.Prelude.{
  ℕ, zero, suc, ◌-◌, ◌<◌, ◌≡◌, refl, inl, inr, List, [], ◌∷◌, ◌++◌, length, drop, drop-append,
  false, ltb, if◌then◌else◌, arith, ap, sym, ◌∙◌, length-append, Bool-cases,
}

pub record Queue (T : Type 0) : Type 0 where
  pub items : List T
  pub lagged : ℕ

abbrev pub empty_queue : {T : Type 0} → Queue T
empty_queue = record { items = []; lagged = 0 }

drop-suc : {T : Type 0} (k : ℕ) (xs : List T) → drop 1 (drop k xs) ≡ drop (suc k) xs
drop-suc zero [] = refl
drop-suc zero (x ∷ xs) = refl
drop-suc (suc k) [] = refl
drop-suc (suc k) (x ∷ xs) = drop-suc k xs

length-drop : {T : Type 0} (k : ℕ) (xs : List T) → length (drop k xs) ≡ length xs - k
length-drop zero xs = omega arith
length-drop (suc k) [] = omega arith
length-drop (suc k) (x ∷ xs) = omega (arith, length-drop k xs)

module _ {T : Type 0} (maxsize : ℕ) where
  -- `put_nowait`, or where the queue is full `get_nowait` first.
  unfoldable pub offer : Queue T → T → Queue T
  offer q payload =
      if ltb (length q.items) maxsize
      then record q { items = q.items ++ payload ∷ [] }
      else record q { items = drop 1 q.items ++ payload ∷ []; lagged = suc q.lagged }

  unfoldable pub offer_all : Queue T → List T → Queue T
  unfolding offer
  offer_all q [] = q
  offer_all q (x ∷ xs) = offer_all (offer q x) xs

  -- The queue that has been offered some items: the last `maxsize` of them, and a count of the
  -- others.
  abbrev pub offered : List T → Queue T
  offered xs = record { items = drop (length xs - maxsize) xs; lagged = length xs - maxsize }

  offer-offered :
      (xs : List T) (x : T) → 0 < maxsize → offer (offered xs) x ≡ offered (xs ++ x ∷ [])
  unfolding offer
  offer-offered xs x h =
      let k = length xs - maxsize in
      let longer = length-append xs (x ∷ []) in
      elim (Bool-cases (ltb (length xs) maxsize)) [
        | inl room ↦
            let none_lost : k ≡ 0 = ground arith in
            let none_lost' : length (xs ++ x ∷ []) - maxsize ≡ 0 = ground (arith, longer) in
            rw (none_lost, none_lost', offer, room) refl
        | inr full ↦
            let test : ltb (length (drop k xs)) maxsize ≡ false =
              ground (arith, length-drop k xs) in
            let one_more : length (xs ++ x ∷ []) - maxsize ≡ suc k = ground (arith, longer) in
            rw (test, one_more, drop-suc k xs, drop-append (suc k) xs (x ∷ []) (ground arith)) refl
      ]

  offer_all-offered :
      (xs ys : List T) → 0 < maxsize → offer_all (offered xs) ys ≡ offered (xs ++ ys)
  unfolding offer_all
  offer_all-offered xs [] h = ap offered (sym (append-nil xs))
  offer_all-offered xs (y ∷ ys) h =
      ap (λ q. offer_all q ys) (offer-offered xs y h)
      ∙ offer_all-offered (xs ++ y ∷ []) ys h
      ∙ ap offered (append_assoc xs (y ∷ []) ys)

  -- Between two reads, a bounded queue that was empty keeps exactly the last `maxsize` items that
  -- it was offered, in order, and counts the others.
  pub offer_all_last : (xs : List T) → 0 < maxsize → offer_all empty_queue xs ≡ offered xs
  offer_all_last xs h =
      let none_yet : 0 - maxsize ≡ 0 = omega arith in rw none_yet at (offer_all-offered [] xs h)
