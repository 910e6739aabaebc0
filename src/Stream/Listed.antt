-- ===== src/Stream/Listed.antt =====
-- How often a number stands in the table of a `_Connection` of binance_th/stream.py, and the items
-- that a frame is for.
use binance_th.Prelude.{
  ℕ, ◌+◌, String, ◌≡◌, refl, sym, ◌∙◌, ite, true, Option, some, List, [], ◌∷◌, ◌++◌, arith, if_pos,
  if_neg,
}
use binance_th.Prelude.Text.{String-discrete}
use binance_th.Prelude.Json.{Json, str, object, get}
use binance_th.Prelude.Dict.{Dict, insert, erase, lookup-insert, lookup-erase}
use binance_th.Stream.Queue.{offer_all}
use binance_th.Stream.Subscription.{Item, Subscription, payload, count}
use binance_th.Stream.Connection.{entry, is_empty, remove}

-- The items that a frame brings to the subscribers of a stream.
abbrev pub addressed_to : String → Option Json → Option Json → List Item
addressed_to s (some (str r)) (some body) = ite (String-discrete s r) (payload body ∷ []) []
addressed_to s _ _ = []

abbrev pub addressed : String → Option Json → List Item
addressed s (some (object f)) = addressed_to s (get "stream" f) (get "data" f)
addressed s _ = []

-- The subscriber with items put in its queue.
unfoldable pub hear : List Item → Subscription → Subscription
hear is sub = record sub { queue = offer_all 1024 sub.queue is }

-- A number stands once in the table, under one stream.
abbrev pub IsListed : ℕ → String → Dict String (List ℕ) → Type 0
IsListed j s subs = (r : String) → count j (entry r subs) ≡ ite (String-discrete s r) 1 0

pub entry-insert :
    (s r : String) (is : List ℕ) (t : Dict String (List ℕ))
    → entry r (insert String-discrete s is t) ≡ ite (String-discrete s r) is (entry r t)
entry-insert s r is t = rw (lookup-insert String-discrete s r is t) ground arith

pub entry-erase :
    (s r : String) (t : Dict String (List ℕ))
    → entry r (erase String-discrete s t) ≡ ite (String-discrete s r) [] (entry r t)
entry-erase s r t = rw (lookup-erase String-discrete s r t) ground arith

pub count-append : (j : ℕ) (is ks : List ℕ) → count j (is ++ ks) ≡ count j is + count j ks
count-append j [] ks = omega arith
count-append j (i ∷ is) ks = ground (arith, count-append j is ks)

pub count-remove : (i j : ℕ) (is : List ℕ) → ¬ (i ≡ j) → count j (remove i is) ≡ count j is
unfolding remove
count-remove i j [] n = refl
count-remove i j (k ∷ ks) n = ground (arith, count-remove i j ks n)

pub count_empty : (j : ℕ) (is : List ℕ) → is_empty is ≡ true → count j is ≡ 0
count_empty j [] e = refl
count_empty j (i ∷ is) e = ground (arith, e)

-- Two tables in which a number stands equally often.
pub insert-IsListed :
    (j : ℕ) (s r : String) (t : Dict String (List ℕ)) (is : List ℕ)
    → IsListed j s t
    → count j is ≡ count j (entry r t)
    → IsListed j s (insert String-discrete r is t)
insert-IsListed j s r t is h e q = rw (entry-insert r q is t) (elim (String-discrete r q) [
  | yes p ↦ rw (if_pos (String-discrete r q) p, e, p) (h q)
  | no n ↦ rw (if_neg (String-discrete r q) n) (h q)
])

pub erase-IsListed :
    (j : ℕ) (s r : String) (t : Dict String (List ℕ))
    → IsListed j s t
    → count j (entry r t) ≡ 0
    → IsListed j s (erase String-discrete r t)
erase-IsListed j s r t h e q = rw (entry-erase r q t) (elim (String-discrete r q) [
  | yes p ↦ rw (if_pos (String-discrete r q) p) (sym (rw p at e) ∙ h q)
  | no n ↦ rw (if_neg (String-discrete r q) n) (h q)
])
