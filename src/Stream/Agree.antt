-- ===== src/Stream/Agree.antt =====
-- When the two tables of `_Connection` of binance_th/stream.py name the same streams.
use binance_th.Prelude.{
  ℕ, String, ◌≡◌, sym, false, Option, none, some, List, [], ◌∷◌, ◌++◌, arith, if_pos, if_neg,
}
use binance_th.Prelude.Text.{String-discrete}
use binance_th.Prelude.Dict.{Dict, lookup, insert, erase, lookup-insert, lookup-erase}
use binance_th.Stream.Connection.{is_empty}

-- A stream that is desired has a subscriber, and no other stream has an entry.
abbrev pub Agrees : Option (Unit {0}) → Option (List ℕ) → Type 0
Agrees none none = Unit {0}
Agrees (some _) (some (i ∷ is)) = Unit {0}
Agrees _ _ = ⊥

abbrev pub TablesAgree : Dict String (Unit {0}) → Dict String (List ℕ) → Type 0
TablesAgree desired subs =
    (s : String) → Agrees (lookup String-discrete s desired) (lookup String-discrete s subs)

pub snoc-Agrees : (is : List ℕ) (i : ℕ) → Agrees (some tt) (some (is ++ i ∷ []))
snoc-Agrees [] i = tt
snoc-Agrees (j ∷ js) i = tt

pub insert-TablesAgree :
    (s : String) (i : ℕ) (is : List ℕ) (d : Dict String (Unit {0})) (t : Dict String (List ℕ))
    → TablesAgree d t
    → TablesAgree (insert String-discrete s tt d) (insert String-discrete s (is ++ i ∷ []) t)
insert-TablesAgree s i is d t h r =
    rw (lookup-insert String-discrete s r tt d, lookup-insert String-discrete s r (is ++ i ∷ []) t)
      (elim (String-discrete s r) [
        | yes q ↦
            rw (if_pos (String-discrete s r) q, if_pos (String-discrete s r) q) (snoc-Agrees is i)
        | no n ↦ rw (if_neg (String-discrete s r) n, if_neg (String-discrete s r) n) (h r)
      ])

pub swap-Agrees :
    (o : Option (Unit {0})) (is js : List ℕ)
    → is_empty js ≡ false
    → Agrees o (some is)
    → Agrees o (some js)
swap-Agrees none is js e h = elim h [ ]
swap-Agrees (some u) is [] e h = ground (arith, e)
swap-Agrees (some u) is (j ∷ js) e h = tt

pub replace-TablesAgree :
    (s : String) (is js : List ℕ) (d : Dict String (Unit {0})) (t : Dict String (List ℕ))
    → lookup String-discrete s t ≡ some is
    → is_empty js ≡ false
    → TablesAgree d t
    → TablesAgree d (insert String-discrete s js t)
replace-TablesAgree s is js d t e n h r =
    rw (lookup-insert String-discrete s r js t) (elim (String-discrete s r) [
      | yes q ↦
          rw (if_pos (String-discrete s r) q, sym q)
            (swap-Agrees (lookup String-discrete s d) is js n (rw e at (h s)))
      | no m ↦ rw (if_neg (String-discrete s r) m) (h r)
    ])

pub erase-TablesAgree :
    (s : String) (d : Dict String (Unit {0})) (t : Dict String (List ℕ))
    → TablesAgree d t
    → TablesAgree (erase String-discrete s d) (erase String-discrete s t)
erase-TablesAgree s d t h r =
    rw (lookup-erase String-discrete s r d, lookup-erase String-discrete s r t)
      (elim (String-discrete s r) [
        | yes q ↦ rw (if_pos (String-discrete s r) q, if_pos (String-discrete s r) q) tt
        | no n ↦ rw (if_neg (String-discrete s r) n, if_neg (String-discrete s r) n) (h r)
      ])
