-- ===== src/Idempotency.antt =====
-- binance_th/idempotency.py: the client order id that is minted for an order without one. The
-- prefix, the time and the random token are arguments; texts are lists of code points.
use native.Mathlib.Nat
use binance_th.Prelude.{
  ℕ, zero, suc, ◌+◌, ◌-◌, ◌*◌, ◌/◌, ◌%◌, ◌≤◌, ◌<◌, ◌≡◌, refl, sym, ap, ◌∙◌, Bool, true, false, ◌||◌,
  ◌&&◌, List, [], ◌∷◌, ◌++◌, length, take, All, All-append, arith, ltb, leb, ◌==◌, if◌then◌else◌,
  Bool-cases, inl, inr,
}
mod Tests

-- `_DIGITS36[rem]`
abbrev pub digit36 : ℕ → ℕ
digit36 d = if ltb d 10 then d + b'0' else (d - 10) + b'a'

-- The loop of `_base36`, which puts the last digit first, and the reversal: on fuel, of which the
-- number itself is enough.
unfoldable pub base36_from : ℕ → ℕ → List ℕ
base36_from zero value = []
base36_from (suc fuel) value =
    let front = base36_from fuel (value / 36) in
    if value == 0 then [] else front ++ digit36 (value % 36) ∷ []

-- `_base36` of a number that is not negative; below it is `"0"` as for 0.
unfoldable pub base36 : ℕ → List ℕ
unfolding base36_from
base36 value = if value == 0 then b'0' ∷ [] else base36_from value value

-- What a reader of the id takes the digits for.
abbrev pub digit_value : ℕ → ℕ
digit_value c = if leb b'a' c then (c - b'a') + 10 else c - b'0'

unfoldable pub read36 : ℕ → List ℕ → ℕ
read36 acc [] = acc
read36 acc (c ∷ cs) = read36 (acc * 36 + digit_value c) cs

read36-append : (acc : ℕ) (cs ds : List ℕ) → read36 acc (cs ++ ds) ≡ read36 (read36 acc cs) ds
unfolding read36
read36-append acc [] ds = refl
read36-append acc (c ∷ cs) ds = read36-append (acc * 36 + digit_value c) cs ds

digit_value-digit36 : (d : ℕ) → d < 36 → digit_value (digit36 d) ≡ d
digit_value-digit36 d h = ground (arith, h)

read36-base36_from : (fuel value : ℕ) → value ≤ fuel → read36 0 (base36_from fuel value) ≡ value
unfolding read36 base36_from
read36-base36_from zero value h = omega (arith, h)
read36-base36_from (suc fuel) value h = elim (Bool-cases (value == 0)) [
  | inl none ↦ rw none (ground (arith, none))
  | inr some_left ↦
      let smaller : value / 36 ≤ fuel = ground (arith, some_left, h) in
      let front = base36_from fuel (value / 36) in
      rw
        (
          some_left,
          read36-append 0 front (digit36 (value % 36) ∷ []),
          read36-base36_from fuel (value / 36) smaller,
          digit_value-digit36 (value % 36) (omega arith),
        )
        (omega arith)
]

-- Reading the digits of a number in base 36 gives the number.
pub read36-base36 : (value : ℕ) → read36 0 (base36 value) ≡ value
unfolding base36 read36
read36-base36 value = elim (Bool-cases (value == 0)) [
  | inl none ↦ rw none (ground (arith, none))
  | inr some_left ↦ rw some_left (read36-base36_from value value (omega arith))
]

-- `f"{prefix}-{_base36(now_ms())}-{token()}"[:_MAX_LEN]`
unfoldable pub mint_client_order_id : List ℕ → ℕ → List ℕ → List ℕ
unfolding base36
mint_client_order_id prefix now_ms token =
    take 36 (prefix ++ b'-' ∷ (base36 now_ms ++ b'-' ∷ token))

-- A letter or a digit of ASCII, or a dash.
abbrev pub is_safe : ℕ → Bool
is_safe c =
    (leb b'a' c && leb c b'z')
    || ((leb b'A' c && leb c b'Z') || ((leb b'0' c && leb c b'9') || c == b'-'))

abbrev pub AllSafe : List ℕ → Type 0
AllSafe = All λ c. is_safe c ≡ true

digit36-AllSafe : (d : ℕ) → d < 36 → is_safe (digit36 d) ≡ true
digit36-AllSafe d h = ground (arith, h)

base36_from-AllSafe : (fuel value : ℕ) → AllSafe (base36_from fuel value)
unfolding base36_from
base36_from-AllSafe zero value = tt
base36_from-AllSafe (suc fuel) value = elim (Bool-cases (value == 0)) [
  | inl none ↦ rw none tt
  | inr some_left ↦ rw some_left (
      All-append _ (base36_from fuel (value / 36)) (digit36 (value % 36) ∷ [])
        (base36_from-AllSafe fuel (value / 36)) (digit36-AllSafe (value % 36) (omega arith), tt))
]

base36-AllSafe : (value : ℕ) → AllSafe (base36 value)
unfolding base36
base36-AllSafe value = elim (Bool-cases (value == 0)) [
  | inl none ↦ rw none (refl, tt)
  | inr some_left ↦ rw some_left (base36_from-AllSafe value value)
]

take-All : {A : Type 0} (P : A → Type 0) (n : ℕ) (xs : List A) → All P xs → All P (take n xs)
take-All P zero xs h = tt
take-All P (suc n) [] h = tt
take-All P (suc n) (x ∷ xs) h = (h.0, take-All P n xs h.1)

length-take : {A : Type 0} (n : ℕ) (xs : List A) → length (take n xs) ≤ n
length-take zero xs = omega arith
length-take (suc n) [] = omega arith
length-take (suc n) (x ∷ xs) = let h = length-take n xs in omega (arith, h)

-- From a prefix and a token of letters, digits and dashes, at any time, an id is minted that has at
-- most 36 characters, all of them letters, digits and dashes.
pub mint-AllSafe :
    (prefix : List ℕ) (now_ms : ℕ) (token : List ℕ)
    → AllSafe prefix
    → AllSafe token
    → AllSafe (mint_client_order_id prefix now_ms token)
      × (length (mint_client_order_id prefix now_ms token) ≤ 36)
unfolding mint_client_order_id
mint-AllSafe prefix now_ms token p t =
    let whole = prefix ++ b'-' ∷ (base36 now_ms ++ b'-' ∷ token) in
    let rest = All-append _ (base36 now_ms) (b'-' ∷ token) (base36-AllSafe now_ms) (refl, t) in
    (
      take-All _ 36 whole
          (All-append _ prefix (b'-' ∷ (base36 now_ms ++ b'-' ∷ token)) p (refl, rest)),
      length-take 36 whole,
    )
