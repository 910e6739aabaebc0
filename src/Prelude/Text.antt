-- ===== src/Prelude/Text.antt =====
-- Texts: the native `String` where the program only compares, its code points where it walks.
use Prim.Native.Nat.{ℕ, ◌+◌, ◌-◌, ◌*◌}
use Prim.Native.Char.{code}
use Prim.Native.String.{String}
use mathlib.Core.Bool.{Bool, true, false, not, ◌&&◌, ◌||◌}
use mathlib.Core.List.{List, [], ◌∷◌, map, reverse}
use mathlib.Core.Logic.{inl, inr}
use mathlib.Core.Path.{◌≡◌, refl, ap, ◌∙◌}
use native.Mathlib.Omega.{arith}
use mathlib.Core.Option
use mathlib.Core.Option.{Option, none, some}
use text.Mathlib.Text.{◌==◌ as str_eq}
use text.Mathlib.TextEquality.{eq_iff}
use binance_th.Prelude.Tests.{Bool-cases, leb, ◌==◌, if◌then◌else◌}
use binance_th.Prelude.Int.{ℤ, pos, negsuc, sub_ℕ}

differ : (s t : String) → str_eq s t ≡ false → ¬ (s ≡ t)
differ s t n p = ground (arith, eq_iff s t)

unfoldable pub String-discrete : Discrete String
unfolding Bool-cases differ
String-discrete s t = elim (Bool-cases (str_eq s t)) [
  | inl e ↦ yes ((eq_iff s t).0 e)
  | inr n ↦ no (differ s t n)
]

-- The code points of a text.
abbrev pub codes : String → List ℕ
codes String.[] = []
codes (String.◌∷◌ c s) = code c ∷ codes s

-- `str.lower` on ASCII.
unfoldable pub lower : List ℕ → List ℕ
lower = map λ c. if leb b'A' c && leb c b'Z' then c + 32 else c

-- Equality of texts by their code points.
unfoldable pub same : List ℕ → List ℕ → Bool
same [] [] = true
same (c ∷ s) (d ∷ t) = c == d && same s t
same _ _ = false

unfoldable pub is_digit : ℕ → Bool
is_digit c = leb b'0' c && leb c b'9'

abbrev is_space : ℕ → Bool
is_space c = c == 32 || (leb 9 c && leb c 13)

-- A text without the spaces before and after it.
unfoldable strip_start : String → String
strip_start String.[] = String.[]
strip_start (String.◌∷◌ c s) =
    let rest = strip_start s in if is_space (code c) then rest else String.◌∷◌ c s

abbrev is_empty : String → Bool
is_empty String.[] = true
is_empty _ = false

unfoldable strip_end : String → String
strip_end String.[] = String.[]
strip_end (String.◌∷◌ c s) =
    let rest = strip_end s in
    if is_space (code c) && is_empty rest then String.[] else String.◌∷◌ c rest

unfoldable pub strip : String → String
unfolding strip_start strip_end
strip s = strip_end (strip_start s)

abbrev starts_clean : String → Bool
starts_clean String.[] = true
starts_clean (String.◌∷◌ c s) = not (is_space (code c))

strip_start-clean : (s : String) → starts_clean (strip_start s) ≡ true
unfolding strip_start
strip_start-clean String.[] = refl
strip_start-clean (String.◌∷◌ c s) = ground (arith, strip_start-clean s)

strip_end-clean : (s : String) → starts_clean s ≡ true → starts_clean (strip_end s) ≡ true
unfolding strip_end
strip_end-clean String.[] h = refl
strip_end-clean (String.◌∷◌ c s) h = ground arith

strip_start_same : (s : String) → starts_clean s ≡ true → strip_start s ≡ s
unfolding strip_start
strip_start_same String.[] h = refl
strip_start_same (String.◌∷◌ c s) h = ground arith

strip_end_twice : (s : String) → strip_end (strip_end s) ≡ strip_end s
unfolding strip_end
strip_end_twice String.[] = refl
strip_end_twice (String.◌∷◌ c s) = ground (arith, strip_end_twice s)

pub strip_twice : (s : String) → strip (strip s) ≡ strip s
unfolding strip
strip_twice s =
    ap strip_end (
      strip_start_same (strip_end (strip_start s))
        (strip_end-clean (strip_start s) (strip_start-clean s)))
    ∙ strip_end_twice (strip_start s)

unfoldable pub skip_spaces : List ℕ → List ℕ
skip_spaces [] = []
skip_spaces (c ∷ s) = if is_space c then skip_spaces s else c ∷ s

-- The digits of `int(text)`: an underscore may stand between two digits. `after` says that the
-- character before was a digit.
unfoldable pub parse_digits : ℕ → Bool → List ℕ → Option ℕ
unfolding is_digit
parse_digits acc after [] = if after then some acc else none
parse_digits acc after (c ∷ s) =
    let d = is_digit c in
    let rest = parse_digits (if d then acc * 10 + (c - 48) else acc) d s in
    if d || (c == b'_' && after) then rest else none

abbrev signed : List ℕ → Option ℤ
signed [] = none
signed (c ∷ s) =
    if c == b'-'
    then Option.map (λ n. sub_ℕ 0 n) (parse_digits 0 false s)
    else if c == b'+'
    then Option.map pos (parse_digits 0 false s)
    else Option.map pos (parse_digits 0 false (c ∷ s))

-- `int(text)` on ASCII; `none` is the `ValueError`.
unfoldable pub parse_int : List ℕ → Option ℤ
unfolding parse_digits skip_spaces
parse_int s = signed (reverse (skip_spaces (reverse (skip_spaces s))))

parse_int_runs :
    (parse_int (codes " -1_200 ") ≡ some (negsuc 1199))
    × (parse_int (codes "12a") ≡ none)
    × (parse_int (codes "007") ≡ some (pos 7))
unfolding parse_int
parse_int_runs = (refl, refl, refl)
