-- ===== src/Prelude/Json.antt =====
-- A decoded JSON body: what `json()` returns. A number that is not an integer keeps its text.
use mathlib.Core.Option.{Option, none, some}
use mathlib.Core.Bool.{Bool, true, false}
use mathlib.Core.Logic.{ite}
use Prim.Native.String.{String}
use binance_th.Prelude.Int.{ℤ, pos}
use binance_th.Prelude.Text.{String-discrete}

mutual
  pub data Json : Type 0 where
    null : Json
    bool : Bool → Json
    int : ℤ → Json
    real : String → Json
    str : String → Json
    array : Items → Json
    object : Fields → Json

  pub data Items : Type 0 where
    nil : Items
    item : Json → Items → Items

  pub data Fields : Type 0 where
    end : Fields
    field : String → Json → Fields → Fields

-- `body.get(key)`
unfoldable pub get : String → Fields → Option Json
get k end = none
get k (field j v fs) = ite (String-discrete j k) (some v) (get k fs)

-- `x if isinstance(x, int) else None`; a Python bool is an int.
abbrev pub as_int : Option Json → Option ℤ
as_int (some (int n)) = some n
as_int (some (bool true)) = some (pos 1)
as_int (some (bool false)) = some (pos 0)
as_int _ = none

-- `x if isinstance(x, str) else None`
abbrev pub as_str : Option Json → Option String
as_str (some (str s)) = some s
as_str _ = none
