-- ===== src/Resources.antt =====
-- The read endpoints of binance_th/market.py, account.py, wallet.py, client.py and orders.py over
-- the transport. The response models are parsed by pydantic and are parameters.
use Prim.Native.String as S
use binance_th.Prelude.{ℕ, String, Bool, true, false, Option, none, some, List, [], ◌∷◌}
use binance_th.Prelude.Int.{ℤ}
use binance_th.Prelude.Show.{show_ℤ}
use binance_th.Prelude.Json.{Json, Items, nil, item, end, object, array, str}
use binance_th.Errors.Exceptions.{foreign, Result, ok, raise}
use binance_th.Signing.{Params}
use binance_th.Transport.Pipeline.{Call, Env, Act, bind, parse, request}
pub mod Market
pub mod Account
pub mod Wallet
pub mod Reads
pub mod Iterate
pub mod Histories
pub mod Candles
mod Tests

-- The calls differ in these only: a read is bare, and its body is decoded.
abbrev pub get_call : String → Params → Bool → ℕ → Call
get_call path params signed weight = record {
  method = "GET";
  path = path;
  params = params;
  signed = signed;
  api_key_only = false;
  envelope = false;
  weight = weight;
  mutating = false;
  parse_json = true;
}

-- `if value is not None: params[name] = value`
abbrev pub optional_text : String → Option String → Params → Params
optional_text name none rest = rest
optional_text name (some value) rest = (name, value) ∷ rest

abbrev pub optional_int : String → Option ℤ → Params → Params
optional_int name none rest = rest
optional_int name (some value) rest = (name, show_ℤ value) ∷ rest

abbrev pub items_of : Items → List Json
items_of nil = []
items_of (item j is) = j ∷ items_of is

-- The items that `for item in raw` meets: a body that is no list has none, or only such as no model
-- takes.
abbrev pub rows_of : Json → Result (List Json)
rows_of (array is) = ok (items_of is)
rows_of (object end) = ok []
rows_of (str S.[]) = ok []
rows_of _ = raise (foreign "TypeError")

-- `raw if isinstance(raw, list) else [raw]`
abbrev pub rows_or_one : Json → Result (List Json)
rows_or_one (array is) = ok (items_of is)
rows_or_one raw = ok (raw ∷ [])

-- `[Model(**item) for item in rows]`
unfoldable pub models_of : {A : Type 0} → (Json → Option A) → List Json → Result (List A)
models_of model [] = ok []
models_of model (j ∷ js) =
    let rest = models_of model js in
    elim (model j) [
      | none ↦ raise (foreign "ValidationError")
      | some a ↦ elim rest [ ok more ↦ ok (a ∷ more) | raise e ↦ raise e ]
    ]

abbrev listed : {A : Type 0} → (Json → Option A) → Result (List Json) → Result (List A)
listed model (ok js) = models_of model js
listed model (raise e) = raise e

unfoldable pub parse_rows :
    {L A : Type 0} → (Json → Result (List Json)) → (Json → Option A) → Json → Act L (List A)
unfolding models_of
parse_rows rows model body w = (listed model (rows body), w)

module _ {L A : Type 0} (env : Env L) (model : Json → Option A) where
  -- A method that gives one model, and one that gives a list of them.
  unfoldable pub get_one : Call → Act L A
  unfolding bind parse request
  get_one c = bind (request env c) (parse model)

  unfoldable pub get_rows : (Json → Result (List Json)) → Call → Act L (List A)
  unfolding bind parse_rows request
  get_rows rows c = bind (request env c) (parse_rows rows model)
