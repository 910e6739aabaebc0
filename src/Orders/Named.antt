-- ===== src/Orders/Named.antt =====
-- The client order id in what `create_order` of binance_th/orders.py sends.
use mathlib.Core.Option
use binance_th.Prelude.{ℕ, String, ◌≡◌, Option, some, List}
use binance_th.Prelude.Text.{String-discrete}
use binance_th.Prelude.Dict.{lookup}
use binance_th.Models.Base.{Decimal}
use binance_th.Signing.{Params}
use binance_th.Transport.Pipeline.{Call, Entry, Env, Act}
use binance_th.Transport.Sent.{Grows}
use binance_th.Transport.Keeps.{Keeps}

-- A POST carries the id as the order's, and a GET of an order asks for the order with that id.
abbrev pub NamesBy : String → String → String → Params → Type 0
NamesBy cid method path params =
    (method ≡ "POST" → lookup String-discrete "newClientOrderId" params ≡ some cid)
    × (method ≡ "GET"
        → path ≡ "/api/v1/order"
        → lookup String-discrete "origClientOrderId" params ≡ some cid)

abbrev pub Named : String → Entry → Type 0
Named cid e = NamesBy cid e.0.method e.0.path e.0.params

abbrev NamedCall : String → Call → Type 0
NamedCall cid c = NamesBy cid c.method c.path c.params

abbrev Growing : {L : Type 0} → String → List Entry → L → List Entry → Type 0
Growing cid old l log = Grows (Named cid) old log

module _ {L : Type 0} (env : Env L) (unit : ℕ) (decimal_text : Decimal → String) (cid : String)
    (old : List Entry) where
  abbrev Names : {A : Type 0} → Act L A → Type 0
  Names m = Keeps (Growing cid old) m
