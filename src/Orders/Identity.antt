-- ===== src/Orders/Identity.antt =====
-- The client order id in `create_order` of binance_th/orders.py.
use Prim.Native.String.{String}
use binance_th.Prelude.{
  ℕ, ◌≡◌, ◌≢◌, refl, ap, ◌∙◌, sym, inl, inr, Bool, true, false, some, arith, Option-cases,
}
use binance_th.Errors.Exceptions.{ok}
use binance_th.Models.Base.{Decimal, SymbolInfo, ExchangeInfo, get_symbol}
use binance_th.Models.Orders.{OrderRequest}
use binance_th.Validation.Order.{validate_order}
use binance_th.Validation.Accepts.{validate_order_iff}
use binance_th.Transport.Pipeline.{World, Env}
use binance_th.Transport.Sent.{bind_cases}
use binance_th.Client.{exchange_info}
use binance_th.Orders.Create.{with_id, client_id, look_again, look_up, validated}

validate_order_id :
    (unit : ℕ) (r r' : OrderRequest) (info : SymbolInfo)
    → validate_order unit r info ≡ ok r'
    → r'.new_client_order_id ≡ r.new_client_order_id
validate_order_id unit r r' info h =
    ap (λ q. q.new_client_order_id) (sym ((validate_order_iff unit r r' info).0 h).0)

client_id_given : (s minted : String) → some s ≢ some String.[] → client_id (some s) minted ≡ s
client_id_given String.[] minted ne = absurd (ne refl)
client_id_given (String.◌∷◌ c s) minted ne = refl

with_id-some :
    (r : OrderRequest) (minted : String)
    → r.new_client_order_id ≢ some String.[]
    → (with_id r minted).new_client_order_id ≡ some (client_id r.new_client_order_id minted)
with_id-some r minted ne = elim (Option-cases r.new_client_order_id) [
  | inl missing ↦ ground (arith, missing)
  | inr (s, given) ↦ ground (arith, given, client_id_given s minted (rw given at ne))
]

module _ {L : Type 0} (env : Env L) (unit : ℕ) (decimal_text : Decimal → String) where
  look_again-id :
      (r r' : OrderRequest) (info : ExchangeInfo) (w : World L)
      → (look_again env unit decimal_text r info w).0 ≡ ok r'
      → r'.new_client_order_id ≡ r.new_client_order_id
  unfolding look_again
  look_again-id r r' info w h = elim (Option-cases (get_symbol info r.symbol)) [
    | inl missing ↦ absurd (ground arith)
    | inr (s, found) ↦ validate_order_id unit r r' s (ground arith)
  ]

  look_up-id :
      (r r' : OrderRequest) (info : ExchangeInfo) (w : World L)
      → (look_up env unit decimal_text r info w).0 ≡ ok r'
      → r'.new_client_order_id ≡ r.new_client_order_id
  unfolding look_up
  look_up-id r r' info w h = elim (Option-cases (get_symbol info r.symbol)) [
    | inl missing ↦
        elim (bind_cases (exchange_info env true) (look_again env unit decimal_text r) w) [
          | inl (again, done, e) ↦
              look_again-id r r' again (exchange_info env true w).1 (ground (arith, e))
          | inr (err, stopped, e) ↦ absurd (ground (arith, e))
        ]
    | inr (s, found) ↦ validate_order_id unit r r' s (ground arith)
  ]

  validated-id :
      (validate : Bool) (r r' : OrderRequest) (w : World L)
      → (validated env unit decimal_text validate r w).0 ≡ ok r'
      → r'.new_client_order_id ≡ r.new_client_order_id
  unfolding validated
  validated-id false r r' w h = ground arith
  validated-id true r r' w h =
      elim (bind_cases (exchange_info env false) (look_up env unit decimal_text r) w) [
        | inl (info, done, e) ↦
            look_up-id r r' info (exchange_info env false w).1 (ground (arith, e))
        | inr (err, stopped, e) ↦ absurd (ground (arith, e))
      ]

  -- Unless the caller passes an empty client id, the order that is posted has the id that the
  -- reconciliation is given, validated or not.
  pub client_id-validated :
      (minted : String) (validate : Bool) (r r' : OrderRequest) (w : World L)
      → r.new_client_order_id ≢ some String.[]
      → (validated env unit decimal_text validate (with_id r minted) w).0 ≡ ok r'
      → r'.new_client_order_id ≡ some (client_id r.new_client_order_id minted)
  client_id-validated minted validate r r' w ne h =
      validated-id validate (with_id r minted) r' w h ∙ with_id-some r minted ne
