-- ===== src/Orders/Outcome.antt =====
-- When `create_order` of binance_th/orders.py says that an order may be sent again.
use binance_th.Prelude.{ℕ, String, ◌≡◌, refl, inl, inr, true, arith, Bool-cases}
use binance_th.Prelude.Int.{negsuc}
use binance_th.Errors.Exceptions.{
  ApiError, Error, api_error, order_unknown, Result, raise, Result-cases,
}
use binance_th.Models.Base.{Decimal}
use binance_th.Models.Orders.{Order, OrderRequest}
use binance_th.Transport.Reply.{is_code}
use binance_th.Transport.Pipeline.{World, Env, parse, request}
use binance_th.Transport.Raised.{plain, Plain, bind-Plain, parse-Plain, request-Plain}
use binance_th.Orders.Create.{
  order_params, order_call, query_call, is_unknown, confirm, query_order, reconcile, post, place,
}

confirm_resubmittable :
    (symbol cid c s : String) (q : Result Order)
    → plain q ≡ true
    → confirm symbol cid q ≡ raise (order_unknown c s true)
    → (a : ApiError) × (q ≡ raise (api_error a))
      × (is_code a.code (negsuc 2012) ≡ true)
      × (c ≡ cid)
      × (s ≡ symbol)
confirm_resubmittable symbol cid c s (raise (api_error a)) p h =
    (a, refl, ground arith, ground arith, ground arith)
confirm_resubmittable symbol cid c s (raise (order_unknown d t b)) p h = absurd (ground arith)
confirm_resubmittable symbol cid c s _ p h = absurd (ground arith)

module _ {L : Type 0} (env : Env L) (unit : ℕ) (decimal_text : Decimal → String) where
  query_order-Plain : (symbol cid : String) → Plain (query_order env unit decimal_text symbol cid)
  unfolding query_order
  query_order-Plain symbol cid =
      bind-Plain (request env (query_call symbol cid)) (parse env.order_of)
        (request-Plain env (query_call symbol cid)) (parse-Plain env.order_of)

  post-Plain : (r : OrderRequest) → Plain (post env unit decimal_text r)
  unfolding post
  post-Plain r =
      bind-Plain (request env (order_call (order_params decimal_text r))) (parse env.order_of)
        (request-Plain env (order_call (order_params decimal_text r))) (parse-Plain env.order_of)

  -- Once an order was posted, the client says that it is safe to send it again only if the outcome
  -- of the POST was unknown and the query by the client id, made after it, failed with code -2013.
  -- The error names that id and the order's symbol.
  pub place_resubmittable :
      (cid : String) (r : OrderRequest) (w : World L) (c s : String)
      → (place env unit decimal_text cid r w).0 ≡ raise (order_unknown c s true)
      → (e : Error) × ((post env unit decimal_text r w).0 ≡ raise e)
        × (is_unknown e ≡ true)
        × ((a : ApiError) × ((query_order env unit decimal_text r.symbol cid
                (post env unit decimal_text r w).1).0
              ≡ raise (api_error a))
            × (is_code a.code (negsuc 2012) ≡ true)
            × (c ≡ cid)
            × (s ≡ r.symbol))
  unfolding place reconcile
  place_resubmittable cid r w c s h = elim (Result-cases (post env unit decimal_text r w).0) [
    | inl (order, e) ↦ absurd (ground arith)
    | inr (err, e) ↦ elim (Bool-cases (is_unknown err)) [
      | inl unknown ↦ (
        err,
        e,
        unknown,
        confirm_resubmittable r.symbol cid c s _
            (query_order-Plain r.symbol cid (post env unit decimal_text r w).1) (ground arith),
      )
      | inr known ↦ absurd (ground (arith, post-Plain r w))
    ]
  ]
