-- ===== src/Orders/Safety.antt =====
-- What `create_order` of binance_th/orders.py sends.
use text.Mathlib.TextEquality.{eq_iff}
use binance_th.Prelude.{
  ℕ, String, ◌≢◌, refl, inl, inr, Bool, true, false, [], not, arith, Bool-cases, Option-cases,
}
use binance_th.Errors.Exceptions.{Result-cases}
use binance_th.Models.Base.{Decimal, ExchangeInfo, get_symbol}
use binance_th.Models.Orders.{OrderRequest}
use binance_th.Transport.Pipeline.{Call, World, Env, parse, request, can_sign}
use binance_th.Transport.Sent.{
  Grows-refl, Reads, bind-Reads, bind_cases, parse-Reads, request-Reads,
}
use binance_th.Transport.Once.{SentOnce, request-SentOnce, SentOnce-before, SentOnce-after}
use binance_th.Client.{exchange_info, exchange_info-Reads}
use binance_th.Orders.Create.{
  order_params, order_call, query_call, is_unknown, with_id, client_id, query_order, reconcile,
  post, place, look_again, look_up, validated, create_order,
}

post_ne_get : ◌≢◌ {A = String} "POST" "GET"
post_ne_get = λ e. ground (arith, eq_iff "POST" "GET")

-- The calls that place an order differ in their parameters only.
abbrev pub placing : Call
placing = order_call []

module _ {L : Type 0} (env : Env L) (unit : ℕ) (decimal_text : Decimal → String) where
  query_order-Reads : (symbol cid : String) → Reads (query_order env unit decimal_text symbol cid)
  unfolding query_order
  query_order-Reads symbol cid =
      bind-Reads (request env (query_call symbol cid)) (parse env.order_of)
        (request-Reads env (query_call symbol cid) refl) (parse-Reads env.order_of)

  reconcile-Reads : (symbol cid : String) → Reads (reconcile env unit decimal_text symbol cid)
  unfolding reconcile
  reconcile-Reads symbol cid w = query_order-Reads symbol cid w

  post-SentOnce :
      (r : OrderRequest) (w : World L)
      → SentOnce placing w.sent (post env unit decimal_text r w).1.sent
  unfolding post
  post-SentOnce r w =
      let c = order_call (order_params decimal_text r) in
      let sent = request-SentOnce env c post_ne_get w refl in
      elim (bind_cases (request env c) (parse env.order_of) w) [
        | inl (body, done, h) ↦
            rw (h, post)
              (SentOnce-after placing post_ne_get sent
                (parse-Reads env.order_of body (request env c w).1))
        | inr (e, failed, h) ↦ rw (h, post) sent
      ]

  place-SentOnce :
      (cid : String) (r : OrderRequest) (w : World L)
      → SentOnce placing w.sent (place env unit decimal_text cid r w).1.sent
  unfolding place
  place-SentOnce cid r w = elim (Result-cases (post env unit decimal_text r w).0) [
    | inl (order, h) ↦ rw (h, place) (post-SentOnce r w)
    | inr (e, h) ↦ elim (Bool-cases (is_unknown e)) [
      | inl unknown ↦
          rw (h, place, unknown)
            (SentOnce-after placing post_ne_get (post-SentOnce r w)
              (reconcile-Reads r.symbol cid (post env unit decimal_text r w).1))
      | inr known ↦ rw (h, place, known) (post-SentOnce r w)
    ]
  ]

  look_again-Reads :
      (r : OrderRequest) (info : ExchangeInfo) → Reads (look_again env unit decimal_text r info)
  unfolding look_again
  look_again-Reads r info w = elim (Option-cases (get_symbol info r.symbol)) [
    | inl missing ↦ rw (missing, look_again) (Grows-refl refl)
    | inr (s, h) ↦ rw (h, look_again) (Grows-refl refl)
  ]

  look_up-Reads :
      (r : OrderRequest) (info : ExchangeInfo) → Reads (look_up env unit decimal_text r info)
  unfolding look_up
  look_up-Reads r info w = elim (Option-cases (get_symbol info r.symbol)) [
    | inl missing ↦
        rw (missing, look_up)
          (bind-Reads (exchange_info env true) (look_again env unit decimal_text r)
            (exchange_info-Reads env true) (look_again-Reads r) w)
    | inr (s, h) ↦ rw (h, look_up) (Grows-refl refl)
  ]

  validated-Reads :
      (validate : Bool) (r : OrderRequest) → Reads (validated env unit decimal_text validate r)
  unfolding validated
  validated-Reads true r w =
      bind-Reads (exchange_info env false) (look_up env unit decimal_text r)
        (exchange_info-Reads env false) (look_up-Reads r) w
  validated-Reads false r w = Grows-refl refl

  -- Of all the POST requests that one `create_order` sends, across the sync of the clock, the
  -- fetches of the exchange information and the reconciliation, all but the latest were refused
  -- with code -1021.
  pub create_order-SentOnce :
      (minted : String) (validate : Bool) (r : OrderRequest) (w : World L)
      → SentOnce placing w.sent (create_order env unit decimal_text minted validate r w).1.sent
  unfolding create_order
  create_order-SentOnce minted validate r w =
      let check = validated env unit decimal_text validate (with_id r minted) in
      let cid = client_id r.new_client_order_id minted in
      elim (Bool-cases (not (can_sign env))) [
        | inl barred ↦ rw (barred, create_order) ([], refl, tt)
        | inr free ↦ elim (bind_cases check (place env unit decimal_text cid) w) [
          | inl (r', done, h) ↦
              rw (free, create_order, h)
                (SentOnce-before placing post_ne_get (validated-Reads validate (with_id r minted) w)
                  (place-SentOnce cid r' (check w).1))
          | inr (e, failed, h) ↦
              rw (free, create_order, h)
                (SentOnce-before placing post_ne_get (validated-Reads validate (with_id r minted) w)
                  ([], refl, tt))
        ]
      ]
