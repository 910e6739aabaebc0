-- ===== src/Resources/Reads.antt =====
-- What the read endpoints of binance_th/market.py, account.py, wallet.py and orders.py send.
use binance_th.Prelude.{String, ◌≡◌, refl, inl, inr, false, Option, none, List}
use binance_th.Prelude.Int.{ℤ}
use binance_th.Prelude.Json.{Json}
use binance_th.Errors.Exceptions.{Result}
use binance_th.Transport.Pipeline.{Call, Request, World, Env, request}
use binance_th.Transport.Sent.{Grows-refl, Reads, bind-Reads, bind_cases, request-Reads}
use binance_th.UserStream.ListenKey.Keys.{Asked, unsigned_request, request-Asked}
use binance_th.Resources.{get_rows, parse_rows}
use binance_th.Resources.Market.{
  MarketRead, market_call, depth, trades, agg_trades, klines, ticker_24hr, ticker_price,
  book_ticker, reference_price, execution_rules, symbol_types_of,
}
use binance_th.Resources.Account.{account_call, trade_fees_call, user_trades_call, open_orders_call}
use binance_th.Resources.Wallet.{deposit_address_call, deposit_history_call, withdraw_history_call}

-- A read for which a signature is needed.
pub data SignedRead : Type 0 where
  account : SignedRead
  trade_fees open_orders : Option String → SignedRead
  user_trades : String → Option ℤ → Option ℤ → Option ℤ → SignedRead
  deposit_address : String → Option String → SignedRead
  deposit_history withdraw_history : Option String → Option ℤ → Option ℤ → Option ℤ → SignedRead

abbrev pub signed_call : SignedRead → Call
signed_call account = account_call
signed_call (trade_fees s) = trade_fees_call s
signed_call (open_orders s) = open_orders_call s
signed_call (user_trades s l from to) = user_trades_call s l from to
signed_call (deposit_address c n) = deposit_address_call c n
signed_call (deposit_history c from to l) = deposit_history_call c from to l
signed_call (withdraw_history c from to l) = withdraw_history_call c from to l

signed_call-get : (q : SignedRead) → (signed_call q).method ≡ "GET"
signed_call-get account = refl
signed_call-get (trade_fees s) = refl
signed_call-get (open_orders s) = refl
signed_call-get (user_trades s l from to) = refl
signed_call-get (deposit_address c n) = refl
signed_call-get (deposit_history c from to l) = refl
signed_call-get (withdraw_history c from to l) = refl

market_call-unsigned : (q : MarketRead) → (market_call q).signed ≡ false
market_call-unsigned (depth s l) = refl
market_call-unsigned (trades s l) = refl
market_call-unsigned (agg_trades s l) = refl
market_call-unsigned (klines s i l from to) = refl
market_call-unsigned (ticker_24hr s) = refl
market_call-unsigned (ticker_price s) = refl
market_call-unsigned (book_ticker s) = refl
market_call-unsigned (reference_price s) = refl
market_call-unsigned execution_rules = refl
market_call-unsigned (symbol_types_of s) = refl

-- A public read as its request.
abbrev pub public_request : MarketRead → Request
public_request q = record {
  method = "GET";
  path = (market_call q).path;
  params = (market_call q).params;
  api_key = none;
}

market_call-public :
    {L : Type 0} (env : Env L) (q : MarketRead)
    → unsigned_request env (market_call q) ≡ public_request q
market_call-public env (depth s l) = refl
market_call-public env (trades s l) = refl
market_call-public env (agg_trades s l) = refl
market_call-public env (klines s i l from to) = refl
market_call-public env (ticker_24hr s) = refl
market_call-public env (ticker_price s) = refl
market_call-public env (book_ticker s) = refl
market_call-public env (reference_price s) = refl
market_call-public env execution_rules = refl
market_call-public env (symbol_types_of s) = refl

module _ {L A : Type 0} (env : Env L) (model : Json → Option A)
    (rows : Json → Result (List Json)) where
  parse_rows-Reads : (body : Json) → Reads {L = L} (parse_rows rows model body)
  unfolding parse_rows
  parse_rows-Reads body w = Grows-refl refl

  -- A signed read of a list, of the account, the wallet or the open orders, sends GET requests
  -- only, whatever its syncs of the clock and its retries.
  pub signed_rows-Reads : (q : SignedRead) → Reads (get_rows env model rows (signed_call q))
  unfolding get_rows
  signed_rows-Reads q =
      bind-Reads (request env (signed_call q)) (parse_rows rows model)
        (request-Reads env (signed_call q) (signed_call-get q)) parse_rows-Reads

  -- A public read of a list sends its own request and no other, once or in several tries: a GET of
  -- its path with its parameters, and without the API key.
  pub market_rows-Asked :
      (q : MarketRead) (w : World L)
      → Asked env (public_request q) w.sent (get_rows env model rows (market_call q) w).1.sent
  unfolding get_rows parse_rows
  market_rows-Asked q w =
      let c = market_call q in
      let asked : Asked env (public_request q) w.sent (request env c w).1.sent =
        rw (market_call-public env q) at (request-Asked env c w (market_call-unsigned q)) in
      elim (bind_cases (request env c) (parse_rows rows model) w) [
        | inl (body, done, h) ↦ rw (h, get_rows) asked
        | inr (e, failed, h) ↦ rw (h, get_rows) asked
      ]
