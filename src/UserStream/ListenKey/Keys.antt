-- ===== src/UserStream/ListenKey/Keys.antt =====
-- That binance_th/listenkey.py reaches every key, whatever fails.
use mathlib.Core.List.{append_assoc}
use binance_th.Prelude.{
  ℕ, zero, suc, String, ◌≡◌, refl, sym, ap, ◌∙◌, inl, inr, false, not, none, List, [], ◌∷◌, ◌++◌,
  arith, All, All-append, Bool-cases, Option-cases, ◌&&◌, if◌then◌else◌,
}
use binance_th.Prelude.Dict.{values}
use binance_th.Errors.Exceptions.{Result-cases}
use binance_th.Retry.{delay, run, run_from}
use binance_th.Transport.Reply.{is_retryable}
use binance_th.Transport.Pipeline.{
  Request, Call, Entry, World, Env, send, exchange, execute, attempt, request, sleep, can_sign,
}
use binance_th.UserStream.ListenKey.{Manager, key_call, for_keys, keepalive, close}

module _ {L : Type 0} (env : Env L) where
  -- The request that a call without a signature sends, at every try.
  abbrev pub unsigned_request : Call → Request
  unsigned_request c = record {
    method = c.method;
    path = c.path;
    params = c.params;
    api_key = if c.api_key_only then env.api_key else none;
  }

  -- The log has grown by tries of this request, by one at least.
  abbrev pub Asked : Request → List Entry → List Entry → Type 0
  Asked q old log =
      (e : Entry) × (new : List Entry) × (log ≡ new ++ e ∷ old) × (e.0 ≡ q) × All (λ d. d.0 ≡ q) new

  attempt-Asked :
      (c : Call) (w : World L)
      → c.signed ≡ false
      → Asked (unsigned_request c) w.sent (attempt env c w).1.sent
  unfolding attempt execute exchange send
  attempt-Asked c w h = rw (h, attempt) (_, [], refl, refl, tt)

  Asked-trans : (q : Request) (a b c : List Entry) → Asked q a b → Asked q b c → Asked q a c
  Asked-trans q a b c (e, n, p, r, h) (f, m, o, s, k) = (
    e,
    m ++ f ∷ n,
    o ∙ ap (λ l. m ++ f ∷ l) p ∙ sym (append_assoc m (f ∷ n) (e ∷ a)),
    r,
    All-append _ m (f ∷ n) k (s, h),
  )

  run_from-Asked :
      (c : Call) (left n : ℕ) (w : World L)
      → c.signed ≡ false
      → Asked
          (unsigned_request c)
          w.sent
          (run_from env.backoff
            (sleep env)
            (attempt env c)
            (is_retryable c.mutating)
            left
            n
            w).1.sent
  unfolding run_from
  run_from-Asked c zero n w h = attempt-Asked c w h
  run_from-Asked c (suc left) n w h = elim (Result-cases (attempt env c w).0) [
    | inl (a, e) ↦ rw (e, run_from) (attempt-Asked c w h)
    | inr (x, e) ↦ elim (Bool-cases (is_retryable c.mutating x)) [
      | inl again ↦ elim (Option-cases (delay env.backoff x n)) [
        | inl over ↦ rw (e, run_from, again, over) (attempt-Asked c w h)
        | inr (d, waits) ↦
            rw (e, run_from, again, waits)
              (Asked-trans (unsigned_request c) w.sent _ _ (attempt-Asked c w h)
                (run_from-Asked c left (suc n) _ h))
      ]
      | inr stop ↦ rw (e, run_from, stop) (attempt-Asked c w h)
    ]
  ]

  pub request-Asked :
      (c : Call) (w : World L)
      → c.signed ≡ false
      → Asked (unsigned_request c) w.sent (request env c w).1.sent
  unfolding request run
  request-Asked c w h =
      let test : c.signed && not (can_sign env) ≡ false = ground (arith, h) in
      rw (test, request) (run_from-Asked c env.max_retries 0 w h)

  -- One key after another has been asked about, each once at least, and nothing else was sent.
  abbrev pub Visited : String → List String → List Entry → List Entry → Type 0
  Visited method [] old log = log ≡ old
  Visited method (k ∷ ks) old log =
      (mid : List Entry) × Asked (unsigned_request (key_call env method k)) old mid
      × Visited method ks mid log

  for_keys-Visited :
      (method : String) (ks : List String) (w : World L)
      → Visited method ks w.sent (for_keys env method ks w).sent
  unfolding for_keys
  for_keys-Visited method [] w = refl
  for_keys-Visited method (k ∷ ks) w = (
    (request env (key_call env method k) w).1.sent,
    request-Asked (key_call env method k) w refl,
    for_keys-Visited method ks (request env (key_call env method k) w).1,
  )

  -- Closing the manager sends a DELETE for each key it held, one key after another, whatever the
  -- exchange answers to the others, and it holds no key afterwards.
  pub close-Visited :
      (m : Manager) (w : World L)
      → Visited "DELETE" (values m.keys) w.sent (close env m w).1.sent
        × ((close env m w).0.keys ≡ [])
  unfolding close
  close-Visited m w = (for_keys-Visited "DELETE" (values m.keys) w, refl)

  -- A keepalive sends a PUT for each key that is held, one key after another, whatever the exchange
  -- answers to the others.
  pub keepalive-Visited :
      (m : Manager) (w : World L) → Visited "PUT" (values m.keys) w.sent (keepalive env m w).sent
  unfolding keepalive
  keepalive-Visited m w = for_keys-Visited "PUT" (values m.keys) w
