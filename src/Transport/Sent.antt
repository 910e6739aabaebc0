-- ===== src/Transport/Sent.antt =====
-- What the operations of binance_th/transport.py send: reads send GET requests only.
use binance_th.Prelude.{
  ◌≡◌, refl, ◌⊎◌, inl, inr, Option, List, [], ◌∷◌, ◌++◌, ap, sym, ◌∙◌, arith, All, All-append,
  Bool-cases, Option-cases,
}
use mathlib.Core.List.{append_assoc}
use binance_th.Prelude.Json.{Json}
use binance_th.Errors.Exceptions.{Error, Result, ok, raise, Result-cases}
use binance_th.Transport.Reply.{handle}
use binance_th.Signing.{Params}
use binance_th.Transport.Keeps.{Keeps, Carries, sync_time-Keeps, request-Keeps}
use binance_th.Transport.Pipeline.{
  Call, Entry, World, Env, Act, bind, send, exchange, sync_time, request, parse,
}

-- The second log is the first with more entries, all of which are such.
abbrev pub Grows : (Entry → Type 0) → List Entry → List Entry → Type 0
Grows P old log = (new : List Entry) × (log ≡ new ++ old) × All P new

abbrev pub IsGet : Entry → Type 0
IsGet e = e.0.method ≡ "GET"

pub Grows-refl : {P : Entry → Type 0} {old log : List Entry} → log ≡ old → Grows P old log
Grows-refl e = ([], e, tt)

pub Grows-trans :
    {P : Entry → Type 0} {a b c : List Entry} → Grows P a b → Grows P b c → Grows P a c
Grows-trans {a = a} (n, e, h) (m, f, k) =
    (m ++ n, f ∙ ap (λ l. m ++ l) e ∙ sym (append_assoc m n a), All-append _ m n k h)

-- An operation that sends GET requests only.
abbrev pub Reads : {L A : Type 0} → Act L A → Type 0
Reads m = (w : World _) → Grows IsGet w.sent (m w).1.sent

module _ {L A B : Type 0} where
  pub bind-Reads :
      (m : Act L A) (f : A → Act L B) → Reads m → ((a : A) → Reads (f a)) → Reads (bind m f)
  unfolding bind
  bind-Reads m f hm hf w = elim (Result-cases (m w).0) [
    | inl (a, h) ↦ rw (h, bind) (Grows-trans (hm w) (hf a (m w).1))
    | inr (e, h) ↦ rw (h, bind) (hm w)
  ]

-- `bind` goes on with the result of the first operation, or stops with its error.
pub bind_cases :
    {L A B : Type 0} (m : Act L A) (f : A → Act L B) (w : World L)
    → ((a : A) × ((m w).0 ≡ ok a) × (bind m f w ≡ f a (m w).1))
      ⊎ ((e : Error) × ((m w).0 ≡ raise e) × (bind m f w ≡ (raise e, (m w).1)))
unfolding bind
bind_cases m f w = elim (Result-cases (m w).0) [
  | inl (a, h) ↦ inl (a, h, rw (h, bind) refl)
  | inr (e, h) ↦ inr (e, h, rw (h, bind) refl)
]

-- The one entry that a call adds to the log, with the result of the call.
abbrev pub Answered : {L : Type 0} → Call → List Entry → Result Json × World L → Type 0
Answered c old (r, w) =
    (e : Entry) × (w.sent ≡ e ∷ old)
    × (e.0.method ≡ c.method)
    × (r ≡ handle c.envelope c.parse_json e.1)

parse_sent :
    {L A : Type 0} (model : Json → Option A) (body : Json) (w : World L)
    → (parse model body w).1.sent ≡ w.sent
unfolding parse
parse_sent model body w = ground arith

pub parse-Reads :
    {L A : Type 0} (model : Json → Option A) (body : Json)
    → Reads {L = L} {A = A} (parse model body)
parse-Reads model body w = Grows-refl (parse_sent model body w)

module _ {L : Type 0} (env : Env L) where
  -- An exchange sends nothing and raises, or sends one request and gives what its reply stands for.
  pub exchange_cases :
      (c : Call) (w : World L)
      → ((exchange env c w).1.sent ≡ w.sent) ⊎ Answered c w.sent (exchange env c w)
  unfolding exchange send
  exchange_cases c w = elim (Bool-cases c.signed) [
    | inl signed ↦ elim (Option-cases env.api_secret) [
      | inl missing ↦ inl (rw (signed, exchange, missing) refl)
      | inr (secret, h) ↦ inr (rw (signed, exchange, h) (_, refl, refl, refl))
    ]
    | inr unsigned ↦ inr (rw (unsigned, exchange) (_, refl, refl, refl))
  ]

  send-Grows :
      (old : List Entry) (c : Call) (params : Params)
      → c.method ≡ "GET"
      → Carries c params
      → Keeps (λ l log. Grows IsGet old log) (send env c params)
  unfolding send
  send-Grows old c params get carries w g = Grows-trans g (_ ∷ [], refl, (get, tt))

  pub sync_time-Reads : Reads (sync_time env)
  sync_time-Reads w =
      sync_time-Keeps env (λ l log. Grows IsGet w.sent log) (λ c. c.method ≡ "GET") refl
        (send-Grows w.sent) w (Grows-refl refl)

  -- A GET call sends GET requests only, whatever its retries and its syncs of the clock.
  pub request-Reads : (c : Call) → c.method ≡ "GET" → Reads (request env c)
  request-Reads c get w =
      request-Keeps env (λ l log. Grows IsGet w.sent log) (λ c. c.method ≡ "GET") refl
        (send-Grows w.sent) c get w (Grows-refl refl)
