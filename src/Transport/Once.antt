-- ===== src/Transport/Once.antt =====
-- What a mutating request of binance_th/transport.py sends.
use mathlib.Core.List.{append_assoc}
use binance_th.Prelude.{
  ◌≡◌, ◌≢◌, refl, ◌⊎◌, inl, inr, Bool, true, false, List, [], ◌∷◌, ◌++◌, ◌&&◌, not, ap, sym, ◌∙◌,
  All, All-append, Bool-cases, arith,
}
use binance_th.Prelude.Json.{Json}
use binance_th.Errors.Exceptions.{Error, Result}
use binance_th.Retry.{run-never}
use binance_th.Transport.Reply.{handle, is_timestamp_error, is_retryable}
use binance_th.Transport.Pipeline.{
  Call, Entry, World, Env, exchange, sync_time, execute, attempt, request, sleep, can_sign,
}
use binance_th.Transport.Sent.{
  Grows, Grows-refl, Grows-trans, IsGet, Answered, exchange_cases, bind_cases, sync_time-Reads,
}

-- An entry of another method, or whose reply refuses the request's timestamp, code -1021.
abbrev pub Refused : Call → Entry → Type 0
Refused c e =
    (e.0.method ≢ c.method) ⊎ (is_timestamp_error (handle c.envelope c.parse_json e.1) ≡ true)

-- Of the entries with the call's method, all but the latest are refused.
abbrev pub Once : Call → List Entry → Type 0
Once c [] = Unit
Once c (e ∷ es) = All (Refused c) es ⊎ ((e.0.method ≢ c.method) × Once c es)

-- The second log is the first with more entries, of which that holds.
abbrev pub SentOnce : Call → List Entry → List Entry → Type 0
SentOnce c old log = (new : List Entry) × (log ≡ new ++ old) × Once c new

All-map :
    {P Q : Entry → Type 0} → ((e : Entry) → P e → Q e) → (es : List Entry) → All P es → All Q es
All-map f [] h = tt
All-map f (x ∷ xs) h = (f x h.0, All-map f xs h.1)

Grows-map :
    {P Q : Entry → Type 0} {old log : List Entry}
    → ((e : Entry) → P e → Q e)
    → Grows P old log
    → Grows Q old log
Grows-map f (new, e, h) = (new, e, All-map f new h)

never_retried : (mutating : Bool) (e : Error) → mutating ≡ true → is_retryable mutating e ≡ false
unfolding is_retryable
never_retried mutating e h = ground arith

Refused-Once : (c : Call) (es : List Entry) → All (Refused c) es → Once c es
Refused-Once c [] h = tt
Refused-Once c (e ∷ es) h = inl h.1

Grows-SentOnce : (c : Call) (old log : List Entry) → Grows (Refused c) old log → SentOnce c old log
Grows-SentOnce c old log (new, e, h) = (new, e, Refused-Once c new h)

Once-append : (c : Call) (xs ys : List Entry) → Once c xs → All (Refused c) ys → Once c (xs ++ ys)
Once-append c [] ys h k = Refused-Once c ys k
Once-append c (x ∷ xs) ys (inl h) k = inl (All-append (Refused c) xs ys h k)
Once-append c (x ∷ xs) ys (inr (ne, h)) k = inr (ne, Once-append c xs ys h k)

append-Once :
    (c : Call) (xs ys : List Entry)
    → All (λ e. e.0.method ≢ c.method) xs
    → Once c ys
    → Once c (xs ++ ys)
append-Once c [] ys h k = k
append-Once c (x ∷ xs) ys h k = inr (h.0, append-Once c xs ys h.1 k)

module _ (c : Call) (writes : c.method ≢ "GET") where
  get-differs : (e : Entry) → IsGet e → e.0.method ≢ c.method
  get-differs e get = λ same. writes (sym same ∙ get)

  -- Reads before and after a call that sends once change nothing in that.
  pub SentOnce-before : {a b d : List Entry} → Grows IsGet a b → SentOnce c b d → SentOnce c a d
  SentOnce-before {a = a} (n, e, gets) (m, f, once) = (
    m ++ n,
    f ∙ ap (λ l. m ++ l) e ∙ sym (append_assoc m n a),
    Once-append c m n once (All-map (λ x g. inl (get-differs x g)) n gets),
  )

  pub SentOnce-after : {a b d : List Entry} → SentOnce c a b → Grows IsGet b d → SentOnce c a d
  SentOnce-after {a = a} (n, e, once) (m, f, gets) = (
    m ++ n,
    f ∙ ap (λ l. m ++ l) e ∙ sym (append_assoc m n a),
    append-Once c m n (All-map get-differs m gets) once,
  )

second_true : (a b : Bool) → (a && b) ≡ true → b ≡ true
second_true a b h = ground arith

module _ {L : Type 0} (env : Env L) (c : Call) (writes : c.method ≢ "GET") where
  get-Refused : (e : Entry) → IsGet e → Refused c e
  get-Refused e get = inl (λ same. writes (sym same ∙ get))

  Answered-SentOnce :
      (old mid : List Entry) (r : Result Json × World L)
      → Grows (Refused c) old mid
      → Answered c mid r
      → SentOnce c old r.1.sent
  Answered-SentOnce old mid r (new, grown, refused) (e, more, method, result) =
      (e ∷ new, more ∙ ap (λ l. e ∷ l) grown, inl refused)

  Answered-Grows :
      (mid : List Entry) (r : Result Json × World L)
      → is_timestamp_error r.0 ≡ true
      → Answered c mid r
      → Grows (Refused c) mid r.1.sent
  Answered-Grows mid r late (e, more, method, result) =
      (e ∷ [], more, (inr (ap is_timestamp_error (sym result) ∙ late), tt))

  -- `_execute` sends a sync of the clock at most, and then the request itself at most.
  execute_cases :
      (w : World L)
      → Grows (Refused c) w.sent (execute env c w).1.sent
        ⊎ ((mid : List Entry) × Grows (Refused c) w.sent mid × Answered c mid (execute env c w))
  unfolding execute
  execute_cases w = elim (Bool-cases (c.signed && not w.timesync.synced)) [
    | inl unsynced ↦
        let synced = Grows-map get-Refused (sync_time-Reads env w) in
        elim (bind_cases (sync_time env) (λ t. exchange env c) w) [
          | inl (t, done, h) ↦ elim (exchange_cases env c (sync_time env w).1) [
            | inl same ↦ inl (rw (unsynced, execute, h) (Grows-trans synced (Grows-refl same)))
            | inr answered ↦ inr (_, synced, rw (unsynced, execute, h) answered)
          ]
          | inr (e, failed, h) ↦ inl (rw (unsynced, execute, h) synced)
        ]
    | inr ready ↦ elim (exchange_cases env c w) [
      | inl same ↦ inl (rw (ready, execute) (Grows-refl same))
      | inr answered ↦ inr (w.sent, Grows-refl refl, rw (ready, execute) answered)
    ]
  ]

  execute-SentOnce :
      (old : List Entry) (w : World L)
      → Grows (Refused c) old w.sent
      → SentOnce c old (execute env c w).1.sent
  execute-SentOnce old w so_far = elim (execute_cases w) [
    | inl more ↦ Grows-SentOnce c old _ (Grows-trans so_far more)
    | inr (mid, more, answered) ↦
        Answered-SentOnce old mid (execute env c w) (Grows-trans so_far more) answered
  ]

  execute-Refused :
      (w : World L)
      → is_timestamp_error (execute env c w).0 ≡ true
      → Grows (Refused c) w.sent (execute env c w).1.sent
  execute-Refused w late = elim (execute_cases w) [
    | inl more ↦ more
    | inr (mid, more, answered) ↦
        Grows-trans more (Answered-Grows mid (execute env c w) late answered)
  ]

  attempt-SentOnce : (w : World L) → SentOnce c w.sent (attempt env c w).1.sent
  unfolding attempt
  attempt-SentOnce w = elim (Bool-cases (c.signed && is_timestamp_error (execute env c w).0)) [
    | inl late ↦
        let w' = (execute env c w).1 in
        let so_far =
          Grows-trans (execute-Refused w (second_true c.signed _ late))
            (Grows-map get-Refused (sync_time-Reads env w')) in
        elim (bind_cases (sync_time env) (λ t. execute env c) w') [
          | inl (t, done, h) ↦
              rw (late, attempt, h) (execute-SentOnce w.sent (sync_time env w').1 so_far)
          | inr (e, failed, h) ↦ rw (late, attempt, h) (Grows-SentOnce c w.sent _ so_far)
        ]
    | inr other ↦ rw (other, attempt) (execute-SentOnce w.sent w (Grows-refl refl))
  ]

  -- Of the requests with its method that a mutating call sends, where the method is not GET, all
  -- but the latest were answered with code -1021, whatever the exchange, the network and the clock
  -- do.
  pub request-SentOnce :
      (w : World L) → c.mutating ≡ true → SentOnce c w.sent (request env c w).1.sent
  unfolding request
  request-SentOnce w mutating = elim (Bool-cases (c.signed && not (can_sign env))) [
    | inl barred ↦ rw (barred, request) ([], refl, tt)
    | inr free ↦
        rw
          (
            free,
            request,
            run-never env.backoff (sleep env) (attempt env c) (is_retryable c.mutating)
                env.max_retries w (λ e. never_retried c.mutating e mutating),
          )
          (attempt-SentOnce w)
  ]
