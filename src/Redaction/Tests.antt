-- ===== src/Redaction/Tests.antt =====
-- The redaction of binance_th/redaction.py on a small body.
use mathlib.Core.Option
use binance_th.Prelude.{String, List, [], ◌∷◌, ◌≡◌, refl, Option, if◌then◌else◌, arith}
use binance_th.Prelude.Text.{codes}
use binance_th.Prelude.Json.{Fields, object, str, end, field, get}
use binance_th.Redaction.{
  is_sensitive, redacted, redact_value, redact_fields, MaskedFields, redact_fields-Masked,
  get-redact_fields, redact_fields_twice, redact_headers,
}
use binance_th.Redaction.Query.{redact_query, render, redact_query-render}

abbrev body : Fields
body = field "symbol" (str "BTCUSDT") (
    field "account" (object (field "listenKey" (str "abc") end))
      (field "Signature" (str "f00") end))

redact_fields-Masked_example : MaskedFields (redact_fields body)
redact_fields-Masked_example = redact_fields-Masked body

get-redact_fields_sample :
    get "Signature" (redact_fields body)
    ≡ Option.map
        (λ v. if is_sensitive "Signature" then redacted else redact_value v)
        (get "Signature" body)
get-redact_fields_sample = get-redact_fields "Signature" body

redact_fields_twice_sample : redact_fields (redact_fields body) ≡ redact_fields body
redact_fields_twice_sample = redact_fields_twice body

redact_runs :
    redact_fields body
    ≡ field "symbol"
        (str "BTCUSDT")
        (field "account" (object (field "listenKey" redacted end)) (field "Signature" redacted end))
unfolding redact_fields is_sensitive binance_th.Prelude.Text.lower binance_th.Prelude.Text.same
redact_runs = refl

abbrev params : List (String × String)
params = ("symbol", "BTCUSDT") ∷ ("Signature", "f00") ∷ ("limit", "5") ∷ []

redact_query-render_example : redact_query (render params) ≡ render (redact_headers params)
redact_query-render_example = redact_query-render params (
  ((refl, (refl, (refl, (refl, (refl, (refl, tt)))))), (omega arith)),
  (
    ((refl, (refl, (refl, (refl, (refl, (refl, (refl, (refl, (refl, tt))))))))), (omega arith)),
    (((refl, (refl, (refl, (refl, (refl, tt))))), (omega arith)), tt),
  ),
)

redact_query_runs :
    redact_query (codes "symbol=BTC&Token=a=b&my_token=c&secret=")
    ≡ codes "symbol=BTC&Token=***REDACTED***&my_token=c&secret=***REDACTED***"
unfolding redact_query
redact_query_runs = refl
