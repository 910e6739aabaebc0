-- ===== src/Signing/Tests.antt =====
-- Signing of binance_th/signing.py on a small request.
use Prim.Native.String.{◌++◌}
use text.Mathlib.TextEquality.{eq_iff}
use binance_th.Prelude.{String, ◌≡◌, refl, some, [], ◌∷◌, arith, inr}
use binance_th.Prelude.Int.{pos}
use binance_th.Prelude.Text.{String-discrete}
use binance_th.Prelude.Dict.{lookup, insert}
use binance_th.Signing.{
  Params, build_query, signed_params, signed_params_verify, signed_params-lookup,
}

abbrev params : Params
params = ("symbol", "BTCUSDT") ∷ ("signature", "forged") ∷ ("recvWindow", "9") ∷ []

-- A stand-in for the digest.
abbrev digest : String → String → String
digest secret payload = secret ++ payload

signed_params_verify_example :
    lookup String-discrete "signature"
      (signed_params digest "key" params (pos 170) (some (pos 5000)))
    ≡ some
        (digest "key" (build_query (signed_params digest "key" params (pos 170) (some (pos 5000)))))
signed_params_verify_example = signed_params_verify digest "key" params (pos 170) (some (pos 5000))

signed_params-lookup_sample :
    lookup String-discrete "recvWindow"
      (signed_params digest "key" params (pos 170) (some (pos 5000)))
    ≡ lookup String-discrete "recvWindow" params
unfolding String-discrete lookup
signed_params-lookup_sample =
    signed_params-lookup digest "key" params (pos 170) (some (pos 5000)) "recvWindow"
      (λ e. ground (arith, eq_iff "recvWindow" "timestamp"))
      (λ e. ground (arith, eq_iff "recvWindow" "signature")) (inr refl)

signed_params_runs :
    build_query (signed_params digest "key" params (pos 170) (some (pos 5000)))
    ≡ "symbol=BTCUSDT&recvWindow=9&timestamp=170"
unfolding signed_params build_query insert lookup String-discrete
signed_params_runs = refl
