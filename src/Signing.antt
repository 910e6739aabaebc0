-- ===== src/Signing.antt =====
-- binance_th/signing.py. `hmac secret payload` is the lowercase hex digest of HMAC-SHA256, which is
-- Python's own.
use Prim.Native.String.{◌++◌}
use mathlib.Core.Option
use binance_th.Prelude.{
  String, ◌≡◌, ◌≢◌, ◌⊎◌, inl, inr, Bool-cases, refl, Bool, true, false, Option, none, some, List,
  [], ◌∷◌, map, ite, if_pos, if_neg, is_some, if◌then◌else◌, arith, ap, sym, ◌∙◌,
}
use binance_th.Prelude.Int.{ℤ}
use binance_th.Prelude.Text.{String-discrete}
use binance_th.Prelude.Dict.{Dict, lookup, insert, lookup-insert}
use binance_th.Prelude.Show.{show_ℤ, join}
mod Tests

abbrev pub Params : Type 0
Params = Dict String String

-- The items without a `signature` key.
unfoldable pub unsigned : Params → Params
unsigned [] = []
unsigned ((k, v) ∷ ps) = ite (String-discrete k "signature") (unsigned ps) ((k, v) ∷ unsigned ps)

unfoldable pub build_query : Params → String
unfolding unsigned join
build_query ps = join "&" (map (λ (k, v). k ++ ("=" ++ v)) (unsigned ps))

-- `ordered` after the optional `recvWindow`.
unfoldable pub with_recv_window : Option ℤ → Params → Params
unfolding show_ℤ
with_recv_window none ps = ps
with_recv_window (some w) ps =
    if is_some (lookup String-discrete "recvWindow" ps)
    then ps
    else insert String-discrete "recvWindow" (show_ℤ w) ps

module _ (hmac : String → String → String) where
  -- `Signer.signed_params`
  unfoldable pub signed_params : String → Params → ℤ → Option ℤ → Params
  unfolding with_recv_window build_query show_ℤ
  signed_params secret params timestamp recv_window =
      let ordered =
        insert String-discrete "timestamp" (show_ℤ timestamp)
          (with_recv_window recv_window params) in
      insert String-discrete "signature" (hmac secret (build_query ordered)) ordered

unsigned-insert :
    (v : String) (ps : Params) → unsigned (insert String-discrete "signature" v ps) ≡ unsigned ps
unfolding unsigned insert
unsigned-insert v [] = rw (if_pos (String-discrete "signature" "signature") refl)
unsigned-insert v ((k, w) ∷ ps) = elim (String-discrete k "signature") [
  | yes q ↦ ground (arith, q)
  | no q ↦ ground (arith, q, unsigned-insert v ps)
]

-- The signature that is sent is the digest of the query text of exactly the parameters that are
-- sent, the signature left out, also where the caller passed a `signature`.
pub signed_params_verify :
    (hmac : String → String → String) (secret : String) (ps : Params) (timestamp : ℤ)
    (window : Option ℤ)
    → let sent = signed_params hmac secret ps timestamp window in
      lookup String-discrete "signature" sent ≡ some (hmac secret (build_query sent))
unfolding signed_params build_query
signed_params_verify hmac secret ps timestamp window =
    let ordered =
      insert String-discrete "timestamp" (show_ℤ timestamp) (with_recv_window window ps) in
    ground (
      arith,
      lookup-insert String-discrete "signature" "signature" (hmac secret (build_query ordered))
          ordered,
      unsigned-insert (hmac secret (build_query ordered)) ordered,
    )

lookup-with_recv_window :
    (k : String) (ps : Params) (window : Option ℤ)
    → (k ≢ "recvWindow") ⊎ (is_some (lookup String-discrete k ps) ≡ true)
    → lookup String-discrete k (with_recv_window window ps) ≡ lookup String-discrete k ps
unfolding with_recv_window
lookup-with_recv_window k ps none h = refl
lookup-with_recv_window k ps (some w) h = elim (String-discrete k "recvWindow") [
  | yes same ↦ elim h [ inl ne ↦ absurd (ne same) | inr held ↦ ground (arith, same) ]
  | no ne ↦ ground (arith, lookup-insert String-discrete "recvWindow" k (show_ℤ w) ps, ne)
]

-- Signing changes no parameter of the caller but a `timestamp` or a `signature`, and a `recvWindow`
-- of the caller's own is kept.
pub signed_params-lookup :
    (hmac : String → String → String) (secret : String) (ps : Params) (timestamp : ℤ)
    (window : Option ℤ) (k : String)
    → k ≢ "timestamp"
    → k ≢ "signature"
    → (k ≢ "recvWindow") ⊎ (is_some (lookup String-discrete k ps) ≡ true)
    → lookup String-discrete k (signed_params hmac secret ps timestamp window)
      ≡ lookup String-discrete k ps
unfolding signed_params build_query
signed_params-lookup hmac secret ps timestamp window k nt ns h =
    let ordered =
      insert String-discrete "timestamp" (show_ℤ timestamp) (with_recv_window window ps) in
    ground (
      arith,
      lookup-insert String-discrete "signature" k (hmac secret (build_query ordered)) ordered,
      lookup-insert String-discrete "timestamp" k (show_ℤ timestamp) (with_recv_window window ps),
      lookup-with_recv_window k ps window h,
    )
