-- ===== src/Stream/Router.antt =====
-- `StreamRouter` of binance_th/stream.py: which host serves a symbol, and the names of streams.
use Prim.Native.Char.{Char, code}
use Prim.Native.Nat.{Ordering}
use Prim.Native.String as S
use Prim.Native.String.{◌++◌ as ◌+++◌}
use binance_th.Prelude.{
  ℕ, suc, String, Bool, true, false, Option, none, some, List, [], ◌∷◌, ite, if◌then◌else◌, ◌==◌,
  or_else,
}
use binance_th.Prelude.Text.{String-discrete}
use binance_th.Prelude.Show.{join}
use binance_th.Prelude.Dict.{Dict, lookup, insert}
use binance_th.Errors.Exceptions.{Result, ok, raise}
use binance_th.Models.Enums.{SymbolType, global, site, symbol_type_value, symbol_types, of_value}
use binance_th.Stream.Connection.{WsConfig}

-- The character that stands in the second text where `c` stands in the first.
swap_char : String → String → Char → Char
swap_char (S.◌∷◌ a t) (S.◌∷◌ b u) c = if code a == code c then b else swap_char t u c
swap_char _ _ c = c

-- `str.upper` and `str.lower` on ASCII.
unfoldable pub upper_text : String → String
unfolding swap_char
upper_text S.[] = S.[]
upper_text (S.◌∷◌ c s) =
    S.◌∷◌ (swap_char "abcdefghijklmnopqrstuvwxyz" "ABCDEFGHIJKLMNOPQRSTUVWXYZ" c) (upper_text s)

unfoldable pub lower_text : String → String
unfolding swap_char
lower_text S.[] = S.[]
lower_text (S.◌∷◌ c s) =
    S.◌∷◌ (swap_char "ABCDEFGHIJKLMNOPQRSTUVWXYZ" "abcdefghijklmnopqrstuvwxyz" c) (lower_text s)

-- An item of the answer to `GET /api/v1/symbolType`.
pub record SymbolTypeInfo : Type 0 where
  pub symbol : String
  pub symbol_type : String

-- The type cache, and how often the provider has been called.
pub record Router : Type 0 where
  pub type_cache : Dict String SymbolType
  pub calls : ℕ

-- `next((i for i in infos if i.symbol.upper() == key), infos[0] if infos else None)`
unfoldable pub match_in :
    String → List SymbolTypeInfo → Option SymbolTypeInfo → Option SymbolTypeInfo
match_in key [] default = default
match_in key (i ∷ is) default =
    ite (String-discrete (upper_text i.symbol) key) (some i) (match_in key is default)

abbrev first_of : List SymbolTypeInfo → Option SymbolTypeInfo
first_of [] = none
first_of (i ∷ is) = some i

-- `SymbolType(match.symbol_type)`, and `SITE` where there is no match or that raises.
abbrev type_of : Option SymbolTypeInfo → SymbolType
type_of none = site
type_of (some i) = or_else (of_value symbol_type_value symbol_types i.symbol_type) site

unfoldable pub classify : String → List SymbolTypeInfo → SymbolType
unfolding match_in
classify key infos = type_of (match_in key infos (first_of infos))

-- The provider's answer to its n-th call.
module _ (config : WsConfig) (symbol_types_of : ℕ → String → Result (List SymbolTypeInfo)) where
  -- `_resolve_type`
  unfoldable pub resolve_type : String → Router → Result SymbolType × Router
  unfolding classify
  resolve_type symbol r =
      let key = upper_text symbol in
      let called : Router = record r { calls = suc r.calls } in
      elim (lookup String-discrete key r.type_cache) [
        | some t ↦ (ok t, r)
        | none ↦ elim (symbol_types_of r.calls symbol) [
          | raise e ↦ (raise e, called)
          | ok infos ↦
              let t = classify key infos in
              (ok t, record called { type_cache = insert String-discrete key t r.type_cache })
        ]
      ]

  abbrev pub host_of : SymbolType → String
  host_of global = config.ws_base_url_global
  host_of site = config.ws_base_url_site

  unfoldable pub host_for : String → Router → Result String × Router
  unfolding resolve_type
  host_for symbol r = elim (resolve_type symbol r).0 [
    | ok t ↦ (ok (host_of t), (resolve_type symbol r).1)
    | raise e ↦ (raise e, (resolve_type symbol r).1)
  ]

-- `f"{symbol.lower()}@{suffix}"`
unfoldable pub stream_name : String → String → Option String → String
stream_name symbol channel none = lower_text symbol +++ ("@" +++ channel)
stream_name symbol channel (some interval) =
    lower_text symbol +++ ("@" +++ (channel +++ ("_" +++ interval)))

abbrev text_lt : String → String → Bool
text_lt s t = elim (S.compare s t) [ Ordering.lt ↦ true | _ ↦ false ]

-- `sorted` of texts.
unfoldable pub sort_in : String → List String → List String
sort_in s [] = s ∷ []
sort_in s (t ∷ ts) = let rest = sort_in s ts in if text_lt t s then t ∷ rest else s ∷ t ∷ ts

unfoldable pub sorted : List String → List String
unfolding sort_in
sorted [] = []
sorted (s ∷ ss) = sort_in s (sorted ss)

unfoldable pub combined_url : String → List String → String
unfolding sorted
combined_url host streams = host +++ ("?streams=" +++ join "/" (sorted streams))
