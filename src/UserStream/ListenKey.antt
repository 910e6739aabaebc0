-- ===== src/UserStream/ListenKey.antt =====
-- `RestListenKeyManager` of binance_th/listenkey.py for one caller: the keys, and the requests that
-- make, extend and release them. The model `ListenKey` is parsed by pydantic and is a parameter.
use binance_th.Prelude.{
  ℕ, String, Bool, true, false, not, ◌&&◌, ◌||◌, Option, none, some, List, [], ◌∷◌, if◌then◌else◌,
  is_some,
}
use binance_th.Prelude.Json.{Json, Items, nil, item, Fields, object, array}
use binance_th.Prelude.Dict.{Dict, lookup, insert, values}
use binance_th.Errors.Exceptions.{Error, auth_error, foreign, Result, ok, raise}
use binance_th.Models.Enums.{SymbolType, SymbolType-discrete}
use binance_th.Transport.Pipeline.{Call, World, Env, request}
pub mod Keys
pub mod Flight

-- The keys, whether the keepalive task exists, and `_closing`.
pub record Manager : Type 0 where
  pub keys : Dict SymbolType String
  pub keepalive_task : Bool
  pub closing : Bool

abbrev pub new_manager : Manager
new_manager = record { keys = []; keepalive_task = false; closing = false }

abbrev pub key_for : SymbolType → Manager → Option String
key_for t m = lookup SymbolType-discrete t m.keys

abbrev pub listen_key_call : String → List (String × String) → Call
listen_key_call method params = record {
  method = method;
  path = "/api/v1/listenKey";
  params = params;
  signed = false;
  api_key_only = true;
  envelope = false;
  weight = 1;
  mutating = false;
  parse_json = true;
}

abbrev items_of : Items → List Json
items_of nil = []
items_of (item j is) = j ∷ items_of is

-- `raw if isinstance(raw, list) else [raw]`
abbrev pub entries : Json → List Json
entries (array is) = items_of is
entries raw = raw ∷ []

module _ (listen_key_of : Fields → Option (String × SymbolType)) where
  -- The loop over the entries: what is no dict is passed over, and a later key of a type replaces
  -- an earlier one.
  unfoldable pub keys_of : Dict SymbolType String → List Json → Result (Dict SymbolType String)
  keys_of d [] = ok d
  keys_of d (object f ∷ es) = elim (listen_key_of f) [
    | none ↦ raise (foreign "ValidationError")
    | some k ↦ keys_of (insert SymbolType-discrete k.1 k.0 d) es
  ]
  keys_of d (_ ∷ es) = keys_of d es

  abbrev pub adopt : Manager → Result (Dict SymbolType String) → Result (Unit {0}) × Manager
  adopt m (raise e) = (raise e, m)
  adopt m (ok d) =
      (ok tt, record m { keys = d; keepalive_task = m.keepalive_task || not m.closing })

  abbrev pub adopt_body : Manager → Result Json → Result (Unit {0}) × Manager
  adopt_body m (raise e) = (raise e, m)
  adopt_body m (ok raw) = adopt m (keys_of [] (entries raw))

module _ {L : Type 0} (env : Env L) where
  -- `_do_create`
  unfoldable pub do_create :
      (Fields → Option (String × SymbolType))
      → Manager
      → World L
      → (Result (Unit {0}) × Manager) × World L
  do_create listen_key_of m w =
      if not (is_some env.api_key)
      then ((raise (auth_error "API key required for the user-data stream"), m), w)
      else (
        adopt_body listen_key_of m (request env (listen_key_call "POST" []) w).0,
        (request env (listen_key_call "POST" []) w).1,
      )

  abbrev pub key_call : String → String → Call
  key_call method key = listen_key_call method (("listenKey", key) ∷ [])

  -- One request for each key; what a request raises is suppressed.
  unfoldable pub for_keys : String → List String → World L → World L
  unfolding request
  for_keys method [] w = w
  for_keys method (k ∷ ks) w = for_keys method ks (request env (key_call method k) w).1

  unfoldable pub keepalive : Manager → World L → World L
  unfolding for_keys
  keepalive m w = for_keys "PUT" (values m.keys) w

  unfoldable pub close : Manager → World L → Manager × World L
  unfolding for_keys
  close m w = (
    record m { closing = true; keepalive_task = false; keys = [] },
    for_keys "DELETE" (values m.keys) w,
  )
