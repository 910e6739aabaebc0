-- ===== src/Stream/Routing.antt =====
-- That `StreamClient` and `StreamRouter` of binance_th/stream.py hold one connection for each host.
use binance_th.Prelude.{
  ℕ, String, ◌≡◌, refl, ◌⊎◌, inl, inr, some, List, arith, Option-cases, if_pos,
}
use binance_th.Prelude.Text.{String-discrete}
use binance_th.Prelude.Dict.{Dict, lookup, lookup-insert}
use binance_th.Errors.Exceptions.{Result, ok, Result-cases}
use binance_th.Models.Enums.{SymbolType}
use binance_th.Stream.Connection.{WsConfig, Connection, new_connection}
use binance_th.Stream.Supervisor.{Move, run}
use binance_th.Stream.Router.{SymbolTypeInfo, Router, upper_text, classify, resolve_type}
use binance_th.Stream.Client.{Client}

module _ (config : WsConfig) (symbol_types_of : ℕ → String → Result (List SymbolTypeInfo)) where
  resolve_type_cached :
      (symbol : String) (r : Router) (t : SymbolType)
      → lookup String-discrete (upper_text symbol) r.type_cache ≡ some t
      → resolve_type config symbol_types_of symbol r ≡ (ok t, r)
  unfolding resolve_type
  resolve_type_cached symbol r t e = rw (resolve_type, e) refl

  -- A type that has been found is in the cache.
  cache-resolve_type :
      (symbol : String) (r : Router) (t : SymbolType)
      → (resolve_type config symbol_types_of symbol r).0 ≡ ok t
      → lookup String-discrete
          (upper_text symbol)
          (resolve_type config symbol_types_of symbol r).1.type_cache
        ≡ some t
  unfolding resolve_type
  cache-resolve_type symbol r t h =
      let key = upper_text symbol in
      elim (Option-cases (lookup String-discrete key r.type_cache)) [
        | inr (s, e) ↦ ground (arith, e, h)
        | inl missing ↦ elim (Result-cases (symbol_types_of r.calls symbol)) [
          | inl (infos, e) ↦
              let there = lookup-insert String-discrete key key (classify key infos) r.type_cache in
              let same =
                if_pos (String-discrete key key) refl (some (classify key infos))
                  (lookup String-discrete key r.type_cache) in
              ground (arith, missing, e, h, there, same)
          | inr (x, e) ↦ ground (arith, missing, e, h)
        ]
      ]

  -- Once the type of a symbol has been found, it is found again for every spelling with the same
  -- capital letters, with no call of the provider.
  pub resolve_type_twice :
      (symbol again : String) (r : Router) (t : SymbolType)
      → upper_text again ≡ upper_text symbol
      → (resolve_type config symbol_types_of symbol r).0 ≡ ok t
      → resolve_type config symbol_types_of again (resolve_type config symbol_types_of symbol r).1
        ≡ (ok t, (resolve_type config symbol_types_of symbol r).1)
  resolve_type_twice symbol again r t u h =
      resolve_type_cached again (resolve_type config symbol_types_of symbol r).1 t
        (rw u (cache-resolve_type symbol r t h))

  -- The host of a connection is one of the two, and moves of that connection have made it.
  abbrev pub IsOurs : String × Connection → Type 0
  IsOurs e =
      ((e.0 ≡ config.ws_base_url_global) ⊎ (e.0 ≡ config.ws_base_url_site))
      × ((ms : List Move) × (e.1 ≡ run config ms new_connection))
