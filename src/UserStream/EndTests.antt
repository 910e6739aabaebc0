-- ===== src/UserStream/EndTests.antt =====
-- A `UserDataStream` of binance_th/userstream.py that is started and closed, and callers of `create`
-- of binance_th/listenkey.py that come one after another.
use binance_th.Prelude.{
  String, ◌≡◌, ◌≤◌, refl, inl, inr, Option, none, some, List, [], ◌∷◌, length, All, ℕ_discrete,
}
use binance_th.Prelude.Json.{Fields, object, array, item, nil, end}
use binance_th.Prelude.Dict.{lookup}
use binance_th.Errors.Exceptions.{ok}
use binance_th.Models.Enums.{SymbolType, global}
use binance_th.Transport.Pipeline.{World, Env, request}
use binance_th.Errors.Mapping.{raise_for_http_status}
use binance_th.Transport.Reply.{handle}
use binance_th.UserStream.ListenKey.{keys_of}
use binance_th.Transport.Sample.{sample_env, sample_world, answer}
use binance_th.Stream.Subscription.{new_subscription}
use binance_th.UserStream.ListenKey.Flight.{Move, create, ends, resumes, idle, run, single_flight}
use binance_th.UserStream.Lifecycle.{
  UserData, new_user_data, open_connections, close_user_data, create_keys, tear_down, watch,
  IsTornDown,
}
use binance_th.UserStream.Ended.{close_user_data_done, watch_after_close, late_keys_kept}

-- Two callers share a task; a third comes after it.
abbrev calls : List Move
calls = create ∷ create ∷ ends 0 ∷ resumes 0 ∷ create ∷ []

single_flight_example : length (run calls idle).running ≤ 1
unfolding run
single_flight_example = single_flight calls (inl refl, (inr refl, (inl refl, tt)))

-- The exchange gives one key, which is taken for a global one.
abbrev env : Env (Unit {0})
env = sample_env (λ j. none) (λ j. none) (λ log request. answer 200 (array (item (object end) nil)))

abbrev first_key : Fields → Option (String × SymbolType)
first_key fs = some ("abc", global)

abbrev begun : UserData
unfolding watch
begun = (watch env first_key "executionReport" new_user_data sample_world).0.1

close_user_data_done_sample :
    All IsTornDown (close_user_data env begun sample_world).0.torn_down
    × ((close_user_data env begun sample_world).0.conns ≡ [])
    × ((close_user_data env begun sample_world).0.hub.subs ≡ [])
    × ((close_user_data env begun sample_world).0.keys.keys ≡ [])
    × ((later : World (Unit {0}))
        → close_user_data env (close_user_data env begun sample_world).0 later
          ≡ ((close_user_data env begun sample_world).0, later))
unfolding watch request handle raise_for_http_status keys_of
close_user_data_done_sample = close_user_data_done env begun sample_world refl tt

abbrev over : UserData
unfolding tear_down watch
over = tear_down begun

abbrev shut : UserData
unfolding watch
shut = (close_user_data env begun sample_world).0

watch_after_close_example :
    let watched = watch env first_key "balanceUpdate" shut sample_world in
    (watched.0.0 ≡ ok shut.hub.created)
    × (watched.1 ≡ sample_world)
    × (watched.0.1.conns ≡ [])
    × (lookup ℕ_discrete shut.hub.created watched.0.1.hub.store
        ≡ some (new_subscription "balanceUpdate"))
    × (close_user_data env watched.0.1 sample_world ≡ (watched.0.1, sample_world))
unfolding watch request handle raise_for_http_status keys_of
watch_after_close_example =
    watch_after_close env first_key "balanceUpdate" begun sample_world sample_world sample_world
      refl

late_keys_kept_sample :
    close_user_data env
      (open_connections (create_keys env first_key over sample_world).0.1)
      sample_world
    ≡ ((create_keys env first_key over sample_world).0.1, sample_world)
unfolding tear_down over
late_keys_kept_sample = late_keys_kept env first_key over sample_world sample_world refl
