-- ===== src/UserStream/Expiry.antt =====
-- How `_UserDataConnection` of binance_th/userstream.py replaces a key, and when it gives up.
use Prim.Native.String.{◌++◌}
use binance_th.Prelude.{
  ℕ, String, ◌≡◌, refl, ap, ◌∙◌, Bool, true, false, some, [], ◌∷◌, arith, ℕ_discrete, if◌then◌else◌,
  if_pos,
}
use binance_th.Prelude.Text.{String-discrete}
use binance_th.Prelude.Json.{Fields, str, object, get}
use binance_th.Prelude.Dict.{lookup, values}
use binance_th.Errors.Exceptions.{web_socket_error}
use binance_th.Models.Enums.{SymbolType}
use binance_th.Stream.Subscription.{fault, times}
use binance_th.Stream.Reconnect.{total, lookup-for_each}
use binance_th.UserStream.Hub.{broadcast_reconnect, fault_all}
use binance_th.UserStream.Supervisor.{
  UserConnection, creating, reading, finished, is_expired, loop_head, key_created, connected,
  handle, session_over, frame_read, creates, connects, auth_fails, reads, step, run,
}

module _ (auto : Bool) (t : SymbolType) where
  expired-creating :
      (frame : Fields) (c : UserConnection)
      → c.place ≡ reading
      → c.closing ≡ false
      → is_expired (get "e" frame) ≡ true
      → let d : UserConnection = step auto t (reads (some (object frame))) c in
        (d.place ≡ creating)
        × (d.hub ≡ c.hub)
        × (d.planned ≡ false)
        × (d.first ≡ c.first)
        × (d.closing ≡ false)
  unfolding step frame_read handle session_over loop_head
  expired-creating frame c p o e = ground (arith, p, o, e)

  created-reading :
      (key : String) (c : UserConnection)
      → c.place ≡ creating
      → let d : UserConnection = step auto t connects (step auto t (creates (some key)) c) in
        (d.place ≡ reading)
        × (d.hub ≡ (if c.first then c.hub else broadcast_reconnect c.hub))
        × (d.planned ≡ c.planned)
  unfolding step key_created connected
  created-reading key c p = ground (arith, p)

  -- In a session after the first connect, a frame that says that the key has expired is an error
  -- for no subscriber, with automatic reconnects or without: when the keys are created and the
  -- socket is open again, the session goes on, and all that the subscribers have got of it is the
  -- reconnect sentinel for those of order reports.
  pub expired_key_replaced :
      (frame : Fields) (key : String) (c : UserConnection)
      → c.place ≡ reading
      → c.closing ≡ false
      → c.first ≡ false
      → get "e" frame ≡ some (str "listenKeyExpired")
      → let d : UserConnection =
          run auto t (reads (some (object frame)) ∷ creates (some key) ∷ connects ∷ []) c in
        (d.place ≡ reading) × (d.hub ≡ broadcast_reconnect c.hub) × (d.planned ≡ false)
  unfolding run
  expired_key_replaced frame key c p o f e =
      let expired : is_expired (get "e" frame) ≡ true =
        rw e (if_pos (String-discrete "listenKeyExpired" "listenKeyExpired") refl true false) in
      let d : UserConnection = step auto t (reads (some (object frame))) c in
      let x = expired-creating frame c p o expired in
      let y = created-reading key d x.0 in
      (
        y.0,
        y.1
            ∙ ap (λ b. if b then d.hub else broadcast_reconnect d.hub) (x.3 ∙ f)
            ∙ ap broadcast_reconnect x.1,
        y.2 ∙ x.2,
      )

  -- A refusal of the credentials while the keys are created is for good, with automatic reconnects
  -- or without: the supervisor returns, and each subscriber finds the error in its queue, as often
  -- as it stands in the table.
  pub auth_refused :
      (exc : String) (c : UserConnection) (j : ℕ)
      → c.place ≡ creating
      → ((step auto t (auth_fails exc) c).place ≡ finished)
        × (lookup ℕ_discrete j (step auto t (auth_fails exc) c).hub.store
            ≡ times
                (total j (values c.hub.subs))
                (fault (web_socket_error ("user-data auth failed: " ++ exc)))
                (lookup ℕ_discrete j c.hub.store))
  unfolding step fault_all
  auth_refused exc c j p = rw p (
    refl,
    lookup-for_each (fault (web_socket_error ("user-data auth failed: " ++ exc)))
        (values c.hub.subs) c.hub.store j,
  )
