-- ===== src/Stream/Frames.antt =====
-- What one frame is to one subscriber of a `_Connection` of binance_th/stream.py.
use mathlib.Core.Option
use binance_th.Prelude.{
  ℕ, String, ◌≡◌, refl, sym, Option, none, some, [], if_pos, if_neg, ℕ_discrete,
}
use binance_th.Prelude.Text.{String-discrete}
use binance_th.Prelude.Json.{Json, null, bool, int, real, str, array, object, get}
use binance_th.Prelude.Dict.{lookup}
use binance_th.Errors.Exceptions.{foreign, ok, raise}
use binance_th.Stream.Queue.{offer_all}
use binance_th.Stream.Subscription.{Store, payload, offer, update_all, lookup-update_all}
use binance_th.Stream.Connection.{Connection, entry, deliver, dispatch}
use binance_th.Stream.Listed.{addressed_to, addressed, hear, IsListed}
use binance_th.Stream.Attached.{hear_nothing}

-- A delivered frame reaches a subscriber when it names its stream.
pub deliver-hear :
    (j : ℕ) (s r : String) (body : Json) (c : Connection)
    → IsListed j s c.subs
    → lookup ℕ_discrete j (update_all (entry r c.subs) (offer (payload body)) c.store)
      ≡ Option.map (hear (addressed_to s (some (str r)) (some body))) (lookup ℕ_discrete j c.store)
unfolding hear offer_all offer
deliver-hear j s r body c h =
    rw (lookup-update_all (entry r c.subs) j (offer (payload body)) c.store, h r)
      (elim (String-discrete s r) [
        | yes p ↦ rw (if_pos (String-discrete s r) p, if_pos (String-discrete s r) p) refl
        | no n ↦
            rw (if_neg (String-discrete s r) n, if_neg (String-discrete s r) n)
              (sym (hear_nothing (lookup ℕ_discrete j c.store)))
      ])

-- A frame either ends the session and is for no subscriber, or changes the store alone.
pub data FrameCase (j : ℕ) (s : String) (f : Option Json) (c : Connection) : Type 0 where
  unhashable : dispatch f c ≡ raise (foreign "TypeError") → addressed s f ≡ [] → FrameCase j s f c
  delivered :
      (store : Store)
      → dispatch f c ≡ ok (record c { store = store })
      → lookup ℕ_discrete j store ≡ Option.map (hear (addressed s f)) (lookup ℕ_discrete j c.store)
      → FrameCase j s f c

pub skipped-FrameCase :
    (j : ℕ) (s : String) (f : Option Json) (c : Connection)
    → dispatch f c ≡ ok c
    → addressed s f ≡ []
    → FrameCase j s f c
skipped-FrameCase j s f c e a =
    delivered c.store e (rw a (sym (hear_nothing (lookup ℕ_discrete j c.store))))

pub deliver-FrameCase :
    (j : ℕ) (s : String) (f : Option Json) (name body : Option Json) (c : Connection)
    → dispatch f c ≡ deliver name body c
    → addressed s f ≡ addressed_to s name body
    → IsListed j s c.subs
    → FrameCase j s f c
unfolding update_all
deliver-FrameCase j s f none body c e a h = skipped-FrameCase j s f c e a
deliver-FrameCase j s f (some (str r)) none c e a h = skipped-FrameCase j s f c e a
deliver-FrameCase j s f (some null) none c e a h = skipped-FrameCase j s f c e a
deliver-FrameCase j s f (some (bool t)) none c e a h = skipped-FrameCase j s f c e a
deliver-FrameCase j s f (some (int n)) none c e a h = skipped-FrameCase j s f c e a
deliver-FrameCase j s f (some (real t)) none c e a h = skipped-FrameCase j s f c e a
deliver-FrameCase j s f (some (array is)) none c e a h = skipped-FrameCase j s f c e a
deliver-FrameCase j s f (some (object g)) none c e a h = skipped-FrameCase j s f c e a
deliver-FrameCase j s f (some null) (some b) c e a h = skipped-FrameCase j s f c e a
deliver-FrameCase j s f (some (bool t)) (some b) c e a h = skipped-FrameCase j s f c e a
deliver-FrameCase j s f (some (int n)) (some b) c e a h = skipped-FrameCase j s f c e a
deliver-FrameCase j s f (some (real t)) (some b) c e a h = skipped-FrameCase j s f c e a
deliver-FrameCase j s f (some (array is)) (some b) c e a h = unhashable e a
deliver-FrameCase j s f (some (object g)) (some b) c e a h = unhashable e a
deliver-FrameCase j s f (some (str r)) (some b) c e a h =
    delivered (update_all (entry r c.subs) (offer (payload b)) c.store) e
      (rw a (deliver-hear j s r b c h))

pub dispatch-FrameCase :
    (j : ℕ) (s : String) (f : Option Json) (c : Connection)
    → IsListed j s c.subs
    → FrameCase j s f c
unfolding dispatch
dispatch-FrameCase j s none c h = skipped-FrameCase j s none c refl refl
dispatch-FrameCase j s (some null) c h = skipped-FrameCase j s (some null) c refl refl
dispatch-FrameCase j s (some (bool t)) c h = skipped-FrameCase j s (some (bool t)) c refl refl
dispatch-FrameCase j s (some (int n)) c h = skipped-FrameCase j s (some (int n)) c refl refl
dispatch-FrameCase j s (some (real t)) c h = skipped-FrameCase j s (some (real t)) c refl refl
dispatch-FrameCase j s (some (str t)) c h = skipped-FrameCase j s (some (str t)) c refl refl
dispatch-FrameCase j s (some (array is)) c h = skipped-FrameCase j s (some (array is)) c refl refl
dispatch-FrameCase j s (some (object g)) c h =
    deliver-FrameCase j s (some (object g)) (get "stream" g) (get "data" g) c refl refl h
